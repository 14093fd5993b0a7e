-- ===== src/Hosted/Trace.antt =====
-- webapp/hosted: the row of a job over any sequence of calls.
use se_skills.Prelude.{
  ℕ, ◌+◌, ◌≡◌, refl, String, Bool, true, Option, none, some, List, [], ◌∷◌, arith, Option-cases,
  inl, inr,
}
use se_skills.Json.{Json}
use se_skills.Hosted.Tables.{Uuid, Time, JobRow, Db, find}
use se_skills.Hosted.Queue.{Directory, JobRequest, queued_row, enqueue_job}
use se_skills.Hosted.Claim.{is_eligible, oldest, start_attempt, claim_next_job}
use se_skills.Hosted.Calls.{
  second, after, Call, enqueues, asks_cancellation, claims, recovers, by_holder, apply, run,
}
use se_skills.Hosted.Tracked.{Sound}
use se_skills.Hosted.Oldest.{Oldest, oldest-Oldest}
use se_skills.Hosted.Begin.{is_eligible-queued}
use se_skills.Hosted.Invariant.{apply-Sound}
use se_skills.Hosted.Rules.{enqueue_job-rule}
use se_skills.Hosted.Progress.{
  Stays, Stays-trans, Progress, live-Progress, queued-live, update_row-Progresses,
}
use se_skills.Hosted.Steps.{
  From, nothing_new, insert_job-Progresses, request_job_cancellation-Progresses,
  recover_expired_leases-Progresses, holder_call-Progresses,
}

enqueue_job-Progresses :
    (json_eq : Json → Json → Bool) (d : Directory) (id : Uuid) (now : Time) (r : JobRequest)
    (db : Db)
    → From db (after db (second (enqueue_job json_eq d id now r db)))
enqueue_job-Progresses json_eq d id now r db =
    enqueue_job-rule (From db) json_eq d id now r db (nothing_new db)
      λ org user _. insert_job-Progresses id (queued_row org user now r) db

start_attempt-Progress :
    (worker : String) (now until : Time) (j : JobRow)
    → is_eligible now j ≡ true
    → Progress j (start_attempt worker now until j)
unfolding start_attempt
start_attempt-Progress worker now until j eligible =
    live-Progress j (start_attempt worker now until j)
      (queued-live j.status (is_eligible-queued now j eligible)) refl (omega arith)

claim_next_job-Progresses :
    (locked : Uuid → Bool) (worker : String) (timeout_seconds : ℕ) (token : Uuid) (now : Time)
    (db : Db)
    → Sound db
    → From db (claim_next_job locked worker timeout_seconds token now db).1
unfolding claim_next_job
claim_next_job-Progresses locked worker timeout_seconds token now db s =
    elim (Option-cases (oldest locked now db.jobs)) [
      | inl idle ↦ rw (idle, claim_next_job) (nothing_new db)
      | inr ((id, j), chosen) ↦
          let o : Oldest locked now db.jobs id j =
            oldest-Oldest locked now db.jobs id j s.keyed chosen in
          rw (chosen, claim_next_job)
            (update_row-Progresses id (start_attempt worker now (now + timeout_seconds)) db.jobs j
              o.found (start_attempt-Progress worker now (now + timeout_seconds) j o.eligible))
    ]

pub apply-Progresses :
    (json_eq : Json → Json → Bool) (c : Time × Call) (db : Db)
    → Sound db
    → From db (apply json_eq c db)
unfolding apply
apply-Progresses json_eq (now, enqueues d id r) db s = enqueue_job-Progresses json_eq d id now r db
apply-Progresses json_eq (now, asks_cancellation d id) db s =
    request_job_cancellation-Progresses d id now db
apply-Progresses json_eq (now, claims locked worker seconds token) db s =
    claim_next_job-Progresses locked worker seconds token now db s
apply-Progresses json_eq (now, recovers locked backoff) db s =
    recover_expired_leases-Progresses locked backoff now db
apply-Progresses json_eq (now, by_holder id number token call) db s =
    holder_call-Progresses id number token now call db

run-Progresses :
    (json_eq : Json → Json → Bool) (cs : List (Time × Call)) (db : Db)
    → Sound db
    → From db (run json_eq cs db)
unfolding run
run-Progresses json_eq [] db s = nothing_new db
run-Progresses json_eq (c ∷ cs) db s = λ k.
    Stays-trans (find k db.jobs) (find k (apply json_eq c db).jobs) _
      (apply-Progresses json_eq c db s k)
      (run-Progresses json_eq cs (apply json_eq c db) (apply-Sound json_eq c db s) k)

-- From a sound database on, whatever calls are made: the row of a job stays in the table, what was
-- asked for (its organization, account, transcript, requester, opportunity, skill, payload, maximum
-- of attempts and time of creation) does not change, its count of attempts does not fall, and once
-- its status is one that ends the job, nothing of the row changes any more.
pub run-Stays :
    (json_eq : Json → Json → Bool) (calls : List (Time × Call)) (db : Db) (id : Uuid) (job : JobRow)
    → Sound db
    → find id db.jobs ≡ some job
    → (later : JobRow) × (find id (run json_eq calls db).jobs ≡ some later) × Progress job later
run-Stays json_eq calls db id job s found =
    stays (find id (run json_eq calls db).jobs) (rw found at (run-Progresses json_eq calls db s id))
  where
    stays :
        (o : Option JobRow)
        → Stays (some job) o
        → (later : JobRow) × (o ≡ some later) × Progress job later
    stays none p = elim p [ ]
    stays (some later) p = (later, refl, p)
