-- ===== src/Hosted/Attempts.antt =====
-- webapp/hosted: how often a job is handed to a worker.
use se_skills.Prelude.{
  ℕ, ◌+◌, ◌≤◌, ◌≡◌, sym, ◌∙◌, String, Bool, Option, none, some, List, [], ◌∷◌, eqb, if◌then◌else◌,
  arith, Bool-cases, Option-cases, inl, inr, eqb→eq,
}
use se_skills.Json.{Json}
use se_skills.Hosted.Tables.{Uuid, Time, JobRow, Db, find, find-update_row}
use se_skills.Hosted.Claim.{Claim, oldest, start_attempt, claim_next_job}
use se_skills.Hosted.Calls.{
  Call, enqueues, asks_cancellation, claims, recovers, by_holder, apply, run,
}
use se_skills.Hosted.Tracked.{Sound}
use se_skills.Hosted.Oldest.{Oldest, oldest-Oldest}
use se_skills.Hosted.Invariant.{empty, empty-Sound, apply-Sound, ledger-Sound}
use se_skills.Hosted.Progress.{Stays}
use se_skills.Hosted.Trace.{apply-Progresses}

abbrev claimed : Uuid → Option Claim → ℕ
claimed id none = 0
claimed id (some c) = if eqb c.job_id id then 1 else 0

-- Whether a call hands the job to a worker: 1 or 0.
unfoldable pub claims_job : Uuid → Time × Call → Db → ℕ
claims_job id (now, claims locked worker seconds token) db =
    claimed id (claim_next_job locked worker seconds token now db).0
claims_job id (now, enqueues d i r) db = 0
claims_job id (now, asks_cancellation d i) db = 0
claims_job id (now, recovers locked backoff) db = 0
claims_job id (now, by_holder i number token call) db = 0

-- How often the calls hand the job to a worker.
unfoldable pub count_claims : (Json → Json → Bool) → Uuid → List (Time × Call) → Db → ℕ
count_claims json_eq id [] db = 0
count_claims json_eq id (c ∷ cs) db =
    claims_job id c db + count_claims json_eq id cs (apply json_eq c db)

abbrev count : Option JobRow → ℕ
count none = 0
count (some j) = j.attempts

Stays-count : (o p : Option JobRow) → Stays o p → count o ≤ count p
Stays-count none p s = omega arith
Stays-count (some j) none s = elim s [ ]
Stays-count (some j) (some k) s = s.attempts_grow

claim-count :
    (id : Uuid) (locked : Uuid → Bool) (worker : String) (seconds : ℕ) (token : Uuid) (now : Time)
    (db : Db)
    → Sound db
    → Stays (find id db.jobs) (find id (claim_next_job locked worker seconds token now db).1.jobs)
    → claimed id (claim_next_job locked worker seconds token now db).0 + count (find id db.jobs)
      ≤ count (find id (claim_next_job locked worker seconds token now db).1.jobs)
unfolding claim_next_job start_attempt
claim-count id locked worker seconds token now db s stays =
    elim (Option-cases (oldest locked now db.jobs)) [
      | inl idle ↦ rw (idle, claim_next_job) (omega arith)
      | inr ((i, j), chosen) ↦
          let o : Oldest locked now db.jobs i j =
            oldest-Oldest locked now db.jobs i j s.keyed chosen in
          elim (Bool-cases (eqb i id)) [
            | inl here ↦
                let same : i ≡ id = eqb→eq i id here in
                let at_id : find id db.jobs ≡ some j = sym (ap_find same) ∙ o.found in
                rw (chosen, claim_next_job) (rw (find-update_row, here, at_id) (omega arith))
            | inr other ↦ rw (chosen, claim_next_job) (rw (find-update_row, other) (omega arith))
          ]
    ]
  where
    ap_find : {i : Uuid} → i ≡ id → find i db.jobs ≡ find id db.jobs
    ap_find e = λ k. find (e k) db.jobs

kept :
    (json_eq : Json → Json → Bool) (id : Uuid) (c : Time × Call) (db : Db)
    → Sound db
    → 0 + count (find id db.jobs) ≤ count (find id (apply json_eq c db).jobs)
kept json_eq id c db s =
    omega (arith, Stays-count (find id db.jobs) _ (apply-Progresses json_eq c db s id))

claims_job-count :
    (json_eq : Json → Json → Bool) (id : Uuid) (c : Time × Call) (db : Db)
    → Sound db
    → claims_job id c db + count (find id db.jobs) ≤ count (find id (apply json_eq c db).jobs)
unfolding claims_job apply
claims_job-count json_eq id (now, claims locked worker seconds token) db s =
    claim-count id locked worker seconds token now db s
      (apply-Progresses json_eq (now, claims locked worker seconds token) db s id)
claims_job-count json_eq id (now, enqueues d i r) db s = kept json_eq id (now, enqueues d i r) db s
claims_job-count json_eq id (now, asks_cancellation d i) db s =
    kept json_eq id (now, asks_cancellation d i) db s
claims_job-count json_eq id (now, recovers locked backoff) db s =
    kept json_eq id (now, recovers locked backoff) db s
claims_job-count json_eq id (now, by_holder i number token call) db s =
    kept json_eq id (now, by_holder i number token call) db s

count_claims-count :
    (json_eq : Json → Json → Bool) (id : Uuid) (cs : List (Time × Call)) (db : Db)
    → Sound db
    → count_claims json_eq id cs db + count (find id db.jobs)
      ≤ count (find id (run json_eq cs db).jobs)
unfolding count_claims run
count_claims-count json_eq id [] db s = omega arith
count_claims-count json_eq id (c ∷ cs) db s = omega (
  arith,
  claims_job-count json_eq id c db s,
  count_claims-count json_eq id cs (apply json_eq c db) (apply-Sound json_eq c db s),
)

-- Whatever calls are made from empty tables on, a job that is in the table at the end has been
-- handed to a worker at most as often as its maximum of attempts says.
pub count_claims_bounded :
    (json_eq : Json → Json → Bool) (id : Uuid) (calls : List (Time × Call)) (job : JobRow)
    → find id (run json_eq calls empty).jobs ≡ some job
    → count_claims json_eq id calls empty ≤ job.max_attempts
unfolding find
count_claims_bounded json_eq id calls job found =
    let total : count_claims json_eq id calls empty + 0 ≤ job.attempts =
      rw found at (count_claims-count json_eq id calls empty empty-Sound) in
    omega (arith, total, ((ledger-Sound json_eq calls).known id job found).within)
