-- ===== src/Hosted/Begin.antt =====
-- webapp/hosted/migrations: the rows after `enqueue_job`, `request_job_cancellation` and
-- `claim_next_job`.
use se_skills.Prelude.{
  ℕ, suc, ◌+◌, ◌<◌, ◌≡◌, refl, sym, String, Bool, true, false, Option, none, some, ◌∷◌, eqb,
  is_none, if◌then◌else◌, arith, Bool-cases, Option-cases, inl, inr, eqb→eq, eqb_refl,
}
use se_skills.Json.{Json}
use se_skills.Hosted.Tables.{
  Uuid, Time, Status, queued, running, success, failure, cancelled, timeout, JobRow, AttemptRow, Db,
  find, update_row, find-update_row, update_row-Distinct, find_attempt,
}
use se_skills.Hosted.Queue.{
  Directory, JobRequest, coalesce, queued_row, insert_job, enqueue_job, request_job_cancellation,
  cancel_or_ask, cancel_queued, ask, job_not_found, no_longer_running, or_refuse, require,
  not_a_member,
}
use se_skills.Hosted.Claim.{
  is_queued, is_eligible, oldest, start_attempt, new_attempt, claim_next_job,
}
use se_skills.Hosted.Lease.{status_runs}
use se_skills.Hosted.Tracked.{Tracked, Tracked-ext, Sound, Only-Sound}
use se_skills.Hosted.Rows.{alone-Sound}
use se_skills.Hosted.Rules.{enqueue_job-rule}
use se_skills.Hosted.Oldest.{Oldest, oldest-Oldest}
use se_skills.Hosted.Calls.{second, after, chain-after}

queued_row-Tracked :
    (org user : Uuid) (now : Time) (r : JobRequest) (look : ℕ → Option AttemptRow)
    → 0 < coalesce r.max_attempts 3
    → ((n : ℕ) → look n ≡ none)
    → Tracked look (queued_row org user now r)
unfolding queued_row
queued_row-Tracked org user now r look positive none_yet = record {
  within = omega (arith, positive);
  left = λ _. positive;
  open_only = λ n a e o. cc (e, none_yet n);
  held = λ r. cc r;
  later = λ n _. none_yet n;
  leased = refl;
  unasked = λ _. refl;
  alive = λ _. refl;
  alive_running = λ _. refl;
}

insert_job-Sound :
    (id : Uuid) (job : JobRow) (db : Db)
    → (((n : ℕ) → find_attempt id n db.attempts ≡ none)
        → Tracked (λ n. find_attempt id n db.attempts) job)
    → Sound db
    → Sound (after db (insert_job id job db))
unfolding insert_job find
insert_job-Sound id job db tracked s = elim (Option-cases (find id db.jobs)) [
  | inl fresh ↦ rw fresh (
      Only-Sound id db (record db { jobs = (id, job) ∷ db.jobs }) job
        (record {
          keyed = λ d. (fresh, d);
          jobs = λ k other. rw other refl;
          attempts = λ k n other. refl;
        })
        (rw eqb_refl refl) (tracked (s.unknown id fresh)) s)
  | inr (j, taken) ↦ rw taken s
]

pub queued-not_running : (s : Status) → is_queued s ≡ true → status_runs s ≡ false
queued-not_running queued q = refl
queued-not_running running q = cc q
queued-not_running success q = refl
queued-not_running failure q = refl
queued-not_running cancelled q = refl
queued-not_running timeout q = refl

pub is_eligible-queued :
    (now : Time) (j : JobRow) → is_eligible now j ≡ true → is_queued j.status ≡ true
unfolding is_eligible
is_eligible-queued now j e = ground arith

start_attempt-Tracked :
    (worker : String) (now until : Time) (new : AttemptRow) (look : ℕ → Option AttemptRow)
    (j : JobRow)
    → is_eligible now j ≡ true
    → is_none new.outcome ≡ true
    → Tracked look j
    → Tracked
        (λ n. if eqb (suc j.attempts) n then some new else look n)
        (start_attempt worker now until j)
unfolding start_attempt
start_attempt-Tracked worker now until new look j eligible opened t = record {
  within = t.left (is_eligible-queued now j eligible);
  left = λ q. cc q;
  open_only = λ n a e o. elim (Bool-cases (eqb (suc j.attempts) n)) [
    | inl here ↦ (refl, sym (eqb→eq _ n here))
    | inr other ↦
        let (r, _) = t.open_only n a (rw other at e) o in
        cc (r, queued-not_running j.status (is_eligible-queued now j eligible))
  ];
  held = λ r. (new, rw eqb_refl refl, opened);
  later = λ n h. ground (arith, t.later n);
  leased = refl;
  unasked = λ q. cc q;
  alive = λ q. cc q;
  alive_running = λ _. t.alive (is_eligible-queued now j eligible);
}

begin-Sound :
    (id : Uuid) (worker : String) (now until : Time) (new : AttemptRow) (db : Db) (j : JobRow)
    → find id db.jobs ≡ some j
    → is_eligible now j ≡ true
    → is_none new.outcome ≡ true
    → Sound db
    → Sound (record db {
      jobs = update_row id (start_attempt worker now until) db.jobs;
      attempts = (id, suc j.attempts, new) ∷ db.attempts;
    })
unfolding find_attempt
begin-Sound id worker now until new db j found eligible opened s =
    Only-Sound id db _ (start_attempt worker now until j)
      (record {
        keyed = update_row-Distinct id (start_attempt worker now until) db.jobs;
        jobs = λ k other. rw (find-update_row, other) refl;
        attempts = λ k n other. rw other refl;
      })
      (rw (find-update_row, eqb_refl, found) refl)
      (Tracked-ext (λ n. rw eqb_refl refl)
        (start_attempt-Tracked worker now until new (λ n. find_attempt id n db.attempts) j eligible
          opened (s.known id j found)))
      s

pub claim_next_job-Sound :
    (locked : Uuid → Bool) (worker : String) (timeout_seconds : ℕ) (token : Uuid) (now : Time)
    (db : Db)
    → Sound db
    → Sound (claim_next_job locked worker timeout_seconds token now db).1
unfolding claim_next_job start_attempt new_attempt
claim_next_job-Sound locked worker timeout_seconds token now db s =
    elim (Option-cases (oldest locked now db.jobs)) [
      | inl idle ↦ rw (idle, claim_next_job) s
      | inr ((id, j), chosen) ↦
          let o : Oldest locked now db.jobs id j =
            oldest-Oldest locked now db.jobs id j s.keyed chosen in
          rw (chosen, claim_next_job)
            (begin-Sound id worker now (now + timeout_seconds)
              (new_attempt j.org_id worker token now) db j o.found o.eligible refl s)
    ]

pub enqueue_job-Sound :
    (json_eq : Json → Json → Bool) (d : Directory) (id : Uuid) (now : Time) (r : JobRequest)
    (db : Db)
    → Sound db
    → Sound (after db (second (enqueue_job json_eq d id now r db)))
enqueue_job-Sound json_eq d id now r db s =
    enqueue_job-rule Sound json_eq d id now r db s λ org user positive.
      insert_job-Sound id (queued_row org user now r) db
        (queued_row-Tracked org user now r (λ n. find_attempt id n db.attempts) positive) s

cancel_or_ask-Sound :
    (user id : Uuid) (now : Time) (job : JobRow) (st : Status) (db : Db)
    → find id db.jobs ≡ some job
    → job.status ≡ st
    → Sound db
    → Sound (after db (cancel_or_ask user id now job st db))
unfolding cancel_or_ask cancel_queued ask
cancel_or_ask-Sound user id now job cancelled db found st s = s
cancel_or_ask-Sound user id now job success db found st s = s
cancel_or_ask-Sound user id now job failure db found st s = s
cancel_or_ask-Sound user id now job timeout db found st s = s
cancel_or_ask-Sound user id now job queued db found st s =
    alone-Sound id (cancel_queued user now) db job found
      (record {
        attempts_kept = refl;
        max_kept = refl;
        as_running = rw st refl;
        leased = refl;
        not_queued = refl;
        dead_kept = refl;
      })
      s
cancel_or_ask-Sound user id now job running db found st s =
    chain-after Sound db (require (is_none job.cancel_requested_at) no_longer_running) _ s λ _ _.
      alone-Sound id (ask user now) db job found
        (record {
          attempts_kept = refl;
          max_kept = refl;
          as_running = refl;
          leased = (s.known id job found).leased;
          not_queued = rw st refl;
          dead_kept = refl;
        })
        s

pub request_job_cancellation-Sound :
    (d : Directory) (id : Uuid) (now : Time) (db : Db)
    → Sound db
    → Sound (after db (request_job_cancellation d id now db))
unfolding request_job_cancellation
request_job_cancellation-Sound d id now db s =
    chain-after Sound db (or_refuse job_not_found (find id db.jobs)) _ s λ job found.
      chain-after Sound db (or_refuse not_a_member (d.member job.org_id)) _ s
        λ user _. cancel_or_ask-Sound user id now job job.status db (ground arith) refl s
