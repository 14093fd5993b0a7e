-- ===== src/Hosted/Examples.antt =====
-- webapp/hosted: a job that is enqueued, claimed, asked to be cancelled, and that fails or is left.
use se_skills.Prelude.{◌⊎◌, ◌≤◌, ◌≡◌, refl, Bool, true, false, Option, none, some, List, [], ◌∷◌}
use se_skills.Json.{Json, null}
use se_skills.Hosted.Tables.{
  Uuid, Time, queued, JobRow, AttemptRow, Db, find, find_attempt, update_row, update_attempt,
  tombstone,
}
use se_skills.Hosted.Queue.{
  done, Directory, JobRequest, enqueue_job, insert_or_select, stored, find_by_key, insert_job,
  queued_row, request_job_cancellation, cancel_or_ask, ask, same_request,
}
use se_skills.Hosted.Claim.{claim_next_job, oldest, is_eligible, start_attempt, new_attempt}
use se_skills.Hosted.Lease.{status_runs, check_lease, write, hide_outputs}
use se_skills.Hosted.Retry.{
  Failure, fail_job, fail_retry, fail_attempt, fail_cancelled, worker_backoff_interval,
}
use se_skills.Hosted.Calls.{
  after, Call, enqueues, asks_cancellation, claims, recovers, by_holder, fails, holder_call, apply,
  run,
}
use se_skills.Hosted.Invariant.{empty, ledger-Sound}
use se_skills.Hosted.Progress.{Progress}
use se_skills.Hosted.Trace.{run-Stays}
use se_skills.Hosted.Attempts.{count_claims, count_claims_bounded}
use se_skills.Hosted.Fencing.{holder_call-latest, holder_call-null}
use se_skills.Hosted.Abandoned.{run-is_elsewhere}
use se_skills.Hosted.Outcome.{Over, Gives, holder_call-Over}
use se_skills.Hosted.Worker.{
  Executor, raised_exception, Round, process_one, process_claim, finish_attempt, decide,
  decide_execution, fail_arguments,
}
use se_skills.Hosted.Claiming.{Claims, claim_next_job-Claims, Done, process_one-Done}
use se_skills.Hosted.Idempotent.{enqueue_job-again}

abbrev any_eq : Json → Json → Bool
any_eq a b = true

abbrev directory : Directory
directory = record {
  account_org = λ a. some 1;
  member = λ o. some 7;
  transcript = λ t a o. some none;
  opportunity = λ p a o. true;
}

abbrev request : JobRequest
request = record {
  account_id = 2;
  transcript_id = 3;
  opportunity_id = none;
  skill = "post-call";
  skill_version = "1.0";
  model = none;
  runtime_version = none;
  idempotency_key = some "key";
  max_attempts = none;
  payload = null;
  input_refs = null;
  source_manifest = null;
}

abbrev unlocked : Uuid → Bool
unlocked id = false

-- Enqueued at 10, claimed at 20 with the token 55 for 300 seconds.
abbrev claimed_calls : List (Time × Call)
claimed_calls = (10, enqueues directory 100 request) ∷ (20, claims unlocked "worker" 300 55) ∷ []

-- At 30 a member asks to cancel the job.
abbrev asked_calls : List (Time × Call)
asked_calls =
    (10, enqueues directory 100 request)
    ∷ (20, claims unlocked "worker" 300 55)
    ∷ (30, asks_cancellation directory 100)
    ∷ []

abbrev queued_db : Db
queued_db = run any_eq ((10, enqueues directory 100 request) ∷ []) empty

abbrev claimed_db : Db
claimed_db = run any_eq claimed_calls empty

abbrev asked_db : Db
asked_db = run any_eq asked_calls empty

abbrev row_of : Option JobRow → JobRow
row_of (some j) = j
row_of none = record {
  org_id = 0;
  account_id = 0;
  opportunity_id = none;
  transcript_id = 0;
  requester_id = 0;
  skill = "";
  skill_version = "";
  model = none;
  runtime_version = none;
  worker_id = none;
  status = queued;
  payload = null;
  input_refs = null;
  source_manifest = null;
  result_output_id = none;
  validation_status = "";
  token_usage = null;
  cost = none;
  attempts = 0;
  max_attempts = 0;
  started_at = none;
  finished_at = none;
  timeout_at = none;
  cancelled_at = none;
  cancelled_by = none;
  cancel_requested_at = none;
  next_attempt_after = none;
  dead_lettered = false;
  idempotency_key = none;
  error = none;
  created_at = 0;
}

abbrev claimed_row : JobRow
claimed_row = row_of (find 100 claimed_db.jobs)

abbrev asked_row : JobRow
asked_row = row_of (find 100 asked_db.jobs)

abbrev broken : Failure
broken = record {
  error_category = "executor_error";
  error = "broken";
  backoff_seconds = none;
  runtime_version = none;
  model = none;
  validation_status = none;
}

run-Stays_example :
    (later : JobRow) × (find 100
        (run any_eq ((40, by_holder 100 1 (some 55) (fails broken)) ∷ []) claimed_db).jobs
      ≡ some later)
    × Progress claimed_row later
unfolding find run apply claim_next_job oldest enqueue_job insert_or_select stored find_by_key
    insert_job is_eligible queued_row update_row start_attempt
run-Stays_example =
    run-Stays any_eq ((40, by_holder 100 1 (some 55) (fails broken)) ∷ []) claimed_db 100
      claimed_row (ledger-Sound any_eq claimed_calls) refl

count_claims_bounded_example : count_claims any_eq 100 claimed_calls empty ≤ 3
unfolding find run apply claim_next_job oldest enqueue_job insert_or_select stored find_by_key
    insert_job is_eligible queued_row update_row start_attempt
count_claims_bounded_example = count_claims_bounded any_eq 100 claimed_calls claimed_row refl

holder_call-Over_example :
    Gives (Over 100 1 asked_row) (holder_call 100 1 (some 55) 40 (fails broken) asked_db)
unfolding find run apply claim_next_job oldest enqueue_job insert_or_select stored find_by_key
    insert_job is_eligible queued_row update_row start_attempt request_job_cancellation
    cancel_or_ask ask
holder_call-Over_example =
    holder_call-Over 100 1 (some 55) 40 (fails broken) asked_db asked_row refl refl

run-is_elsewhere_example :
    find 100
      (run any_eq
        ((900, recovers unlocked none) ∷ (901, claims unlocked "other" 300 56) ∷ [])
        asked_db).jobs
    ≡ some asked_row
unfolding find run apply claim_next_job oldest enqueue_job insert_or_select stored find_by_key
    insert_job is_eligible queued_row update_row start_attempt request_job_cancellation
    cancel_or_ask ask
run-is_elsewhere_example =
    run-is_elsewhere any_eq 100 asked_row
      ((900, recovers unlocked none) ∷ (901, claims unlocked "other" 300 56) ∷ []) asked_db
      (ledger-Sound any_eq asked_calls) refl refl refl (refl, (refl, tt))

claim_next_job-Claims_example :
    Claims unlocked 20 queued_db (claim_next_job unlocked "worker" 300 55 20 queued_db)
claim_next_job-Claims_example =
    claim_next_job-Claims unlocked "worker" 300 55 20 queued_db
      (ledger-Sound any_eq ((10, enqueues directory 100 request) ∷ []))

enqueue_job-again_example :
    enqueue_job any_eq directory 101 90 request queued_db ≡ done ((100, queued, 10), queued_db)
unfolding find run apply claim_next_job oldest enqueue_job insert_or_select stored find_by_key
    insert_job is_eligible queued_row update_row start_attempt same_request
enqueue_job-again_example =
    enqueue_job-again any_eq directory 100 101 10 90 request empty queued_db (100, queued, 10) "key"
      (λ j. refl) refl refl

abbrev failed_db : Db
failed_db = after claimed_db (holder_call 100 1 (some 55) 40 (fails broken) claimed_db)

abbrev held_token : Option Uuid
held_token = some 55

holder_call-latest_example :
    (j : JobRow) × (a : AttemptRow) × (find 100 claimed_db.jobs ≡ some j)
    × (status_runs j.status ≡ true)
    × (1 ≡ j.attempts)
    × (find_attempt 100 1 claimed_db.attempts ≡ some a)
    × (a.outcome ≡ none)
    × ((held_token ≡ none) ⊎ (held_token ≡ some a.lease_token))
unfolding find run apply claim_next_job oldest enqueue_job insert_or_select stored find_by_key
    insert_job is_eligible queued_row update_row start_attempt new_attempt find_attempt
    update_attempt check_lease write hide_outputs holder_call fail_job fail_retry fail_attempt
    tombstone worker_backoff_interval
holder_call-latest_example =
    holder_call-latest 100 1 held_token 40 (fails broken) claimed_db failed_db
      (ledger-Sound any_eq claimed_calls) refl

holder_call-null_example :
    holder_call 100 1 none 40 (fails broken) claimed_db
    ≡ holder_call 100 1 (some 55) 40 (fails broken) claimed_db
unfolding find run apply claim_next_job oldest enqueue_job insert_or_select stored find_by_key
    insert_job is_eligible queued_row update_row start_attempt new_attempt find_attempt
    update_attempt check_lease write hide_outputs holder_call fail_job fail_retry fail_attempt
    tombstone worker_backoff_interval
holder_call-null_example =
    holder_call-null 100 1 40 (fails broken) claimed_db
      (new_attempt claimed_row.org_id "worker" 55 20) refl

-- The executor raises; meanwhile, a member asked for the cancellation.
abbrev raising_round : Round
raising_round = record {
  locked = unlocked;
  token = 55;
  claimed_at = 20;
  meanwhile = (30, asks_cancellation directory 100) ∷ [];
  race = record {
    any_done = true;
    heartbeat_lost = false;
    cancel_requested = false;
    executor_raises = false;
    monitor_raises = false;
    execution = raised_exception;
    cancel_requested_later = false;
  };
  ended_at = 40;
}

abbrev executor : Executor
executor = record { runtime_version = none; model = none }

abbrev processed_db : Db
processed_db = (process_one any_eq executor "worker" 300 raising_round queued_db).1

process_one-Done_example :
    let (claimed, started) = claim_next_job unlocked "worker" 300 55 20 queued_db in
    Done executor raising_round started
      (run any_eq ((30, asks_cancellation directory 100) ∷ []) started)
      processed_db
      claimed
unfolding find run apply claim_next_job oldest enqueue_job insert_or_select stored find_by_key
    insert_job is_eligible queued_row update_row start_attempt request_job_cancellation
    cancel_or_ask ask new_attempt find_attempt update_attempt check_lease write hide_outputs
    holder_call fail_job fail_cancelled fail_attempt tombstone process_one process_claim
    finish_attempt decide decide_execution fail_arguments
process_one-Done_example =
    process_one-Done any_eq executor "worker" 300 raising_round queued_db processed_db true refl
