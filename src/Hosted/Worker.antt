-- ===== src/Hosted/Worker.antt =====
-- webapp/hosted/worker.py: `Worker.process_one`, `run_once` and the calls of the ledger that they
-- make, and webapp/hosted/executor.py: `ExecutorResult`. What asyncio and the executor do in between
-- is a `Race`; the executor's work itself, the logging and the connection pool are left out.
use se_skills.Prelude.{
  ℕ, String, Bool, true, false, ◌||◌, not, Option, none, some, List, ◌==◌, if◌then◌else◌,
}
use se_skills.Prelude.Int.{ℤ}
use se_skills.Json.{Json}
use se_skills.Hosted.Tables.{Uuid, Time, Db}
use se_skills.Hosted.Queue.{done, refused, Refusal}
use se_skills.Hosted.Claim.{Claim, claim_next_job}
use se_skills.Hosted.Lease.{Completion}
use se_skills.Hosted.Retry.{Failure}
use se_skills.Hosted.Calls.{Call, HolderCall, completes, fails, cancels, holder_call, run}

pub record ExecutorResult : Type 0 where
  pub output_id : Option Uuid
  pub validation_status : String
  pub token_usage : Json
  pub cost : Option ℤ
  pub runtime_version : String
  pub model : String
  pub error_category : Option String
  pub error : Option String
  pub finalized : Bool

-- `await executor_task`, after the task was done.
pub data Execution : Type 0 where
  returned : ExecutorResult → Execution
  raised_exception : Execution

-- How the wait for the executor and the heartbeat monitor ends.
pub record WorkerRace : Type 0 where
  -- `done` is not empty: one of the tasks ended before the deadline
  pub any_done : Bool
  -- the two events, when `process_one` first tests them
  pub heartbeat_lost : Bool
  pub cancel_requested : Bool
  -- awaiting a cancelled task raises something other than `CancelledError`
  pub executor_raises : Bool
  pub monitor_raises : Bool
  -- the executor's task, when neither event is set
  pub execution : Execution
  -- `cancel_requested.is_set()`, after the monitor has ended
  pub cancel_requested_later : Bool

-- The attributes `runtime_version` and `model` of the executor, if it has them.
pub record Executor : Type 0 where
  pub runtime_version : Option String
  pub model : Option String

-- How `process_one` goes on: a call of the ledger, no call, or an exception.
pub data Decision : Type 0 where
  finish : HolderCall → Decision
  leave propagate : Decision

-- `a or b` of texts
abbrev pub or_text : String → String → String
or_text a b = if a == "" then b else a

abbrev pub text_or : Option String → String → String
text_or none b = b
text_or (some a) b = or_text a b

abbrev pub truthy_text : Option String → Bool
truthy_text none = false
truthy_text (some t) = not (t == "")

-- Worker.fail's parameters, with the defaults.
unfoldable pub fail_arguments : String → String → String → Option String → Option String → Failure
fail_arguments error_category error validation_status runtime_version model = record {
  error_category = error_category;
  error = error;
  backoff_seconds = none;
  runtime_version = runtime_version;
  model = model;
  validation_status = some validation_status;
}

-- Worker.complete's arguments
unfoldable pub complete_arguments : ExecutorResult → Completion
complete_arguments r = record {
  result_output_id = r.output_id;
  validation_status = some r.validation_status;
  token_usage = some r.token_usage;
  cost = r.cost;
  runtime_version = some r.runtime_version;
  model = some r.model;
}

-- The branches after `result = await executor_task`.
unfoldable pub decide_result : Bool → ExecutorResult → Decision
decide_result cancel_requested r =
    if r.finalized
    then leave
    else if cancel_requested
    then finish cancels
    else if truthy_text r.error_category
    then finish (
        fails (
          fail_arguments (text_or r.error_category "") (text_or r.error "Execution failed")
            (or_text r.validation_status "unvalidated") (some r.runtime_version) (some r.model)))
    else finish (completes (complete_arguments r))

unfoldable pub decide_execution : Executor → Bool → Execution → Decision
decide_execution x cancel_requested raised_exception = finish (
    fails (
      fail_arguments "executor_error" "Executor failure: executor raised an exception" "unvalidated"
        x.runtime_version x.model))
decide_execution x cancel_requested (returned r) = decide_result cancel_requested r

-- The branches of `process_one` after the wait.
unfoldable pub decide : Executor → WorkerRace → Decision
decide x race =
    if not race.any_done
    then (if race.executor_raises || race.monitor_raises
        then propagate
        else finish (
            fails (
              fail_arguments "timeout" "Execution exceeded wall-clock deadline" "unvalidated" none
                none)))
    else if race.heartbeat_lost
    then (if race.executor_raises then propagate else leave)
    else if race.cancel_requested
    then (if race.executor_raises then propagate else finish cancels)
    else if race.monitor_raises
    then propagate
    else decide_execution x race.cancel_requested_later race.execution

-- What `process_one` returns, or what it raises: the ledger's refusal, or another exception.
pub data Processed : Type 0 where
  returns : Bool → Processed
  refused_by_ledger : Refusal → Processed
  raises_other : Processed

unfoldable pub finish_attempt : Claim → Time → Decision → Db → Processed × Db
finish_attempt c now leave db = (returns true, db)
finish_attempt c now propagate db = (raises_other, db)
finish_attempt c now (finish call) db =
    elim (holder_call c.job_id c.attempt_number (some c.lease_token) now call db) [
      | done next ↦ (returns true, next)
      | refused e ↦ (refused_by_ledger e, db)
    ]

-- `meanwhile` are the calls of the ledger between the claim and the end of the attempt: the
-- monitor's heartbeats, and what the application and other workers call.
pub record Round : Type 0 where
  pub locked : Uuid → Bool
  pub token : Uuid
  pub claimed_at : Time
  pub meanwhile : List (Time × Call)
  pub race : WorkerRace
  pub ended_at : Time

-- After `claim = await self.claim()`.
unfoldable pub process_claim :
    (Json → Json → Bool) → Executor → Round → Option Claim × Db → Processed × Db
process_claim json_eq x round (none, db) = (returns false, db)
process_claim json_eq x round (some c, db) =
    finish_attempt c round.ended_at (decide x round.race) (run json_eq round.meanwhile db)

unfoldable pub process_one :
    (Json → Json → Bool) → Executor → String → ℕ → Round → Db → Processed × Db
process_one json_eq x worker_name timeout_seconds round db =
    process_claim json_eq x round
      (claim_next_job round.locked worker_name timeout_seconds round.token round.claimed_at db)
