-- ===== src/Hosted/Retry.antt =====
-- webapp/hosted/migrations: `worker_backoff_interval` and `recover_expired_leases`
-- (003_jobs_and_worker.sql), and `fail_job` (006_output_tombstones_and_rls.sql): an attempt that
-- fails or whose lease ends is retried after a delay, or the job ends.
use se_skills.Prelude.{
  ℕ, ◌+◌, ◌*◌, min, max, String, Bool, true, false, ◌&&◌, not, Option, none, some, List, [], ◌∷◌,
  ◌==◌, leb, ltb, is_none, is_some, if◌then◌else◌,
}
use se_skills.Hosted.Tables.{
  Uuid, Time, Status, queued, failure, cancelled, timeout, JobRow, AttemptRow, Db, find,
  find_attempt,
}
use se_skills.Hosted.Queue.{Reply, done, ◌>>=◌, coalesce, first_of}
use se_skills.Hosted.Lease.{status_runs, check_lease, write, hide_outputs}

-- In seconds.
unfoldable pub worker_backoff_interval : ℕ → ℕ
worker_backoff_interval attempt_count = min (max attempt_count 1) 6 * min (max attempt_count 1) 6

-- The delay before the next attempt: the argument, or the default for the number of attempts.
abbrev pub delay : Option ℕ → ℕ → ℕ
delay backoff_seconds attempts = coalesce backoff_seconds (worker_backoff_interval attempts)

-- The arguments of `fail_job` after the lease.
pub record Failure : Type 0 where
  pub error_category : String
  pub error : String
  pub backoff_seconds : Option ℕ
  pub runtime_version : Option String
  pub model : Option String
  pub validation_status : Option String

abbrev pub failed_status : Failure → Status
failed_status e = if e.error_category == "timeout" then timeout else failure

unfoldable pub fail_attempt : Failure → Status → Time → AttemptRow → AttemptRow
fail_attempt e outcome now a = record a {
  outcome = some outcome;
  error_category = some e.error_category;
  error = some e.error;
  finished_at = some now;
  runtime_version = first_of e.runtime_version a.runtime_version;
  model = first_of e.model a.model;
}

-- A cancellation was requested.
unfoldable pub fail_cancelled : Failure → Time → JobRow → JobRow
fail_cancelled e now j = record j {
  status = cancelled;
  cancelled_at = some now;
  finished_at = some now;
  timeout_at = none;
  next_attempt_after = none;
  started_at = none;
  worker_id = none;
  validation_status = coalesce e.validation_status j.validation_status;
}

-- No attempt is left.
unfoldable pub fail_last : Failure → Time → AttemptRow → JobRow → JobRow
fail_last e now a j = record j {
  status = failed_status e;
  finished_at = some now;
  timeout_at = none;
  started_at = none;
  worker_id = none;
  next_attempt_after = none;
  dead_lettered = true;
  error = some e.error;
  validation_status = coalesce e.validation_status j.validation_status;
  runtime_version = first_of e.runtime_version (first_of a.runtime_version j.runtime_version);
  model = first_of e.model (first_of a.model j.model);
}

unfoldable pub fail_retry : Failure → Time → AttemptRow → JobRow → JobRow
fail_retry e now a j = record j {
  status = queued;
  finished_at = none;
  timeout_at = none;
  started_at = none;
  worker_id = none;
  next_attempt_after = some (now + delay e.backoff_seconds j.attempts);
  error = some e.error;
  validation_status = coalesce e.validation_status j.validation_status;
  runtime_version = first_of e.runtime_version (first_of a.runtime_version j.runtime_version);
  model = first_of e.model (first_of a.model j.model);
}

unfoldable pub fail_job : Uuid → ℕ → Option Uuid → Failure → Time → Db → Reply Db
fail_job id number token e now db = do
  (job, attempt) ← check_lease id number token db
  let after =
        if is_some job.cancel_requested_at
        then write id number (fail_cancelled e now) (fail_attempt e cancelled now) db
        else write id number
            (if leb job.max_attempts job.attempts
              then fail_last e now attempt
              else fail_retry e now attempt)
            (fail_attempt e (failed_status e) now) db in
      done (hide_outputs id job.org_id now after)

-- The rows that the loop of `recover_expired_leases` selects.
unfoldable pub is_expired : Time → JobRow → Bool
is_expired now j =
    status_runs j.status
    && elim j.timeout_at [ none ↦ false | some t ↦ ltb t now ]
    && is_none j.cancel_requested_at

unfoldable pub abandon_attempt : Time → AttemptRow → AttemptRow
abandon_attempt now a = record a {
  outcome = some timeout;
  error_category = some "lease_timeout";
  error = some "Worker lease expired before heartbeat or completion";
  finished_at = some now;
}

unfoldable pub abandon : Option ℕ → Time → JobRow → JobRow
abandon backoff_seconds now j =
    if leb j.max_attempts j.attempts
    then record j {
      status = timeout;
      finished_at = some now;
      timeout_at = none;
      started_at = none;
      worker_id = none;
      dead_lettered = true;
      error = some "Lease timeout after maximum attempts";
    }
    else record j {
      status = queued;
      timeout_at = none;
      started_at = none;
      worker_id = none;
      next_attempt_after = some (now + delay backoff_seconds j.attempts);
    }

-- A round of the loop; it leaves a job alone whose attempt has its outcome.
unfoldable pub recover_job : Option ℕ → Time → Uuid → JobRow → Db → ℕ × Db
recover_job backoff_seconds now id job db = elim (find_attempt id job.attempts db.attempts) [
  | none ↦ (0, db)
  | some attempt ↦
      if is_none attempt.outcome
      then (1, write id job.attempts (abandon backoff_seconds now) (abandon_attempt now) db)
      else (0, db)
]

-- A row that the cursor visits, if the selection still has it.
unfoldable pub recover_row : (Uuid → Bool) → Option ℕ → Time → Uuid → Db → ℕ × Db
recover_row locked backoff_seconds now id db = elim (find id db.jobs) [
  | none ↦ (0, db)
  | some job ↦
      if is_expired now job && not (locked id)
      then recover_job backoff_seconds now id job db
      else (0, db)
]

-- The cursor's loop over the rows that the table held; a row is read when its turn comes. Each
-- round is about one job, so that the order in which the cursor visits them is left out.
unfoldable pub recover_loop : (Uuid → Bool) → Option ℕ → Time → List (Uuid × JobRow) → Db → ℕ × Db
recover_loop locked backoff_seconds now [] db = (0, db)
recover_loop locked backoff_seconds now ((id, _) ∷ rows) db =
    let (n, after) = recover_row locked backoff_seconds now id db in
    let (m, final) = recover_loop locked backoff_seconds now rows after in (n + m, final)

-- Returns the number of the leases that it recovered.
unfoldable pub recover_expired_leases : (Uuid → Bool) → Option ℕ → Time → Db → ℕ × Db
recover_expired_leases locked backoff_seconds now db =
    recover_loop locked backoff_seconds now db.jobs db
