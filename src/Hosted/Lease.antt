-- ===== src/Hosted/Lease.antt =====
-- webapp/hosted/migrations: `worker_heartbeat` (003_jobs_and_worker.sql), and `complete_job`,
-- `fail_job` and `cancel_job` (006_output_tombstones_and_rls.sql): what the holder of a lease calls.
use se_skills.Prelude.{
  ℕ, ◌+◌, String, Bool, true, false, ◌&&◌, Option, none, some, ◌==◌, eqb, is_none, is_some,
  if◌then◌else◌,
}
use se_skills.Prelude.Int.{ℤ}
use se_skills.Json.{Json, obj, end}
use se_skills.Hosted.Tables.{
  Uuid, Time, Status, running, success, cancelled, JobRow, AttemptRow, OutputRow, Db, find,
  update_row, find_attempt, update_attempt, tombstone,
}
use se_skills.Hosted.Queue.{
  Reply, done, ◌>>=◌, or_refuse, require, coalesce, first_of, job_not_found, not_running,
  invalid_lease, attempt_finished, output_not_found,
}

abbrev pub status_runs : Status → Bool
status_runs running = true
status_runs _ = false

-- `NOT (lease_token <> token)` as an IF takes it: a token that is NULL differs from none.
abbrev pub not_other : Uuid → Option Uuid → Bool
not_other held none = true
not_other held (some token) = eqb held token

-- What the four functions check first: the job runs, the attempt has this lease and is open. The
-- token is none if it is NULL.
unfoldable pub check_lease : Uuid → ℕ → Option Uuid → Db → Reply (JobRow × AttemptRow)
check_lease id number token db = do
  job ← or_refuse job_not_found (find id db.jobs)
  _ ← require (status_runs job.status) not_running
  attempt ← or_refuse invalid_lease (find_attempt id number db.attempts)
  _ ← require (not_other attempt.lease_token token) invalid_lease
  _ ← require (is_none attempt.outcome) attempt_finished
  done (job, attempt)

-- The row of the job and that of the attempt are updated.
unfoldable pub write : Uuid → ℕ → (JobRow → JobRow) → (AttemptRow → AttemptRow) → Db → Db
write id number f g db = record db {
  jobs = update_row id f db.jobs;
  attempts = update_attempt id number g db.attempts;
}

-- Returns whether a cancellation is requested.
unfoldable pub worker_heartbeat : Uuid → ℕ → Option Uuid → ℕ → Time → Db → Reply (Bool × Db)
worker_heartbeat id number token timeout_seconds now db = do
  (job, attempt) ← check_lease id number token db
  done (
    is_some job.cancel_requested_at,
    write id number (λ j. record j { timeout_at = some (now + timeout_seconds) })
        (λ a. record a { heartbeat_at = some now }) db,
  )

-- An output of the job that is not validated.
abbrev pub unvalidated_of : Uuid → Uuid → OutputRow → Bool
unvalidated_of id org o =
    eqb o.job_id id && eqb o.org_id org && (o.validation_status == "unvalidated")

-- The last statement of `fail_job` and `cancel_job`.
unfoldable pub hide_outputs : Uuid → Uuid → Time → Db → Db
hide_outputs id org now db = record db {
  outputs = tombstone (λ _ o. unvalidated_of id org o && is_none o.tombstoned_at) now db.outputs;
}

-- The arguments of `complete_job` after the lease.
pub record Completion : Type 0 where
  pub result_output_id : Option Uuid
  pub validation_status : Option String
  pub token_usage : Option Json
  pub cost : Option ℤ
  pub runtime_version : Option String
  pub model : Option String

pub data Finish : Type 0 where
  was_completed was_cancelled : Finish

unfoldable pub complete_attempt : Completion → Time → AttemptRow → AttemptRow
complete_attempt c now a = record a {
  outcome = some success;
  finished_at = some now;
  token_usage = coalesce c.token_usage (obj end);
  cost = c.cost;
  runtime_version = first_of c.runtime_version a.runtime_version;
  model = first_of c.model a.model;
}

unfoldable pub complete_row : Completion → Time → AttemptRow → JobRow → JobRow
complete_row c now a j = record j {
  status = success;
  finished_at = some now;
  timeout_at = none;
  result_output_id = c.result_output_id;
  validation_status = coalesce c.validation_status "unvalidated";
  token_usage = coalesce c.token_usage (obj end);
  cost = c.cost;
  runtime_version = first_of c.runtime_version (first_of a.runtime_version j.runtime_version);
  model = first_of c.model (first_of a.model j.model);
}

-- The UPDATE of the output of a job that was cancelled.
unfoldable pub drop_result : Option Uuid → Uuid → Uuid → Time → Db → Db
drop_result none id org now db = db
drop_result (some output) id org now db = record db {
  outputs = tombstone (λ i o. eqb i output && unvalidated_of id org o) now db.outputs;
}

-- The UPDATE of the output of a job that was completed, if the job has that output.
unfoldable pub keep_result : Completion → Uuid → Uuid → Db → Reply Db
keep_result c id org db = elim c.result_output_id [
  | none ↦ done db
  | some output ↦ do
    o ← or_refuse output_not_found (find output db.outputs)
    _ ← require (eqb o.job_id id && eqb o.org_id org) output_not_found
    done (record db { outputs = update_row output mark db.outputs })
]
  where
    mark : OutputRow → OutputRow
    mark o = record o {
      validation_status = coalesce c.validation_status "unvalidated";
      tombstoned_at = none;
    }

unfoldable pub complete_job : Uuid → ℕ → Option Uuid → Completion → Time → Db → Reply (Finish × Db)
complete_job id number token c now db = do
  (job, attempt) ← check_lease id number token db
  if is_some job.cancel_requested_at
      then done (
        was_cancelled,
        drop_result c.result_output_id id job.org_id now
            (write id number cancel_row cancel_attempt db),
      )
      else keep_result c id job.org_id db >>= λ kept. done (
        was_completed,
        write id number (complete_row c now attempt) (complete_attempt c now) kept,
      )
  where
    cancel_attempt : AttemptRow → AttemptRow
    cancel_attempt a = record a {
      outcome = some cancelled;
      finished_at = some now;
      runtime_version = first_of c.runtime_version a.runtime_version;
      model = first_of c.model a.model;
    }

    cancel_row : JobRow → JobRow
    cancel_row j = record j {
      status = cancelled;
      cancelled_at = some now;
      finished_at = some now;
      timeout_at = none;
    }

unfoldable pub cancel_job : Uuid → ℕ → Option Uuid → Time → Db → Reply Db
cancel_job id number token now db = do
  (job, attempt) ← check_lease id number token db
  done (hide_outputs id job.org_id now (write id number cancel_row cancel_attempt db))
  where
    cancel_attempt : AttemptRow → AttemptRow
    cancel_attempt a = record a { outcome = some cancelled; finished_at = some now }

    cancel_row : JobRow → JobRow
    cancel_row j = record j {
      status = cancelled;
      cancel_requested_at = some (coalesce j.cancel_requested_at now);
      cancelled_at = some now;
      finished_at = some now;
      timeout_at = none;
      next_attempt_after = none;
    }
