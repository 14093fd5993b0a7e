-- ===== src/Hosted/Recovery.antt =====
-- webapp/hosted/migrations/003_jobs_and_worker.sql: `recover_expired_leases`, for one of the jobs.
use se_skills.Prelude.{ℕ, ◌+◌, ◌*◌, ◌≤◌, ◌<◌, min, max, none, ◌≡◌, true, Option, some}
use se_skills.Hosted.Tables.{queued, timeout, Time, JobRow}

-- The delay that the call names, or by default the square of the number of attempts, which is taken
-- to be 1 at least and 6 at most.
abbrev pub seconds_until : Option ℕ → ℕ → ℕ
seconds_until none attempts = min (max attempts 1) 6 * min (max attempts 1) 6
seconds_until (some seconds) attempts = seconds

-- What becomes of a job: it waits for another attempt, or it has ended with a timeout.
pub data GivenUp (backoff_seconds : Option ℕ) (now : Time) (before after : JobRow) : Type 0 where
  waits_again :
      before.attempts < before.max_attempts
      → after.status ≡ queued
      → after.attempts ≡ before.attempts
      → after.next_attempt_after ≡ some (now + seconds_until backoff_seconds before.attempts)
      → after.timeout_at ≡ none
      → after.worker_id ≡ none
      → GivenUp backoff_seconds now before after
  timed_out :
      before.max_attempts ≤ before.attempts
      → after.status ≡ timeout
      → after.finished_at ≡ some now
      → after.dead_lettered ≡ true
      → after.timeout_at ≡ none
      → after.worker_id ≡ none
      → GivenUp backoff_seconds now before after
