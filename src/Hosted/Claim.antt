-- ===== src/Hosted/Claim.antt =====
-- webapp/hosted/migrations/004_outputs_and_reviews.sql: `claim_next_job`. `locked` are the rows
-- that other transactions hold, which the selection skips.
use se_skills.Prelude.{
  ℕ, suc, ◌+◌, String, Bool, true, false, ◌&&◌, not, Option, none, some, List, [], ◌∷◌, leb,
  is_none, if◌then◌else◌,
}
use se_skills.Json.{obj, end}
use se_skills.Hosted.Tables.{
  Uuid, Time, Status, queued, running, JobRow, AttemptRow, Db, update_row,
}

-- What a claim returns: the identifiers, the lease and the job's row.
pub record Claim : Type 0 where
  pub job_id : Uuid
  pub attempt_number : ℕ
  pub lease_token : Uuid
  pub job : JobRow
  pub timeout_at : Time

abbrev pub is_queued : Status → Bool
is_queued queued = true
is_queued _ = false

abbrev pub is_due : Time → JobRow → Bool
is_due now j = elim j.next_attempt_after [ none ↦ true | some t ↦ leb t now ]

unfoldable pub is_eligible : Time → JobRow → Bool
is_eligible now j =
    is_queued j.status && is_due now j && is_none j.cancel_requested_at && not j.dead_lettered

abbrev pub earlier : Uuid × JobRow → Option (Uuid × JobRow) → Uuid × JobRow
earlier x none = x
earlier (i, j) (some (k, l)) = if leb j.created_at l.created_at then (i, j) else (k, l)

-- ORDER BY created_at ... LIMIT 1
unfoldable pub oldest : (Uuid → Bool) → Time → List (Uuid × JobRow) → Option (Uuid × JobRow)
oldest locked now [] = none
oldest locked now ((i, j) ∷ rows) =
    let rest = oldest locked now rows in
    if is_eligible now j && not (locked i) then some (earlier (i, j) rest) else rest

unfoldable pub start_attempt : String → Time → Time → JobRow → JobRow
start_attempt worker now timeout_at j = record j {
  attempts = suc j.attempts;
  status = running;
  worker_id = some worker;
  started_at = some now;
  timeout_at = some timeout_at;
  next_attempt_after = none;
  finished_at = none;
}

unfoldable pub new_attempt : Uuid → String → Uuid → Time → AttemptRow
new_attempt org worker token now = record {
  org_id = org;
  worker_id = some worker;
  runtime_version = none;
  model = none;
  lease_token = token;
  started_at = now;
  finished_at = none;
  heartbeat_at = some now;
  outcome = none;
  error_category = none;
  error = none;
  token_usage = obj end;
  cost = none;
}

-- The worker's name, the lease's length, the token that the server drew, the time.
unfoldable pub claim_next_job : (Uuid → Bool) → String → ℕ → Uuid → Time → Db → Option Claim × Db
claim_next_job locked worker timeout_seconds token now db = elim (oldest locked now db.jobs) [
  | none ↦ (none, db)
  | some (id, job) ↦
      let started = start_attempt worker now (now + timeout_seconds) job in
      (
        some (record {
          job_id = id;
          attempt_number = started.attempts;
          lease_token = token;
          job = started;
          timeout_at = now + timeout_seconds;
        }),
        record db {
          jobs = update_row id (start_attempt worker now (now + timeout_seconds)) db.jobs;
          attempts = (id, started.attempts, new_attempt job.org_id worker token now) ∷ db.attempts;
        },
      )
]
