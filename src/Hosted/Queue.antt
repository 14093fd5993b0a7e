-- ===== src/Hosted/Queue.antt =====
-- webapp/hosted/migrations/013_transcript_tombstone.sql: `enqueue_job`; 012_user_action_audit.sql:
-- `request_job_cancellation`; 004_outputs_and_reviews.sql: `claim_next_job`. A call that raises is
-- rolled back. `clock_timestamp()` is read once a call.
use se_skills.Prelude.{
  ℕ, String, Bool, true, false, ◌&&◌, Option, none, some, List, [], ◌∷◌, ◌==◌, eqb, ltb, is_none,
  if◌then◌else◌,
}
use se_skills.Json.{Json, obj, end}
use se_skills.Hosted.Tables.{
  Uuid, Time, Status, queued, running, success, failure, cancelled, timeout, JobRow, Db, find,
  update_row,
}

pub data Refusal : Type 0 where
  account_not_found not_a_member transcript_not_found transcript_deleted : Refusal
  opportunity_not_found check_violation duplicate_id key_conflict : Refusal
  job_not_found terminal_job no_longer_running : Refusal
  not_running invalid_lease attempt_finished output_not_found : Refusal

-- What a function returns, or the exception that it raises.
pub data Reply {ℓ} (A : Type ℓ) : Type ℓ where
  done : A → Reply A
  refused : Refusal → Reply A

infixl 10 ◌>>=◌
abbrev pub ◌>>=◌ {ℓ κ} : {A : Type ℓ} {B : Type κ} → Reply A → (A → Reply B) → Reply B
done a >>= f = f a
refused e >>= f = refused e

abbrev pub or_refuse {ℓ} : {A : Type ℓ} → Refusal → Option A → Reply A
or_refuse e none = refused e
or_refuse e (some a) = done a

abbrev pub require : Bool → Refusal → Reply {0} Unit
require true e = done tt
require false e = refused e

abbrev pub coalesce {ℓ} : {A : Type ℓ} → Option A → A → A
coalesce none d = d
coalesce (some a) d = a

-- COALESCE of two columns
abbrev pub first_of {ℓ} : {A : Type ℓ} → Option A → Option A → Option A
first_of none o = o
first_of (some a) o = some a

-- What `enqueue_job` reads of the tables of accounts, memberships, transcripts and opportunities.
-- `member org` is `require_active_member_for_org` for the caller's token.
pub record Directory : Type 0 where
  pub account_org : Uuid → Option Uuid
  pub member : Uuid → Option Uuid
  pub transcript : Uuid → Uuid → Uuid → Option (Option Time)
  pub opportunity : Uuid → Uuid → Uuid → Bool

pub record JobRequest : Type 0 where
  pub account_id : Uuid
  pub transcript_id : Uuid
  pub opportunity_id : Option Uuid
  pub skill : String
  pub skill_version : String
  pub model : Option String
  pub runtime_version : Option String
  pub idempotency_key : Option String
  pub max_attempts : Option ℕ
  pub payload : Json
  pub input_refs : Json
  pub source_manifest : Json

-- The row that the INSERT makes, with the defaults of the table.
unfoldable pub queued_row : Uuid → Uuid → Time → JobRequest → JobRow
queued_row org user now r = record {
  org_id = org;
  account_id = r.account_id;
  opportunity_id = r.opportunity_id;
  transcript_id = r.transcript_id;
  requester_id = user;
  skill = r.skill;
  skill_version = r.skill_version;
  model = r.model;
  runtime_version = r.runtime_version;
  worker_id = none;
  status = queued;
  payload = r.payload;
  input_refs = r.input_refs;
  source_manifest = r.source_manifest;
  result_output_id = none;
  validation_status = "unvalidated";
  token_usage = obj end;
  cost = none;
  attempts = 0;
  max_attempts = coalesce r.max_attempts 3;
  started_at = none;
  finished_at = none;
  timeout_at = none;
  cancelled_at = none;
  cancelled_by = none;
  cancel_requested_at = none;
  next_attempt_after = none;
  dead_lettered = false;
  idempotency_key = r.idempotency_key;
  error = none;
  created_at = now;
}

abbrev pub has_key : Uuid → String → JobRow → Bool
has_key org key j =
    eqb j.org_id org && elim j.idempotency_key [ none ↦ false | some held ↦ held == key ]

-- SELECT ... FROM jobs WHERE org_id = ... AND idempotency_key = ...
unfoldable pub find_by_key : Uuid → String → List (Uuid × JobRow) → Option (Uuid × JobRow)
find_by_key org key [] = none
find_by_key org key ((i, j) ∷ rows) =
    if has_key org key j then some (i, j) else find_by_key org key rows

-- The stored row asks for what the request asks for.
unfoldable pub same_request : (Json → Json → Bool) → JobRow → JobRequest → Bool
same_request json_eq j r =
    eqb j.account_id r.account_id
    && eqb j.transcript_id r.transcript_id
    && eqb (coalesce j.opportunity_id 0) (coalesce r.opportunity_id 0)
    && (j.skill == r.skill)
    && (j.skill_version == r.skill_version)
    && (coalesce j.model "" == coalesce r.model "")
    && (coalesce j.runtime_version "" == coalesce r.runtime_version "")
    && eqb j.max_attempts (coalesce r.max_attempts 3)
    && json_eq j.payload r.payload
    && json_eq j.input_refs r.input_refs
    && json_eq j.source_manifest r.source_manifest

-- INSERT INTO jobs, with the identifier that the server drew
unfoldable pub insert_job : Uuid → JobRow → Db → Reply Db
insert_job id job db = do
  _ ← require (is_none (find id db.jobs)) duplicate_id
  done (record db { jobs = (id, job) ∷ db.jobs })

abbrev pub opportunity_ok : Directory → Uuid → JobRequest → Bool
opportunity_ok d org r = elim r.opportunity_id [
  | none ↦ true
  | some o ↦ d.opportunity o r.account_id org
]

-- The row that has the request's idempotency key.
unfoldable pub stored : Uuid → Option String → Db → Option (Uuid × JobRow)
stored org none db = none
stored org (some key) db = find_by_key org key db.jobs

unfoldable pub insert_or_select :
    (Json → Json → Bool)
    → Uuid
    → Uuid
    → Uuid
    → Time
    → JobRequest
    → Db
    → Reply ((Uuid × Status × Time) × Db)
insert_or_select json_eq id org user now r db = elim (stored org r.idempotency_key db) [
  | none ↦ do after ← insert_job id (queued_row org user now r) db; done ((id, queued, now), after)
  | some (held, j) ↦ do
    _ ← require (same_request json_eq j r) key_conflict
    done ((held, j.status, j.created_at), db)
]

-- Returns the job's identifier, its status and its time of creation.
unfoldable pub enqueue_job :
    (Json → Json → Bool)
    → Directory
    → Uuid
    → Time
    → JobRequest
    → Db
    → Reply ((Uuid × Status × Time) × Db)
enqueue_job json_eq d id now r db = do
  org ← or_refuse account_not_found (d.account_org r.account_id)
  user ← or_refuse not_a_member (d.member org)
  tombstoned_at ← or_refuse transcript_not_found (d.transcript r.transcript_id r.account_id org)
  _ ← require (is_none tombstoned_at) transcript_deleted
  _ ← require (opportunity_ok d org r) opportunity_not_found
  _ ← require (ltb 0 (coalesce r.max_attempts 3)) check_violation
  insert_or_select json_eq id org user now r db

unfoldable pub cancel_queued : Uuid → Time → JobRow → JobRow
cancel_queued user now j = record j {
  status = cancelled;
  cancelled_at = some now;
  cancelled_by = some user;
  finished_at = some now;
  timeout_at = none;
  next_attempt_after = none;
}

-- A running job: the request is recorded, and the worker ends the job.
unfoldable pub ask : Uuid → Time → JobRow → JobRow
ask user now j = record j { cancel_requested_at = some now; cancelled_by = some user }

-- The branches for the statuses of the job.
unfoldable pub cancel_or_ask : Uuid → Uuid → Time → JobRow → Status → Db → Reply Db
cancel_or_ask user id now job cancelled db = done db
cancel_or_ask user id now job success db = refused terminal_job
cancel_or_ask user id now job failure db = refused terminal_job
cancel_or_ask user id now job timeout db = refused terminal_job
cancel_or_ask user id now job queued db =
    done (record db { jobs = update_row id (cancel_queued user now) db.jobs })
cancel_or_ask user id now job running db = do
  _ ← require (is_none job.cancel_requested_at) no_longer_running
  done (record db { jobs = update_row id (ask user now) db.jobs })

unfoldable pub request_job_cancellation : Directory → Uuid → Time → Db → Reply Db
request_job_cancellation d id now db = do
  job ← or_refuse job_not_found (find id db.jobs)
  user ← or_refuse not_a_member (d.member job.org_id)
  cancel_or_ask user id now job job.status db
