-- ===== src/Hosted/Tables.antt =====
-- webapp/hosted/migrations/003_jobs_and_worker.sql and 004_outputs_and_reviews.sql: the tables
-- `jobs`, `job_attempts` and `outputs`. A table is the list of its rows, each with its key: a job
-- and an output by their identifier, an attempt by its job and its number. A UUID and a time (in
-- seconds) are numbers, a NUMERIC(12, 4) is counted in its units of 0.0001.
use se_skills.Prelude.{
  ℕ, ◌≡◌, Bool, ◌&&◌, String, Option, none, some, List, [], ◌∷◌, eqb, if◌then◌else◌, arith, eqb→eq,
  eqb_refl, Bool-cases, inl, inr,
}
use se_skills.Prelude.Int.{ℤ}
use se_skills.Json.{Json}
use mathlib.Core.Option

abbrev pub Uuid : Type 0
Uuid = ℕ

abbrev pub Time : Type 0
Time = ℕ

pub data Status : Type 0 where
  queued running success failure cancelled timeout : Status

pub record JobRow : Type 0 where
  pub org_id : Uuid
  pub account_id : Uuid
  pub opportunity_id : Option Uuid
  pub transcript_id : Uuid
  pub requester_id : Uuid
  pub skill : String
  pub skill_version : String
  pub model : Option String
  pub runtime_version : Option String
  pub worker_id : Option String
  pub status : Status
  pub payload : Json
  pub input_refs : Json
  pub source_manifest : Json
  pub result_output_id : Option Uuid
  pub validation_status : String
  pub token_usage : Json
  pub cost : Option ℤ
  pub attempts : ℕ
  pub max_attempts : ℕ
  pub started_at : Option Time
  pub finished_at : Option Time
  pub timeout_at : Option Time
  pub cancelled_at : Option Time
  pub cancelled_by : Option Uuid
  pub cancel_requested_at : Option Time
  pub next_attempt_after : Option Time
  pub dead_lettered : Bool
  pub idempotency_key : Option String
  pub error : Option String
  pub created_at : Time

-- The outcome is one of the statuses that end an attempt.
pub record AttemptRow : Type 0 where
  pub org_id : Uuid
  pub worker_id : Option String
  pub runtime_version : Option String
  pub model : Option String
  pub lease_token : Uuid
  pub started_at : Time
  pub finished_at : Option Time
  pub heartbeat_at : Option Time
  pub outcome : Option Status
  pub error_category : Option String
  pub error : Option String
  pub token_usage : Json
  pub cost : Option ℤ

-- The columns of `outputs` that the job functions read or write.
pub record OutputRow : Type 0 where
  pub org_id : Uuid
  pub job_id : Uuid
  pub validation_status : String
  pub tombstoned_at : Option Time

abbrev pub Attempts : Type 0
Attempts = List (Uuid × ℕ × AttemptRow)

pub record Db : Type 0 where
  pub jobs : List (Uuid × JobRow)
  pub attempts : Attempts
  pub outputs : List (Uuid × OutputRow)

module _ {ℓ} {A : Type ℓ} where
  -- SELECT ... WHERE id = ...
  unfoldable pub find : Uuid → List (Uuid × A) → Option A
  find i [] = none
  find i ((j, row) ∷ rows) = if eqb j i then some row else find i rows

  -- UPDATE ... WHERE id = ...
  unfoldable pub update_row : Uuid → (A → A) → List (Uuid × A) → List (Uuid × A)
  update_row i f [] = []
  update_row i f ((j, row) ∷ rows) =
      if eqb j i then (j, f row) ∷ rows else (j, row) ∷ update_row i f rows

  pub find-update_row :
      (k i : Uuid) (f : A → A) (rows : List (Uuid × A))
      → find k (update_row i f rows) ≡ (if eqb i k then Option.map f (find k rows) else find k rows)
  unfolding find update_row
  find-update_row k i f [] = ground arith
  find-update_row k i f ((j, row) ∷ rows) =
      ground (arith, find-update_row k i f rows, eqb→eq i k, eqb→eq j i, eqb→eq j k, eqb_refl k)

  find-update_none :
      (k i : Uuid) (f : A → A) (rows : List (Uuid × A))
      → find k rows ≡ none
      → find k (update_row i f rows) ≡ none
  find-update_none k i f rows e = rw (find-update_row, e) (ground arith)

  -- The primary key.
  abbrev pub Distinct : List (Uuid × A) → Type ℓ
  Distinct [] = Unit
  Distinct ((i, row) ∷ rows) = (find i rows ≡ none) × Distinct rows

  pub update_row-Distinct :
      (i : Uuid) (f : A → A) (rows : List (Uuid × A))
      → Distinct rows
      → Distinct (update_row i f rows)
  unfolding update_row
  update_row-Distinct i f [] d = d
  update_row-Distinct i f ((j, row) ∷ rows) (fresh, d) = elim (Bool-cases (eqb j i)) [
    | inl here ↦ rw here (fresh, d)
    | inr other ↦ rw other (find-update_none j i f rows fresh, update_row-Distinct i f rows d)
  ]

-- SELECT ... FROM job_attempts WHERE job_id = ... AND attempt_number = ...
unfoldable pub find_attempt : Uuid → ℕ → Attempts → Option AttemptRow
find_attempt i n [] = none
find_attempt i n ((j, m, row) ∷ rows) =
    if eqb j i && eqb m n then some row else find_attempt i n rows

-- UPDATE job_attempts ... WHERE id = v_attempt.id
unfoldable pub update_attempt : Uuid → ℕ → (AttemptRow → AttemptRow) → Attempts → Attempts
update_attempt i n f [] = []
update_attempt i n f ((j, m, row) ∷ rows) =
    if eqb j i && eqb m n then (j, m, f row) ∷ rows else (j, m, row) ∷ update_attempt i n f rows

pub find_attempt-update_attempt :
    (k i : Uuid) (m n : ℕ) (f : AttemptRow → AttemptRow) (rows : Attempts)
    → find_attempt k m (update_attempt i n f rows)
      ≡ (if eqb i k && eqb n m then Option.map f (find_attempt k m rows) else find_attempt k m rows)
unfolding find_attempt update_attempt
find_attempt-update_attempt k i m n f [] = ground arith
find_attempt-update_attempt k i m n f ((j, l, row) ∷ rows) =
    ground (arith, find_attempt-update_attempt k i m n f rows)

-- UPDATE outputs SET tombstoned_at = clock_timestamp() WHERE ...
unfoldable pub tombstone :
    (Uuid → OutputRow → Bool) → Time → List (Uuid × OutputRow) → List (Uuid × OutputRow)
tombstone chosen now [] = []
tombstone chosen now ((i, row) ∷ rows) =
    let rest = tombstone chosen now rows in
    if chosen i row then (i, record row { tombstoned_at = some now }) ∷ rest else (i, row) ∷ rest
