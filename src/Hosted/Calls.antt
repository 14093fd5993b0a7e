-- ===== src/Hosted/Calls.antt =====
-- webapp/hosted: the calls that change the ledger, as the application and the workers make them.
-- A call that raises leaves the database as it was.
use se_skills.Prelude.{
  ℕ, ◌≡◌, refl, String, Bool, true, false, Option, List, [], ◌∷◌, if◌then◌else◌,
}
use se_skills.Json.{Json}
use se_skills.Hosted.Tables.{Uuid, Time, Db}
use se_skills.Hosted.Queue.{
  Reply, done, refused, ◌>>=◌, Directory, JobRequest, enqueue_job, request_job_cancellation,
}
use se_skills.Hosted.Claim.{claim_next_job}
use se_skills.Hosted.Lease.{Completion, worker_heartbeat, complete_job, cancel_job}
use se_skills.Hosted.Retry.{Failure, fail_job, recover_expired_leases}

-- What the holder of a lease calls.
pub data HolderCall : Type 0 where
  heartbeats : ℕ → HolderCall
  completes : Completion → HolderCall
  fails : Failure → HolderCall
  cancels : HolderCall

-- `by_holder` is a call about a job and an attempt, with a lease token or NULL for it.
pub data Call : Type 0 where
  enqueues : Directory → Uuid → JobRequest → Call
  asks_cancellation : Directory → Uuid → Call
  claims : (Uuid → Bool) → String → ℕ → Uuid → Call
  recovers : (Uuid → Bool) → Option ℕ → Call
  by_holder : Uuid → ℕ → Option Uuid → HolderCall → Call

abbrev pub second {ℓ} : {A : Type ℓ} → Reply (A × Db) → Reply Db
second (done (a, db)) = done db
second (refused e) = refused e

abbrev pub after : Db → Reply Db → Db
after db (done next) = next
after db (refused e) = db

-- A property of the database that a chain of checks and updates keeps.
pub chain-after {ℓ κ} :
    {A : Type ℓ} (P : Db → Type κ) (db : Db) (m : Reply A) (f : A → Reply Db)
    → P db
    → ((a : A) → m ≡ done a → P (after db (f a)))
    → P (after db (m >>= f))
chain-after P db (done a) f p k = k a refl
chain-after P db (refused e) f p k = p

pub chain-second {ℓ ι κ} :
    {A : Type ℓ} {B : Type ι} (P : Db → Type κ) (db : Db) (m : Reply A) (f : A → Reply (B × Db))
    → P db
    → ((a : A) → m ≡ done a → P (after db (second (f a))))
    → P (after db (second (m >>= f)))
chain-second P db (done a) f p k = k a refl
chain-second P db (refused e) f p k = p

pub branch-second {ℓ κ} :
    {A : Type ℓ} (P : Db → Type κ) (db : Db) (b : Bool) (x y : Reply (A × Db))
    → (b ≡ true → P (after db (second x)))
    → (b ≡ false → P (after db (second y)))
    → P (after db (second (if b then x else y)))
branch-second P db true x y t f = t refl
branch-second P db false x y t f = f refl

pub branch {ℓ κ} :
    {A : Type ℓ} (P : A → Type κ) (b : Bool) (x y : A)
    → (b ≡ true → P x)
    → (b ≡ false → P y)
    → P (if b then x else y)
branch P true x y t f = t refl
branch P false x y t f = f refl

unfoldable pub holder_call : Uuid → ℕ → Option Uuid → Time → HolderCall → Db → Reply Db
holder_call id number token now (heartbeats timeout_seconds) db =
    second (worker_heartbeat id number token timeout_seconds now db)
holder_call id number token now (completes c) db = second (complete_job id number token c now db)
holder_call id number token now (fails e) db = fail_job id number token e now db
holder_call id number token now cancels db = cancel_job id number token now db

-- The database after a call at a time.
unfoldable pub apply : (Json → Json → Bool) → Time × Call → Db → Db
apply json_eq (now, enqueues d id r) db = after db (second (enqueue_job json_eq d id now r db))
apply json_eq (now, asks_cancellation d id) db = after db (request_job_cancellation d id now db)
apply json_eq (now, claims locked worker timeout_seconds token) db =
    (claim_next_job locked worker timeout_seconds token now db).1
apply json_eq (now, recovers locked backoff_seconds) db =
    (recover_expired_leases locked backoff_seconds now db).1
apply json_eq (now, by_holder id number token call) db =
    after db (holder_call id number token now call db)

unfoldable pub run : (Json → Json → Bool) → List (Time × Call) → Db → Db
run json_eq [] db = db
run json_eq (c ∷ cs) db = run json_eq cs (apply json_eq c db)
