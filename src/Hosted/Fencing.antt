-- ===== src/Hosted/Fencing.antt =====
-- webapp/hosted/migrations: the lease token and the attempt's number keep a worker whose lease was
-- taken from it away from the job.
use se_skills.Prelude.{Option, none, some, true, ◌⊎◌, arith, eqb_refl, ℕ, ◌≡◌, refl}
use se_skills.Hosted.Tables.{Uuid, Time, JobRow, AttemptRow, Db, find, find_attempt}
use se_skills.Hosted.Queue.{Reply, done, refused, ◌>>=◌}
use se_skills.Hosted.Lease.{status_runs, check_lease, worker_heartbeat, complete_job, cancel_job}
use se_skills.Hosted.Retry.{fail_job}
use se_skills.Hosted.Calls.{HolderCall, heartbeats, completes, fails, cancels, holder_call, second}
use se_skills.Hosted.Tracked.{Sound}
use se_skills.Hosted.Leases.{check_lease-Held, Held-latest}

first_done {ℓ κ} :
    {A : Type ℓ} {B : Type κ} (m : Reply A) (f : A → Reply B) (b : B)
    → (m >>= f) ≡ done b
    → (a : A) × (m ≡ done a)
first_done (done a) f b e = (a, refl)
first_done (refused r) f b e = cc e

second_done {ℓ κ} :
    {A : Type ℓ} {B : Type κ} (m : Reply A) (f : A → Reply (B × Db)) (db : Db)
    → second (m >>= f) ≡ done db
    → (a : A) × (m ≡ done a)
second_done (done a) f db e = (a, refl)
second_done (refused r) f db e = cc e

pub holder_call-checked :
    (id : Uuid) (number : ℕ) (token : Option Uuid) (now : Time) (call : HolderCall) (db next : Db)
    → holder_call id number token now call db ≡ done next
    → (x : JobRow × AttemptRow) × (check_lease id number token db ≡ done x)
unfolding holder_call worker_heartbeat complete_job fail_job cancel_job
holder_call-checked id number token now (heartbeats seconds) db next e =
    second_done (check_lease id number token db) _ next e
holder_call-checked id number token now (completes c) db next e =
    second_done (check_lease id number token db) _ next e
holder_call-checked id number token now (fails c) db next e =
    first_done (check_lease id number token db) _ next e
holder_call-checked id number token now cancels db next e =
    first_done (check_lease id number token db) _ next e

-- In a sound database a heartbeat, a completion, a failure or a cancellation that is not refused is
-- about a job that runs and its last attempt, which has no outcome; and its token is that attempt's
-- lease token, or NULL.
pub holder_call-latest :
    (id : Uuid) (number : ℕ) (token : Option Uuid) (now : Time) (call : HolderCall) (db next : Db)
    → Sound db
    → holder_call id number token now call db ≡ done next
    → (j : JobRow) × (a : AttemptRow) × (find id db.jobs ≡ some j)
      × (status_runs j.status ≡ true)
      × (number ≡ j.attempts)
      × (find_attempt id number db.attempts ≡ some a)
      × (a.outcome ≡ none)
      × ((token ≡ none) ⊎ (token ≡ some a.lease_token))
holder_call-latest id number token now call db next s e =
    let ((j, a), ok) = holder_call-checked id number token now call db next e in
    let h = check_lease-Held id number token db j a ok in
    (
      j,
      a,
      h.job,
      h.runs,
      Held-latest id number token db j a s h,
      h.attempt,
      ground (arith, h.opened),
      h.token_matches,
    )

check_lease-null :
    (id : Uuid) (number : ℕ) (db : Db) (a : AttemptRow)
    → find_attempt id number db.attempts ≡ some a
    → check_lease id number none db ≡ check_lease id number (some a.lease_token) db
unfolding check_lease
check_lease-null id number db a there = rw there (rw eqb_refl refl)

-- Whatever the holder of a lease can call, a caller without the lease can call too, with NULL for the
-- token: the heartbeat, completion, failure or cancellation of an attempt has the same reply and the
-- same effect as with the lease token of the attempt.
pub holder_call-null :
    (id : Uuid) (number : ℕ) (now : Time) (call : HolderCall) (db : Db) (a : AttemptRow)
    → find_attempt id number db.attempts ≡ some a
    → holder_call id number none now call db
      ≡ holder_call id number (some a.lease_token) now call db
unfolding holder_call worker_heartbeat complete_job fail_job cancel_job
holder_call-null id number now (heartbeats seconds) db a there =
    rw (check_lease-null id number db a there) refl
holder_call-null id number now (completes c) db a there =
    rw (check_lease-null id number db a there) refl
holder_call-null id number now (fails c) db a there =
    rw (check_lease-null id number db a there) refl
holder_call-null id number now cancels db a there = rw (check_lease-null id number db a there) refl
