-- ===== src/Hosted/Finish.antt =====
-- webapp/hosted/migrations: the rows after the calls of a lease's holder and after
-- `recover_expired_leases`.
use se_skills.Prelude.{
  ℕ, ◌≡◌, refl, sym, subst, Bool, true, false, Option, none, some, List, leb, is_none, is_some,
  if◌then◌else◌, arith, Bool-cases, inl, inr,
}
use se_skills.Hosted.Tables.{Uuid, Time, Status, JobRow, AttemptRow, OutputRow, Db, find}
use se_skills.Hosted.Queue.{done}
use se_skills.Hosted.Claim.{is_queued}
use se_skills.Hosted.Lease.{
  status_runs, check_lease, write, worker_heartbeat, Completion, complete_attempt, complete_row,
  drop_result, keep_result, complete_job, cancel_job, hide_outputs,
}
use se_skills.Hosted.Retry.{
  Failure, failed_status, fail_attempt, fail_cancelled, fail_last, fail_retry, fail_job, is_expired,
  abandon, abandon_attempt, recover_expired_leases,
}
use se_skills.Hosted.Tracked.{Tracked, Sound, Closed, close-Sound}
use se_skills.Hosted.Leases.{Held, check_lease-Held, Held-latest}
use se_skills.Hosted.Begin.{queued-not_running}
use se_skills.Hosted.Rules.{recover_expired_leases-rule}
use se_skills.Hosted.Rows.{Beside-Sound}
use se_skills.Hosted.Calls.{
  second, after, branch, branch-second, chain-second, chain-after, HolderCall, heartbeats,
  completes, fails, cancels, holder_call,
}

running-not_queued : (s : Status) → status_runs s ≡ true → is_queued s ≡ false
running-not_queued s r = elim (Bool-cases (is_queued s)) [
  | inl q ↦ cc (r, queued-not_running s q)
  | inr n ↦ n
]

-- The holder of the lease ends the attempt.
Held-Sound :
    (id : Uuid) (number : ℕ) (token : Option Uuid) (f : JobRow → JobRow)
    (g : AttemptRow → AttemptRow) (db : Db) (j : JobRow) (a : AttemptRow)
    → Held id number token db j a
    → ((b : AttemptRow) → is_none (g b).outcome ≡ false)
    → Closed j (f j)
    → Sound db
    → Sound (write id number f g db)
Held-Sound id number token f g db j a h closes c s =
    subst (λ n. Sound (write id n f g db)) (sym (Held-latest id number token db j a s h))
      (close-Sound id f g db j h.job closes c s)

worker_heartbeat-Sound :
    (id : Uuid) (number : ℕ) (token : Option Uuid) (timeout_seconds : ℕ) (now : Time) (db : Db)
    → Sound db
    → Sound (after db (second (worker_heartbeat id number token timeout_seconds now db)))
unfolding worker_heartbeat
worker_heartbeat-Sound id number token timeout_seconds now db s =
    chain-second Sound db (check_lease id number token db) _ s λ (j, a) e.
      let h = check_lease-Held id number token db j a e in
      Beside-Sound id number _ _ db j h.job (λ _. refl)
        (record {
          attempts_kept = refl;
          max_kept = refl;
          as_running = refl;
          leased = sym h.runs;
          not_queued = running-not_queued j.status h.runs;
          dead_kept = refl;
        })
        s

outputs-Sound :
    (db : Db) (outputs : List (Uuid × OutputRow))
    → Sound db
    → Sound (record db { outputs = outputs })
outputs-Sound db outputs s = record { keyed = s.keyed; known = s.known; unknown = s.unknown }

hide_outputs-Sound :
    (id org : Uuid) (now : Time) (db : Db) → Sound db → Sound (hide_outputs id org now db)
unfolding hide_outputs
hide_outputs-Sound id org now db s = outputs-Sound db _ s

drop_result-Sound :
    (output : Option Uuid) (id org : Uuid) (now : Time) (db : Db)
    → Sound db
    → Sound (drop_result output id org now db)
unfolding drop_result
drop_result-Sound none id org now db s = s
drop_result-Sound (some output) id org now db s = outputs-Sound db _ s

keep_result-rows :
    (c : Completion) (id org : Uuid) (db kept : Db)
    → keep_result c id org db ≡ done kept
    → kept ≡ record db { outputs = kept.outputs }
unfolding keep_result
keep_result-rows c id org db kept e = ground arith

-- The row of a job that has ended.
ended-Closed :
    {j k : JobRow}
    → k.attempts ≡ j.attempts
    → k.max_attempts ≡ j.max_attempts
    → status_runs k.status ≡ false
    → is_queued k.status ≡ false
    → k.timeout_at ≡ none
    → Closed j k
ended-Closed ea em r q t = record {
  attempts_kept = ea;
  max_kept = em;
  stopped = r;
  released = rw t refl;
  left = λ x. cc (x, q);
  unasked = λ x. cc (x, q);
  alive = λ x. cc (x, q);
}

complete_job-Sound :
    (id : Uuid) (number : ℕ) (token : Option Uuid) (c : Completion) (now : Time) (db : Db)
    → Sound db
    → Sound (after db (second (complete_job id number token c now db)))
unfolding complete_job complete_attempt complete_row write
complete_job-Sound id number token c now db s =
    chain-second Sound db (check_lease id number token db) _ s λ (j, a) e.
      let h = check_lease-Held id number token db j a e in
      branch-second Sound db (is_some j.cancel_requested_at) _ _
        (λ _. drop_result-Sound c.result_output_id id j.org_id now _ (
          Held-Sound id number token _ _ db j a h (λ _. refl)
            (ended-Closed refl refl refl refl refl) s))
        (λ _. chain-second Sound db (keep_result c id j.org_id db) _ s λ kept k.
          let rows : kept ≡ record db { outputs = kept.outputs } =
            keep_result-rows c id j.org_id db kept k in
          subst (λ d. Sound (write id number (complete_row c now a) (complete_attempt c now) d))
            (sym rows)
            (outputs-Sound (write id number (complete_row c now a) (complete_attempt c now) db)
              kept.outputs
              (Held-Sound id number token _ _ db j a h (λ _. refl)
                (ended-Closed refl refl refl refl refl) s)))

cancel_job-Sound :
    (id : Uuid) (number : ℕ) (token : Option Uuid) (now : Time) (db : Db)
    → Sound db
    → Sound (after db (cancel_job id number token now db))
unfolding cancel_job
cancel_job-Sound id number token now db s =
    chain-after Sound db (check_lease id number token db) _ s λ (j, a) e.
      hide_outputs-Sound id j.org_id now _ (
        Held-Sound id number token _ _ db j a (check_lease-Held id number token db j a e)
          (λ _. refl) (ended-Closed refl refl refl refl refl) s)

failed_status-ended :
    (e : Failure) → (status_runs (failed_status e) ≡ false) × (is_queued (failed_status e) ≡ false)
failed_status-ended e = ground arith

-- A job that has ended or waits for its next attempt.
fail_row-Closed :
    (look : ℕ → Option AttemptRow) (e : Failure) (now : Time) (a : AttemptRow) (j : JobRow)
    → is_some j.cancel_requested_at ≡ false
    → status_runs j.status ≡ true
    → Tracked look j
    → Closed j ((if leb j.max_attempts j.attempts then fail_last e now a else fail_retry e now a) j)
unfolding fail_last fail_retry
fail_row-Closed look e now a j unasked runs t =
    branch (λ f. Closed j (f j)) (leb j.max_attempts j.attempts) (fail_last e now a)
      (fail_retry e now a)
      (λ _. ended-Closed refl refl (failed_status-ended e).0 (failed_status-ended e).1 refl)
      (λ more. record {
        attempts_kept = refl;
        max_kept = refl;
        stopped = refl;
        released = refl;
        left = λ _. ground arith;
        unasked = λ _. ground arith;
        alive = λ _. t.alive_running runs;
      })

fail_job-Sound :
    (id : Uuid) (number : ℕ) (token : Option Uuid) (e : Failure) (now : Time) (db : Db)
    → Sound db
    → Sound (after db (fail_job id number token e now db))
unfolding fail_job fail_cancelled fail_attempt
fail_job-Sound id number token e now db s =
    chain-after Sound db (check_lease id number token db) _ s λ (j, a) held.
      let h = check_lease-Held id number token db j a held in
      hide_outputs-Sound id j.org_id now _ (
        branch Sound (is_some j.cancel_requested_at) _ _
          (λ _.
            Held-Sound id number token _ _ db j a h (λ _. refl)
              (ended-Closed refl refl refl refl refl) s)
          (λ unasked.
            Held-Sound id number token _ _ db j a h (λ _. refl)
              (fail_row-Closed _ e now a j unasked h.runs (s.known id j h.job)) s))

abandon-Closed :
    (look : ℕ → Option AttemptRow) (backoff_seconds : Option ℕ) (now : Time) (j : JobRow)
    → is_expired now j ≡ true
    → Tracked look j
    → Closed j (abandon backoff_seconds now j)
unfolding abandon is_expired
abandon-Closed look backoff_seconds now j expired t =
    branch (λ k. Closed j k) (leb j.max_attempts j.attempts) _ _
      (λ _. ended-Closed refl refl refl refl refl)
      (λ more. record {
        attempts_kept = refl;
        max_kept = refl;
        stopped = refl;
        released = refl;
        left = λ _. ground arith;
        unasked = λ _. ground arith;
        alive = λ _. t.alive_running (ground arith);
      })

pub abandon-Sound :
    (backoff_seconds : Option ℕ) (now : Time) (db : Db) (id : Uuid) (j : JobRow)
    → find id db.jobs ≡ some j
    → is_expired now j ≡ true
    → Sound db
    → Sound (write id j.attempts (abandon backoff_seconds now) (abandon_attempt now) db)
unfolding abandon_attempt
abandon-Sound backoff_seconds now db id j found expired s =
    close-Sound id (abandon backoff_seconds now) (abandon_attempt now) db j found (λ _. refl)
      (abandon-Closed _ backoff_seconds now j expired (s.known id j found)) s

pub recover_expired_leases-Sound :
    (locked : Uuid → Bool) (backoff_seconds : Option ℕ) (now : Time) (db : Db)
    → Sound db
    → Sound (recover_expired_leases locked backoff_seconds now db).1
recover_expired_leases-Sound locked backoff_seconds now db s =
    recover_expired_leases-rule Sound locked backoff_seconds now (abandon-Sound backoff_seconds now)
      db s

pub holder_call-Sound :
    (id : Uuid) (number : ℕ) (token : Option Uuid) (now : Time) (call : HolderCall) (db : Db)
    → Sound db
    → Sound (after db (holder_call id number token now call db))
unfolding holder_call
holder_call-Sound id number token now (heartbeats seconds) db s =
    worker_heartbeat-Sound id number token seconds now db s
holder_call-Sound id number token now (completes c) db s =
    complete_job-Sound id number token c now db s
holder_call-Sound id number token now (fails e) db s = fail_job-Sound id number token e now db s
holder_call-Sound id number token now cancels db s = cancel_job-Sound id number token now db s
