-- ===== src/Hosted/Abandoned.antt =====
-- webapp/hosted: a running job whose cancellation was requested, after its worker has gone.
use se_skills.Prelude.{
  ℕ, ◌≡◌, refl, sym, ◌∙◌, subst, String, Bool, true, false, not, Option, some, List, [], ◌∷◌, eqb,
  is_none, is_some, All, arith, Bool-cases, Option-cases, inl, inr, eqb→eq,
}
use se_skills.Json.{Json}
use se_skills.Hosted.Tables.{
  Uuid, Time, Status, queued, running, success, failure, cancelled, timeout, JobRow, Db, find,
  update_row, find-update_row,
}
use se_skills.Hosted.Queue.{
  or_refuse, require, Directory, queued_row, insert_job, cancel_or_ask, request_job_cancellation,
  not_a_member, job_not_found, no_longer_running,
}
use se_skills.Hosted.Claim.{oldest, claim_next_job}
use se_skills.Hosted.Lease.{
  status_runs, check_lease, write, worker_heartbeat, complete_row, keep_result, complete_job,
  cancel_job, hide_outputs,
}
use se_skills.Hosted.Retry.{fail_job, is_expired, abandon, abandon_attempt}
use se_skills.Hosted.Calls.{
  after, branch, branch-second, chain-second, chain-after, Call, enqueues, asks_cancellation,
  claims, recovers, by_holder, HolderCall, heartbeats, completes, fails, cancels, holder_call,
  apply, run,
}
use se_skills.Hosted.Tracked.{Sound}
use se_skills.Hosted.Rules.{enqueue_job-rule, recover_expired_leases-rule}
use se_skills.Hosted.Oldest.{Oldest, oldest-Oldest}
use se_skills.Hosted.Begin.{is_eligible-queued, queued-not_running}
use se_skills.Hosted.Invariant.{apply-Sound}
use se_skills.Hosted.Steps.{drop_result-jobs, keep_result-jobs}

-- The call is none of the calls that the holder of a lease makes about the job.
abbrev pub is_elsewhere : Uuid → Time × Call → Bool
is_elsewhere id (now, by_holder i number token call) = not (eqb i id)
is_elsewhere id (now, enqueues d i r) = true
is_elsewhere id (now, asks_cancellation d i) = true
is_elsewhere id (now, claims locked worker seconds token) = true
is_elsewhere id (now, recovers locked backoff) = true

update_row-other :
    (id i : Uuid) (f : JobRow → JobRow) (rows : List (Uuid × JobRow))
    → eqb i id ≡ false
    → find id (update_row i f rows) ≡ find id rows
update_row-other id i f rows other = rw (find-update_row, other) refl

-- The job, which runs and whose cancellation is requested.
module _ (id : Uuid) (j : JobRow) (runs : status_runs j.status ≡ true)
    (asked : is_some j.cancel_requested_at ≡ true) where
  abbrev Has : Db → Type 0
  Has db = find id db.jobs ≡ some j

  is_elsewhere-update_row :
      (i : Uuid) (f : JobRow → JobRow) (rows : List (Uuid × JobRow))
      → eqb i id ≡ false
      → find id rows ≡ some j
      → find id (update_row i f rows) ≡ some j
  is_elsewhere-update_row i f rows other h = update_row-other id i f rows other ∙ h

  insert_job-Has :
      (i : Uuid) (job : JobRow) (db : Db) → Has db → Has (after db (insert_job i job db))
  unfolding insert_job find
  insert_job-Has i job db h = elim (Option-cases (find i db.jobs)) [
    | inl fresh ↦ elim (Bool-cases (eqb i id)) [
      | inl here ↦ let same : i ≡ id = eqb→eq i id here in cc (same, fresh, h)
      | inr other ↦ rw fresh (rw other h)
    ]
    | inr (k, taken) ↦ rw taken h
  ]

  cancel_or_ask-Has :
      (user i : Uuid) (now : Time) (job : JobRow) (st : Status) (db : Db)
      → find i db.jobs ≡ some job
      → job.status ≡ st
      → Has db
      → Has (after db (cancel_or_ask user i now job st db))
  unfolding cancel_or_ask
  cancel_or_ask-Has user i now job cancelled db found st h = h
  cancel_or_ask-Has user i now job success db found st h = h
  cancel_or_ask-Has user i now job failure db found st h = h
  cancel_or_ask-Has user i now job timeout db found st h = h
  cancel_or_ask-Has user i now job queued db found st h = elim (Bool-cases (eqb i id)) [
    | inl here ↦
        let same : i ≡ id = eqb→eq i id here in
        let row : some job ≡ some j = sym found ∙ (λ k. find (same k) db.jobs) ∙ h in
        ground (arith, queued-not_running job.status (rw st refl))
    | inr other ↦ is_elsewhere-update_row i _ db.jobs other h
  ]
  cancel_or_ask-Has user i now job running db found st h =
      chain-after Has db (require (is_none job.cancel_requested_at) no_longer_running) _ h λ _ free.
        elim (Bool-cases (eqb i id)) [
          | inl here ↦
              let same : i ≡ id = eqb→eq i id here in
              let row : some job ≡ some j = sym found ∙ (λ k. find (same k) db.jobs) ∙ h in
              ground arith
          | inr other ↦ is_elsewhere-update_row i _ db.jobs other h
        ]

  request_job_cancellation-Has :
      (d : Directory) (i : Uuid) (now : Time) (db : Db)
      → Has db
      → Has (after db (request_job_cancellation d i now db))
  unfolding request_job_cancellation
  request_job_cancellation-Has d i now db h =
      chain-after Has db (or_refuse job_not_found (find i db.jobs)) _ h λ job found.
        chain-after Has db (or_refuse not_a_member (d.member job.org_id)) _ h
          λ user _. cancel_or_ask-Has user i now job job.status db (ground arith) refl h

  claim_next_job-Has :
      (locked : Uuid → Bool) (worker : String) (seconds : ℕ) (token : Uuid) (now : Time) (db : Db)
      → Sound db
      → Has db
      → Has (claim_next_job locked worker seconds token now db).1
  unfolding claim_next_job
  claim_next_job-Has locked worker seconds token now db s h =
      elim (Option-cases (oldest locked now db.jobs)) [
        | inl idle ↦ rw (idle, claim_next_job) h
        | inr ((i, k), chosen) ↦
            let o : Oldest locked now db.jobs i k =
              oldest-Oldest locked now db.jobs i k s.keyed chosen in
            elim (Bool-cases (eqb i id)) [
              | inl here ↦
                  let same : i ≡ id = eqb→eq i id here in
                  let row : some k ≡ some j = sym o.found ∙ (λ n. find (same n) db.jobs) ∙ h in
                  let q = queued-not_running k.status (is_eligible-queued now k o.eligible) in
                  ground arith
              | inr other ↦
                  rw (chosen, claim_next_job) (is_elsewhere-update_row i _ db.jobs other h)
            ]
      ]

  abandon-Has :
      (backoff_seconds : Option ℕ) (now : Time) (d : Db) (i : Uuid) (k : JobRow)
      → find i d.jobs ≡ some k
      → is_expired now k ≡ true
      → Has d
      → Has (write i k.attempts (abandon backoff_seconds now) (abandon_attempt now) d)
  unfolding write is_expired
  abandon-Has backoff_seconds now d i k found expired h = elim (Bool-cases (eqb i id)) [
    | inl here ↦
        let same : i ≡ id = eqb→eq i id here in
        let row : some k ≡ some j = sym found ∙ (λ n. find (same n) d.jobs) ∙ h in ground arith
    | inr other ↦ is_elsewhere-update_row i (abandon backoff_seconds now) d.jobs other h
  ]

  holder_call-Has :
      (i : Uuid) (number : ℕ) (token : Option Uuid) (now : Time) (call : HolderCall) (db : Db)
      → eqb i id ≡ false
      → Has db
      → Has (after db (holder_call i number token now call db))
  unfolding holder_call worker_heartbeat complete_job cancel_job fail_job hide_outputs write
  holder_call-Has i number token now (heartbeats seconds) db other h =
      chain-second Has db (check_lease i number token db) _ h
        λ (k, a) _. is_elsewhere-update_row i _ db.jobs other h
  holder_call-Has i number token now (completes c) db other h =
      chain-second Has db (check_lease i number token db) _ h λ (k, a) _.
        branch-second Has db (is_some k.cancel_requested_at) _ _
          (λ _.
            subst (λ rows. find id rows ≡ some j)
              (sym (drop_result-jobs c.result_output_id i k.org_id now _))
              (is_elsewhere-update_row i _ db.jobs other h))
          (λ _. chain-second Has db (keep_result c i k.org_id db) _ h λ kept e.
            subst (λ rows. find id (update_row i (complete_row c now a) rows) ≡ some j)
              (sym (keep_result-jobs c i k.org_id db kept e))
              (is_elsewhere-update_row i _ db.jobs other h))
  holder_call-Has i number token now (fails e) db other h =
      chain-after Has db (check_lease i number token db) _ h λ (k, a) _.
        branch Has (is_some k.cancel_requested_at) _ _
          (λ _. is_elsewhere-update_row i _ db.jobs other h)
          (λ _. is_elsewhere-update_row i _ db.jobs other h)
  holder_call-Has i number token now cancels db other h =
      chain-after Has db (check_lease i number token db) _ h
        λ (k, a) _. is_elsewhere-update_row i _ db.jobs other h

  apply-Has :
      (json_eq : Json → Json → Bool) (c : Time × Call) (db : Db)
      → is_elsewhere id c ≡ true
      → Sound db
      → Has db
      → Has (apply json_eq c db)
  unfolding apply
  apply-Has json_eq (now, enqueues d i r) db away s h =
      enqueue_job-rule Has json_eq d i now r db h
        λ org user _. insert_job-Has i (queued_row org user now r) db h
  apply-Has json_eq (now, asks_cancellation d i) db away s h =
      request_job_cancellation-Has d i now db h
  apply-Has json_eq (now, claims locked worker seconds token) db away s h =
      claim_next_job-Has locked worker seconds token now db s h
  apply-Has json_eq (now, recovers locked backoff) db away s h =
      recover_expired_leases-rule Has locked backoff now (abandon-Has backoff now) db h
  apply-Has json_eq (now, by_holder i number token call) db away s h =
      holder_call-Has i number token now call db (ground arith) h

-- From a sound database on, a running job whose cancellation was requested keeps its row as it is,
-- and so keeps running, whatever calls are made and however long after its lease has ended, as long
-- as the holder of its lease makes none.
pub run-is_elsewhere :
    (json_eq : Json → Json → Bool) (id : Uuid) (job : JobRow) (calls : List (Time × Call)) (db : Db)
    → Sound db
    → find id db.jobs ≡ some job
    → status_runs job.status ≡ true
    → is_some job.cancel_requested_at ≡ true
    → All (λ c. is_elsewhere id c ≡ true) calls
    → find id (run json_eq calls db).jobs ≡ some job
unfolding run
run-is_elsewhere json_eq id job [] db s found runs asked away = found
run-is_elsewhere json_eq id job (c ∷ calls) db s found runs asked (here, away) =
    run-is_elsewhere json_eq id job calls (apply json_eq c db) (apply-Sound json_eq c db s)
      (apply-Has id job runs asked json_eq c db here s found) runs asked away
