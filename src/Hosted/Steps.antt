-- ===== src/Hosted/Steps.antt =====
-- webapp/hosted/migrations: every call that changes the ledger, as a change of the rows of `jobs`.
use se_skills.Prelude.{
  ℕ, ◌≡◌, refl, sym, subst, Bool, true, Option, none, some, eqb, leb, is_none, is_some, arith,
  Bool-cases, Option-cases, inl, inr, eqb→eq,
}
use se_skills.Hosted.Tables.{
  Uuid, Time, Status, queued, running, success, failure, cancelled, timeout, JobRow, AttemptRow, Db,
  find, update_row,
}
use se_skills.Hosted.Queue.{
  done, or_refuse, require, Directory, insert_job, cancel_or_ask, cancel_queued, ask,
  request_job_cancellation, not_a_member, job_not_found, no_longer_running,
}
use se_skills.Hosted.Lease.{
  check_lease, write, worker_heartbeat, Completion, complete_attempt, complete_row, drop_result,
  keep_result, complete_job, cancel_job, hide_outputs,
}
use se_skills.Hosted.Retry.{
  Failure, fail_cancelled, fail_last, fail_retry, fail_job, is_expired, abandon, abandon_attempt,
  recover_expired_leases,
}
use se_skills.Hosted.Leases.{check_lease-Held}
use se_skills.Hosted.Calls.{
  second, after, branch, branch-second, chain-second, chain-after, HolderCall, heartbeats,
  completes, fails, cancels, holder_call,
}
use se_skills.Hosted.Rules.{recover_expired_leases-rule}
use se_skills.Hosted.Progress.{
  Progresses, Stays-refl, Stays-trans, asked_for, live-Progress, update_row-Progresses,
  running-Progresses,
}

abbrev pub From : Db → Db → Type 0
From db next = Progresses db.jobs next.jobs

pub nothing_new : (db : Db) → From db db
nothing_new db k = Stays-refl (find k db.jobs)

pub insert_job-Progresses :
    (id : Uuid) (job : JobRow) (db : Db) → From db (after db (insert_job id job db))
unfolding insert_job find
insert_job-Progresses id job db k = elim (Option-cases (find id db.jobs)) [
  | inl fresh ↦ rw fresh (elim (Bool-cases (eqb id k)) [
    | inl here ↦
        let same : id ≡ k = eqb→eq id k here in
        let at_k : find k db.jobs ≡ none = cc (same, fresh) in rw (here, at_k) tt
    | inr other ↦ rw other (Stays-refl (find k db.jobs))
  ])
  | inr (j, taken) ↦ rw taken (Stays-refl (find k db.jobs))
]

cancel_or_ask-Progresses :
    (user id : Uuid) (now : Time) (job : JobRow) (st : Status) (db : Db)
    → find id db.jobs ≡ some job
    → job.status ≡ st
    → From db (after db (cancel_or_ask user id now job st db))
unfolding cancel_or_ask cancel_queued ask
cancel_or_ask-Progresses user id now job cancelled db found st = nothing_new db
cancel_or_ask-Progresses user id now job success db found st = nothing_new db
cancel_or_ask-Progresses user id now job failure db found st = nothing_new db
cancel_or_ask-Progresses user id now job timeout db found st = nothing_new db
cancel_or_ask-Progresses user id now job queued db found st =
    update_row-Progresses id (cancel_queued user now) db.jobs job found
      (live-Progress job (cancel_queued user now job) (rw st refl) refl (omega arith))
cancel_or_ask-Progresses user id now job running db found st =
    chain-after (From db) db (require (is_none job.cancel_requested_at) no_longer_running) _
      (nothing_new db)
      λ _ _.
        update_row-Progresses id (ask user now) db.jobs job found
          (live-Progress job (ask user now job) (rw st refl) refl (omega arith))

pub request_job_cancellation-Progresses :
    (d : Directory) (id : Uuid) (now : Time) (db : Db)
    → From db (after db (request_job_cancellation d id now db))
unfolding request_job_cancellation
request_job_cancellation-Progresses d id now db =
    chain-after (From db) db (or_refuse job_not_found (find id db.jobs)) _ (nothing_new db)
      λ job found.
        chain-after (From db) db (or_refuse not_a_member (d.member job.org_id)) _ (nothing_new db)
          λ user _. cancel_or_ask-Progresses user id now job job.status db (ground arith) refl

-- The holder of the lease changes the row of the job.
Held-Progresses :
    (id : Uuid) (number : ℕ) (token : Option Uuid) (f : JobRow → JobRow) (db : Db) (j : JobRow)
    (a : AttemptRow)
    → check_lease id number token db ≡ done (j, a)
    → asked_for (f j) ≡ asked_for j
    → (f j).attempts ≡ j.attempts
    → Progresses db.jobs (update_row id f db.jobs)
Held-Progresses id number token f db j a e same count =
    let h = check_lease-Held id number token db j a e in
    running-Progresses id f db.jobs j h.job h.runs same count

worker_heartbeat-Progresses :
    (id : Uuid) (number : ℕ) (token : Option Uuid) (timeout_seconds : ℕ) (now : Time) (db : Db)
    → From db (after db (second (worker_heartbeat id number token timeout_seconds now db)))
unfolding worker_heartbeat write
worker_heartbeat-Progresses id number token timeout_seconds now db =
    chain-second (From db) db (check_lease id number token db) _ (nothing_new db)
      λ (j, a) e. Held-Progresses id number token _ db j a e refl refl

pub drop_result-jobs :
    (output : Option Uuid) (id org : Uuid) (now : Time) (db : Db)
    → (drop_result output id org now db).jobs ≡ db.jobs
unfolding drop_result
drop_result-jobs none id org now db = refl
drop_result-jobs (some output) id org now db = refl

pub keep_result-jobs :
    (c : Completion) (id org : Uuid) (db kept : Db)
    → keep_result c id org db ≡ done kept
    → kept.jobs ≡ db.jobs
unfolding keep_result
keep_result-jobs c id org db kept e = ground arith

complete_job-Progresses :
    (id : Uuid) (number : ℕ) (token : Option Uuid) (c : Completion) (now : Time) (db : Db)
    → From db (after db (second (complete_job id number token c now db)))
unfolding complete_job complete_row complete_attempt write
complete_job-Progresses id number token c now db =
    chain-second (From db) db (check_lease id number token db) _ (nothing_new db) λ (j, a) e.
      branch-second (From db) db (is_some j.cancel_requested_at) _ _
        (λ _.
          subst (Progresses db.jobs) (sym (drop_result-jobs c.result_output_id id j.org_id now _))
            (Held-Progresses id number token _ db j a e refl refl))
        (λ _. chain-second (From db) db (keep_result c id j.org_id db) _ (nothing_new db) λ kept k.
          subst (λ rows. Progresses db.jobs (update_row id (complete_row c now a) rows))
            (sym (keep_result-jobs c id j.org_id db kept k))
            (Held-Progresses id number token _ db j a e refl refl))

cancel_job-Progresses :
    (id : Uuid) (number : ℕ) (token : Option Uuid) (now : Time) (db : Db)
    → From db (after db (cancel_job id number token now db))
unfolding cancel_job hide_outputs write
cancel_job-Progresses id number token now db =
    chain-after (From db) db (check_lease id number token db) _ (nothing_new db)
      λ (j, a) e. Held-Progresses id number token _ db j a e refl refl

fail_job-Progresses :
    (id : Uuid) (number : ℕ) (token : Option Uuid) (e : Failure) (now : Time) (db : Db)
    → From db (after db (fail_job id number token e now db))
unfolding fail_job fail_cancelled fail_last fail_retry hide_outputs write
fail_job-Progresses id number token e now db =
    chain-after (From db) db (check_lease id number token db) _ (nothing_new db) λ (j, a) h.
      branch (From db) (is_some j.cancel_requested_at) _ _
        (λ _. Held-Progresses id number token (fail_cancelled e now) db j a h refl refl)
        (λ _.
          branch (λ f. Progresses db.jobs (update_row id f db.jobs)) (leb j.max_attempts j.attempts)
            (fail_last e now a) (fail_retry e now a)
            (λ _. Held-Progresses id number token (fail_last e now a) db j a h refl refl)
            (λ _. Held-Progresses id number token (fail_retry e now a) db j a h refl refl))

abandon-kept :
    (backoff_seconds : Option ℕ) (now : Time) (j : JobRow)
    → (asked_for (abandon backoff_seconds now j) ≡ asked_for j)
      × ((abandon backoff_seconds now j).attempts ≡ j.attempts)
unfolding abandon
abandon-kept backoff_seconds now j =
    branch (λ k. (asked_for k ≡ asked_for j) × (k.attempts ≡ j.attempts))
      (leb j.max_attempts j.attempts) _ _ (λ _. (refl, refl)) (λ _. (refl, refl))

abandon-Progresses :
    (db : Db) (backoff_seconds : Option ℕ) (now : Time) (d : Db) (id : Uuid) (j : JobRow)
    → find id d.jobs ≡ some j
    → is_expired now j ≡ true
    → From db d
    → From db (write id j.attempts (abandon backoff_seconds now) (abandon_attempt now) d)
unfolding write is_expired
abandon-Progresses db backoff_seconds now d id j found expired before k =
    Stays-trans (find k db.jobs) (find k d.jobs) _ (before k) (
      running-Progresses id (abandon backoff_seconds now) d.jobs j found (ground arith)
        (abandon-kept backoff_seconds now j).0 (abandon-kept backoff_seconds now j).1 k)

pub recover_expired_leases-Progresses :
    (locked : Uuid → Bool) (backoff_seconds : Option ℕ) (now : Time) (db : Db)
    → From db (recover_expired_leases locked backoff_seconds now db).1
recover_expired_leases-Progresses locked backoff_seconds now db =
    recover_expired_leases-rule (From db) locked backoff_seconds now
      (abandon-Progresses db backoff_seconds now) db (nothing_new db)

pub holder_call-Progresses :
    (id : Uuid) (number : ℕ) (token : Option Uuid) (now : Time) (call : HolderCall) (db : Db)
    → From db (after db (holder_call id number token now call db))
unfolding holder_call
holder_call-Progresses id number token now (heartbeats seconds) db =
    worker_heartbeat-Progresses id number token seconds now db
holder_call-Progresses id number token now (completes c) db =
    complete_job-Progresses id number token c now db
holder_call-Progresses id number token now (fails e) db =
    fail_job-Progresses id number token e now db
holder_call-Progresses id number token now cancels db = cancel_job-Progresses id number token now db
