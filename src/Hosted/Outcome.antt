-- ===== src/Hosted/Outcome.antt =====
-- webapp/hosted/migrations/006_output_tombstones_and_rls.sql: what `complete_job`, `fail_job` and
-- `cancel_job` leave of the job, of its attempt and of its outputs.
use se_skills.Prelude.{
  ℕ, ◌≡◌, refl, sym, ◌∙◌, subst, Bool, true, false, Option, none, some, List, leb, is_none, is_some,
  if◌then◌else◌, arith, eqb_refl,
}
use se_skills.Hosted.Tables.{
  Uuid, Time, cancelled, JobRow, AttemptRow, OutputRow, Db, find, find-update_row, find_attempt,
  find_attempt-update_attempt,
}
use se_skills.Hosted.Queue.{Reply, done, refused, ◌>>=◌}
use se_skills.Hosted.Lease.{
  status_runs, check_lease, write, Completion, complete_attempt, complete_row, drop_result,
  keep_result, complete_job, cancel_job, hide_outputs,
}
use se_skills.Hosted.Retry.{
  Failure, failed_status, fail_attempt, fail_cancelled, fail_last, fail_retry, fail_job,
}
use se_skills.Hosted.Calls.{
  HolderCall, heartbeats, completes, fails, cancels, holder_call, second, branch,
}
use se_skills.Hosted.Leases.{check_lease-Held}

-- What a reply gives has the property.
abbrev pub Gives {ℓ κ} : {A : Type ℓ} → (A → Type κ) → Reply A → Type κ
Gives P (done a) = P a
Gives P (refused e) = Unit

Gives-chain {ℓ κ} :
    {A : Type ℓ} (P : Db → Type κ) (m : Reply A) (f : A → Reply Db)
    → ((a : A) → m ≡ done a → Gives P (f a))
    → Gives P (m >>= f)
Gives-chain P (done a) f k = k a refl
Gives-chain P (refused e) f k = tt

Gives-second {ℓ ι κ} :
    {A : Type ℓ} {B : Type ι} (P : Db → Type κ) (m : Reply A) (f : A → Reply (B × Db))
    → ((a : A) → m ≡ done a → Gives P (second (f a)))
    → Gives P (second (m >>= f))
Gives-second P (done a) f k = k a refl
Gives-second P (refused e) f k = tt

-- The attempt of the job `j` is over: it has an outcome and the job does not run; if a cancellation
-- was requested, both are cancelled.
pub record Over (id : Uuid) (number : ℕ) (j : JobRow) (db : Db) : Type 0 where
  pub row : JobRow
  pub attempt : AttemptRow
  pub job : find id db.jobs ≡ some row
  pub stopped : status_runs row.status ≡ false
  pub recorded : find_attempt id number db.attempts ≡ some attempt
  pub finished : is_none attempt.outcome ≡ false
  pub cancellation :
      is_some j.cancel_requested_at ≡ true
      → (row.status ≡ cancelled) × (attempt.outcome ≡ some cancelled)

write-Over :
    (id : Uuid) (number : ℕ) (token : Option Uuid) (f : JobRow → JobRow)
    (g : AttemptRow → AttemptRow) (db : Db) (j i : JobRow) (a : AttemptRow)
    → find id db.jobs ≡ some j
    → check_lease id number token db ≡ done (i, a)
    → status_runs (f i).status ≡ false
    → is_none (g a).outcome ≡ false
    → (is_some i.cancel_requested_at ≡ true
        → ((f i).status ≡ cancelled) × ((g a).outcome ≡ some cancelled))
    → Over id number j (write id number f g db)
unfolding write
write-Over id number token f g db j i a found e stopped finished wins =
    let h = check_lease-Held id number token db i a e in
    let same : i ≡ j = cc (h.job, found) in
    record {
      row = f i;
      attempt = g a;
      job = rw (find-update_row, eqb_refl id, h.job) refl;
      stopped = stopped;
      recorded =
          rw (find_attempt-update_attempt, eqb_refl id) (rw (eqb_refl number, h.attempt) refl);
      finished = finished;
      cancellation = λ asked. wins ((λ k. is_some (same k).cancel_requested_at) ∙ asked);
    }

outputs-Over :
    (id : Uuid) (number : ℕ) (j : JobRow) (db : Db) (outputs : List (Uuid × OutputRow))
    → Over id number j db
    → Over id number j (record db { outputs = outputs })
outputs-Over id number j db outputs o = record {
  row = o.row;
  attempt = o.attempt;
  job = o.job;
  stopped = o.stopped;
  recorded = o.recorded;
  finished = o.finished;
  cancellation = o.cancellation;
}

drop_result-Over :
    (id : Uuid) (number : ℕ) (j : JobRow) (output : Option Uuid) (org : Uuid) (now : Time) (db : Db)
    → Over id number j db
    → Over id number j (drop_result output id org now db)
unfolding drop_result
drop_result-Over id number j none org now db o = o
drop_result-Over id number j (some output) org now db o = outputs-Over id number j db _ o

keep_result-attempts :
    (c : Completion) (id org : Uuid) (db kept : Db)
    → keep_result c id org db ≡ done kept
    → kept ≡ record db { outputs = kept.outputs }
unfolding keep_result
keep_result-attempts c id org db kept e = ground arith

Gives-branch {ℓ κ} :
    {A : Type ℓ} (P : Db → Type κ) (b : Bool) (x y : Reply (A × Db))
    → (b ≡ true → Gives P (second x))
    → (b ≡ false → Gives P (second y))
    → Gives P (second (if b then x else y))
Gives-branch P true x y t f = t refl
Gives-branch P false x y t f = f refl

complete_job-Over :
    (id : Uuid) (number : ℕ) (token : Option Uuid) (c : Completion) (now : Time) (db : Db)
    (j : JobRow)
    → find id db.jobs ≡ some j
    → Gives (Over id number j) (second (complete_job id number token c now db))
unfolding complete_job complete_row complete_attempt write
complete_job-Over id number token c now db j found =
    Gives-second (Over id number j) (check_lease id number token db) _ λ (i, a) e.
      Gives-branch (Over id number j) (is_some i.cancel_requested_at) _ _
        (λ _.
          drop_result-Over id number j c.result_output_id i.org_id now _
            (write-Over id number token _ _ db j i a found e refl refl (λ _. (refl, refl))))
        (λ unasked. Gives-second (Over id number j) (keep_result c id i.org_id db) _ λ kept k.
          subst
            (λ d.
              Over id number j (write id number (complete_row c now a) (complete_attempt c now) d))
            (sym (keep_result-attempts c id i.org_id db kept k)) (completed i a kept e unasked))
  where
    completed :
        (i : JobRow) (a : AttemptRow) (kept : Db)
        → check_lease id number token db ≡ done (i, a)
        → is_some i.cancel_requested_at ≡ false
        → Over id number j (
            write id number
              (complete_row c now a)
              (complete_attempt c now)
              (record db { outputs = kept.outputs }))
    completed i a kept e unasked =
        outputs-Over id number j
          (write id number (complete_row c now a) (complete_attempt c now) db) kept.outputs
          (write-Over id number token (complete_row c now a) (complete_attempt c now) db j i a found
            e refl refl (λ asked. cc (asked, unasked)))

cancel_job-Over :
    (id : Uuid) (number : ℕ) (token : Option Uuid) (now : Time) (db : Db) (j : JobRow)
    → find id db.jobs ≡ some j
    → Gives (Over id number j) (cancel_job id number token now db)
unfolding cancel_job hide_outputs
cancel_job-Over id number token now db j found =
    Gives-chain (Over id number j) (check_lease id number token db) _ λ (i, a) e.
      outputs-Over id number j _ _
        (write-Over id number token _ _ db j i a found e refl refl (λ _. (refl, refl)))

failed_status-stopped : (e : Failure) → status_runs (failed_status e) ≡ false
failed_status-stopped e = ground arith

fail_job-Over :
    (id : Uuid) (number : ℕ) (token : Option Uuid) (e : Failure) (now : Time) (db : Db) (j : JobRow)
    → find id db.jobs ≡ some j
    → Gives (Over id number j) (fail_job id number token e now db)
unfolding fail_job fail_cancelled fail_attempt fail_last fail_retry hide_outputs
fail_job-Over id number token e now db j found =
    Gives-chain (Over id number j) (check_lease id number token db) _ λ (i, a) ok.
      outputs-Over id number j _ _ (
        branch (Over id number j) (is_some i.cancel_requested_at) _ _
          (λ _. write-Over id number token _ _ db j i a found ok refl refl (λ _. (refl, refl)))
          (λ unasked.
            branch
              (λ f. Over id number j (write id number f (fail_attempt e (failed_status e) now) db))
              (leb i.max_attempts i.attempts) (fail_last e now a) (fail_retry e now a)
              (λ _.
                write-Over id number token _ _ db j i a found ok (failed_status-stopped e) refl
                  (λ asked. cc (asked, unasked)))
              (λ _.
                write-Over id number token _ _ db j i a found ok refl refl
                  (λ asked. cc (asked, unasked)))))

abbrev pub is_heartbeat : HolderCall → Bool
is_heartbeat (heartbeats seconds) = true
is_heartbeat (completes c) = false
is_heartbeat (fails e) = false
is_heartbeat cancels = false

-- A completion, a failure or a cancellation that is not refused ends the attempt that it is about:
-- the attempt has an outcome and the job does not run. If a cancellation of the job was requested,
-- then, whichever of the three it is, the job and the attempt are cancelled.
pub holder_call-Over :
    (id : Uuid) (number : ℕ) (token : Option Uuid) (now : Time) (call : HolderCall) (db : Db)
    (job : JobRow)
    → is_heartbeat call ≡ false
    → find id db.jobs ≡ some job
    → Gives (Over id number job) (holder_call id number token now call db)
unfolding holder_call
holder_call-Over id number token now (heartbeats seconds) db job ends found = cc ends
holder_call-Over id number token now (completes c) db job ends found =
    complete_job-Over id number token c now db job found
holder_call-Over id number token now (fails e) db job ends found =
    fail_job-Over id number token e now db job found
holder_call-Over id number token now cancels db job ends found =
    cancel_job-Over id number token now db job found
