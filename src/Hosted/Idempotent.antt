-- ===== src/Hosted/Idempotent.antt =====
-- webapp/hosted/migrations/013_transcript_tombstone.sql: `enqueue_job` called again with the same
-- idempotency key.
use se_skills.Prelude.{
  ◌≡◌, refl, subst, ◌∙◌, String, Bool, true, false, some, ◌∷◌, eq_refl, ltb, is_none, arith,
  Option-cases, inl, inr, eqb_refl,
}
use se_skills.Json.{Json}
use se_skills.Hosted.Tables.{Uuid, Time, Status, queued, JobRow, Db}
use se_skills.Hosted.Queue.{
  Reply, done, refused, ◌>>=◌, or_refuse, require, coalesce, Directory, JobRequest, queued_row,
  find_by_key, insert_job, stored, insert_or_select, same_request, key_conflict, enqueue_job,
  opportunity_ok, account_not_found, not_a_member, transcript_not_found, transcript_deleted,
  opportunity_not_found, check_violation,
}

first_step {ℓ κ} :
    {A : Type ℓ} {B : Type κ} (m : Reply A) (f : A → Reply B) (b : B)
    → (m >>= f) ≡ done b
    → (a : A) × (m ≡ done a) × (f a ≡ done b)
first_step (done a) f b e = (a, refl, e)
first_step (refused r) f b e = cc e

-- The checks of a request that was accepted lead to the INSERT again, whatever the table holds.
record Accepted (json_eq : Json → Json → Bool) (d : Directory) (r : JobRequest) (org user : Uuid)
    : Type 0 where
  repeats :
      (id : Uuid) (now : Time) (db : Db)
      → enqueue_job json_eq d id now r db ≡ insert_or_select json_eq id org user now r db

enqueue_job-Accepted :
    (json_eq : Json → Json → Bool) (d : Directory) (id : Uuid) (now : Time) (r : JobRequest)
    (db next : Db) (reply : Uuid × Status × Time)
    → enqueue_job json_eq d id now r db ≡ done (reply, next)
    → (org user : Uuid) × Accepted json_eq d r org user
      × (insert_or_select json_eq id org user now r db ≡ done (reply, next))
unfolding enqueue_job
enqueue_job-Accepted json_eq d id now r db next reply e =
    let (org, e1, f1) =
      first_step (or_refuse account_not_found (d.account_org r.account_id)) _ _ e in
    let (user, e2, f2) = first_step (or_refuse not_a_member (d.member org)) _ _ f1 in
    let (t, e3, f3) =
      first_step (or_refuse transcript_not_found (d.transcript r.transcript_id r.account_id org)) _
        _ f2 in
    let (_, e4, f4) = first_step (require (is_none t) transcript_deleted) _ _ f3 in
    let (_, e5, f5) = first_step (require (opportunity_ok d org r) opportunity_not_found) _ _ f4 in
    let (_, e6, f6) =
      first_step (require (ltb 0 (coalesce r.max_attempts 3)) check_violation) _ _ f5 in
    (
      org,
      user,
      record { repeats = λ i n b. rw e1 (rw e2 (rw e3 (rw e4 (rw e5 (rw e6 refl))))) },
      f6,
    )

same_request_refl :
    (json_eq : Json → Json → Bool) (org user : Uuid) (now : Time) (r : JobRequest)
    → ((j : Json) → json_eq j j ≡ true)
    → same_request json_eq (queued_row org user now r) r ≡ true
unfolding same_request queued_row
same_request_refl json_eq org user now r eq = simp (eqb_refl, eq_refl, eq) refl

-- The row is there.
select-again :
    (json_eq : Json → Json → Bool) (again org user held : Uuid) (later : Time) (r : JobRequest)
    (db : Db) (j : JobRow)
    → stored org r.idempotency_key db ≡ some (held, j)
    → same_request json_eq j r ≡ true
    → insert_or_select json_eq again org user later r db ≡ done ((held, j.status, j.created_at), db)
unfolding insert_or_select
select-again json_eq again org user held later r db j found same =
    rw (found, insert_or_select) (rw same refl)

stored-new :
    (org user id : Uuid) (now : Time) (r : JobRequest) (db : Db) (key : String)
    → r.idempotency_key ≡ some key
    → stored org r.idempotency_key (record db { jobs = (id, queued_row org user now r) ∷ db.jobs })
      ≡ some (id, queued_row org user now r)
unfolding stored find_by_key queued_row
stored-new org user id now r db key keyed = rw keyed (rw eqb_refl (rw eq_refl refl))

insert_job-row :
    (id : Uuid) (job : JobRow) (db after : Db)
    → insert_job id job db ≡ done after
    → record db { jobs = (id, job) ∷ db.jobs } ≡ after
unfolding insert_job
insert_job-row id job db after e = ground arith

require-true : (b : Bool) (u : Unit) → require b key_conflict ≡ done u → b ≡ true
require-true true u e = refl
require-true false u e = cc e

insert_or_select-again :
    (json_eq : Json → Json → Bool) (id again org user : Uuid) (now later : Time) (r : JobRequest)
    (db next : Db) (reply : Uuid × Status × Time) (key : String)
    → ((j : Json) → json_eq j j ≡ true)
    → r.idempotency_key ≡ some key
    → insert_or_select json_eq id org user now r db ≡ done (reply, next)
    → insert_or_select json_eq again org user later r next ≡ done (reply, next)
unfolding insert_or_select queued_row
insert_or_select-again json_eq id again org user now later r db next reply key eq keyed e =
    elim (Option-cases (stored org r.idempotency_key db)) [
      | inl unseen ↦
          let (after, inserted, given) =
            first_step (insert_job id (queued_row org user now r) db) _ _
              (rw (unseen, insert_or_select) at e) in
          let row = insert_job-row id (queued_row org user now r) db after inserted in
          let same : (
            (id, queued, now),
            record db { jobs = (id, queued_row org user now r) ∷ db.jobs },
          )
              ≡ (reply, next) =
            cc (row, given) in
          subst (λ y. insert_or_select json_eq again org user later r y.1 ≡ done y) same
            (select-again json_eq again org user id later r _ (queued_row org user now r)
              (stored-new org user id now r db key keyed)
              (same_request_refl json_eq org user now r eq))
      | inr ((held, j), found) ↦
          let (_, same, given) =
            first_step (require (same_request json_eq j r) key_conflict) _ _
              (rw (found, insert_or_select) at e) in
          let replied : ((held, j.status, j.created_at), db) ≡ (reply, next) = cc given in
          subst (λ y. insert_or_select json_eq again org user later r y.1 ≡ done y) replied
            (select-again json_eq again org user held later r db j found
              (require-true (same_request json_eq j r) _ same))
    ]

-- A request with an idempotency key that `enqueue_job` accepts, whether it inserted the job or found
-- it, has the same reply when it is made again, at any time and with any fresh identifier, and
-- changes nothing then. Equality of JSON values is taken to hold of a value and itself.
pub enqueue_job-again :
    (json_eq : Json → Json → Bool) (d : Directory) (id again : Uuid) (now later : Time)
    (r : JobRequest) (db next : Db) (reply : Uuid × Status × Time) (key : String)
    → ((j : Json) → json_eq j j ≡ true)
    → r.idempotency_key ≡ some key
    → enqueue_job json_eq d id now r db ≡ done (reply, next)
    → enqueue_job json_eq d again later r next ≡ done (reply, next)
enqueue_job-again json_eq d id again now later r db next reply key eq keyed e =
    let (org, user, accepted, inserted) = enqueue_job-Accepted json_eq d id now r db next reply e in
    accepted.repeats again later next
    ∙ insert_or_select-again json_eq id again org user now later r db next reply key eq keyed
        inserted
