-- ===== src/Hosted/Rules.antt =====
-- webapp/hosted/migrations: to show that a call keeps a property of the database, it is enough to
-- look at the updates that it makes.
use se_skills.Prelude.{
  ℕ, ◌<◌, ◌≡◌, Bool, true, ◌&&◌, not, Option, some, List, [], ◌∷◌, ltb, is_none, arith,
  Option-cases, inl, inr,
}
use se_skills.Json.{Json}
use se_skills.Hosted.Tables.{Uuid, Time, Status, queued, JobRow, Db, find, find_attempt}
use se_skills.Hosted.Queue.{
  Reply, done, refused, ◌>>=◌, or_refuse, require, coalesce, Directory, JobRequest, queued_row,
  insert_job, stored, insert_or_select, same_request, key_conflict, enqueue_job, opportunity_ok,
  account_not_found, not_a_member, transcript_not_found, transcript_deleted, opportunity_not_found,
  check_violation,
}
use se_skills.Hosted.Retry.{
  is_expired, abandon, abandon_attempt, recover_job, recover_row, recover_loop,
  recover_expired_leases,
}
use se_skills.Hosted.Lease.{write}
use se_skills.Hosted.Calls.{second, after, branch, chain-second}

insert_or_select-rule {κ} :
    (P : Db → Type κ) (json_eq : Json → Json → Bool) (id org user : Uuid) (now : Time)
    (r : JobRequest) (db : Db)
    → P db
    → P (after db (insert_job id (queued_row org user now r) db))
    → P (after db (second (insert_or_select json_eq id org user now r db)))
unfolding insert_or_select
insert_or_select-rule P json_eq id org user now r db p new =
    elim (Option-cases (stored org r.idempotency_key db)) [
      | inl unseen ↦
          rw (unseen, after, second, insert_or_select)
            (inserted (insert_job id (queued_row org user now r) db) new)
      | inr ((held, j), found) ↦
          rw (found, after, second, insert_or_select)
            (chain-second P db (require (same_request json_eq j r) key_conflict) _ p (λ _ _. p))
    ]
  where
    reply : Db → Reply ((Uuid × Status × Time) × Db)
    reply next = done ((id, queued, now), next)

    inserted : (m : Reply Db) → P (after db m) → P (after db (second (m >>= reply)))
    inserted (done next) t = t
    inserted (refused e) t = t

pub enqueue_job-rule {κ} :
    (P : Db → Type κ) (json_eq : Json → Json → Bool) (d : Directory) (id : Uuid) (now : Time)
    (r : JobRequest) (db : Db)
    → P db
    → ((org user : Uuid)
        → 0 < coalesce r.max_attempts 3
        → P (after db (insert_job id (queued_row org user now r) db)))
    → P (after db (second (enqueue_job json_eq d id now r db)))
unfolding enqueue_job
enqueue_job-rule P json_eq d id now r db p new =
    chain-second P db (or_refuse account_not_found (d.account_org r.account_id)) _ p λ org _.
      chain-second P db (or_refuse not_a_member (d.member org)) _ p λ user _.
        chain-second P db
          (or_refuse transcript_not_found (d.transcript r.transcript_id r.account_id org)) _ p
          λ tombstoned_at _.
            chain-second P db (require (is_none tombstoned_at) transcript_deleted) _ p λ _ _.
              chain-second P db (require (opportunity_ok d org r) opportunity_not_found) _ p λ _ _.
                chain-second P db (require (ltb 0 (coalesce r.max_attempts 3)) check_violation) _ p
                  λ _ positive.
                    insert_or_select-rule P json_eq id org user now r db p
                      (new org user (ground arith))

-- The loop of `recover_expired_leases` abandons the attempts of expired jobs.
module _ {κ} (P : Db → Type κ) (locked : Uuid → Bool) (backoff_seconds : Option ℕ) (now : Time)
    (abandons : (db : Db) (id : Uuid) (j : JobRow)
      → find id db.jobs ≡ some j
      → is_expired now j ≡ true
      → P db
      → P (write id j.attempts (abandon backoff_seconds now) (abandon_attempt now) db)) where
  recover_job-rule :
      (id : Uuid) (j : JobRow) (db : Db)
      → find id db.jobs ≡ some j
      → is_expired now j ≡ true
      → P db
      → P (recover_job backoff_seconds now id j db).1
  unfolding recover_job
  recover_job-rule id j db found expired p =
      elim (Option-cases (find_attempt id j.attempts db.attempts)) [
        | inl missing ↦ rw (missing, recover_job) p
        | inr (a, there) ↦
            rw (there, recover_job)
              (branch (λ (r : ℕ × Db). P r.1) (is_none a.outcome)
                (1, write id j.attempts (abandon backoff_seconds now) (abandon_attempt now) db)
                (0, db) (λ _. abandons db id j found expired p) (λ _. p))
      ]

  pub recover_row-rule :
      (id : Uuid) (db : Db) → P db → P (recover_row locked backoff_seconds now id db).1
  unfolding recover_row
  recover_row-rule id db p = elim (Option-cases (find id db.jobs)) [
    | inl missing ↦ rw (missing, recover_row) p
    | inr (j, found) ↦
        rw (found, recover_row)
          (branch (λ (r : ℕ × Db). P r.1) (is_expired now j && not (locked id))
            (recover_job backoff_seconds now id j db) (0, db)
            (λ expired. recover_job-rule id j db found (ground arith) p) (λ _. p))
  ]

  pub recover_loop-rule :
      (rows : List (Uuid × JobRow)) (db : Db)
      → P db
      → P (recover_loop locked backoff_seconds now rows db).1
  unfolding recover_loop
  recover_loop-rule [] db p = p
  recover_loop-rule ((id, _) ∷ rows) db p = recover_loop-rule rows _ (recover_row-rule id db p)

  pub recover_expired_leases-rule :
      (db : Db) → P db → P (recover_expired_leases locked backoff_seconds now db).1
  unfolding recover_expired_leases
  recover_expired_leases-rule db p = recover_loop-rule db.jobs db p
