-- ===== src/Hosted/Leases.antt =====
-- webapp/hosted/migrations: what the functions of a lease's holder do with the rows of the job and
-- of its attempt.
use se_skills.Prelude.{
  ℕ, Option, none, ap, sym, eqb→eq, ◌≡◌, ◌⊎◌, refl, true, some, is_none, arith, inl, inr, eqb_refl,
}
use se_skills.Hosted.Tables.{Uuid, JobRow, AttemptRow, Db, find, find_attempt}
use se_skills.Hosted.Queue.{Reply, done, refused, Refusal}
use se_skills.Hosted.Lease.{not_other, status_runs, check_lease}
use se_skills.Hosted.Tracked.{Sound}

pub Reply-cases {ℓ} :
    {A : Type ℓ} (r : Reply A) → ((e : Refusal) × (r ≡ refused e)) ⊎ ((a : A) × (r ≡ done a))
Reply-cases (refused e) = inl (e, refl)
Reply-cases (done a) = inr (a, refl)

-- The job runs, and the attempt is open and has the token, if that is not NULL.
pub record Held (id : Uuid) (number : ℕ) (token : Option Uuid) (db : Db) (j : JobRow)
    (a : AttemptRow) : Type 0 where
  pub job : find id db.jobs ≡ some j
  pub runs : status_runs j.status ≡ true
  pub attempt : find_attempt id number db.attempts ≡ some a
  pub token_matches : (token ≡ none) ⊎ (token ≡ some a.lease_token)
  pub opened : is_none a.outcome ≡ true

not_other-cases :
    (held : Uuid) (token : Option Uuid)
    → not_other held token ≡ true
    → (token ≡ none) ⊎ (token ≡ some held)
not_other-cases held none e = inl refl
not_other-cases held (some t) e = inr (ap some (sym (eqb→eq held t e)))

cases-not_other :
    (held : Uuid) (token : Option Uuid)
    → (token ≡ none) ⊎ (token ≡ some held)
    → not_other held token ≡ true
cases-not_other held token (inl e) = rw e refl
cases-not_other held token (inr e) = rw (e, eqb_refl) refl

pub check_lease-Held :
    (id : Uuid) (number : ℕ) (token : Option Uuid) (db : Db) (j : JobRow) (a : AttemptRow)
    → check_lease id number token db ≡ done (j, a)
    → Held id number token db j a
unfolding check_lease
check_lease-Held id number token db j a e = record {
  job = ground arith;
  runs = ground arith;
  attempt = ground arith;
  token_matches = not_other-cases a.lease_token token (ground arith);
  opened = ground arith;
}

-- In a sound database the attempt is the job's last.
pub Held-latest :
    (id : Uuid) (number : ℕ) (token : Option Uuid) (db : Db) (j : JobRow) (a : AttemptRow)
    → Sound db
    → Held id number token db j a
    → number ≡ j.attempts
Held-latest id number token db j a s h =
    ((s.known id j h.job).open_only number a h.attempt h.opened).1

pub Held-check_lease :
    {id : Uuid} {number : ℕ} {token : Option Uuid} {db : Db} {j : JobRow} {a : AttemptRow}
    → Held id number token db j a
    → check_lease id number token db ≡ done (j, a)
unfolding check_lease
Held-check_lease {number = number} {token = token} {db = db} h =
    rw h.job
      (rw h.runs (rw h.attempt (rw (cases-not_other _ token h.token_matches) (rw h.opened refl))))
