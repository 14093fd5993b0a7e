-- ===== src/Hosted/Rows.antt =====
-- webapp/hosted/migrations: the updates of a job's row that leave its attempts' outcomes alone, and
-- the insertions of a job and of an attempt.
use se_skills.Prelude.{
  ℕ, ◌≡◌, refl, sym, ◌∙◌, true, false, Option, none, some, eqb, is_none, is_some, if◌then◌else◌,
  arith, Bool-cases, Option-cases, inl, inr, eqb_refl,
}
use mathlib.Core.Option
use se_skills.Hosted.Tables.{
  Uuid, JobRow, AttemptRow, Db, find, update_row, find-update_row, update_row-Distinct,
  find_attempt, find_attempt-update_attempt,
}
use se_skills.Hosted.Claim.{is_queued}
use se_skills.Hosted.Lease.{status_runs, write}
use se_skills.Hosted.Tracked.{
  Tracked, Tracked-ext, Sound, Only, Only-Sound, write-Only, write_found,
}

-- The row `k` is the row `j` after an update that starts and ends no attempt.
pub record Beside (j k : JobRow) : Type 0 where
  pub attempts_kept : k.attempts ≡ j.attempts
  pub max_kept : k.max_attempts ≡ j.max_attempts
  pub as_running : status_runs k.status ≡ status_runs j.status
  pub leased : is_some k.timeout_at ≡ status_runs k.status
  pub not_queued : is_queued k.status ≡ false
  pub dead_kept : k.dead_lettered ≡ j.dead_lettered

beside_look : ℕ → (AttemptRow → AttemptRow) → (ℕ → Option AttemptRow) → ℕ → Option AttemptRow
beside_look m g look n = if eqb m n then Option.map g (look n) else look n

beside-found :
    (m : ℕ) (g : AttemptRow → AttemptRow) (look : ℕ → Option AttemptRow) (n : ℕ) (a : AttemptRow)
    → ((b : AttemptRow) → is_none (g b).outcome ≡ is_none b.outcome)
    → beside_look m g look n ≡ some a
    → (b : AttemptRow) × (look n ≡ some b) × (is_none b.outcome ≡ is_none a.outcome)
unfolding beside_look
beside-found m g look n a keeps e = elim (Bool-cases (eqb m n)) [
  | inl here ↦ elim (Option-cases (look n)) [
    | inl missing ↦ cc (rw missing at (rw here at e))
    | inr (b, found) ↦
        let same : some (g b) ≡ some a = rw found at (rw here at e) in
        (b, found, ground (arith, keeps b))
  ]
  | inr elsewhere ↦ (a, rw elsewhere at e, refl)
]

beside-held :
    (m : ℕ) (g : AttemptRow → AttemptRow) (look : ℕ → Option AttemptRow) (n : ℕ) (b : AttemptRow)
    → ((c : AttemptRow) → is_none (g c).outcome ≡ is_none c.outcome)
    → look n ≡ some b
    → is_none b.outcome ≡ true
    → (a : AttemptRow) × (beside_look m g look n ≡ some a) × (is_none a.outcome ≡ true)
unfolding beside_look
beside-held m g look n b keeps e o = elim (Bool-cases (eqb m n)) [
  | inl here ↦ (g b, rw (here, e) refl, keeps b ∙ o)
  | inr elsewhere ↦ (b, rw (elsewhere, e) refl, o)
]

beside-missing :
    (m : ℕ) (g : AttemptRow → AttemptRow) (look : ℕ → Option AttemptRow) (n : ℕ)
    → look n ≡ none
    → beside_look m g look n ≡ none
unfolding beside_look
beside-missing m g look n e = ground arith

beside_same :
    (m : ℕ) (look : ℕ → Option AttemptRow) (n : ℕ) → look n ≡ beside_look m (λ a. a) look n
unfolding beside_look
beside_same m look n = elim (Option-cases (look n)) [
  | inl missing ↦ ground arith
  | inr (a, found) ↦ ground arith
]

Beside-Tracked :
    (m : ℕ) (look : ℕ → Option AttemptRow) (j k : JobRow) (g : AttemptRow → AttemptRow)
    → ((a : AttemptRow) → is_none (g a).outcome ≡ is_none a.outcome)
    → Beside j k
    → Tracked look j
    → Tracked (beside_look m g look) k
Beside-Tracked m look j k g keeps b t = record {
  within = rw (b.attempts_kept, b.max_kept) t.within;
  left = λ q. cc (q, b.not_queued);
  open_only = λ n a e o.
      let (c, found, as_open) = beside-found m g look n a keeps e in
      let (r, last) = t.open_only n c found (as_open ∙ o) in
      (b.as_running ∙ r, last ∙ sym b.attempts_kept);
  held = λ r.
      let (a, found, o) = t.held (sym b.as_running ∙ r) in
      rw b.attempts_kept (beside-held m g look j.attempts a keeps found o);
  later = λ n h. beside-missing m g look n (t.later n (omega (arith, h, b.attempts_kept)));
  leased = b.leased;
  unasked = λ q. cc (q, b.not_queued);
  alive = λ q. cc (q, b.not_queued);
  alive_running = λ r. b.dead_kept ∙ t.alive_running (sym b.as_running ∙ r);
}

-- UPDATEs of a row and of one of its attempts.
pub Beside-Sound :
    (id : Uuid) (m : ℕ) (f : JobRow → JobRow) (g : AttemptRow → AttemptRow) (db : Db) (j : JobRow)
    → find id db.jobs ≡ some j
    → ((a : AttemptRow) → is_none (g a).outcome ≡ is_none a.outcome)
    → Beside j (f j)
    → Sound db
    → Sound (write id m f g db)
unfolding write beside_look
Beside-Sound id m f g db j found keeps b s =
    Only-Sound id db _ (f j) (write-Only id m f g db) (write_found id m f g db j found)
      (Tracked-ext (λ n. rw (find_attempt-update_attempt, eqb_refl) refl)
        (Beside-Tracked m _ j (f j) g keeps b (s.known id j found)))
      s

-- An UPDATE of a row alone.
pub alone-Sound :
    (id : Uuid) (f : JobRow → JobRow) (db : Db) (j : JobRow)
    → find id db.jobs ≡ some j
    → Beside j (f j)
    → Sound db
    → Sound (record db { jobs = update_row id f db.jobs })
unfolding beside_look
alone-Sound id f db j found b s =
    Only-Sound id db _ (f j) only (rw (find-update_row, eqb_refl, found) refl)
      (Tracked-ext (beside_same 0 (λ x. find_attempt id x db.attempts))
        (Beside-Tracked 0 _ j (f j) (λ a. a) (λ a. refl) b (s.known id j found)))
      s
  where
    only : Only id db (record db { jobs = update_row id f db.jobs })
    only = record {
      keyed = update_row-Distinct id f db.jobs;
      jobs = λ k other. rw (find-update_row, other) refl;
      attempts = λ k n other. refl;
    }
