-- ===== src/Hosted/Tracked.antt =====
-- webapp/hosted/migrations: what the job functions keep between the rows of `jobs` and those of
-- `job_attempts`.
use se_skills.Prelude.{
  ℕ, ◌<◌, ◌≤◌, ◌≡◌, refl, sym, subst, ◌∙◌, true, false, Option, none, some, eqb, is_none, is_some,
  if◌then◌else◌, arith, Bool-cases, Option-cases, inl, inr, eqb→eq, eqb_refl,
}
use mathlib.Core.Option
use se_skills.Hosted.Tables.{
  Uuid, JobRow, AttemptRow, Db, find, find-update_row, Distinct, update_row-Distinct, find_attempt,
  find_attempt-update_attempt,
}
use se_skills.Hosted.Claim.{is_queued}
use se_skills.Hosted.Lease.{status_runs, write}

-- `look n` is the attempt of the job that has the number `n`.
pub record Tracked (look : ℕ → Option AttemptRow) (j : JobRow) : Type 0 where
  pub within : j.attempts ≤ j.max_attempts
  pub left : is_queued j.status ≡ true → j.attempts < j.max_attempts
  pub open_only :
      (n : ℕ) (a : AttemptRow)
      → look n ≡ some a
      → is_none a.outcome ≡ true
      → (status_runs j.status ≡ true) × (n ≡ j.attempts)
  pub held :
      status_runs j.status ≡ true
      → (a : AttemptRow) × (look j.attempts ≡ some a) × (is_none a.outcome ≡ true)
  pub later : (n : ℕ) → j.attempts < n → look n ≡ none
  pub leased : is_some j.timeout_at ≡ status_runs j.status
  pub unasked : is_queued j.status ≡ true → is_none j.cancel_requested_at ≡ true
  pub alive : is_queued j.status ≡ true → j.dead_lettered ≡ false
  pub alive_running : status_runs j.status ≡ true → j.dead_lettered ≡ false

-- Every job is tracked, and every attempt is one of a job.
pub record Sound (db : Db) : Type 0 where
  pub keyed : Distinct db.jobs
  pub known :
      (id : Uuid) (j : JobRow)
      → find id db.jobs ≡ some j
      → Tracked (λ n. find_attempt id n db.attempts) j
  pub unknown :
      (id : Uuid) → find id db.jobs ≡ none → (n : ℕ) → find_attempt id n db.attempts ≡ none

-- The row `k` is what is left of the running job `j` when its attempt has ended.
pub record Closed (j k : JobRow) : Type 0 where
  pub attempts_kept : k.attempts ≡ j.attempts
  pub max_kept : k.max_attempts ≡ j.max_attempts
  pub stopped : status_runs k.status ≡ false
  pub released : is_some k.timeout_at ≡ false
  pub left : is_queued k.status ≡ true → j.attempts < j.max_attempts
  pub unasked : is_queued k.status ≡ true → is_none k.cancel_requested_at ≡ true
  pub alive : is_queued k.status ≡ true → k.dead_lettered ≡ false

-- The attempt that was open has its outcome.
closed_look : ℕ → (AttemptRow → AttemptRow) → (ℕ → Option AttemptRow) → ℕ → Option AttemptRow
closed_look m g look n = if eqb m n then Option.map g (look n) else look n

still_open :
    (m : ℕ) (g : AttemptRow → AttemptRow) (look : ℕ → Option AttemptRow) (n : ℕ) (a : AttemptRow)
    → ((b : AttemptRow) → is_none (g b).outcome ≡ false)
    → closed_look m g look n ≡ some a
    → is_none a.outcome ≡ true
    → (look n ≡ some a) × (eqb m n ≡ false)
unfolding closed_look
still_open m g look n a closes e o = elim (Bool-cases (eqb m n)) [
  | inl here ↦ elim (Option-cases (look n)) [
    | inl missing ↦ cc (rw missing at (rw here at e))
    | inr (b, found) ↦
        let same : some (g b) ≡ some a = rw found at (rw here at e) in ground (arith, closes b)
  ]
  | inr elsewhere ↦ (rw elsewhere at e, elsewhere)
]

close-Tracked :
    (look : ℕ → Option AttemptRow) (j k : JobRow) (g : AttemptRow → AttemptRow)
    → ((a : AttemptRow) → is_none (g a).outcome ≡ false)
    → Tracked look j
    → Closed j k
    → Tracked (closed_look j.attempts g look) k
unfolding closed_look
close-Tracked look j k g closes t c = record {
  within = rw (c.attempts_kept, c.max_kept) t.within;
  left = λ q. rw (c.attempts_kept, c.max_kept) (c.left q);
  open_only = λ n a e o.
      let (found, other) = still_open j.attempts g look n a closes e o in
      let (_, same) = t.open_only n a found o in ground (arith, eqb_refl n);
  held = λ r. cc (r, c.stopped);
  later = λ n h. ground (arith, t.later n (omega (arith, h, c.attempts_kept)));
  leased = c.released ∙ sym c.stopped;
  unasked = c.unasked;
  alive = c.alive;
  alive_running = λ r. cc (r, c.stopped);
}

-- Only the rows of the job `id` and of its attempts differ.
pub record Only (id : Uuid) (db after : Db) : Type 0 where
  pub keyed : Distinct db.jobs → Distinct after.jobs
  pub jobs : (k : Uuid) → eqb id k ≡ false → find k after.jobs ≡ find k db.jobs
  pub attempts :
      (k : Uuid) (n : ℕ)
      → eqb id k ≡ false
      → find_attempt k n after.attempts ≡ find_attempt k n db.attempts

pub Tracked-ext :
    {look seen : ℕ → Option AttemptRow} {j : JobRow}
    → ((n : ℕ) → seen n ≡ look n)
    → Tracked look j
    → Tracked seen j
Tracked-ext {j = j} same t = subst (λ l. Tracked l j) (λ i n. sym (same n) i) t

pub Only-Sound :
    (id : Uuid) (db after : Db) (j : JobRow)
    → Only id db after
    → find id after.jobs ≡ some j
    → Tracked (λ n. find_attempt id n after.attempts) j
    → Sound db
    → Sound after
Only-Sound id db after j o found t s = record {
  keyed = o.keyed s.keyed;
  known = λ k row e. elim (Bool-cases (eqb id k)) [
    | inl here ↦
        let same : id ≡ k = eqb→eq id k here in
        let is_j : j ≡ row = cc (same, found, e) in
        subst (λ r. Tracked (λ n. find_attempt k n after.attempts) r) is_j
          (subst (λ i. Tracked (λ n. find_attempt i n after.attempts) j) same t)
    | inr other ↦ Tracked-ext (λ n. o.attempts k n other) (s.known k row (sym (o.jobs k other) ∙ e))
  ];
  unknown = λ k e n. elim (Bool-cases (eqb id k)) [
    | inl here ↦ let same : id ≡ k = eqb→eq id k here in cc (same, found, e)
    | inr other ↦ o.attempts k n other ∙ s.unknown k (sym (o.jobs k other) ∙ e) n
  ];
}

pub write-Only :
    (id : Uuid) (n : ℕ) (f : JobRow → JobRow) (g : AttemptRow → AttemptRow) (db : Db)
    → Only id db (write id n f g db)
unfolding write
write-Only id n f g db = record {
  keyed = update_row-Distinct id f db.jobs;
  jobs = λ k other. rw (find-update_row, other) refl;
  attempts = λ k m other. rw (find_attempt-update_attempt, other) refl;
}

pub write_found :
    (id : Uuid) (n : ℕ) (f : JobRow → JobRow) (g : AttemptRow → AttemptRow) (db : Db) (j : JobRow)
    → find id db.jobs ≡ some j
    → find id (write id n f g db).jobs ≡ some (f j)
unfolding write
write_found id n f g db j found = rw (find-update_row, eqb_refl, found) refl

-- The attempt of a running job ends.
pub close-Sound :
    (id : Uuid) (f : JobRow → JobRow) (g : AttemptRow → AttemptRow) (db : Db) (j : JobRow)
    → find id db.jobs ≡ some j
    → ((a : AttemptRow) → is_none (g a).outcome ≡ false)
    → Closed j (f j)
    → Sound db
    → Sound (write id j.attempts f g db)
unfolding write closed_look
close-Sound id f g db j found closes c s =
    Only-Sound id db _ (f j) (write-Only id j.attempts f g db)
      (write_found id j.attempts f g db j found)
      (Tracked-ext (λ n. rw (find_attempt-update_attempt, eqb_refl) refl)
        (close-Tracked _ j (f j) g closes (s.known id j found) c))
      s
