-- ===== src/Hosted/Progress.antt =====
-- webapp/hosted/migrations: how a call changes the row of a job.
use se_skills.Prelude.{
  ℕ, ◌≤◌, ◌≡◌, refl, ◌∙◌, ap, String, Bool, true, false, Option, none, some, List, eqb, arith,
  Bool-cases, inl, inr, eqb→eq,
}
use se_skills.Json.{Json}
use se_skills.Hosted.Tables.{
  Uuid, Time, Status, queued, running, success, failure, cancelled, timeout, JobRow, find,
  update_row, find-update_row,
}
use se_skills.Hosted.Claim.{is_queued}
use se_skills.Hosted.Lease.{status_runs}

abbrev pub has_ended : Status → Bool
has_ended queued = false
has_ended running = false
has_ended _ = true

-- What was asked for, by whom and when.
abbrev pub asked_for : JobRow → Uuid × Uuid × Uuid × Uuid × Option Uuid × String × Json × ℕ × Time
asked_for j = (
  j.org_id, j.account_id, j.transcript_id, j.requester_id, j.opportunity_id, j.skill, j.payload,
  j.max_attempts, j.created_at,
)

-- The row `k` comes after the row `j`.
pub record Progress (j k : JobRow) : Type 0 where
  pub same_request : asked_for k ≡ asked_for j
  pub attempts_grow : j.attempts ≤ k.attempts
  pub final : has_ended j.status ≡ true → k ≡ j

pub Progress-refl : (j : JobRow) → Progress j j
Progress-refl j = record { same_request = refl; attempts_grow = omega arith; final = λ _. refl }

pub Progress-trans : {i j k : JobRow} → Progress i j → Progress j k → Progress i k
Progress-trans {i} {j} {k} p q = record {
  same_request = q.same_request ∙ p.same_request;
  attempts_grow = omega (arith, p.attempts_grow, q.attempts_grow);
  final = λ e. let same = p.final e in q.final (ap (λ r. has_ended r.status) same ∙ e) ∙ same;
}

-- A row stays, and makes progress.
abbrev pub Stays : Option JobRow → Option JobRow → Type 0
Stays none p = Unit
Stays (some j) none = ⊥
Stays (some j) (some k) = Progress j k

abbrev pub Progresses : List (Uuid × JobRow) → List (Uuid × JobRow) → Type 0
Progresses rows next = (k : Uuid) → Stays (find k rows) (find k next)

pub Stays-refl : (o : Option JobRow) → Stays o o
Stays-refl none = tt
Stays-refl (some j) = Progress-refl j

pub Stays-trans : (o p q : Option JobRow) → Stays o p → Stays p q → Stays o q
Stays-trans none p q a b = tt
Stays-trans (some i) none q a b = elim a [ ]
Stays-trans (some i) (some j) none a b = elim b [ ]
Stays-trans (some i) (some j) (some k) a b = Progress-trans a b

pub update_row-Progresses :
    (id : Uuid) (f : JobRow → JobRow) (rows : List (Uuid × JobRow)) (j : JobRow)
    → find id rows ≡ some j
    → Progress j (f j)
    → Progresses rows (update_row id f rows)
update_row-Progresses id f rows j found p k = rw find-update_row (elim (Bool-cases (eqb id k)) [
  | inl here ↦
      let same : id ≡ k = eqb→eq id k here in
      let at_k : find k rows ≡ some j = cc (same, found) in rw (here, at_k) p
  | inr other ↦ rw other (Stays-refl (find k rows))
])

-- A job that has not ended makes progress by an update that keeps what was asked for.
pub live-Progress :
    (j k : JobRow)
    → has_ended j.status ≡ false
    → asked_for k ≡ asked_for j
    → j.attempts ≤ k.attempts
    → Progress j k
live-Progress j k live same more = record {
  same_request = same;
  attempts_grow = more;
  final = λ e. cc (e, live);
}

pub running-live : (s : Status) → status_runs s ≡ true → has_ended s ≡ false
running-live running r = refl
running-live queued r = refl
running-live success r = cc r
running-live failure r = cc r
running-live cancelled r = cc r
running-live timeout r = cc r

pub queued-live : (s : Status) → is_queued s ≡ true → has_ended s ≡ false
queued-live queued r = refl
queued-live running r = refl
queued-live success r = cc r
queued-live failure r = cc r
queued-live cancelled r = cc r
queued-live timeout r = cc r

pub running-Progresses :
    (id : Uuid) (f : JobRow → JobRow) (rows : List (Uuid × JobRow)) (j : JobRow)
    → find id rows ≡ some j
    → status_runs j.status ≡ true
    → asked_for (f j) ≡ asked_for j
    → (f j).attempts ≡ j.attempts
    → Progresses rows (update_row id f rows)
running-Progresses id f rows j found r same count =
    update_row-Progresses id f rows j found
      (live-Progress j (f j) (running-live j.status r) same (omega (arith, count)))
