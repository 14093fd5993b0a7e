-- ===== src/Hosted/Oldest.antt =====
-- webapp/hosted/migrations/004_outputs_and_reviews.sql: the row that `claim_next_job` selects.
use se_skills.Prelude.{
  ◌≤◌, ◌≡◌, refl, Bool, true, false, ◌&&◌, not, Option, none, some, List, [], ◌∷◌, eqb, leb, arith,
  Bool-cases, Option-cases, inl, inr, eqb→eq, eqb_refl, leb→le,
}
use se_skills.Hosted.Tables.{Uuid, Time, JobRow, find, Distinct}
use se_skills.Hosted.Claim.{is_eligible, oldest}

-- `oldest` chooses a row of the table that may be claimed, and none was created before it.
pub record Oldest (locked : Uuid → Bool) (now : Time) (rows : List (Uuid × JobRow)) (id : Uuid)
    (j : JobRow) : Type 0 where
  pub found : find id rows ≡ some j
  pub eligible : is_eligible now j ≡ true
  pub free : locked id ≡ false
  pub first :
      (k : Uuid) (l : JobRow)
      → find k rows ≡ some l
      → is_eligible now l ≡ true
      → locked k ≡ false
      → j.created_at ≤ l.created_at

pub oldest-none :
    (locked : Uuid → Bool) (now : Time) (rows : List (Uuid × JobRow)) (k : Uuid) (l : JobRow)
    → oldest locked now rows ≡ none
    → find k rows ≡ some l
    → is_eligible now l ≡ true
    → locked k ≡ true
unfolding oldest find
oldest-none locked now [] k l e found eligible = cc found
oldest-none locked now ((i, j) ∷ rows) k l e found eligible =
    elim (Bool-cases (is_eligible now j && not (locked i))) [
      | inl takes ↦ cc (rw takes at e)
      | inr skips ↦ elim (Bool-cases (eqb i k)) [
        | inl here ↦ let same : i ≡ k = eqb→eq i k here in ground arith
        | inr other ↦ oldest-none locked now rows k l (rw skips at e) (rw other at found) eligible
      ]
    ]

Oldest-here :
    {locked : Uuid → Bool} {now : Time} {rows : List (Uuid × JobRow)} {i : Uuid} {k : JobRow}
    → is_eligible now k ≡ true
    → locked i ≡ false
    → ((m : Uuid) (l : JobRow)
        → find m rows ≡ some l
        → is_eligible now l ≡ true
        → locked m ≡ false
        → k.created_at ≤ l.created_at)
    → Oldest locked now ((i, k) ∷ rows) i k
unfolding find
Oldest-here {i = i} {k = k} eligible free least = record {
  found = rw eqb_refl refl;
  eligible = eligible;
  free = free;
  first = λ m l e may open_. elim (Bool-cases (eqb i m)) [
    | inl here ↦ let same : some k ≡ some l = rw here at e in ground arith
    | inr other ↦ least m l (rw other at e) may open_
  ];
}

Oldest-later :
    {locked : Uuid → Bool} {now : Time} {rows : List (Uuid × JobRow)} {i id : Uuid} {k j : JobRow}
    → find i rows ≡ none
    → (is_eligible now k ≡ true → locked i ≡ false → j.created_at ≤ k.created_at)
    → Oldest locked now rows id j
    → Oldest locked now ((i, k) ∷ rows) id j
unfolding find
Oldest-later {i = i} {id = id} {k = k} {j = j} fresh least o = record {
  found = elim (Bool-cases (eqb i id)) [
    | inl here ↦ let same : i ≡ id = eqb→eq i id here in cc (same, fresh, o.found)
    | inr other ↦ rw other o.found
  ];
  eligible = o.eligible;
  free = o.free;
  first = λ m l e may open_. elim (Bool-cases (eqb i m)) [
    | inl here ↦
        let row : some k ≡ some l = rw here at e in
        let same : i ≡ m = eqb→eq i m here in ground (arith, least)
    | inr other ↦ o.first m l (rw other at e) may open_
  ];
}

abbrev Chosen : (Uuid → Bool) → Time → List (Uuid × JobRow) → Option (Uuid × JobRow) → Type 0
Chosen locked now rows none = Unit
Chosen locked now rows (some (id, j)) = Oldest locked now rows id j

oldest-Chosen :
    (locked : Uuid → Bool) (now : Time) (rows : List (Uuid × JobRow))
    → Distinct rows
    → Chosen locked now rows (oldest locked now rows)
unfolding oldest
oldest-Chosen locked now [] d = tt
oldest-Chosen locked now ((i, k) ∷ rows) (fresh, d) =
    let ih = oldest-Chosen locked now rows d in
    elim (Bool-cases (is_eligible now k && not (locked i))) [
      | inl takes ↦ rw takes (elim (Option-cases (oldest locked now rows)) [
        | inl last ↦ rw last (
            Oldest-here (ground arith) (ground arith)
              (λ m l e may free. cc (free, oldest-none locked now rows m l last e may)))
        | inr ((m, l), later) ↦
            let o : Oldest locked now rows m l = rw later at ih in
            rw later (elim (Bool-cases (leb k.created_at l.created_at)) [
              | inl before ↦ rw before (
                  Oldest-here (ground arith) (ground arith)
                    (λ n r e may free. omega (arith, o.first n r e may free, leb→le _ _ before)))
              | inr behind ↦ rw behind (Oldest-later fresh (λ _ _. ground arith) o)
            ])
      ])
      | inr skips ↦ rw skips (elim (Option-cases (oldest locked now rows)) [
        | inl missing ↦ rw missing tt
        | inr ((m, l), later) ↦
            let o : Oldest locked now rows m l = rw later at ih in
            rw later (Oldest-later fresh (λ a b. ground arith) o)
      ])
    ]

pub oldest-Oldest :
    (locked : Uuid → Bool) (now : Time) (rows : List (Uuid × JobRow)) (id : Uuid) (j : JobRow)
    → Distinct rows
    → oldest locked now rows ≡ some (id, j)
    → Oldest locked now rows id j
oldest-Oldest locked now rows id j d e = rw e at (oldest-Chosen locked now rows d)
