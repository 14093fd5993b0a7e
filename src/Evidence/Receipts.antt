-- ===== src/Evidence/Receipts.antt =====
-- webapp/services/evidence_ledger_service.py: what the deletion of a source leaves of the store.
use se_skills.Prelude.{
  ℕ, ◌≡◌, refl, String, Bool, true, false, not, Option, none, some, [], ◌∷◌, ◌==◌, eq_refl, eq_iff,
  if◌then◌else◌, arith, Bool-cases, Option-cases, inl, inr,
}
use se_skills.Prelude.Dict.{Dict, lookup, insert, lookup-without}
use se_skills.Evidence.Record.{EvidenceSource, Fields}
use se_skills.Evidence.Store.{
  Answer, Receipt, Store, answered, failed_with, is_forgotten, read_source,
}
use se_skills.Evidence.Forget.{
  Granted, begin_forget, finish_forget, finish_receipt, forget_read, is_overview_status,
  new_receipt, no_receipt, purge_forgotten_source, receipt_of, write_receipt,
}

pub is_forgotten-insert :
    (id key : String) (receipt : Option Receipt) (d : Dict (Option Receipt))
    → is_forgotten id d ≡ true
    → is_forgotten id (insert key receipt d) ≡ true
unfolding insert
is_forgotten-insert id key receipt [] e = cc e
is_forgotten-insert id key receipt ((j, r) ∷ d) e =
    ground (arith, is_forgotten-insert id key receipt d)

pub is_forgotten-insert_same :
    (key : String) (receipt : Option Receipt) (d : Dict (Option Receipt))
    → is_forgotten key (insert key receipt d) ≡ true
unfolding insert
is_forgotten-insert_same key receipt [] = ground (arith, eq_refl key)
is_forgotten-insert_same key receipt ((j, r) ∷ d) =
    ground (arith, is_forgotten-insert_same key receipt d)

pub lookup-is_forgotten :
    (id : String) (receipt : Option Receipt) (d : Dict (Option Receipt))
    → lookup id d ≡ some receipt
    → is_forgotten id d ≡ true
unfolding lookup
lookup-is_forgotten id receipt [] e = cc e
lookup-is_forgotten id receipt ((j, r) ∷ d) e = ground (arith, lookup-is_forgotten id receipt d)

-- The second store has the records of the first but for those of forgotten sources, and no receipt
-- is dropped.
pub record Purged (before after : Store) : Type 0 where
  pub same :
      (id : String)
      → is_forgotten id after.forgotten ≡ false
      → lookup id after.sources ≡ lookup id before.sources
  pub none_new :
      (id : String) (s : EvidenceSource)
      → lookup id after.sources ≡ some s
      → lookup id before.sources ≡ some s
  pub barrier :
      (id : String)
      → is_forgotten id before.forgotten ≡ true
      → is_forgotten id after.forgotten ≡ true

pub Purged-refl : (store : Store) → Purged store store
Purged-refl store = record { same = λ id e. refl; none_new = λ id s e. e; barrier = λ id e. e }

write_receipt-Purged :
    (id : String) (receipt : Receipt) (store : Store)
    → Purged store (write_receipt id receipt store)
unfolding write_receipt
write_receipt-Purged id receipt store = record {
  same = λ k e. refl;
  none_new = λ k s e. e;
  barrier = λ k e. is_forgotten-insert k id (some receipt) store.forgotten e;
}

Purged-branch {ℓ} :
    {A : Type ℓ} (store : Store) (b : Bool) (x y : A × Store)
    → Purged store x.1
    → (b ≡ false → Purged store y.1)
    → Purged store (if b then x else y).1
Purged-branch store true x y t f = t
Purged-branch store false x y t f = f refl

forget_read-Purged :
    (now : ℕ) (id : String) (answer : Answer) (store : Store)
    → Purged store (forget_read now id answer store).1
unfolding forget_read
forget_read-Purged now id (failed_with code) store = Purged-refl store
forget_read-Purged now id (answered s) store =
    Purged-branch store (not (s.provider == "gmail")) _ _ (Purged-refl store)
      λ _. write_receipt-Purged id (new_receipt now) store

pub begin_forget-Purged :
    (fields : Fields) (now : ℕ) (id : String) (store : Store)
    → Purged store (begin_forget fields now id store).1
unfolding begin_forget
begin_forget-Purged fields now id store = elim (Option-cases (lookup id store.forgotten)) [
  | inl new ↦ rw (new, begin_forget) (forget_read-Purged now id (read_source fields id store) store)
  | inr (none, held) ↦ rw (held, begin_forget) (Purged-refl store)
  | inr (some receipt, held) ↦ rw (held, begin_forget) (Purged-refl store)
]

pub finish_forget-Purged :
    (id overview_status : String) (store : Store)
    → Purged store (finish_forget id overview_status store).1
unfolding finish_forget finish_receipt
finish_forget-Purged id overview_status store = elim (Option-cases (lookup id store.forgotten)) [
  | inl new ↦ rw (new, finish_forget) (Purged-refl store)
  | inr (none, held) ↦ rw (held, finish_forget) (Purged-refl store)
  | inr (some receipt, held) ↦
      rw (held, finish_forget)
        (Purged-branch store (not (is_overview_status overview_status)) _ _ (Purged-refl store)
          λ _. write_receipt-Purged id _ store)
]

pub purge_forgotten_source-Purged :
    (unsafe : Bool) (id : String) (store : Store)
    → Purged store (purge_forgotten_source unsafe id store).1
unfolding purge_forgotten_source
purge_forgotten_source-Purged unsafe id store =
    Purged-branch store (not (is_forgotten id store.forgotten)) _ _ (Purged-refl store) λ forgotten.
      Purged-branch store unsafe _ _ (Purged-refl store) λ _. record {
        same = λ k held. elim (Bool-cases (id == k)) [
          | inl here ↦
              let same : id ≡ k = ground (arith, eq_iff id k) in
              let barred : is_forgotten id store.forgotten ≡ true = ground arith in
              cc (rw same at barred, held)
          | inr other ↦ rw lookup-without (rw other refl)
        ];
        none_new = λ k s e. ground (arith, lookup-without id k store.sources);
        barrier = λ k e. e;
      }

-- A receipt that was given is in the store.
abbrev Barred : String → Granted × Store → Type 0
Barred id (no_receipt code, store) = Unit
Barred id (receipt_of receipt, store) = is_forgotten id store.forgotten ≡ true

forget_read-Barred :
    (now : ℕ) (id : String) (answer : Answer) (store : Store)
    → Barred id (forget_read now id answer store)
unfolding forget_read write_receipt
forget_read-Barred now id (failed_with code) store = tt
forget_read-Barred now id (answered s) store = elim (Bool-cases (not (s.provider == "gmail"))) [
  | inl other ↦ rw other tt
  | inr gmail ↦ rw gmail (is_forgotten-insert_same id (some (new_receipt now)) store.forgotten)
]

begin_forget-Barred :
    (fields : Fields) (now : ℕ) (id : String) (store : Store)
    → Barred id (begin_forget fields now id store)
unfolding begin_forget
begin_forget-Barred fields now id store = elim (Option-cases (lookup id store.forgotten)) [
  | inl new ↦ rw (new, begin_forget) (forget_read-Barred now id (read_source fields id store) store)
  | inr (none, held) ↦ rw (held, begin_forget) tt
  | inr (some receipt, held) ↦
      rw (held, begin_forget) (lookup-is_forgotten id (some receipt) store.forgotten held)
]

pub begin_forget-is_forgotten :
    (fields : Fields) (now : ℕ) (id : String) (store next : Store) (receipt : Receipt)
    → begin_forget fields now id store ≡ (receipt_of receipt, next)
    → is_forgotten id next.forgotten ≡ true
begin_forget-is_forgotten fields now id store next receipt e =
    rw e at (begin_forget-Barred fields now id store)
