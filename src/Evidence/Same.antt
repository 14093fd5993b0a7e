-- ===== src/Evidence/Same.antt =====
-- webapp/services/evidence_ledger_service.py: what leaves the record and the receipt of a source.
use se_skills.Prelude.{
  ℕ, ◌≡◌, refl, ◌∙◌, String, Bool, true, false, Option, some, [], ◌∷◌, ◌==◌, eq_iff, if◌then◌else◌,
  arith, Bool-cases, inl, inr,
}
use se_skills.Prelude.Dict.{Dict, lookup, insert, lookup-insert}
use se_skills.Evidence.Record.{EvidenceSource, Fields}
use se_skills.Evidence.Status.{Effect, keep, malformed_storage, refuse, save}
use se_skills.Evidence.Store.{
  Answer, Operation, Receipt, Store, answered, effect, failed_with, is_forgotten, on_source,
  read_source, take_effect, write_source,
}
use se_skills.Evidence.Forget.{write_receipt}

-- The second store has the same record of the source, and a receipt of it as the first has.
pub record Same (id : String) (before after : Store) : Type 0 where
  pub same_record : lookup id after.sources ≡ lookup id before.sources
  pub same_barrier : is_forgotten id after.forgotten ≡ is_forgotten id before.forgotten

abbrev pub IsStuck : Fields → String → Store → Type 0
IsStuck fields id store = read_source fields id store ≡ failed_with malformed_storage

pub Same-refl : (id : String) (store : Store) → Same id store store
Same-refl id store = record { same_record = refl; same_barrier = refl }

pub Same-trans : (id : String) (a b c : Store) → Same id a b → Same id b c → Same id a c
Same-trans id a b c f g = record {
  same_record = g.same_record ∙ f.same_record;
  same_barrier = g.same_barrier ∙ f.same_barrier;
}

pub Same-IsStuck :
    (fields : Fields) (id : String) (a b : Store)
    → Same id a b
    → IsStuck fields id a
    → IsStuck fields id b
unfolding read_source
Same-IsStuck fields id a b same stuck = rw same.same_barrier (rw same.same_record stuck)

pub unforgotten :
    (fields : Fields) (id : String) (store : Store)
    → IsStuck fields id store
    → is_forgotten id store.forgotten ≡ false
unfolding read_source
unforgotten fields id store stuck = elim (Bool-cases (is_forgotten id store.forgotten)) [
  | inl barred ↦ ground arith
  | inr free ↦ free
]

is_forgotten-insert_other :
    (id key : String) (receipt : Option Receipt) (d : Dict (Option Receipt))
    → (key == id) ≡ false
    → is_forgotten id (insert key receipt d) ≡ is_forgotten id d
unfolding insert
is_forgotten-insert_other id key receipt [] other = rw other refl
is_forgotten-insert_other id key receipt ((j, r) ∷ d) other =
    ground (arith, eq_iff j key, is_forgotten-insert_other id key receipt d)

pub write_source-Same :
    (id key : String) (s : EvidenceSource) (store : Store)
    → (key == id) ≡ false
    → Same id store (write_source key s store)
unfolding write_source
write_source-Same id key s store other = record {
  same_record = rw lookup-insert (rw other refl);
  same_barrier = refl;
}

pub write_receipt-Same :
    (id key : String) (receipt : Receipt) (store : Store)
    → (key == id) ≡ false
    → Same id store (write_receipt key receipt store)
unfolding write_receipt
write_receipt-Same id key receipt store other = record {
  same_record = refl;
  same_barrier = is_forgotten-insert_other id key (some receipt) store.forgotten other;
}

pub Same-branch {ℓ} :
    {A : Type ℓ} (id : String) (store : Store) (b : Bool) (x y : A × Store)
    → Same id store x.1
    → Same id store y.1
    → Same id store (if b then x else y).1
Same-branch id store true x y t f = t
Same-branch id store false x y t f = f

-- A call on the source itself writes nothing, and one on another source keeps this one.
pub by_key :
    (fields : Fields) (id key : String) (store next : Store)
    → IsStuck fields id store
    → (IsStuck fields key store → next ≡ store)
    → ((key == id) ≡ false → Same id store next)
    → Same id store next
by_key fields id key store next stuck here there = elim (Bool-cases (key == id)) [
  | inr other ↦ there other
  | inl same ↦
      let e : key ≡ id = ground (arith, eq_iff key id) in
      rw (here (rw e stuck)) (Same-refl id store)
]

pub take_effect-Same :
    (id key : String) (s : EvidenceSource) (e : Effect) (store : Store)
    → (key == id) ≡ false
    → Same id store (take_effect key s e store).1
unfolding take_effect
take_effect-Same id key s (refuse code) store other = Same-refl id store
take_effect-Same id key s keep store other = Same-refl id store
take_effect-Same id key s (save next) store other = write_source-Same id key next store other

pub on_source-Same :
    (fields : Fields) (now : ℕ) (op : Operation) (id key : String) (answer : Answer) (store : Store)
    → (key == id) ≡ false
    → Same id store (on_source fields now op key answer store).1
unfolding on_source
on_source-Same fields now op id key (failed_with code) store other = Same-refl id store
on_source-Same fields now op id key (answered s) store other =
    take_effect-Same id key s (effect fields now op s) store other
