-- ===== src/Evidence/Stuck.antt =====
-- webapp/services/evidence_ledger_service.py: a source whose record cannot be read, over time.
use se_skills.Prelude.{
  ℕ, ◌≡◌, refl, ◌∙◌, String, Bool, true, false, not, Option, none, some, List, [], ◌∷◌, ◌==◌, arith,
  Bool-cases, Option-cases, inl, inr,
}
use se_skills.Json.{Json}
use se_skills.Prelude.Dict.{lookup, lookup-without}
use se_skills.Evidence.Record.{Fields}
use se_skills.Evidence.Status.{Code, invalid_import_id, malformed_storage, source_forgotten}
use se_skills.Evidence.Store.{
  Answer, Operation, Receipt, Store, answered, failed_with, is_forgotten, on_source, operate,
  read_source, refused_first,
}
use se_skills.Evidence.Forget.{
  begin_forget, finish_forget, finish_receipt, forget_read, is_overview_status, new_receipt,
  purge_forgotten_source,
}
use se_skills.Evidence.Import.{
  Selected, any_forgotten, import_again, import_all, import_existing, import_first, import_meetings,
  record_meeting, then_import,
}
use se_skills.Evidence.Calls.{
  Checks, Event, ends_forgetting, forgets, happen, imports, operates, purges, run_events,
}
use se_skills.Evidence.Receipts.{lookup-is_forgotten}
use se_skills.Evidence.Same.{
  Same, IsStuck, Same-refl, Same-trans, Same-IsStuck, unforgotten, write_source-Same,
  write_receipt-Same, Same-branch, by_key, take_effect-Same, on_source-Same,
}

operate-Same :
    (fields : Fields) (code_ok : String → Bool) (now : ℕ) (op : Operation) (id key : String)
    (store : Store)
    → IsStuck fields id store
    → Same id store (operate fields code_ok now op key store).1
unfolding operate on_source
operate-Same fields code_ok now op id key store stuck =
    elim (Option-cases (refused_first code_ok op)) [
      | inr (code, refused) ↦ rw (refused, operate) (Same-refl id store)
      | inl reads ↦
          rw (reads, operate)
            (by_key fields id key store _ stuck (λ here. rw (here, on_source) refl)
              λ other.
                on_source-Same fields now op id key (read_source fields key store) store other)
    ]

import_existing-Same :
    (fields : Fields) (same_identity : Json → Json → Bool) (now : ℕ) (import_id trigger id : String)
    (item : Selected) (answer : Answer) (store : Store)
    → (item.source_id == id) ≡ false
    → Same id store (import_existing fields same_identity now import_id trigger item answer store).1
unfolding import_existing
import_existing-Same fields same_identity now import_id trigger id item (failed_with code) store o =
    Same-refl id store
import_existing-Same fields same_identity now import_id trigger id item (answered s) store o =
    take_effect-Same id item.source_id s
      (import_again fields same_identity now import_id trigger item s) store o

record_meeting-other :
    (fields : Fields) (same_identity : Json → Json → Bool) (now : ℕ) (import_id trigger id : String)
    (item : Selected) (store : Store)
    → (item.source_id == id) ≡ false
    → Same id store (record_meeting fields same_identity now import_id trigger item store).1
unfolding record_meeting import_first
record_meeting-other fields same_identity now import_id trigger id item store other =
    Same-branch id store (is_forgotten item.source_id store.forgotten) _ _ (Same-refl id store) (
      Same-branch id store item.too_large _ _ (Same-refl id store)
        (elim (Option-cases (lookup item.source_id store.sources)) [
          | inl missing ↦ rw missing (
              Same-branch id store _ _ _ (write_source-Same id item.source_id _ store other)
                (Same-refl id store))
          | inr (s, there) ↦ rw there (
              import_existing-Same fields same_identity now import_id trigger id item
                (read_source fields item.source_id store) store other)
        ]))

has_record :
    (fields : Fields) (id : String) (store : Store)
    → IsStuck fields id store
    → lookup id store.sources ≡ none
    → ⊥
unfolding read_source
has_record fields id store stuck missing =
    let free : is_forgotten id store.forgotten ≡ false = unforgotten fields id store stuck in
    ground arith

record_meeting-stuck :
    (fields : Fields) (same_identity : Json → Json → Bool) (now : ℕ) (import_id trigger : String)
    (item : Selected) (store : Store)
    → IsStuck fields item.source_id store
    → (record_meeting fields same_identity now import_id trigger item store).1 ≡ store
unfolding record_meeting import_existing
record_meeting-stuck fields same_identity now import_id trigger item store stuck =
    rw (unforgotten fields item.source_id store stuck) (elim (Bool-cases item.too_large) [
      | inl large ↦ rw large refl
      | inr fits ↦ rw fits (elim (Option-cases (lookup item.source_id store.sources)) [
        | inl missing ↦ absurd (has_record fields item.source_id store stuck missing)
        | inr (s, there) ↦ rw there (rw stuck refl)
      ])
    ])

then_import-Same :
    (fields : Fields) (id : String) (rest : Store → Option Code × Store) (store : Store)
    (x : Answer × Store)
    → IsStuck fields id store
    → ((next : Store) → IsStuck fields id next → Same id next (rest next).1)
    → Same id store x.1
    → Same id store (then_import rest x).1
unfolding then_import
then_import-Same fields id rest store (failed_with code, next) stuck h same = same
then_import-Same fields id rest store (answered s, next) stuck h same =
    Same-trans id store next (rest next).1 same
      (h next (Same-IsStuck fields id store next same stuck))

import_all-Same :
    (fields : Fields) (same_identity : Json → Json → Bool) (import_id trigger id : String)
    (items : List (ℕ × Selected)) (store : Store)
    → IsStuck fields id store
    → Same id store (import_all fields same_identity import_id trigger items store).1
unfolding import_all
import_all-Same fields same_identity import_id trigger id [] store stuck = Same-refl id store
import_all-Same fields same_identity import_id trigger id ((now, item) ∷ items) store stuck =
    then_import-Same fields id (import_all fields same_identity import_id trigger items) store _
      stuck (import_all-Same fields same_identity import_id trigger id items)
      (by_key fields id item.source_id store _ stuck
        (record_meeting-stuck fields same_identity now import_id trigger item store)
        (record_meeting-other fields same_identity now import_id trigger id item store))

forget_read-Same :
    (now : ℕ) (id key : String) (answer : Answer) (store : Store)
    → (key == id) ≡ false
    → Same id store (forget_read now key answer store).1
unfolding forget_read
forget_read-Same now id key (failed_with code) store other = Same-refl id store
forget_read-Same now id key (answered s) store other =
    Same-branch id store (not (s.provider == "gmail")) _ _ (Same-refl id store)
      (write_receipt-Same id key (new_receipt now) store other)

begin_forget-Same :
    (fields : Fields) (now : ℕ) (id key : String) (store : Store)
    → IsStuck fields id store
    → Same id store (begin_forget fields now key store).1
unfolding begin_forget forget_read
begin_forget-Same fields now id key store stuck = elim (Option-cases (lookup key store.forgotten)) [
  | inr (none, held) ↦ rw (held, begin_forget) (Same-refl id store)
  | inr (some receipt, held) ↦ rw (held, begin_forget) (Same-refl id store)
  | inl new ↦
      rw (new, begin_forget)
        (by_key fields id key store _ stuck (λ here. rw (here, forget_read) refl)
          λ other. forget_read-Same now id key (read_source fields key store) store other)
]

finish_receipt-Same :
    (id key overview_status : String) (receipt : Receipt) (store : Store)
    → (key == id) ≡ false
    → Same id store (finish_receipt key overview_status receipt store).1
unfolding finish_receipt
finish_receipt-Same id key overview_status receipt store other =
    Same-branch id store (not (is_overview_status overview_status)) _ _ (Same-refl id store)
      (write_receipt-Same id key _ store other)

no_receipt_of :
    (fields : Fields) (id : String) (receipt : Option Receipt) (store : Store)
    → IsStuck fields id store
    → lookup id store.forgotten ≡ some receipt
    → ⊥
no_receipt_of fields id receipt store stuck held =
    let free : is_forgotten id store.forgotten ≡ false = unforgotten fields id store stuck in
    let barred : is_forgotten id store.forgotten ≡ true =
      lookup-is_forgotten id receipt store.forgotten held in
    ground arith

finish_forget-Same :
    (fields : Fields) (id key overview_status : String) (store : Store)
    → IsStuck fields id store
    → Same id store (finish_forget key overview_status store).1
unfolding finish_forget
finish_forget-Same fields id key overview_status store stuck =
    elim (Option-cases (lookup key store.forgotten)) [
      | inl new ↦ rw (new, finish_forget) (Same-refl id store)
      | inr (none, held) ↦ rw (held, finish_forget) (Same-refl id store)
      | inr (some receipt, held) ↦
          rw (held, finish_forget)
            (by_key fields id key store _ stuck
              (λ here. absurd (no_receipt_of fields key (some receipt) store here held))
              (finish_receipt-Same id key overview_status receipt store))
    ]

purge_forgotten_source-Same :
    (fields : Fields) (unsafe : Bool) (id key : String) (store : Store)
    → IsStuck fields id store
    → Same id store (purge_forgotten_source unsafe key store).1
unfolding purge_forgotten_source
purge_forgotten_source-Same fields unsafe id key store stuck =
    by_key fields id key store _ stuck (λ here. rw (unforgotten fields key store here) refl)
      λ other.
        Same-branch id store (not (is_forgotten key store.forgotten)) _ _ (Same-refl id store) (
          Same-branch id store unsafe _ _ (Same-refl id store)
            (record { same_record = rw lookup-without (rw other refl); same_barrier = refl }))

happen-Same :
    (c : Checks) (e : Event) (id : String) (store : Store)
    → IsStuck c.fields id store
    → Same id store (happen c e store)
unfolding happen import_meetings
happen-Same c (operates now op key) id store stuck =
    operate-Same c.fields c.code_ok now op id key store stuck
happen-Same c (imports import_id trigger items) id store stuck =
    Same-branch id store (not (c.token_ok import_id)) (some invalid_import_id, store) _
      (Same-refl id store)
      (Same-branch id store (any_forgotten items store.forgotten) (some source_forgotten, store) _
        (Same-refl id store)
        (import_all-Same c.fields c.same_identity import_id trigger id items store stuck))
happen-Same c (forgets now key) id store stuck = begin_forget-Same c.fields now id key store stuck
happen-Same c (ends_forgetting overview_status key) id store stuck =
    finish_forget-Same c.fields id key overview_status store stuck
happen-Same c (purges unsafe key) id store stuck =
    purge_forgotten_source-Same c.fields unsafe id key store stuck

-- A source whose read fails with malformed_storage stays so: whatever is imported, decided,
-- processed, forgotten and purged then, its read fails with malformed_storage again, and its record
-- is the one it had.
pub run_events-IsStuck :
    (c : Checks) (events : List Event) (id : String) (store : Store)
    → read_source c.fields id store ≡ failed_with malformed_storage
    → (read_source c.fields id (run_events c events store) ≡ failed_with malformed_storage)
      × (lookup id (run_events c events store).sources ≡ lookup id store.sources)
unfolding run_events
run_events-IsStuck c [] id store stuck = (stuck, refl)
run_events-IsStuck c (e ∷ es) id store stuck =
    let same : Same id store (happen c e store) = happen-Same c e id store stuck in
    let (still, held) =
      run_events-IsStuck c es id (happen c e store)
        (Same-IsStuck c.fields id store (happen c e store) same stuck) in
    (still, held ∙ same.same_record)
