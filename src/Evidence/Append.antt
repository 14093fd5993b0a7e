-- ===== src/Evidence/Append.antt =====
-- webapp/services/evidence_ledger_service.py: what the calls of the service leave of the records.
use se_skills.Prelude.{
  ℕ, ◌≡◌, refl, ◌∙◌, String, Bool, true, false, ◌&&◌, not, Option, none, some, List, [], ◌∷◌, ◌==◌,
  eq_iff, if◌then◌else◌, arith, Bool-cases, Option-cases, inl, inr,
}
use se_skills.Prelude.Dict.{lookup, lookup-insert}
use se_skills.Json.{Json}
use se_skills.Evidence.Record.{
  SourceRevision, EvidenceSource, Fields, is_decision, is_revision, initial,
}
use se_skills.Evidence.Status.{
  Code, Effect, content_too_large, invalid_import_id, invalid_record, keep, refuse, save,
  source_forgotten,
}
use se_skills.Evidence.Store.{
  Answer, Operation, Store, answered, effect, failed_with, is_forgotten, on_source, operate,
  read_source, refused_first, take_effect, write_source,
}
use se_skills.Evidence.Import.{
  Selected, any_forgotten, created, first_decision, import_again, import_all, import_existing,
  import_first, import_meetings, new_revision, record_meeting, then_import,
}
use se_skills.Evidence.Calls.{Checks, Event, happen, imports, operates, run_events}
use se_skills.Evidence.History.{read_source-lookup}
use se_skills.Evidence.Receipts.{
  Purged, begin_forget-Purged, finish_forget-Purged, purge_forgotten_source-Purged,
  begin_forget-is_forgotten,
}
use se_skills.Evidence.Forget.{begin_forget, receipt_of}
use se_skills.Evidence.Store.{Receipt}
use se_skills.Evidence.Calls.{forgets, ends_forgetting, purges}
use se_skills.Evidence.Growth.{
  Grows, Grows-refl, Grows-trans, Extends, effect-Extends, import_again-Extends,
}

-- Every record of the first store is in the second, with a history and revisions that extend it,
-- unless its source is forgotten; and no receipt is dropped.
pub record AllGrow (before after : Store) : Type 0 where
  pub at :
      (id : String) (s : EvidenceSource)
      → is_forgotten id after.forgotten ≡ false
      → lookup id before.sources ≡ some s
      → (t : EvidenceSource) × (lookup id after.sources ≡ some t) × Grows s t
  pub barrier :
      (id : String)
      → is_forgotten id before.forgotten ≡ true
      → is_forgotten id after.forgotten ≡ true

AllGrow-refl : (store : Store) → AllGrow store store
AllGrow-refl store = record { at = λ id s held e. (s, e, Grows-refl s); barrier = λ id e. e }

AllGrow-trans : (a b c : Store) → AllGrow a b → AllGrow b c → AllGrow a c
AllGrow-trans a b c f g = record {
  at = λ id s held e. elim (Bool-cases (is_forgotten id b.forgotten)) [
    | inl gone ↦ cc (g.barrier id gone, held)
    | inr there ↦
        let (t, kept, grows) = f.at id s there e in
        let (u, last, more) = g.at id t held kept in (u, last, Grows-trans s t u grows more)
  ];
  barrier = λ id e. g.barrier id (f.barrier id e);
}

Purged-AllGrow : (a b : Store) → Purged a b → AllGrow a b
Purged-AllGrow a b p = record {
  at = λ id s held e. (s, p.same id held ∙ e, Grows-refl s);
  barrier = p.barrier;
}

-- A record is written where there is none, or over one that it extends.
write_source-AllGrow :
    (id : String) (t : EvidenceSource) (store : Store)
    → ((s : EvidenceSource) → lookup id store.sources ≡ some s → Grows s t)
    → AllGrow store (write_source id t store)
unfolding write_source
write_source-AllGrow id t store over = record {
  at = λ k s held e. elim (Bool-cases (id == k)) [
    | inl here ↦
        let same : id ≡ k = ground (arith, eq_iff id k) in
        (t, lookup-insert id k t store.sources ∙ rw here refl, over s (rw same e))
    | inr other ↦ (s, lookup-insert id k t store.sources ∙ rw other e, Grows-refl s)
  ];
  barrier = λ k e. e;
}

take_effect-AllGrow :
    (id : String) (s : EvidenceSource) (e : Effect) (store : Store)
    → lookup id store.sources ≡ some s
    → Extends s e
    → AllGrow store (take_effect id s e store).1
unfolding take_effect
take_effect-AllGrow id s (refuse code) store there h = AllGrow-refl store
take_effect-AllGrow id s keep store there h = AllGrow-refl store
take_effect-AllGrow id s (save next) store there h =
    write_source-AllGrow id next store λ u e. let same : s ≡ u = cc (there, e) in rw same at h

on_source-AllGrow :
    (fields : Fields) (now : ℕ) (op : Operation) (id : String) (store : Store) (answer : Answer)
    → read_source fields id store ≡ answer
    → AllGrow store (on_source fields now op id answer store).1
unfolding on_source
on_source-AllGrow fields now op id store (failed_with code) e = AllGrow-refl store
on_source-AllGrow fields now op id store (answered s) e =
    take_effect-AllGrow id s (effect fields now op s) store (read_source-lookup fields id store s e)
      (effect-Extends fields now s op)

operate-AllGrow :
    (fields : Fields) (code_ok : String → Bool) (now : ℕ) (op : Operation) (id : String)
    (store : Store)
    → AllGrow store (operate fields code_ok now op id store).1
unfolding operate
operate-AllGrow fields code_ok now op id store = elim (Option-cases (refused_first code_ok op)) [
  | inr (code, no_read) ↦ rw (no_read, operate) (AllGrow-refl store)
  | inl reads ↦
      rw (reads, operate)
        (on_source-AllGrow fields now op id store (read_source fields id store) refl)
]

Pair-branch {ℓ} :
    {A : Type ℓ} (store : Store) (b : Bool) (x y : A × Store)
    → AllGrow store x.1
    → AllGrow store y.1
    → AllGrow store (if b then x else y).1
Pair-branch store true x y t f = t
Pair-branch store false x y t f = f

import_first-AllGrow :
    (fields : Fields) (now : ℕ) (import_id trigger : String) (item : Selected) (store : Store)
    → lookup item.source_id store.sources ≡ none
    → AllGrow store (import_first fields now import_id trigger item store).1
unfolding import_first
import_first-AllGrow fields now import_id trigger item store missing =
    Pair-branch store (is_revision fields revision && is_decision fields (first_decision now))
      (
        answered (created now revision item),
        write_source item.source_id (created now revision item) store,
      )
      (failed_with invalid_record, store)
      (write_source-AllGrow item.source_id (created now revision item) store λ s e. cc (missing, e))
      (AllGrow-refl store)
  where
    revision : SourceRevision
    revision = new_revision now 1 initial import_id trigger item

import_existing-AllGrow :
    (fields : Fields) (same_identity : Json → Json → Bool) (now : ℕ) (import_id trigger : String)
    (item : Selected) (store : Store) (answer : Answer)
    → read_source fields item.source_id store ≡ answer
    → AllGrow store (import_existing fields same_identity now import_id trigger item answer store).1
unfolding import_existing
import_existing-AllGrow fields same_identity now import_id trigger item store (failed_with code) e =
    AllGrow-refl store
import_existing-AllGrow fields same_identity now import_id trigger item store (answered s) e =
    take_effect-AllGrow item.source_id s
      (import_again fields same_identity now import_id trigger item s) store
      (read_source-lookup fields item.source_id store s e)
      (import_again-Extends fields now s same_identity import_id trigger item)

record_meeting-AllGrow :
    (fields : Fields) (same_identity : Json → Json → Bool) (now : ℕ) (import_id trigger : String)
    (item : Selected) (store : Store)
    → AllGrow store (record_meeting fields same_identity now import_id trigger item store).1
unfolding record_meeting
record_meeting-AllGrow fields same_identity now import_id trigger item store =
    Pair-branch store (is_forgotten item.source_id store.forgotten)
      (failed_with source_forgotten, store) _ (AllGrow-refl store)
      (Pair-branch store item.too_large (failed_with content_too_large, store) _
        (AllGrow-refl store)
        (elim (Option-cases (lookup item.source_id store.sources)) [
          | inl missing ↦
              rw missing (import_first-AllGrow fields now import_id trigger item store missing)
          | inr (s, there) ↦ rw there (
              import_existing-AllGrow fields same_identity now import_id trigger item store
                (read_source fields item.source_id store) refl)
        ]))

then_import-AllGrow :
    (rest : Store → Option Code × Store) (store : Store) (x : Answer × Store)
    → ((next : Store) → AllGrow next (rest next).1)
    → AllGrow store x.1
    → AllGrow store (then_import rest x).1
unfolding then_import
then_import-AllGrow rest store (failed_with code, next) h g = g
then_import-AllGrow rest store (answered s, next) h g =
    AllGrow-trans store next (rest next).1 g (h next)

import_all-AllGrow :
    (fields : Fields) (same_identity : Json → Json → Bool) (import_id trigger : String)
    (items : List (ℕ × Selected)) (store : Store)
    → AllGrow store (import_all fields same_identity import_id trigger items store).1
unfolding import_all
import_all-AllGrow fields same_identity import_id trigger [] store = AllGrow-refl store
import_all-AllGrow fields same_identity import_id trigger ((now, item) ∷ items) store =
    then_import-AllGrow (import_all fields same_identity import_id trigger items) store _
      (import_all-AllGrow fields same_identity import_id trigger items)
      (record_meeting-AllGrow fields same_identity now import_id trigger item store)

happen-AllGrow : (c : Checks) (e : Event) (store : Store) → AllGrow store (happen c e store)
unfolding happen import_meetings
happen-AllGrow c (operates now op id) store = operate-AllGrow c.fields c.code_ok now op id store
happen-AllGrow c (imports import_id trigger items) store =
    Pair-branch store (not (c.token_ok import_id)) (some invalid_import_id, store) _
      (AllGrow-refl store)
      (Pair-branch store (any_forgotten items store.forgotten) (some source_forgotten, store) _
        (AllGrow-refl store)
        (import_all-AllGrow c.fields c.same_identity import_id trigger items store))
happen-AllGrow c (forgets now id) store =
    Purged-AllGrow store _ (begin_forget-Purged c.fields now id store)
happen-AllGrow c (ends_forgetting overview_status id) store =
    Purged-AllGrow store _ (finish_forget-Purged id overview_status store)
happen-AllGrow c (purges unsafe id) store =
    Purged-AllGrow store _ (purge_forgotten_source-Purged unsafe id store)

-- Whatever is imported, decided, processed and forgotten: a source that has a record keeps one as
-- long as it is not forgotten, and its association history and its revisions only grow at their
-- ends: no decision and no revision is changed, reordered or dropped. A source that is forgotten
-- stays forgotten.
pub run_events-AllGrow :
    (c : Checks) (events : List Event) (store : Store) → AllGrow store (run_events c events store)
unfolding run_events
run_events-AllGrow c [] store = AllGrow-refl store
run_events-AllGrow c (e ∷ es) store =
    AllGrow-trans store (happen c e store) (run_events c es (happen c e store))
      (happen-AllGrow c e store) (run_events-AllGrow c es (happen c e store))

-- After begin_forget has given a receipt for a source, whatever happens then: reading the source fails
-- with source_forgotten, and an import of it fails so too and writes nothing.
pub forgotten_for_ever :
    (c : Checks) (now later : ℕ) (import_id trigger : String) (item : Selected) (store next : Store)
    (receipt : Receipt) (events : List Event)
    → begin_forget c.fields now item.source_id store ≡ (receipt_of receipt, next)
    → (read_source c.fields item.source_id (run_events c events next)
        ≡ failed_with source_forgotten)
      × (record_meeting c.fields c.same_identity later import_id trigger item
            (run_events c events next)
          ≡ (failed_with source_forgotten, run_events c events next))
unfolding read_source record_meeting
forgotten_for_ever c now later import_id trigger item store next receipt events e =
    let barred : is_forgotten item.source_id (run_events c events next).forgotten ≡ true =
      (run_events-AllGrow c events next).barrier item.source_id
        (begin_forget-is_forgotten c.fields now item.source_id store next receipt e) in
    (rw barred refl, rw barred refl)
