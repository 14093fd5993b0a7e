-- ===== src/Evidence/History.antt =====
-- webapp/services/evidence_ledger_service.py: the operations and the imports, on the records of a
-- workspace.
use se_skills.Prelude.{
  ℕ, ◌≡◌, refl, String, Bool, true, false, ◌&&◌, not, Option, some, List, [], ◌∷◌, ◌==◌,
  if◌then◌else◌, arith, Bool-cases, Option-cases, inl, inr,
}
use se_skills.Json.{Json}
use se_skills.Evidence.Record.{SourceRevision, EvidenceSource, Fields, is_decision, is_revision}
use se_skills.Evidence.Status.{
  Code, Effect, content_too_large, invalid_import_id, invalid_record, keep, refuse, save,
  source_forgotten,
}
use se_skills.Evidence.Store.{
  Answer, Operation, Store, answered, effect, failed_with, is_forgotten, on_source, operate,
  read_source, refused_first, take_effect, write_source,
}
use se_skills.Evidence.Import.{
  Selected, any_forgotten, created, first_decision, import_again, import_all, import_existing,
  import_first, import_meetings, new_revision, record_meeting, then_import,
}
use se_skills.Evidence.Calls.{Checks, Event, happen, imports, operates, run_events}
use se_skills.Prelude.Dict.{lookup, lookup-insert}
use se_skills.Evidence.Record.{initial}
use se_skills.Evidence.Settled.{Settled, Safe}
use se_skills.Evidence.Receipts.{
  Purged, begin_forget-Purged, finish_forget-Purged, purge_forgotten_source-Purged,
}
use se_skills.Evidence.Calls.{forgets, ends_forgetting, purges}
use se_skills.Evidence.Outcome.{effect-Safe, created-Settled, import_again-Safe}

-- Every record of the workspace is settled.
pub record AllSettled (store : Store) : Type 0 where
  pub at : (id : String) (s : EvidenceSource) → lookup id store.sources ≡ some s → Settled s

write_source-AllSettled :
    (id : String) (s : EvidenceSource) (store : Store)
    → Settled s
    → AllSettled store
    → AllSettled (write_source id s store)
unfolding write_source
write_source-AllSettled id s store h a = record {
  at = λ k t e. elim (Bool-cases (id == k)) [
    | inl here ↦ let same : some s ≡ some t = rw here at (rw lookup-insert at e) in ground arith
    | inr other ↦ a.at k t (rw other at (rw lookup-insert at e))
  ];
}

take_effect-AllSettled :
    (id : String) (s : EvidenceSource) (e : Effect) (store : Store)
    → Safe e
    → AllSettled store
    → AllSettled (take_effect id s e store).1
unfolding take_effect
take_effect-AllSettled id s (refuse code) store h a = a
take_effect-AllSettled id s keep store h a = a
take_effect-AllSettled id s (save next) store h a = write_source-AllSettled id next store h a

pub read_source-lookup :
    (fields : Fields) (id : String) (store : Store) (s : EvidenceSource)
    → read_source fields id store ≡ answered s
    → lookup id store.sources ≡ some s
unfolding read_source
read_source-lookup fields id store s e = ground arith

operate-AllSettled :
    (fields : Fields) (code_ok : String → Bool) (now : ℕ) (op : Operation) (id : String)
    (store : Store)
    → AllSettled store
    → AllSettled (operate fields code_ok now op id store).1
unfolding operate on_source
operate-AllSettled fields code_ok now op id store a =
    elim (Option-cases (refused_first code_ok op)) [
      | inr (code, no_read) ↦ rw (no_read, operate) a
      | inl reads ↦ rw (reads, operate) (answer (read_source fields id store) refl)
    ]
  where
    answer :
        (r : Answer)
        → read_source fields id store ≡ r
        → AllSettled (on_source fields now op id r store).1
    answer (failed_with code) e = a
    answer (answered s) e =
        take_effect-AllSettled id s (effect fields now op s) store
          (effect-Safe fields now op s (a.at id s (read_source-lookup fields id store s e))) a

Pair-branch :
    (b : Bool) (x y : Answer × Store)
    → AllSettled x.1
    → AllSettled y.1
    → AllSettled (if b then x else y).1
Pair-branch true x y t f = t
Pair-branch false x y t f = f

import_first-AllSettled :
    (fields : Fields) (now : ℕ) (import_id trigger : String) (item : Selected) (store : Store)
    → AllSettled store
    → AllSettled (import_first fields now import_id trigger item store).1
unfolding import_first
import_first-AllSettled fields now import_id trigger item store a =
    Pair-branch (is_revision fields revision && is_decision fields (first_decision now))
      (
        answered (created now revision item),
        write_source item.source_id (created now revision item) store,
      )
      (failed_with invalid_record, store)
      (write_source-AllSettled item.source_id (created now revision item) store
        (created-Settled now revision item) a)
      a
  where
    revision : SourceRevision
    revision = new_revision now 1 initial import_id trigger item

record_meeting-AllSettled :
    (fields : Fields) (same_identity : Json → Json → Bool) (now : ℕ) (import_id trigger : String)
    (item : Selected) (store : Store)
    → AllSettled store
    → AllSettled (record_meeting fields same_identity now import_id trigger item store).1
unfolding record_meeting import_existing
record_meeting-AllSettled fields same_identity now import_id trigger item store a =
    Pair-branch (is_forgotten item.source_id store.forgotten) (failed_with source_forgotten, store)
      _ a
      (Pair-branch item.too_large (failed_with content_too_large, store) _ a
        (elim (Option-cases (lookup item.source_id store.sources)) [
          | inl missing ↦
              rw missing (import_first-AllSettled fields now import_id trigger item store a)
          | inr (s, there) ↦ rw there (existing (read_source fields item.source_id store) refl)
        ]))
  where
    existing :
        (r : Answer)
        → read_source fields item.source_id store ≡ r
        → AllSettled (import_existing fields same_identity now import_id trigger item r store).1
    existing (failed_with code) e = a
    existing (answered s) e =
        take_effect-AllSettled item.source_id s
          (import_again fields same_identity now import_id trigger item s) store
          (import_again-Safe fields same_identity now import_id trigger item s
            (a.at item.source_id s (read_source-lookup fields item.source_id store s e)))
          a

then_import-AllSettled :
    (rest : Store → Option Code × Store) (x : Answer × Store)
    → ((store : Store) → AllSettled store → AllSettled (rest store).1)
    → AllSettled x.1
    → AllSettled (then_import rest x).1
unfolding then_import
then_import-AllSettled rest (failed_with code, store) h a = a
then_import-AllSettled rest (answered s, store) h a = h store a

import_all-AllSettled :
    (fields : Fields) (same_identity : Json → Json → Bool) (import_id trigger : String)
    (items : List (ℕ × Selected)) (store : Store)
    → AllSettled store
    → AllSettled (import_all fields same_identity import_id trigger items store).1
unfolding import_all
import_all-AllSettled fields same_identity import_id trigger [] store a = a
import_all-AllSettled fields same_identity import_id trigger ((now, item) ∷ items) store a =
    then_import-AllSettled (import_all fields same_identity import_id trigger items) _
      (import_all-AllSettled fields same_identity import_id trigger items)
      (record_meeting-AllSettled fields same_identity now import_id trigger item store a)

Import-branch :
    (b : Bool) (x y : Option Code × Store)
    → AllSettled x.1
    → AllSettled y.1
    → AllSettled (if b then x else y).1
Import-branch true x y t f = t
Import-branch false x y t f = f

Purged-AllSettled : (a b : Store) → Purged a b → AllSettled a → AllSettled b
Purged-AllSettled a b p h = record { at = λ id s e. h.at id s (p.none_new id s e) }

happen-AllSettled :
    (c : Checks) (e : Event) (store : Store) → AllSettled store → AllSettled (happen c e store)
unfolding happen import_meetings
happen-AllSettled c (operates now op id) store a =
    operate-AllSettled c.fields c.code_ok now op id store a
happen-AllSettled c (imports import_id trigger items) store a =
    Import-branch (not (c.token_ok import_id)) (some invalid_import_id, store) _ a
      (Import-branch (any_forgotten items store.forgotten) (some source_forgotten, store) _ a
        (import_all-AllSettled c.fields c.same_identity import_id trigger items store a))
happen-AllSettled c (forgets now id) store a =
    Purged-AllSettled store _ (begin_forget-Purged c.fields now id store) a
happen-AllSettled c (ends_forgetting overview_status id) store a =
    Purged-AllSettled store _ (finish_forget-Purged id overview_status store) a
happen-AllSettled c (purges unsafe id) store a =
    Purged-AllSettled store _ (purge_forgotten_source-Purged unsafe id store) a

-- Whatever is imported, decided, processed and forgotten, from settled records on: every record has a status
-- that tells its state. A source waits for an association just when it has none and then no revision
-- of it counts as processed; it waits for content, or is queued, only if it is associated and its
-- latest revision is not processed, and the content is missing or there; a source in processing,
-- failed or processed is associated, and a processed one has its latest revision processed. No
-- record is left `discovered` or `superseded`.
pub run_events-AllSettled :
    (c : Checks) (events : List Event) (store : Store)
    → AllSettled store
    → AllSettled (run_events c events store)
unfolding run_events
run_events-AllSettled c [] store a = a
run_events-AllSettled c (e ∷ es) store a =
    run_events-AllSettled c es (happen c e store) (happen-AllSettled c e store a)
