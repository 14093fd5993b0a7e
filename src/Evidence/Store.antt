-- ===== src/Evidence/Store.antt =====
-- webapp/services/evidence_ledger_service.py: the records of a workspace and an operation on one.
use se_skills.Prelude.{
  ℕ, String, Bool, false, ◌||◌, not, Option, none, some, List, [], ◌∷◌, ◌==◌, is_empty, is_none,
  ltb, if◌then◌else◌,
}
use se_skills.Prelude.Dict.{Dict, lookup, insert}
use se_skills.Evidence.Record.{
  AssociationCandidate, AssociationMethod, EvidenceSource, Fields, is_auto, is_human, is_source,
}
use se_skills.Evidence.Status.{
  Code, Effect, invalid_error_code, invalid_method, keep, malformed_storage, no_candidates, refuse,
  save, source_forgotten, unknown_source, unresolved_identity,
}
use se_skills.Evidence.Association.{
  ResolvedIdentity, clear_association, confirm_association, propose_association,
}
use se_skills.Evidence.Processing.{
  mark_failed, mark_processed, mark_processing, request_reprocessing, retry,
}

pub data ReceiptStatus : Type 0 where
  pending complete : ReceiptStatus

-- A deletion receipt; its source is the key that it is stored under.
pub record Receipt : Type 0 where
  pub requested_at : ℕ
  pub status : ReceiptStatus
  pub overview_status : Option String

-- The records and the deletion receipts, by source_id. A receipt's file that forget_receipt finds
-- malformed is none.
pub record Store : Type 0 where
  pub sources : Dict EvidenceSource
  pub forgotten : Dict (Option Receipt)

-- EvidenceLedgerService.is_forgotten
abbrev pub is_forgotten : String → Dict (Option Receipt) → Bool
is_forgotten id [] = false
is_forgotten id ((key, receipt) ∷ rest) = key == id || is_forgotten id rest

pub data Answer : Type 0 where
  failed_with : Code → Answer
  answered : EvidenceSource → Answer

-- _read_source
unfoldable pub read_source : Fields → String → Store → Answer
read_source fields id store =
    if is_forgotten id store.forgotten
    then failed_with source_forgotten
    else elim (lookup id store.sources) [
      | none ↦ failed_with unknown_source
      | some s ↦
          if ltb 2000000 (fields.record_bytes s)
          then failed_with malformed_storage
          else if is_source fields s
          then answered s
          else failed_with malformed_storage
    ]

pub data Operation : Type 0 where
  proposes : List AssociationCandidate → String → Operation
  confirms : Option ResolvedIdentity → AssociationMethod → String → String → Operation
  clears : String → String → Operation
  starts : Operation
  finishes : ℕ → Operation
  fails : String → Bool → Operation
  retries : Operation
  reprocesses : String → Operation

abbrev any_auto : List AssociationCandidate → Bool
any_auto [] = false
any_auto (c ∷ cs) = is_auto c.method || any_auto cs

-- What an operation refuses before it reads the record. `code_ok` is the pattern of an error code.
unfoldable pub refused_first : (String → Bool) → Operation → Option Code
refused_first code_ok (proposes candidates reason) =
    if is_empty candidates
    then some no_candidates
    else if any_auto candidates
    then some invalid_method
    else none
refused_first code_ok (confirms identity how actor reason) =
    if not (is_human how)
    then some invalid_method
    else if is_none identity
    then some unresolved_identity
    else none
refused_first code_ok (fails error_code eligible) =
    if code_ok error_code then none else some invalid_error_code
refused_first code_ok (reprocesses reason_code) =
    if code_ok reason_code then none else some invalid_error_code
refused_first code_ok (clears actor reason) = none
refused_first code_ok starts = none
refused_first code_ok (finishes revision) = none
refused_first code_ok retries = none

unfoldable pub effect : Fields → ℕ → Operation → EvidenceSource → Effect
effect fields now (proposes candidates reason) s =
    propose_association fields now candidates reason s
effect fields now (confirms none how actor reason) s = refuse unresolved_identity
effect fields now (confirms (some identity) how actor reason) s =
    confirm_association fields now identity how actor reason s
effect fields now (clears actor reason) s = clear_association fields now actor reason s
effect fields now starts s = mark_processing now s
effect fields now (finishes revision) s = mark_processed now revision s
effect fields now (fails error_code eligible) s = mark_failed now error_code eligible s
effect fields now retries s = retry now s
effect fields now (reprocesses reason_code) s = request_reprocessing now reason_code s

unfoldable pub write_source : String → EvidenceSource → Store → Store
write_source id s store = record store { sources = insert id s store.sources }

unfoldable pub take_effect : String → EvidenceSource → Effect → Store → Answer × Store
take_effect id s (refuse code) store = (failed_with code, store)
take_effect id s keep store = (answered s, store)
take_effect id s (save next) store = (answered next, write_source id next store)

unfoldable pub on_source : Fields → ℕ → Operation → String → Answer → Store → Answer × Store
on_source fields now op id (failed_with code) store = (failed_with code, store)
on_source fields now op id (answered s) store = take_effect id s (effect fields now op s) store

unfoldable pub operate : Fields → (String → Bool) → ℕ → Operation → String → Store → Answer × Store
operate fields code_ok now op id store = elim (refused_first code_ok op) [
  | some code ↦ (failed_with code, store)
  | none ↦ on_source fields now op id (read_source fields id store) store
]
