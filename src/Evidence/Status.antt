-- ===== src/Evidence/Status.antt =====
-- webapp/services/evidence_ledger_service.py: what an operation makes of a record, and the status that
-- `_derive_processing` gives it. The encoding of a record with its checksum is taken to give the
-- record back, and `scope` to be that of the workspace; the file lock makes an operation one step.
use se_skills.Prelude.{ℕ, String, Bool, true, false, not, Option, none, some, eqb, if◌then◌else◌}
use se_skills.Evidence.Record.{
  AssociationState, Availability, EvidenceSource, ProcessingStatus, associated,
  awaiting_association, awaiting_content, content_available, discovered, processed, queued,
}

-- The codes of EvidenceLedgerError; `busy_processing` is its code "processing", `unresolved_identity`
-- what `resolve_identity` raises, and `invalid_record` is Pydantic's ValidationError.
pub data Code : Type 0 where
  source_forgotten unknown_source malformed_storage storage_conflict content_too_large : Code
  no_candidates invalid_method already_associated : Code
  not_queued retry_blocked not_processing invalid_error_code busy_processing : Code
  invalid_import_id not_gmail forget_not_started unsafe_storage invalid_overview content_withheld
        unknown_revision content_unavailable content_missing invalid_record unresolved_identity :
      Code

-- What an operation makes of a source's record.
pub data Effect : Type 0 where
  refuse : Code → Effect
  keep : Effect
  save : EvidenceSource → Effect

abbrev pub is_associated : AssociationState → Bool
is_associated associated = true
is_associated _ = false

abbrev pub has_content : Availability → Bool
has_content content_available = true
has_content _ = false

abbrev pub is_latest : Option ℕ → ℕ → Bool
is_latest none latest = false
is_latest (some n) latest = eqb n latest

-- The statuses that `_derive_processing` moves.
abbrev pub is_waiting : ProcessingStatus → Bool
is_waiting discovered = true
is_waiting awaiting_association = true
is_waiting awaiting_content = true
is_waiting queued = true
is_waiting _ = false

unfoldable pub derived_status : EvidenceSource → ProcessingStatus
derived_status s =
    if is_latest s.processing.processed_revision s.latest_revision
    then processed
    else if not (is_associated s.association.state)
    then awaiting_association
    else if not (has_content s.availability)
    then awaiting_content
    else queued

unfoldable pub derive_processing : ℕ → EvidenceSource → EvidenceSource
derive_processing now s =
    if is_waiting s.processing.status
    then record s {
      processing = record s.processing { status = derived_status s; updated_at = now };
    }
    else s

-- The processing starts again.
unfoldable pub reset : ℕ → Option String → EvidenceSource → EvidenceSource
reset now error_code s = record s {
  processing = record s.processing {
    status = discovered;
    processed_revision = none;
    retry_eligible = false;
    last_error_code = error_code;
    updated_at = now;
  };
}
