-- ===== src/Evidence/Import.antt =====
-- webapp/services/evidence_ledger_service.py: `import_meetings`, but for the content files beside the
-- records.
use se_skills.Prelude.{
  ℕ, ◌+◌, String, Bool, false, ◌&&◌, ◌||◌, not, Option, none, some, List, [], ◌∷◌, ◌++◌, ◌==◌, eqb,
  if◌then◌else◌,
}
use se_skills.Prelude.Dict.{Dict, lookup}
use se_skills.Json.{Json}
use se_skills.Evidence.Record.{
  AssociationDecision, Availability, Change, EvidenceSource, Fields, ProcessingState,
  SourceRevision, access_lost, availability, content, content_available, deleted, discovered,
  initial, is_decision, is_revision, metadata, metadata_only, pending_unknown, unassociated,
  unavailable,
}
use se_skills.Evidence.Status.{
  Code, Effect, content_too_large, derive_processing, invalid_import_id, invalid_record, keep,
  malformed_storage, refuse, save, source_forgotten, storage_conflict,
}
use se_skills.Evidence.Processing.{is_processing}
use se_skills.Evidence.Store.{
  Receipt, Answer, Store, answered, failed_with, is_forgotten, read_source, take_effect,
  write_source,
}

-- A selected meeting or message: `NormalizedSource`, with the hashes and metrics that the import
-- computes. `source_id` is `source_id_for` the identity, `too_large` the bound on the snapshot.
pub record Selected : Type 0 where
  pub source_id : String
  pub identity : Json
  pub provider : String
  pub availability : Availability
  pub occurred_at : Option ℕ
  pub provider_updated_at : Option ℕ
  pub unavailable_reason : Option String
  pub content_hash : String
  pub body_hash : String
  pub metrics : Json
  pub too_large : Bool

abbrev code_of : Availability → ℕ
code_of metadata_only = 0
code_of content_available = 1
code_of pending_unknown = 2
code_of access_lost = 3
code_of deleted = 4
code_of unavailable = 5

abbrev pub same_availability : Availability → Availability → Bool
same_availability a b = eqb (code_of a) (code_of b)

unfoldable pub changed : SourceRevision → Selected → Change
changed latest item =
    if not (same_availability latest.availability item.availability)
    then availability
    else if not (latest.body_hash == item.body_hash)
    then content
    else metadata

unfoldable pub new_revision : ℕ → ℕ → Change → String → String → Selected → SourceRevision
new_revision now number change import_id trigger item = record {
  revision = number;
  content_hash = item.content_hash;
  body_hash = item.body_hash;
  change = change;
  availability = item.availability;
  trigger = trigger;
  import_id = import_id;
  occurred_at = item.occurred_at;
  provider_updated_at = item.provider_updated_at;
  observed_at = now;
  retrieved_at = now;
  metrics = item.metrics;
  unavailable_reason = item.unavailable_reason;
}

unfoldable pub first_decision : ℕ → AssociationDecision
first_decision now = record {
  sequence = 1;
  state = unassociated;
  account = none;
  opportunity_slug = none;
  method = none;
  actor = "system";
  reason = "Imported without association.";
  candidates = [];
  crm_account_id = none;
  crm_opportunity_id = none;
  supersedes_sequence = none;
  recorded_at = now;
}

unfoldable pub created : ℕ → SourceRevision → Selected → EvidenceSource
created now revision item = derive_processing now (record {
  identity = item.identity;
  provider = item.provider;
  created_at = now;
  updated_at = now;
  latest_revision = 1;
  availability = item.availability;
  processing = record {
    status = discovered;
    attempts = 0;
    retry_eligible = false;
    last_error_code = none;
    processed_revision = none;
    updated_at = now;
  };
  association = first_decision now;
  association_history = first_decision now ∷ [];
  revisions = revision ∷ [];
})

unfoldable pub rediscovered : ℕ → ProcessingState → ProcessingState
rediscovered now p = if is_processing p.status then p else record p {
  status = discovered;
  retry_eligible = false;
  last_error_code = none;
  updated_at = now;
}

unfoldable pub extended : ℕ → SourceRevision → Selected → EvidenceSource → EvidenceSource
extended now revision item s = derive_processing now (record s {
  updated_at = now;
  latest_revision = s.latest_revision + 1;
  availability = item.availability;
  revisions = s.revisions ++ (revision ∷ []);
  processing = rediscovered now s.processing;
})

-- `existing.revisions[-1]`, of a list that is not empty
unfoldable pub last_or : SourceRevision → List SourceRevision → SourceRevision
last_or r [] = r
last_or r (x ∷ xs) = last_or x xs

-- _record_meeting for a source that has a record, after its latest revision is known. Pydantic
-- validates the new revision.
unfoldable pub import_after :
    Fields
    → (Json → Json → Bool)
    → ℕ
    → String
    → String
    → Selected
    → EvidenceSource
    → SourceRevision
    → Effect
import_after fields same_identity now import_id trigger item s latest =
    if not (same_identity s.identity item.identity)
    then refuse storage_conflict
    else if latest.content_hash == item.content_hash
    then keep
    else if is_revision fields revision
    then save (extended now revision item s)
    else refuse invalid_record
  where
    revision : SourceRevision
    revision = new_revision now (s.latest_revision + 1) (changed latest item) import_id trigger item

-- A record that was read has a revision.
abbrev pub with_latest : (SourceRevision → Effect) → List SourceRevision → Effect
with_latest f [] = refuse malformed_storage
with_latest f (r ∷ rs) = f (last_or r rs)

unfoldable pub import_again :
    Fields → (Json → Json → Bool) → ℕ → String → String → Selected → EvidenceSource → Effect
import_again fields same_identity now import_id trigger item s =
    with_latest (import_after fields same_identity now import_id trigger item s) s.revisions

unfoldable pub import_first : Fields → ℕ → String → String → Selected → Store → Answer × Store
import_first fields now import_id trigger item store =
    let revision = new_revision now 1 initial import_id trigger item in
    if is_revision fields revision && is_decision fields (first_decision now)
    then (
      answered (created now revision item),
      write_source item.source_id (created now revision item) store,
    )
    else (failed_with invalid_record, store)

unfoldable pub import_existing :
    Fields → (Json → Json → Bool) → ℕ → String → String → Selected → Answer → Store → Answer × Store
import_existing fields same_identity now import_id trigger item (failed_with code) store =
    (failed_with code, store)
import_existing fields same_identity now import_id trigger item (answered s) store =
    take_effect item.source_id s (import_again fields same_identity now import_id trigger item s)
      store

unfoldable pub record_meeting :
    Fields → (Json → Json → Bool) → ℕ → String → String → Selected → Store → Answer × Store
record_meeting fields same_identity now import_id trigger item store =
    if is_forgotten item.source_id store.forgotten
    then (failed_with source_forgotten, store)
    else if item.too_large
    then (failed_with content_too_large, store)
    else elim (lookup item.source_id store.sources) [
      | none ↦ import_first fields now import_id trigger item store
      | some _ ↦
          import_existing fields same_identity now import_id trigger item
            (read_source fields item.source_id store) store
    ]

-- After one meeting of a selection the next ones; a meeting that raises ends the import, and what
-- was written before it stays.
unfoldable pub then_import : (Store → Option Code × Store) → Answer × Store → Option Code × Store
then_import rest (failed_with code, store) = (some code, store)
then_import rest (answered s, store) = rest store

unfoldable pub import_all :
    Fields
    → (Json → Json → Bool)
    → String
    → String
    → List (ℕ × Selected)
    → Store
    → Option Code × Store
import_all fields same_identity import_id trigger [] store = (none, store)
import_all fields same_identity import_id trigger ((now, item) ∷ items) store =
    then_import (import_all fields same_identity import_id trigger items)
      (record_meeting fields same_identity now import_id trigger item store)

abbrev pub any_forgotten : List (ℕ × Selected) → Dict (Option Receipt) → Bool
any_forgotten [] forgotten = false
any_forgotten ((now, item) ∷ items) forgotten =
    is_forgotten item.source_id forgotten || any_forgotten items forgotten

-- The import identifier is checked by its pattern, or made by uuid4.
unfoldable pub import_meetings :
    Fields
    → (Json → Json → Bool)
    → (String → Bool)
    → String
    → String
    → List (ℕ × Selected)
    → Store
    → Option Code × Store
import_meetings fields same_identity token_ok import_id trigger items store =
    if not (token_ok import_id)
    then (some invalid_import_id, store)
    else if any_forgotten items store.forgotten
    then (some source_forgotten, store)
    else import_all fields same_identity import_id trigger items store
