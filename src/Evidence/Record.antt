-- ===== src/Evidence/Record.antt =====
-- webapp/command_center_evidence.py: the records of the evidence ledger and their validators.
-- Pydantic's parsing of the fields (the patterns, the lengths of texts) is a parameter, as is the
-- equality of two decisions; a time is a number.
use se_skills.Prelude.{
  ℕ, suc, String, Bool, true, false, ◌&&◌, ◌||◌, not, Option, none, some, List, [], ◌∷◌, ◌==◌,
  length, is_empty, is_some, eqb, leb, if◌then◌else◌,
}
use se_skills.Json.{Json}

-- ContentAvailability; `unavailable` is its literal `failed`.
pub data Availability : Type 0 where
  metadata_only content_available pending_unknown access_lost deleted unavailable : Availability

pub data ProcessingStatus : Type 0 where
  discovered awaiting_association awaiting_content queued processing : ProcessingStatus
  processed failed superseded : ProcessingStatus

pub data AssociationMethod : Type 0 where
  explicit verified_external_id thread_mapping contact domain title attendee manual :
      AssociationMethod

pub data AssociationState : Type 0 where
  unassociated proposed associated : AssociationState

-- `method in AUTO_ASSOCIATION_METHODS`
abbrev pub is_auto : AssociationMethod → Bool
is_auto explicit = true
is_auto verified_external_id = true
is_auto _ = false

-- `method in HUMAN_ASSOCIATION_METHODS`
abbrev pub is_human : AssociationMethod → Bool
is_human explicit = true
is_human manual = true
is_human _ = false

pub data Change : Type 0 where
  initial content metadata availability : Change

pub record SourceRevision : Type 0 where
  pub revision : ℕ
  pub content_hash : String
  pub body_hash : String
  pub change : Change
  pub availability : Availability
  pub trigger : String
  pub import_id : String
  pub occurred_at : Option ℕ
  pub provider_updated_at : Option ℕ
  pub observed_at : ℕ
  pub retrieved_at : ℕ
  pub metrics : Json
  pub unavailable_reason : Option String

pub record AssociationCandidate : Type 0 where
  pub account : String
  pub opportunity_slug : Option String
  pub method : AssociationMethod
  pub reason : String

pub record AssociationDecision : Type 0 where
  pub sequence : ℕ
  pub state : AssociationState
  pub account : Option String
  pub opportunity_slug : Option String
  pub method : Option AssociationMethod
  pub actor : String
  pub reason : String
  pub candidates : List AssociationCandidate
  pub crm_account_id : Option String
  pub crm_opportunity_id : Option String
  pub supersedes_sequence : Option ℕ
  pub recorded_at : ℕ

pub record ProcessingState : Type 0 where
  pub status : ProcessingStatus
  pub attempts : ℕ
  pub retry_eligible : Bool
  pub last_error_code : Option String
  pub processed_revision : Option ℕ
  pub updated_at : ℕ

-- `identity` is a SourceIdentity, of which the ledger reads the provider.
pub record EvidenceSource : Type 0 where
  pub identity : Json
  pub provider : String
  pub created_at : ℕ
  pub updated_at : ℕ
  pub latest_revision : ℕ
  pub availability : Availability
  pub processing : ProcessingState
  pub association : AssociationDecision
  pub association_history : List AssociationDecision
  pub revisions : List SourceRevision

-- What Pydantic checks of the fields of a decision and of a revision, but for the numbers; the
-- equality of decisions; and the size of a record that is encoded with its checksum.
pub record Fields : Type 0 where
  pub decision_fields : AssociationDecision → Bool
  pub revision_fields : SourceRevision → Bool
  pub same_decision : AssociationDecision → AssociationDecision → Bool
  -- the size of the file of a record, in bytes
  pub record_bytes : EvidenceSource → ℕ

abbrev pub is_text : Option String → Bool
is_text none = false
is_text (some t) = not (t == "")

abbrev may_associate : Option AssociationMethod → Bool
may_associate none = false
may_associate (some how) = is_auto how || is_human how

-- AssociationDecision._consistent
unfoldable pub is_consistent : AssociationDecision → Bool
is_consistent d = elim d.state [
  | associated ↦ is_text d.account && is_text d.opportunity_slug && may_associate d.method
  | proposed ↦ not (is_empty d.candidates) && not (is_text d.account || is_text d.opportunity_slug)
  | unassociated ↦ not (is_text d.account || is_text d.opportunity_slug || is_some d.method)
]

abbrev at_least_one : Option ℕ → Bool
at_least_one none = true
at_least_one (some n) = leb 1 n

-- AssociationDecision, as the constructor and the reading of a record validate it.
unfoldable pub is_decision : Fields → AssociationDecision → Bool
is_decision fields d =
    leb 1 d.sequence
    && leb (length d.candidates) 20
    && at_least_one d.supersedes_sequence
    && fields.decision_fields d
    && is_consistent d

unfoldable pub is_revision : Fields → SourceRevision → Bool
is_revision fields r = leb 1 r.revision && leb r.revision 1000000 && fields.revision_fields r

-- `for index, ... in enumerate(..., start=1)`: the numbers count up.
unfoldable pub counts_up {ℓ} : {A : Type ℓ} → (A → ℕ) → ℕ → List A → Bool
counts_up number n [] = true
counts_up number n (x ∷ xs) = eqb (number x) n && counts_up number (suc n) xs

unfoldable pub all {ℓ} : {A : Type ℓ} → (A → Bool) → List A → Bool
all p [] = true
all p (x ∷ xs) = p x && all p xs

-- `xs[-1]` passes a test; a list without items fails it.
unfoldable pub last_is {ℓ} : {A : Type ℓ} → (A → Bool) → List A → Bool
last_is p [] = false
last_is p (x ∷ xs) = let rest = last_is p xs in if is_empty xs then p x else rest

abbrev pub revision_within : Option ℕ → ℕ → Bool
revision_within none latest = true
revision_within (some n) latest = leb 1 n && leb n latest

-- EvidenceSource, as the reading of a record validates it: the bounds of the fields and `_chain`.
unfoldable pub is_source : Fields → EvidenceSource → Bool
is_source fields s =
    leb 1 s.latest_revision
    && leb s.latest_revision 1000000
    && leb s.processing.attempts 1000
    && leb 1 (length s.association_history)
    && leb (length s.association_history) 500
    && leb 1 (length s.revisions)
    && leb (length s.revisions) 1000
    && all (is_decision fields) s.association_history
    && is_decision fields s.association
    && all (is_revision fields) s.revisions
    && counts_up (λ r. r.revision) 1 s.revisions
    && last_is (λ r. eqb r.revision s.latest_revision) s.revisions
    && counts_up (λ d. d.sequence) 1 s.association_history
    && last_is (fields.same_decision s.association) s.association_history
    && revision_within s.processing.processed_revision s.latest_revision
