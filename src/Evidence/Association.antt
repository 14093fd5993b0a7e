-- ===== src/Evidence/Association.antt =====
-- webapp/services/evidence_ledger_service.py: the operations on the association of a source.
use se_skills.Prelude.{
  ℕ, ◌+◌, String, Bool, true, false, ◌&&◌, Option, none, some, List, [], ◌∷◌, ◌++◌, ◌==◌, length,
  is_some, if◌then◌else◌,
}
use se_skills.Evidence.Record.{
  AssociationCandidate, AssociationDecision, AssociationMethod, AssociationState, EvidenceSource,
  Fields, associated, is_decision, proposed, unassociated,
}
use se_skills.Evidence.Status.{
  Effect, already_associated, derive_processing, invalid_record, is_associated, keep, refuse, reset,
  save,
}

unfoldable pub append_decision : AssociationDecision → ℕ → EvidenceSource → EvidenceSource
append_decision d now s = derive_processing now (record s {
  updated_at = now;
  association = d;
  association_history = s.association_history ++ (d ∷ []);
})

unfoldable pub proposal :
    ℕ → List AssociationCandidate → String → EvidenceSource → AssociationDecision
proposal now candidates reason s = record {
  sequence = length s.association_history + 1;
  state = proposed;
  account = none;
  opportunity_slug = none;
  method = none;
  actor = "system";
  reason = reason;
  candidates = candidates;
  crm_account_id = none;
  crm_opportunity_id = none;
  supersedes_sequence = none;
  recorded_at = now;
}

-- Pydantic validates a decision when it is constructed.
unfoldable pub with_decision : Fields → AssociationDecision → EvidenceSource → Effect
with_decision fields d next = if is_decision fields d then save next else refuse invalid_record

unfoldable pub propose_association :
    Fields → ℕ → List AssociationCandidate → String → EvidenceSource → Effect
propose_association fields now candidates reason s =
    if is_associated s.association.state
    then refuse already_associated
    else with_decision fields (proposal now candidates reason s)
        (append_decision (proposal now candidates reason s) now s)

-- What `resolve_identity` gives: safe_account, safe_opp, and the identifiers of the CRM.
pub record ResolvedIdentity : Type 0 where
  pub safe_account : String
  pub safe_opp : String
  pub sfdc_account_id : Option String
  pub sfdc_id : Option String

abbrev pub superseded_sequence : AssociationDecision → Option ℕ
superseded_sequence d = if is_associated d.state then some d.sequence else none

unfoldable pub confirmation :
    ℕ
    → ResolvedIdentity
    → AssociationMethod
    → String
    → String
    → EvidenceSource
    → AssociationDecision
confirmation now identity how actor reason s = record {
  sequence = length s.association_history + 1;
  state = associated;
  account = some identity.safe_account;
  opportunity_slug = some identity.safe_opp;
  method = some how;
  actor = actor;
  reason = reason;
  candidates = [];
  crm_account_id = identity.sfdc_account_id;
  crm_opportunity_id = identity.sfdc_id;
  supersedes_sequence = superseded_sequence s.association;
  recorded_at = now;
}

abbrev pub has_target : AssociationDecision → ResolvedIdentity → Bool
has_target d identity =
    is_associated d.state
    && same d.account identity.safe_account
    && same d.opportunity_slug identity.safe_opp
  where
    same : Option String → String → Bool
    same none t = false
    same (some held) t = held == t

unfoldable pub confirm_association :
    Fields → ℕ → ResolvedIdentity → AssociationMethod → String → String → EvidenceSource → Effect
confirm_association fields now identity how actor reason s =
    if has_target s.association identity
    then keep
    else with_decision fields d (
        if is_some d.supersedes_sequence
        then derive_processing now (reset now none (append_decision d now s))
        else append_decision d now s)
  where
    d : AssociationDecision
    d = confirmation now identity how actor reason s

unfoldable pub clearing : ℕ → String → String → EvidenceSource → AssociationDecision
clearing now actor reason s = record {
  sequence = length s.association_history + 1;
  state = unassociated;
  account = none;
  opportunity_slug = none;
  method = none;
  actor = actor;
  reason = reason;
  candidates = [];
  crm_account_id = none;
  crm_opportunity_id = none;
  supersedes_sequence = superseded_sequence s.association;
  recorded_at = now;
}

abbrev pub is_unassociated : AssociationState → Bool
is_unassociated unassociated = true
is_unassociated _ = false

unfoldable pub clear_association : Fields → ℕ → String → String → EvidenceSource → Effect
clear_association fields now actor reason s =
    if is_unassociated s.association.state
    then keep
    else with_decision fields d (derive_processing now (reset now none (append_decision d now s)))
  where
    d : AssociationDecision
    d = clearing now actor reason s
