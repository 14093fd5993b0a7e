-- ===== src/Evidence/Outcome.antt =====
-- webapp/services/evidence_ledger_service.py: the record that an operation or an import writes has a
-- status that tells its state.
use se_skills.Prelude.{
  ℕ, ◌+◌, ◌≡◌, refl, String, Bool, true, false, not, none, some, List, [], ◌∷◌, ◌==◌, Bool-cases,
  inl, inr,
}
use se_skills.Json.{Json}
use se_skills.Evidence.Record.{
  ProcessingStatus, discovered, awaiting_association, awaiting_content, queued, processing,
  processed, failed, superseded, SourceRevision, EvidenceSource, Fields, is_revision,
}
use se_skills.Evidence.Status.{Effect, derive_processing}
use se_skills.Evidence.Processing.{is_processing}
use se_skills.Evidence.Store.{
  Operation, clears, confirms, effect, fails, finishes, proposes, reprocesses, retries, starts,
}
use se_skills.Evidence.Import.{
  Selected, changed, created, extended, first_decision, import_after, import_again, last_or,
  new_revision, rediscovered, with_latest,
}
use se_skills.Evidence.Settled.{
  Settled, Safe, Safe-branch, derive_processing-Settled, processing-associated,
  propose_association-Safe, confirm_association-Safe, clear_association-Safe, mark_processing-Safe,
  mark_processed-Safe, mark_failed-Safe, retry-Safe, request_reprocessing-Safe,
}

pub effect-Safe :
    (fields : Fields) (now : ℕ) (op : Operation) (s : EvidenceSource)
    → Settled s
    → Safe (effect fields now op s)
unfolding effect
effect-Safe fields now (proposes candidates reason) s h =
    propose_association-Safe fields now candidates reason s h
effect-Safe fields now (confirms none how actor reason) s h = tt
effect-Safe fields now (confirms (some identity) how actor reason) s h =
    confirm_association-Safe fields now identity how actor reason s h
effect-Safe fields now (clears actor reason) s h = clear_association-Safe fields now actor reason s
effect-Safe fields now starts s h = mark_processing-Safe now s h
effect-Safe fields now (finishes revision) s h = mark_processed-Safe now revision s h
effect-Safe fields now (fails error_code eligible) s h =
    mark_failed-Safe now error_code eligible s h
effect-Safe fields now retries s h = retry-Safe now s h
effect-Safe fields now (reprocesses reason_code) s h = request_reprocessing-Safe now reason_code s

busy_status : (st : ProcessingStatus) → is_processing st ≡ true → st ≡ processing
busy_status processing e = refl
busy_status discovered e = cc e
busy_status awaiting_association e = cc e
busy_status awaiting_content e = cc e
busy_status queued e = cc e
busy_status failed e = cc e
busy_status processed e = cc e
busy_status superseded e = cc e

-- A new revision of a source that is not being processed, and of one that is.
extended-idle :
    (now : ℕ) (revision : SourceRevision) (item : Selected) (s : EvidenceSource)
    → is_processing s.processing.status ≡ false
    → Settled s
    → Settled (extended now revision item s)
unfolding extended rediscovered
extended-idle now revision item s idle h = rw idle (derive_processing-Settled now _ refl h.detached)

extended-busy :
    (now : ℕ) (revision : SourceRevision) (item : Selected) (s : EvidenceSource)
    → is_processing s.processing.status ≡ true
    → Settled s
    → Settled (extended now revision item s)
unfolding extended rediscovered derive_processing
extended-busy now revision item s busy h =
    let (bound, rests) = processing-associated s.processing.status _ _ _ busy h.says in
    rw busy (
      rw rests (record {
        says = rw (busy_status s.processing.status busy) bound;
        detached = λ free. cc (bound, free);
      }))

extended-Settled :
    (now : ℕ) (revision : SourceRevision) (item : Selected) (s : EvidenceSource)
    → Settled s
    → Settled (extended now revision item s)
extended-Settled now revision item s h = elim (Bool-cases (is_processing s.processing.status)) [
  | inl busy ↦ extended-busy now revision item s busy h
  | inr idle ↦ extended-idle now revision item s idle h
]

pub created-Settled :
    (now : ℕ) (revision : SourceRevision) (item : Selected) → Settled (created now revision item)
unfolding created first_decision
created-Settled now revision item = derive_processing-Settled now _ refl (λ _. refl)

with_latest-Safe :
    (f : SourceRevision → Effect) (rs : List SourceRevision)
    → ((r : SourceRevision) → Safe (f r))
    → Safe (with_latest f rs)
with_latest-Safe f [] h = tt
with_latest-Safe f (r ∷ rs) h = h (last_or r rs)

import_after-Safe :
    (fields : Fields) (same_identity : Json → Json → Bool) (now : ℕ) (import_id trigger : String)
    (item : Selected) (s : EvidenceSource) (latest : SourceRevision)
    → Settled s
    → Safe (import_after fields same_identity now import_id trigger item s latest)
unfolding import_after
import_after-Safe fields same_identity now import_id trigger item s latest h =
    Safe-branch (not (same_identity s.identity item.identity)) _ _ (λ _. tt)
      λ _.
        Safe-branch (latest.content_hash == item.content_hash) _ _ (λ _. tt)
          λ _.
            Safe-branch (is_revision fields revision) _ _
              (λ _. extended-Settled now revision item s h) (λ _. tt)
  where
    revision : SourceRevision
    revision = new_revision now (s.latest_revision + 1) (changed latest item) import_id trigger item

pub import_again-Safe :
    (fields : Fields) (same_identity : Json → Json → Bool) (now : ℕ) (import_id trigger : String)
    (item : Selected) (s : EvidenceSource)
    → Settled s
    → Safe (import_again fields same_identity now import_id trigger item s)
unfolding import_again
import_again-Safe fields same_identity now import_id trigger item s h =
    with_latest-Safe (import_after fields same_identity now import_id trigger item s) s.revisions
      (λ r. import_after-Safe fields same_identity now import_id trigger item s r h)
