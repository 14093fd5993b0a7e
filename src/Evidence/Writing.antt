-- ===== src/Evidence/Writing.antt =====
-- webapp/services/evidence_ledger_service.py: the records that the operations write.
use se_skills.Prelude.{
  ℕ, ◌<◌, ◌≡◌, refl, String, Bool, true, false, ◌&&◌, not, none, some, List, length, is_some, eqb,
  leb, arith,
}
use se_skills.Evidence.Record.{
  ProcessingStatus, discovered, awaiting_association, awaiting_content, queued, processing,
  processed, failed, superseded, AssociationMethod, AssociationCandidate, AssociationDecision,
  EvidenceSource, Fields, revision_within,
}
use se_skills.Evidence.Status.{Effect, is_associated, keep}
use se_skills.Evidence.Association.{
  ResolvedIdentity, clear_association, clearing, confirm_association, confirmation, has_target,
  is_unassociated, proposal, propose_association,
}
use se_skills.Evidence.Processing.{
  is_failed, is_processing, mark_failed, mark_processed, mark_processing, may_start,
  request_reprocessing, retry,
}
use se_skills.Evidence.Store.{
  Operation, clears, confirms, effect, fails, finishes, proposes, reprocesses, retries, starts,
}
use se_skills.Evidence.Readable.{
  Readable, processing-Readable, derive_processing-Readable, append_decision-Readable,
  reset-Readable, Fits, Fits-branch, Readable-branch, with_decision-Fits,
}

may_start-Fits :
    (fields : Fields) (st : ProcessingStatus) (eligible : Bool) (x : Effect)
    → Fits fields x
    → Fits fields (may_start st eligible x)
may_start-Fits fields discovered eligible x h = tt
may_start-Fits fields awaiting_association eligible x h = tt
may_start-Fits fields awaiting_content eligible x h = tt
may_start-Fits fields queued eligible x h = h
may_start-Fits fields processing eligible x h = tt
may_start-Fits fields failed true x h = h
may_start-Fits fields failed false x h = tt
may_start-Fits fields processed eligible x h = tt
may_start-Fits fields superseded eligible x h = tt

latest_within :
    (n latest : ℕ)
    → leb 1 latest ≡ true
    → eqb n latest ≡ true
    → revision_within (some n) latest ≡ true
latest_within n latest e same = ground arith

-- Operations on a record that is readable and has room for an attempt and a decision.
module _ (fields : Fields) (now : ℕ) (s : EvidenceSource) (r : Readable fields s)
    (attempts : s.processing.attempts < 1000) (history : length s.association_history < 500)
    (same : (d : AssociationDecision) → fields.same_decision d d ≡ true) where
  propose_association-Fits :
      (candidates : List AssociationCandidate) (reason : String)
      → Fits fields (propose_association fields now candidates reason s)
  unfolding propose_association proposal
  propose_association-Fits candidates reason =
      Fits-branch fields (is_associated s.association.state) _ _ (λ _. tt)
        λ _. with_decision-Fits fields (proposal now candidates reason s) _ λ ok.
          append_decision-Readable fields (proposal now candidates reason s) now s history ok refl
            (same (proposal now candidates reason s)) r

  confirm_association-Fits :
      (identity : ResolvedIdentity) (how : AssociationMethod) (actor reason : String)
      → Fits fields (confirm_association fields now identity how actor reason s)
  unfolding confirm_association confirmation
  confirm_association-Fits identity how actor reason =
      Fits-branch fields (has_target s.association identity) keep _ (λ _. tt)
        λ _. with_decision-Fits fields d _ λ ok.
          Readable-branch fields (is_some d.supersedes_sequence) _ _
            (reset-Readable fields now none _
              (append_decision-Readable fields d now s history ok refl (same d) r))
            (append_decision-Readable fields d now s history ok refl (same d) r)
    where
      d : AssociationDecision
      d = confirmation now identity how actor reason s

  clear_association-Fits :
      (actor reason : String) → Fits fields (clear_association fields now actor reason s)
  unfolding clear_association clearing
  clear_association-Fits actor reason =
      Fits-branch fields (is_unassociated s.association.state) keep _ (λ _. tt)
        λ _. with_decision-Fits fields d _ λ ok.
          reset-Readable fields now none _
            (append_decision-Readable fields d now s history ok refl (same d) r)
    where
      d : AssociationDecision
      d = clearing now actor reason s

  mark_processing-Fits : Fits fields (mark_processing now s)
  unfolding mark_processing
  mark_processing-Fits =
      may_start-Fits fields s.processing.status s.processing.retry_eligible _
        (processing-Readable fields now _ s (ground arith) r.within r)

  mark_processed-Fits : (revision : ℕ) → Fits fields (mark_processed now revision s)
  unfolding mark_processed
  mark_processed-Fits revision =
      Fits-branch fields (not (is_processing s.processing.status)) _ _ (λ _. tt)
        λ _.
          Fits-branch fields (eqb revision s.latest_revision) _ _
            (λ now_latest.
              processing-Readable fields now _ s r.attempts_to
                (latest_within revision s.latest_revision r.latest_from now_latest) r)
            (λ _.
              derive_processing-Readable fields now _
                (processing-Readable fields now _ s r.attempts_to r.within r))

  mark_failed-Fits :
      (error_code : String) (eligible : Bool) → Fits fields (mark_failed now error_code eligible s)
  unfolding mark_failed
  mark_failed-Fits error_code eligible =
      Fits-branch fields (not (is_processing s.processing.status)) _ _ (λ _. tt)
        λ _. processing-Readable fields now _ s r.attempts_to r.within r

  retry-Fits : Fits fields (retry now s)
  unfolding retry
  retry-Fits =
      Fits-branch fields (is_failed s.processing.status && s.processing.retry_eligible) _ _
        (λ _.
          derive_processing-Readable fields now _
            (processing-Readable fields now _ s r.attempts_to r.within r))
        (λ _. tt)

  request_reprocessing-Fits :
      (reason_code : String) → Fits fields (request_reprocessing now reason_code s)
  unfolding request_reprocessing
  request_reprocessing-Fits reason_code =
      Fits-branch fields (is_processing s.processing.status) _ _ (λ _. tt)
        λ _.
          reset-Readable fields now (some reason_code) _
            (processing-Readable fields now s.processing s r.attempts_to r.within r)

  pub effect-Fits : (op : Operation) → Fits fields (effect fields now op s)
  unfolding effect
  effect-Fits (proposes candidates reason) = propose_association-Fits candidates reason
  effect-Fits (confirms none how actor reason) = tt
  effect-Fits (confirms (some identity) how actor reason) =
      confirm_association-Fits identity how actor reason
  effect-Fits (clears actor reason) = clear_association-Fits actor reason
  effect-Fits starts = mark_processing-Fits
  effect-Fits (finishes revision) = mark_processed-Fits revision
  effect-Fits (fails error_code eligible) = mark_failed-Fits error_code eligible
  effect-Fits retries = retry-Fits
  effect-Fits (reprocesses reason_code) = request_reprocessing-Fits reason_code
