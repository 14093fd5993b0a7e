-- ===== src/Evidence/Growth.antt =====
-- webapp/services/evidence_ledger_service.py: the history of the associations and the revisions of
-- a source, over time.
use se_skills.Prelude.{
  ℕ, ◌+◌, ◌≡◌, refl, String, Bool, true, false, ◌&&◌, not, Option, none, some, List, [], ◌∷◌, ◌++◌,
  ◌==◌, is_some, eqb, if◌then◌else◌,
}
use se_skills.Json.{Json}
use se_skills.Evidence.Record.{
  AssociationMethod, AssociationCandidate, AssociationDecision, SourceRevision, ProcessingState,
  ProcessingStatus, discovered, awaiting_association, awaiting_content, queued, processing,
  processed, failed, superseded, EvidenceSource, Fields, is_decision, is_revision,
}
use se_skills.Evidence.Status.{
  Effect, derive_processing, is_associated, is_waiting, keep, refuse, reset, save,
}
use se_skills.Evidence.Association.{
  ResolvedIdentity, append_decision, clear_association, clearing, confirm_association, confirmation,
  has_target, is_unassociated, proposal, propose_association, with_decision,
}
use se_skills.Evidence.Processing.{
  is_failed, is_processing, mark_failed, mark_processed, mark_processing, may_start,
  request_reprocessing, retry,
}
use se_skills.Evidence.Store.{
  Operation, clears, confirms, effect, fails, finishes, proposes, reprocesses, retries, starts,
}
use se_skills.Evidence.Import.{
  Selected, changed, extended, import_after, import_again, last_or, new_revision, with_latest,
}

-- A record whose history and revisions extend those of another.
pub record Grows (s t : EvidenceSource) : Type 0 where
  pub decided : List AssociationDecision
  pub observed : List SourceRevision
  pub history : t.association_history ≡ s.association_history ++ decided
  pub revisions : t.revisions ≡ s.revisions ++ observed

abbrev pub Extends : EvidenceSource → Effect → Type 0
Extends s (refuse code) = Unit
Extends s keep = Unit
Extends s (save t) = Grows s t

Extends-branch :
    (s : EvidenceSource) (b : Bool) (x y : Effect)
    → Extends s x
    → Extends s y
    → Extends s (if b then x else y)
Extends-branch s true x y t f = t
Extends-branch s false x y t f = f

Grows-branch :
    (s : EvidenceSource) (b : Bool) (x y : EvidenceSource)
    → Grows s x
    → Grows s y
    → Grows s (if b then x else y)
Grows-branch s true x y t f = t
Grows-branch s false x y t f = f

append_nil {ℓ} : {A : Type ℓ} (xs : List A) → xs ++ [] ≡ xs
append_nil [] = refl
append_nil (x ∷ xs) = rw (append_nil xs) refl

append_assoc {ℓ} : {A : Type ℓ} (xs ys zs : List A) → (xs ++ ys) ++ zs ≡ xs ++ (ys ++ zs)
append_assoc [] ys zs = refl
append_assoc (x ∷ xs) ys zs = rw (append_assoc xs ys zs) refl

pub Grows-refl : (s : EvidenceSource) → Grows s s
Grows-refl s = record {
  decided = [];
  observed = [];
  history = rw (append_nil s.association_history) refl;
  revisions = rw (append_nil s.revisions) refl;
}

pub Grows-trans : (s t u : EvidenceSource) → Grows s t → Grows t u → Grows s u
Grows-trans s t u f g = record {
  decided = f.decided ++ g.decided;
  observed = f.observed ++ g.observed;
  history = rw (g.history, f.history) (append_assoc s.association_history f.decided g.decided);
  revisions = rw (g.revisions, f.revisions) (append_assoc s.revisions f.observed g.observed);
}

derive_processing-Grows :
    (now : ℕ) (s t : EvidenceSource) → Grows s t → Grows s (derive_processing now t)
unfolding derive_processing
derive_processing-Grows now s t g =
    Grows-branch s (is_waiting t.processing.status) _ t
      (record {
        decided = g.decided;
        observed = g.observed;
        history = g.history;
        revisions = g.revisions;
      })
      g

-- Another processing state, and another time of update.
processing-Grows :
    (now : ℕ) (p : ProcessingState) (s t : EvidenceSource)
    → Grows s t
    → Grows s (record t { updated_at = now; processing = p })
processing-Grows now p s t g = record {
  decided = g.decided;
  observed = g.observed;
  history = g.history;
  revisions = g.revisions;
}

append_decision-Grows :
    (now : ℕ) (d : AssociationDecision) (s : EvidenceSource) → Grows s (append_decision d now s)
unfolding append_decision
append_decision-Grows now d s = derive_processing-Grows now s _ (record {
  decided = d ∷ [];
  observed = [];
  history = refl;
  revisions = rw (append_nil s.revisions) refl;
})

restart-Grows :
    (now : ℕ) (error_code : Option String) (s t : EvidenceSource)
    → Grows s t
    → Grows s (derive_processing now (reset now error_code t))
unfolding reset
restart-Grows now error_code s t g =
    derive_processing-Grows now s _ (processing-Grows t.updated_at _ s t g)

with_decision-Extends :
    (fields : Fields) (d : AssociationDecision) (s t : EvidenceSource)
    → Grows s t
    → Extends s (with_decision fields d t)
unfolding with_decision
with_decision-Extends fields d s t g = Extends-branch s (is_decision fields d) (save t) _ g tt

may_start-Extends :
    (st : ProcessingStatus) (eligible : Bool) (s : EvidenceSource) (x : Effect)
    → Extends s x
    → Extends s (may_start st eligible x)
may_start-Extends discovered eligible s x h = tt
may_start-Extends awaiting_association eligible s x h = tt
may_start-Extends awaiting_content eligible s x h = tt
may_start-Extends queued eligible s x h = h
may_start-Extends processing eligible s x h = tt
may_start-Extends failed true s x h = h
may_start-Extends failed false s x h = tt
may_start-Extends processed eligible s x h = tt
may_start-Extends superseded eligible s x h = tt

module _ (fields : Fields) (now : ℕ) (s : EvidenceSource) where
  confirm_association-Extends :
      (identity : ResolvedIdentity) (how : AssociationMethod) (actor reason : String)
      → Extends s (confirm_association fields now identity how actor reason s)
  unfolding confirm_association
  confirm_association-Extends identity how actor reason =
      Extends-branch s (has_target s.association identity) keep _ tt (
        with_decision-Extends fields d s _ (
          Grows-branch s (is_some d.supersedes_sequence) _ _
            (restart-Grows now none s _ (append_decision-Grows now d s))
            (append_decision-Grows now d s)))
    where
      d : AssociationDecision
      d = confirmation now identity how actor reason s

  decision-Extends :
      (candidates : List AssociationCandidate) (actor reason : String)
      → Extends s (propose_association fields now candidates reason s)
        × Extends s (clear_association fields now actor reason s)
  unfolding propose_association clear_association
  decision-Extends candidates actor reason = (
    Extends-branch s (is_associated s.association.state) _ _ tt (
        with_decision-Extends fields (proposal now candidates reason s) s _
          (append_decision-Grows now (proposal now candidates reason s) s)),
    Extends-branch s (is_unassociated s.association.state) _ _ tt (
        with_decision-Extends fields (clearing now actor reason s) s _
          (restart-Grows now none s _ (append_decision-Grows now (clearing now actor reason s) s))),
  )

  pub effect-Extends : (op : Operation) → Extends s (effect fields now op s)
  unfolding effect mark_processing mark_processed mark_failed retry request_reprocessing
  effect-Extends (proposes candidates reason) = (decision-Extends candidates "" reason).0
  effect-Extends (confirms none how actor reason) = tt
  effect-Extends (confirms (some identity) how actor reason) =
      confirm_association-Extends identity how actor reason
  effect-Extends (clears actor reason) = (decision-Extends [] actor reason).1
  effect-Extends starts =
      may_start-Extends s.processing.status s.processing.retry_eligible s _
        (processing-Grows now _ s s (Grows-refl s))
  effect-Extends (finishes revision) =
      Extends-branch s (not (is_processing s.processing.status)) _ _ tt (
        Extends-branch s (eqb revision s.latest_revision) _ _
          (processing-Grows now _ s s (Grows-refl s))
          (derive_processing-Grows now s _ (processing-Grows now _ s s (Grows-refl s))))
  effect-Extends (fails error_code eligible) =
      Extends-branch s (not (is_processing s.processing.status)) _ _ tt
        (processing-Grows now _ s s (Grows-refl s))
  effect-Extends retries =
      Extends-branch s (is_failed s.processing.status && s.processing.retry_eligible) _ keep
        (derive_processing-Grows now s _ (processing-Grows now _ s s (Grows-refl s))) tt
  effect-Extends (reprocesses reason_code) =
      Extends-branch s (is_processing s.processing.status) _ _ tt (
        restart-Grows now (some reason_code) s _
          (processing-Grows now s.processing s s (Grows-refl s)))

  extended-Grows :
      (revision : SourceRevision) (item : Selected) → Grows s (extended now revision item s)
  unfolding extended
  extended-Grows revision item = derive_processing-Grows now s _ (record {
    decided = [];
    observed = revision ∷ [];
    history = rw (append_nil s.association_history) refl;
    revisions = refl;
  })

  import_after-Extends :
      (same_identity : Json → Json → Bool) (import_id trigger : String) (item : Selected)
      (latest : SourceRevision)
      → Extends s (import_after fields same_identity now import_id trigger item s latest)
  unfolding import_after
  import_after-Extends same_identity import_id trigger item latest =
      Extends-branch s (not (same_identity s.identity item.identity)) _ _ tt (
        Extends-branch s (latest.content_hash == item.content_hash) keep _ tt
          (Extends-branch s (is_revision fields revision) _ _ (extended-Grows revision item) tt))
    where
      revision : SourceRevision
      revision =
          new_revision now (s.latest_revision + 1) (changed latest item) import_id trigger item

  with_latest-Extends :
      (f : SourceRevision → Effect) (rs : List SourceRevision)
      → ((r : SourceRevision) → Extends s (f r))
      → Extends s (with_latest f rs)
  with_latest-Extends f [] h = tt
  with_latest-Extends f (r ∷ rs) h = h (last_or r rs)

  pub import_again-Extends :
      (same_identity : Json → Json → Bool) (import_id trigger : String) (item : Selected)
      → Extends s (import_again fields same_identity now import_id trigger item s)
  unfolding import_again
  import_again-Extends same_identity import_id trigger item =
      with_latest-Extends (import_after fields same_identity now import_id trigger item s)
        s.revisions (λ r. import_after-Extends same_identity import_id trigger item r)
