-- ===== src/Evidence/Settled.antt =====
-- webapp/services/evidence_ledger_service.py: what the processing status of a source says of its
-- association, its content and its revisions.
use se_skills.Prelude.{
  ℕ, ◌≡◌, refl, String, Bool, true, false, ◌&&◌, not, Option, none, some, List, is_some, eqb,
  if◌then◌else◌, arith, Bool-cases, inl, inr,
}
use se_skills.Evidence.Record.{
  ProcessingStatus, discovered, awaiting_association, awaiting_content, queued, processing,
  processed, failed, superseded, AssociationMethod, AssociationCandidate, AssociationDecision,
  EvidenceSource, Fields,
}
use se_skills.Evidence.Status.{
  Effect, derive_processing, derived_status, has_content, is_associated, is_latest, is_waiting,
  keep, refuse, reset, save,
}
use se_skills.Evidence.Association.{
  ResolvedIdentity, append_decision, clear_association, clearing, confirm_association, confirmation,
  has_target, is_unassociated, proposal, propose_association, with_decision,
}
use se_skills.Evidence.Processing.{
  is_failed, is_processing, mark_failed, mark_processed, mark_processing, may_start,
  request_reprocessing, retry,
}

-- What a status at rest says; `discovered` and `superseded` are statuses at no rest.
abbrev pub Says : ProcessingStatus → Bool → Bool → Bool → Type 0
Says discovered is_assoc content latest = ⊥
Says superseded is_assoc content latest = ⊥
Says awaiting_association is_assoc content latest = is_assoc ≡ false
Says awaiting_content is_assoc content latest =
    (is_assoc ≡ true) × (content ≡ false) × (latest ≡ false)
Says queued is_assoc content latest = (is_assoc ≡ true) × (content ≡ true) × (latest ≡ false)
Says processing is_assoc content latest = is_assoc ≡ true
Says failed is_assoc content latest = is_assoc ≡ true
Says processed is_assoc content latest = (is_assoc ≡ true) × (latest ≡ true)

pub record Settled (s : EvidenceSource) : Type 0 where
  pub says :
      Says s.processing.status
        (is_associated s.association.state)
        (has_content s.availability)
        (is_latest s.processing.processed_revision s.latest_revision)
  pub detached : is_associated s.association.state ≡ false → s.processing.processed_revision ≡ none

-- An effect that saves no record, or one that is settled.
abbrev pub Safe : Effect → Type 0
Safe (refuse code) = Unit
Safe keep = Unit
Safe (save s) = Settled s

derived :
    (a c l : Bool)
    → (a ≡ false → l ≡ false)
    → Says
        (if l
          then processed
          else if not a
          then awaiting_association
          else if not c
          then awaiting_content
          else queued)
        a
        c
        l
derived true true true h = (refl, refl)
derived true true false h = (refl, refl, refl)
derived true false true h = (refl, refl)
derived true false false h = (refl, refl, refl)
derived false c true h = cc (h refl)
derived false c false h = refl

is_latest-none : (o : Option ℕ) (n : ℕ) → o ≡ none → is_latest o n ≡ false
is_latest-none o n e = rw e refl

pub derive_processing-Settled :
    (now : ℕ) (s : EvidenceSource)
    → is_waiting s.processing.status ≡ true
    → (is_associated s.association.state ≡ false → s.processing.processed_revision ≡ none)
    → Settled (derive_processing now s)
unfolding derive_processing derived_status
derive_processing-Settled now s waits detached = rw waits (record {
  says =
      derived (is_associated s.association.state) (has_content s.availability)
        (is_latest s.processing.processed_revision s.latest_revision)
        (λ e. is_latest-none s.processing.processed_revision s.latest_revision (detached e));
  detached = detached;
})

-- A source without association waits for one.
waits_detached :
    (st : ProcessingStatus) (a c l : Bool) → a ≡ false → Says st a c l → is_waiting st ≡ true
waits_detached discovered a c l e h = refl
waits_detached awaiting_association a c l e h = refl
waits_detached awaiting_content a c l e h = refl
waits_detached queued a c l e h = refl
waits_detached processing a c l e h = cc (e, h)
waits_detached failed a c l e h = cc (e, h)
waits_detached processed a c l e h = cc (e, h.0)
waits_detached superseded a c l e h = elim h [ ]

append_decision-Settled :
    (now : ℕ) (d : AssociationDecision) (s : EvidenceSource)
    → is_associated s.association.state ≡ false
    → Settled s
    → Settled (append_decision d now s)
unfolding append_decision
append_decision-Settled now d s free h =
    derive_processing-Settled now _ (waits_detached s.processing.status _ _ _ free h.says)
      (λ _. h.detached free)

restart-Settled :
    (now : ℕ) (error_code : Option String) (s : EvidenceSource)
    → Settled (derive_processing now (reset now error_code s))
unfolding reset
restart-Settled now error_code s = derive_processing-Settled now _ refl (λ _. refl)

with_decision-Safe :
    (fields : Fields) (d : AssociationDecision) (next : EvidenceSource)
    → Settled next
    → Safe (with_decision fields d next)
unfolding with_decision
with_decision-Safe fields d next h = ground arith

pub propose_association-Safe :
    (fields : Fields) (now : ℕ) (candidates : List AssociationCandidate) (reason : String)
    (s : EvidenceSource)
    → Settled s
    → Safe (propose_association fields now candidates reason s)
unfolding propose_association
propose_association-Safe fields now candidates reason s h =
    elim (Bool-cases (is_associated s.association.state)) [
      | inl bound ↦ rw bound tt
      | inr free ↦ rw free (
          with_decision-Safe fields (proposal now candidates reason s) _
            (append_decision-Settled now (proposal now candidates reason s) s free h))
    ]

pub Safe-branch :
    (b : Bool) (x y : Effect)
    → (b ≡ true → Safe x)
    → (b ≡ false → Safe y)
    → Safe (if b then x else y)
Safe-branch true x y t f = t refl
Safe-branch false x y t f = f refl

Settled-branch :
    (b : Bool) (x y : EvidenceSource)
    → (b ≡ true → Settled x)
    → (b ≡ false → Settled y)
    → Settled (if b then x else y)
Settled-branch true x y t f = t refl
Settled-branch false x y t f = f refl

pub confirm_association-Safe :
    (fields : Fields) (now : ℕ) (identity : ResolvedIdentity) (how : AssociationMethod)
    (actor reason : String) (s : EvidenceSource)
    → Settled s
    → Safe (confirm_association fields now identity how actor reason s)
unfolding confirm_association confirmation
confirm_association-Safe fields now identity how actor reason s h =
    Safe-branch (has_target s.association identity) keep
      (with_decision fields d (if is_some d.supersedes_sequence then restarted else plain))
      (λ _. tt)
      (λ _.
        with_decision-Safe fields d (if is_some d.supersedes_sequence then restarted else plain) (
          Settled-branch (is_some d.supersedes_sequence) restarted plain
            (λ _. restart-Settled now none (append_decision d now s))
            (λ free. append_decision-Settled now d s (ground arith) h)))
  where
    d : AssociationDecision
    d = confirmation now identity how actor reason s

    restarted : EvidenceSource
    restarted = derive_processing now (reset now none (append_decision d now s))

    plain : EvidenceSource
    plain = append_decision d now s

pub clear_association-Safe :
    (fields : Fields) (now : ℕ) (actor reason : String) (s : EvidenceSource)
    → Safe (clear_association fields now actor reason s)
unfolding clear_association
clear_association-Safe fields now actor reason s =
    Safe-branch (is_unassociated s.association.state) _ _ (λ _. tt)
      (λ _. with_decision-Safe fields (clearing now actor reason s) _ (restart-Settled now none _))

may_start-Safe :
    (st : ProcessingStatus) (eligible : Bool) (x : Effect) (a c l : Bool)
    → Says st a c l
    → (a ≡ true → Safe x)
    → Safe (may_start st eligible x)
may_start-Safe discovered eligible x a c l h k = tt
may_start-Safe awaiting_association eligible x a c l h k = tt
may_start-Safe awaiting_content eligible x a c l h k = tt
may_start-Safe queued eligible x a c l h k = k h.0
may_start-Safe processing eligible x a c l h k = tt
may_start-Safe failed true x a c l h k = k h
may_start-Safe failed false x a c l h k = tt
may_start-Safe processed eligible x a c l h k = tt
may_start-Safe superseded eligible x a c l h k = tt

pub processing-associated :
    (st : ProcessingStatus) (a c l : Bool)
    → is_processing st ≡ true
    → Says st a c l
    → (a ≡ true) × (is_waiting st ≡ false)
processing-associated processing a c l e h = (h, refl)
processing-associated discovered a c l e h = cc e
processing-associated awaiting_association a c l e h = cc e
processing-associated awaiting_content a c l e h = cc e
processing-associated queued a c l e h = cc e
processing-associated failed a c l e h = cc e
processing-associated processed a c l e h = cc e
processing-associated superseded a c l e h = cc e

pub mark_processing-Safe : (now : ℕ) (s : EvidenceSource) → Settled s → Safe (mark_processing now s)
unfolding mark_processing
mark_processing-Safe now s h =
    may_start-Safe s.processing.status s.processing.retry_eligible _ _ _ _ h.says
      (λ bound. record { says = bound; detached = h.detached })

pub mark_processed-Safe :
    (now revision : ℕ) (s : EvidenceSource) → Settled s → Safe (mark_processed now revision s)
unfolding mark_processed
mark_processed-Safe now revision s h =
    Safe-branch (not (is_processing s.processing.status)) _ _ (λ _. tt)
      (λ busy.
        Safe-branch (eqb revision s.latest_revision) _ _
          (λ same.
            let bound : is_associated s.association.state ≡ true =
              (processing-associated s.processing.status _ _ _ (ground arith) h.says).0 in
            record { says = (bound, same); detached = λ free. cc (bound, free) })
          (λ _. derive_processing-Settled now _ refl h.detached))

pub mark_failed-Safe :
    (now : ℕ) (error_code : String) (eligible : Bool) (s : EvidenceSource)
    → Settled s
    → Safe (mark_failed now error_code eligible s)
unfolding mark_failed
mark_failed-Safe now error_code eligible s h =
    Safe-branch (not (is_processing s.processing.status)) _ _ (λ _. tt)
      (λ busy. record {
        says = (processing-associated s.processing.status _ _ _ (ground arith) h.says).0;
        detached = h.detached;
      })

pub retry-Safe : (now : ℕ) (s : EvidenceSource) → Settled s → Safe (retry now s)
unfolding retry
retry-Safe now s h =
    Safe-branch (is_failed s.processing.status && s.processing.retry_eligible) _ keep
      (λ _. derive_processing-Settled now _ refl h.detached) (λ _. tt)

pub request_reprocessing-Safe :
    (now : ℕ) (reason_code : String) (s : EvidenceSource)
    → Safe (request_reprocessing now reason_code s)
unfolding request_reprocessing
request_reprocessing-Safe now reason_code s =
    Safe-branch (is_processing s.processing.status) _ _ (λ _. tt)
      (λ _. restart-Settled now (some reason_code) _)
