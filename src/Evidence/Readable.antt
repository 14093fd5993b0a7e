-- ===== src/Evidence/Readable.antt =====
-- webapp/command_center_evidence.py and webapp/services/evidence_ledger_service.py: whether a record
-- that an operation writes can be read again. `model_copy` does not validate.
use se_skills.Prelude.{
  ℕ, suc, ◌+◌, ◌<◌, ◌≡◌, refl, String, Bool, true, false, ◌&&◌, Option, List, [], ◌∷◌, ◌++◌, length,
  length-append, eqb, leb, if◌then◌else◌, arith, Bool-cases, inl, inr,
}
use se_skills.Evidence.Record.{
  AssociationDecision, ProcessingState, EvidenceSource, Fields, is_decision, is_revision, is_source,
  counts_up, all, last_is, revision_within,
}
use se_skills.Evidence.Status.{Effect, derive_processing, is_waiting, keep, refuse, reset, save}
use se_skills.Evidence.Association.{append_decision, with_decision}

-- The tests of `is_source`.
pub record Readable (fields : Fields) (s : EvidenceSource) : Type 0 where
  pub latest_from : leb 1 s.latest_revision ≡ true
  pub latest_to : leb s.latest_revision 1000000 ≡ true
  pub attempts_to : leb s.processing.attempts 1000 ≡ true
  pub history_from : leb 1 (length s.association_history) ≡ true
  pub history_to : leb (length s.association_history) 500 ≡ true
  pub revisions_from : leb 1 (length s.revisions) ≡ true
  pub revisions_to : leb (length s.revisions) 1000 ≡ true
  pub decisions : all (is_decision fields) s.association_history ≡ true
  pub decision : is_decision fields s.association ≡ true
  pub revisions : all (is_revision fields) s.revisions ≡ true
  pub revision_numbers : counts_up (λ r. r.revision) 1 s.revisions ≡ true
  pub last_revision : last_is (λ r. eqb r.revision s.latest_revision) s.revisions ≡ true
  pub sequence : counts_up (λ d. d.sequence) 1 s.association_history ≡ true
  pub current : last_is (fields.same_decision s.association) s.association_history ≡ true
  pub within : revision_within s.processing.processed_revision s.latest_revision ≡ true

both : (a b : Bool) → (a && b) ≡ true → (a ≡ true) × (b ≡ true)
both true b e = (refl, e)
both false b e = cc e

pub is_source-Readable :
    (fields : Fields) (s : EvidenceSource) → is_source fields s ≡ true → Readable fields s
unfolding is_source
is_source-Readable fields s e =
    let (e14, a14) = both _ _ e in
    let (e13, a13) = both _ _ e14 in
    let (e12, a12) = both _ _ e13 in
    let (e11, a11) = both _ _ e12 in
    let (e10, a10) = both _ _ e11 in
    let (e9, a9) = both _ _ e10 in
    let (e8, a8) = both _ _ e9 in
    let (e7, a7) = both _ _ e8 in
    let (e6, a6) = both _ _ e7 in
    let (e5, a5) = both _ _ e6 in
    let (e4, a4) = both _ _ e5 in
    let (e3, a3) = both _ _ e4 in
    let (e2, a2) = both _ _ e3 in
    let (e1, a1) = both _ _ e2 in
    record {
      latest_from = e1;
      latest_to = a1;
      attempts_to = a2;
      history_from = a3;
      history_to = a4;
      revisions_from = a5;
      revisions_to = a6;
      decisions = a7;
      decision = a8;
      revisions = a9;
      revision_numbers = a10;
      last_revision = a11;
      sequence = a12;
      current = a13;
      within = a14;
    }

pub Readable-is_source :
    (fields : Fields) (s : EvidenceSource) → Readable fields s → is_source fields s ≡ true
unfolding is_source
Readable-is_source fields s r = rw r.latest_from (
    rw r.latest_to (
      rw r.attempts_to (
        rw r.history_from (
          rw r.history_to (
            rw r.revisions_from (
              rw r.revisions_to (
                rw r.decisions (
                  rw r.decision (
                    rw r.revisions (
                      rw r.revision_numbers
                        (rw r.last_revision (rw r.sequence (rw r.current r.within)))))))))))))

-- Another processing state.
pub processing-Readable :
    (fields : Fields) (now : ℕ) (p : ProcessingState) (s : EvidenceSource)
    → leb p.attempts 1000 ≡ true
    → revision_within p.processed_revision s.latest_revision ≡ true
    → Readable fields s
    → Readable fields (record s { updated_at = now; processing = p })
processing-Readable fields now p s attempts within r = record {
  latest_from = r.latest_from;
  latest_to = r.latest_to;
  attempts_to = attempts;
  history_from = r.history_from;
  history_to = r.history_to;
  revisions_from = r.revisions_from;
  revisions_to = r.revisions_to;
  decisions = r.decisions;
  decision = r.decision;
  revisions = r.revisions;
  revision_numbers = r.revision_numbers;
  last_revision = r.last_revision;
  sequence = r.sequence;
  current = r.current;
  within = within;
}

pub derive_processing-Readable :
    (fields : Fields) (now : ℕ) (s : EvidenceSource)
    → Readable fields s
    → Readable fields (derive_processing now s)
unfolding derive_processing
derive_processing-Readable fields now s r = elim (Bool-cases (is_waiting s.processing.status)) [
  | inl waits ↦ rw waits (processing-Readable fields s.updated_at _ s r.attempts_to r.within r)
  | inr rests ↦ rw rests r
]

module _ {ℓ} {A : Type ℓ} where
  all-append :
      (p : A → Bool) (xs : List A) (x : A)
      → all p xs ≡ true
      → p x ≡ true
      → all p (xs ++ (x ∷ [])) ≡ true
  unfolding all
  all-append p [] x h e = rw e refl
  all-append p (y ∷ ys) x h e =
      let (here, rest) = both (p y) (all p ys) h in rw here (all-append p ys x rest e)

  counts_up-append :
      (number : A → ℕ) (n : ℕ) (xs : List A) (x : A)
      → counts_up number n xs ≡ true
      → number x ≡ length xs + n
      → counts_up number n (xs ++ (x ∷ [])) ≡ true
  unfolding counts_up
  counts_up-append number n [] x h e = ground arith
  counts_up-append number n (y ∷ ys) x h e =
      let (here, rest) = both (eqb (number y) n) (counts_up number (suc n) ys) h in
      rw here (counts_up-append number (suc n) ys x rest (omega (arith, e)))

  pub last_is-append :
      (p : A → Bool) (xs : List A) (x : A) → p x ≡ true → last_is p (xs ++ (x ∷ [])) ≡ true
  unfolding last_is
  last_is-append p [] x e = e
  last_is-append p (y ∷ []) x e = e
  last_is-append p (y ∷ z ∷ zs) x e = last_is-append p (z ∷ zs) x e

pub append_decision-Readable :
    (fields : Fields) (d : AssociationDecision) (now : ℕ) (s : EvidenceSource)
    → length s.association_history < 500
    → is_decision fields d ≡ true
    → d.sequence ≡ length s.association_history + 1
    → fields.same_decision d d ≡ true
    → Readable fields s
    → Readable fields (append_decision d now s)
unfolding append_decision
append_decision-Readable fields d now s room ok numbered same r =
    derive_processing-Readable fields now _ (record {
      latest_from = r.latest_from;
      latest_to = r.latest_to;
      attempts_to = r.attempts_to;
      history_from = ground (arith, length-append s.association_history (d ∷ []));
      history_to = ground (arith, length-append s.association_history (d ∷ []));
      revisions_from = r.revisions_from;
      revisions_to = r.revisions_to;
      decisions = all-append (is_decision fields) s.association_history d r.decisions ok;
      decision = ok;
      revisions = r.revisions;
      revision_numbers = r.revision_numbers;
      last_revision = r.last_revision;
      sequence = counts_up-append (λ x. x.sequence) 1 s.association_history d r.sequence numbered;
      current = last_is-append (fields.same_decision d) s.association_history d same;
      within = r.within;
    })

pub reset-Readable :
    (fields : Fields) (now : ℕ) (error_code : Option String) (s : EvidenceSource)
    → Readable fields s
    → Readable fields (derive_processing now (reset now error_code s))
unfolding reset
reset-Readable fields now error_code s r =
    derive_processing-Readable fields now _
      (processing-Readable fields s.updated_at _ s r.attempts_to refl r)

-- What an effect saves can be read.
abbrev pub Fits : Fields → Effect → Type 0
Fits fields (refuse code) = Unit
Fits fields keep = Unit
Fits fields (save s) = Readable fields s

pub Fits-branch :
    (fields : Fields) (b : Bool) (x y : Effect)
    → (b ≡ true → Fits fields x)
    → (b ≡ false → Fits fields y)
    → Fits fields (if b then x else y)
Fits-branch fields true x y t f = t refl
Fits-branch fields false x y t f = f refl

pub Readable-branch :
    (fields : Fields) (b : Bool) (x y : EvidenceSource)
    → Readable fields x
    → Readable fields y
    → Readable fields (if b then x else y)
Readable-branch fields true x y t f = t
Readable-branch fields false x y t f = f

pub with_decision-Fits :
    (fields : Fields) (d : AssociationDecision) (next : EvidenceSource)
    → (is_decision fields d ≡ true → Readable fields next)
    → Fits fields (with_decision fields d next)
unfolding with_decision
with_decision-Fits fields d next h =
    Fits-branch fields (is_decision fields d) (save next) _ h (λ _. tt)
