-- ===== src/Evidence/Reading.antt =====
-- webapp/services/evidence_ledger_service.py: what is read of a source after an operation on it.
use se_skills.Prelude.{
  ℕ, ◌+◌, ◌<◌, ◌≡◌, refl, ◌∙◌, String, Bool, true, false, length, leb, if◌then◌else◌, arith,
  Bool-cases, Option-cases, inl, inr, eq_refl, ltb, ◌≤◌, if◌then◌else◌, true,
}
use se_skills.Prelude.Dict.{lookup-insert}
use se_skills.Evidence.Record.{
  ProcessingStatus, queued, processing, AssociationDecision, EvidenceSource, Fields, is_source,
}
use se_skills.Evidence.Status.{Effect, keep, malformed_storage, refuse, save}
use se_skills.Evidence.Processing.{mark_processing, may_start}
use se_skills.Evidence.Store.{
  Answer, Operation, Store, answered, effect, failed_with, is_forgotten, on_source, operate,
  read_source, refused_first, starts, take_effect, write_source,
}
use se_skills.Evidence.Readable.{is_source-Readable, Readable-is_source, Fits}
use se_skills.Evidence.Writing.{effect-Fits}

-- What a read gives after an operation: the record it returned, or else the one before.
abbrev pub after_answer : EvidenceSource → Answer → Answer
after_answer s (failed_with code) = answered s
after_answer s (answered t) = answered t

read_source-known :
    (fields : Fields) (id : String) (store : Store) (s : EvidenceSource)
    → read_source fields id store ≡ answered s
    → (is_forgotten id store.forgotten ≡ false) × (is_source fields s ≡ true)
unfolding read_source
read_source-known fields id store s e = ground arith

read_source-write :
    (fields : Fields) (id : String) (store : Store) (s : EvidenceSource)
    → is_forgotten id store.forgotten ≡ false
    → read_source fields id (write_source id s store) ≡ (
        if ltb 2000000 (fields.record_bytes s)
        then failed_with malformed_storage
        else if is_source fields s
        then answered s
        else failed_with malformed_storage)
unfolding read_source write_source
read_source-write fields id store s known = rw known (rw lookup-insert (rw (eq_refl id) refl))

le-not_ltb : (a b : ℕ) → a ≤ b → ltb b a ≡ false
le-not_ltb a b h = ground arith

take_effect-reads :
    (fields : Fields) (id : String) (s : EvidenceSource) (e : Effect) (store : Store)
    → read_source fields id store ≡ answered s
    → Fits fields e
    → ((t : EvidenceSource)
        → (take_effect id s e store).0 ≡ answered t
        → fields.record_bytes t ≤ 2000000)
    → read_source fields id (take_effect id s e store).1
      ≡ after_answer s (take_effect id s e store).0
unfolding take_effect
take_effect-reads fields id s (refuse code) store e h small = e
take_effect-reads fields id s keep store e h small = e
take_effect-reads fields id s (save next) store e h small =
    read_source-write fields id store next (read_source-known fields id store s e).0
    ∙ rw (le-not_ltb (fields.record_bytes next) 2000000 (small next refl))
        (rw (Readable-is_source fields next h) refl)

-- A source that is read, with fewer than 1000 attempts and 500 decisions, can be read after any
-- operation on it, if the file of the record that the operation returns has 2,000,000 bytes at most:
-- the read gives that record, or, after a refusal, the record before it. A decision is taken to be
-- equal to itself.
pub operate-reads :
    (fields : Fields) (code_ok : String → Bool) (now : ℕ) (op : Operation) (id : String)
    (store : Store) (s : EvidenceSource)
    → ((d : AssociationDecision) → fields.same_decision d d ≡ true)
    → read_source fields id store ≡ answered s
    → s.processing.attempts < 1000
    → length s.association_history < 500
    → ((t : EvidenceSource)
        → (operate fields code_ok now op id store).0 ≡ answered t
        → fields.record_bytes t ≤ 2000000)
    → read_source fields id (operate fields code_ok now op id store).1
      ≡ after_answer s (operate fields code_ok now op id store).0
unfolding operate on_source
operate-reads fields code_ok now op id store s same e attempts history small =
    elim (Option-cases (refused_first code_ok op)) [
      | inr (code, no_read) ↦ rw (no_read, operate) e
      | inl reads ↦
          rw (reads, operate)
            (rw (e, on_source)
              (take_effect-reads fields id s (effect fields now op s) store e
                (effect-Fits fields now s
                  (is_source-Readable fields s (read_source-known fields id store s e).1) attempts
                  history same op)
                (rw (e, on_source) at (rw (reads, operate) at small))))
    ]

over_limit :
    (fields : Fields) (s : EvidenceSource)
    → leb s.processing.attempts 1000 ≡ false
    → is_source fields s ≡ false
over_limit fields s over = elim (Bool-cases (is_source fields s)) [
  | inl ok ↦ cc ((is_source-Readable fields s ok).attempts_to, over)
  | inr bad ↦ bad
]

same_branch {ℓ} : {A : Type ℓ} (b : Bool) (x : A) → (if b then x else x) ≡ x
same_branch true x = refl
same_branch false x = refl

may_start-queued :
    (st : ProcessingStatus) (eligible : Bool) (start : Effect)
    → st ≡ queued
    → may_start st eligible start ≡ start
may_start-queued st eligible start e = rw e refl

abbrev pub started : ℕ → EvidenceSource → EvidenceSource
started now s = record s {
  updated_at = now;
  processing = record s.processing {
    status = processing;
    attempts = s.processing.attempts + 1;
    updated_at = now;
  };
}

-- The bound of 1000 attempts does not stop the attempt after it: `mark_processing` of a queued source
-- with 1000 attempts answers with the record of a source that is being processed, and this record
-- cannot be read.
pub starts_at_limit :
    (fields : Fields) (code_ok : String → Bool) (now : ℕ) (id : String) (store : Store)
    (s : EvidenceSource)
    → read_source fields id store ≡ answered s
    → s.processing.status ≡ queued
    → s.processing.attempts ≡ 1000
    → ((operate fields code_ok now starts id store).0 ≡ answered (started now s))
      × (read_source fields id (operate fields code_ok now starts id store).1
          ≡ failed_with malformed_storage)
unfolding operate on_source refused_first effect mark_processing take_effect
starts_at_limit fields code_ok now id store s e waits attempts = rw e (
    rw (may_start-queued s.processing.status s.processing.retry_eligible _ waits) (
      refl,
      read_source-write fields id store _ (read_source-known fields id store s e).0
          ∙ rw (over_limit fields (started now s) (ground arith)) (same_branch _ _),
    ))
