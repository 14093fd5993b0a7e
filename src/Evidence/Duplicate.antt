-- ===== src/Evidence/Duplicate.antt =====
-- webapp/services/evidence_ledger_service.py: the import of a meeting that is recorded already.
use se_skills.Prelude.{
  ℕ, ◌≡◌, refl, sym, ◌∙◌, String, Bool, true, false, ◌&&◌, not, some, List, [], ◌∷◌, ◌==◌, eq_refl,
  if◌then◌else◌, arith, Bool-cases, Option-cases, inl, inr,
}
use se_skills.Prelude.Dict.{lookup}
use se_skills.Json.{Json}
use se_skills.Evidence.Record.{
  SourceRevision, EvidenceSource, Fields, is_decision, is_revision, last_is,
}
use se_skills.Evidence.Status.{
  Code, Effect, content_too_large, derive_processing, invalid_record, is_waiting, keep, refuse,
  save, source_forgotten,
}
use se_skills.Evidence.Store.{
  Answer, Store, answered, failed_with, is_forgotten, read_source, take_effect,
}
use se_skills.Evidence.Import.{
  Selected, created, extended, first_decision, import_after, import_again, import_existing,
  import_first, last_or, new_revision, record_meeting, with_latest,
}
use se_skills.Evidence.Readable.{last_is-append}

module _ (fields : Fields) (same_identity : Json → Json → Bool) (item : Selected) where
  -- The latest revision of the record is the snapshot of the meeting.
  pub record Current (s : EvidenceSource) : Type 0 where
    pub identity : same_identity s.identity item.identity ≡ true
    pub latest : last_is (λ r. r.content_hash == item.content_hash) s.revisions ≡ true

  abbrev Makes : EvidenceSource → Effect → Type 0
  Makes s (refuse code) = Unit
  Makes s keep = Current s
  Makes s (save t) = Current t

  abbrev Recorded : Answer × Store → Type 0
  Recorded (failed_with code, store) = Unit
  Recorded (answered t, store) = Current t

  Makes-branch :
      (s : EvidenceSource) (b : Bool) (x y : Effect)
      → (b ≡ true → Makes s x)
      → (b ≡ false → Makes s y)
      → Makes s (if b then x else y)
  Makes-branch s true x y t f = t refl
  Makes-branch s false x y t f = f refl

  Recorded-branch :
      (b : Bool) (x y : Answer × Store) → Recorded x → Recorded y → Recorded (if b then x else y)
  Recorded-branch true x y t f = t
  Recorded-branch false x y t f = f

  derive_processing-Current :
      (now : ℕ) (s : EvidenceSource) → Current s → Current (derive_processing now s)
  unfolding derive_processing
  derive_processing-Current now s c = elim (Bool-cases (is_waiting s.processing.status)) [
    | inl waits ↦ rw waits (record { identity = c.identity; latest = c.latest })
    | inr rests ↦ rw rests c
  ]

  last_is-last_or :
      (p : SourceRevision → Bool) (r : SourceRevision) (rs : List SourceRevision)
      → last_is p (r ∷ rs) ≡ p (last_or r rs)
  unfolding last_is last_or
  last_is-last_or p r [] = refl
  last_is-last_or p r (x ∷ xs) = last_is-last_or p x xs

  import_after-Makes :
      (now : ℕ) (import_id trigger : String) (s : EvidenceSource) (r : SourceRevision)
      (rs : List SourceRevision)
      → s.revisions ≡ r ∷ rs
      → Makes s (import_after fields same_identity now import_id trigger item s (last_or r rs))
  unfolding import_after extended new_revision
  import_after-Makes now import_id trigger s r rs e =
      Makes-branch s (not (same_identity s.identity item.identity)) _ _ (λ _. tt)
        λ same.
          Makes-branch s ((last_or r rs).content_hash == item.content_hash) keep _
            (λ known. record {
              identity = ground arith;
              latest =
                  rw e (last_is-last_or (λ x. x.content_hash == item.content_hash) r rs ∙ known);
            })
            λ _.
              Makes-branch s (is_revision fields _) _ _
                (λ _. derive_processing-Current now _ (record {
                  identity = ground arith;
                  latest =
                      last_is-append (λ x. x.content_hash == item.content_hash) s.revisions _
                        (eq_refl item.content_hash);
                }))
                (λ _. tt)

  import_again-Makes :
      (now : ℕ) (import_id trigger : String) (s : EvidenceSource) (rs : List SourceRevision)
      → s.revisions ≡ rs
      → Makes s (with_latest (import_after fields same_identity now import_id trigger item s) rs)
  import_again-Makes now import_id trigger s [] e = tt
  import_again-Makes now import_id trigger s (r ∷ rs) e =
      import_after-Makes now import_id trigger s r rs e

  take_effect-Recorded :
      (s : EvidenceSource) (e : Effect) (store : Store)
      → Makes s e
      → Recorded (take_effect item.source_id s e store)
  unfolding take_effect
  take_effect-Recorded s (refuse code) store h = tt
  take_effect-Recorded s keep store h = h
  take_effect-Recorded s (save t) store h = h

  import_existing-Recorded :
      (now : ℕ) (import_id trigger : String) (answer : Answer) (store : Store)
      → Recorded (import_existing fields same_identity now import_id trigger item answer store)
  unfolding import_existing import_again
  import_existing-Recorded now import_id trigger (failed_with code) store = tt
  import_existing-Recorded now import_id trigger (answered s) store =
      take_effect-Recorded s _ store (import_again-Makes now import_id trigger s s.revisions refl)

  record_meeting-Recorded :
      (now : ℕ) (import_id trigger : String) (store : Store)
      → ((x : Json) → same_identity x x ≡ true)
      → Recorded (record_meeting fields same_identity now import_id trigger item store)
  unfolding record_meeting import_first created new_revision
  record_meeting-Recorded now import_id trigger store same =
      Recorded-branch (is_forgotten item.source_id store.forgotten)
        (failed_with source_forgotten, store) _ tt
        (Recorded-branch item.too_large (failed_with content_too_large, store) _ tt
          (elim (Option-cases (lookup item.source_id store.sources)) [
            | inl missing ↦ rw missing (
                Recorded-branch (is_revision fields _ && is_decision fields (first_decision now)) _
                  (failed_with invalid_record, store)
                  (derive_processing-Current now _ (record {
                    identity = same item.identity;
                    latest =
                        last_is-append (λ x. x.content_hash == item.content_hash) [] _
                          (eq_refl item.content_hash);
                  }))
                  tt)
            | inr (s, there) ↦ rw there (
                import_existing-Recorded now import_id trigger
                  (read_source fields item.source_id store) store)
          ]))

  import_after-keeps :
      (now : ℕ) (import_id trigger : String) (s : EvidenceSource) (latest : SourceRevision)
      → same_identity s.identity item.identity ≡ true
      → (latest.content_hash == item.content_hash) ≡ true
      → import_after fields same_identity now import_id trigger item s latest ≡ keep
  unfolding import_after
  import_after-keeps now import_id trigger s latest same known = rw (same, known) refl

  with_latest-keeps :
      (f : SourceRevision → Effect) (rs : List SourceRevision)
      → ((r : SourceRevision) → (r.content_hash == item.content_hash) ≡ true → f r ≡ keep)
      → last_is (λ r. r.content_hash == item.content_hash) rs ≡ true
      → with_latest f rs ≡ keep
  unfolding last_is
  with_latest-keeps f [] keeps e = cc e
  with_latest-keeps f (r ∷ rs) keeps e =
      keeps (last_or r rs)
        (sym (last_is-last_or (λ x. x.content_hash == item.content_hash) r rs) ∙ e)

  import_existing-keeps :
      (now : ℕ) (import_id trigger : String) (s : EvidenceSource) (store : Store)
      → Current s
      → import_existing fields same_identity now import_id trigger item (answered s) store
        ≡ (answered s, store)
  unfolding import_existing import_again take_effect
  import_existing-keeps now import_id trigger s store c =
      rw
        (with_latest-keeps (import_after fields same_identity now import_id trigger item s)
          s.revisions (λ r known. import_after-keeps now import_id trigger s r c.identity known)
          c.latest)
        refl

  fits :
      (m large : Bool) (a b : Code) (store : Store) (x : Answer × Store) (t : EvidenceSource)
      (next : Store)
      → (if m then (failed_with a, store) else if large then (failed_with b, store) else x)
        ≡ (answered t, next)
      → large ≡ false
  fits true large a b store x t next e = cc e
  fits false true a b store x t next e = cc e
  fits false false a b store x t next e = refl

  known_source :
      (store : Store) (s : EvidenceSource)
      → read_source fields item.source_id store ≡ answered s
      → (is_forgotten item.source_id store.forgotten ≡ false)
        × (lookup item.source_id store.sources ≡ some s)
  unfolding read_source
  known_source store s e = ground arith

  -- Importing again a meeting that an import recorded, at any later time and under any import
  -- identifier and trigger, answers with the same record and writes nothing, as long as the record
  -- can be read. An identity is taken to be equal to itself.
  pub record_meeting-again :
      (now later : ℕ) (import_id again_id trigger again : String) (store next : Store)
      (t : EvidenceSource)
      → ((x : Json) → same_identity x x ≡ true)
      → record_meeting fields same_identity now import_id trigger item store ≡ (answered t, next)
      → read_source fields item.source_id next ≡ answered t
      → record_meeting fields same_identity later again_id again item next ≡ (answered t, next)
  unfolding record_meeting
  record_meeting-again now later import_id again_id trigger again store next t same e reads =
      let (known, there) = known_source next t reads in
      let small : item.too_large ≡ false = fits _ _ _ _ _ _ t next e in
      let current : Current t =
        rw e at (record_meeting-Recorded now import_id trigger store same) in
      rw known
        (rw small (rw there (rw reads (import_existing-keeps later again_id again t next current))))
