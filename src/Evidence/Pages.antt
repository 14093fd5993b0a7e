-- ===== src/Evidence/Pages.antt =====
-- webapp/services/evidence_ledger_service.py: what the reads give.
use se_skills.Prelude.{
  ℕ, zero, suc, ◌+◌, ◌≤◌, ◌≡◌, refl, sym, ◌∙◌, String, Bool, Option, none, some, List, [], ◌∷◌,
  ◌++◌, length, ltb, ltb-false→le, le→leb, arith, Bool-cases, inl, inr,
}
use native.Mathlib.Numerals.{unary_clauses}
use se_skills.Prelude.Dict.{Dict}
use se_skills.Evidence.Record.{ProcessingStatus, EvidenceSource, Fields}
use se_skills.Evidence.Store.{Store, read_source}
use se_skills.Evidence.Listing.{
  Page, drop, is_listed, latest_first, list_sources, next_page, page_of, scan_sources, take, place,
  is_later,
}

-- The caller that follows next_offset, for a number of pages at most.
abbrev pub continue_with : (ℕ → Dict EvidenceSource) → Option ℕ → Dict EvidenceSource
continue_with rest none = []
continue_with rest (some offset) = rest offset

abbrev pub sources_of : (ℕ → Dict EvidenceSource) → Option Page → Dict EvidenceSource
sources_of rest none = []
sources_of rest (some page) = page.sources ++ continue_with rest page.next_offset

unfoldable pub follow : (ℕ → Option Page) → ℕ → ℕ → Dict EvidenceSource
follow get zero offset = []
follow get (suc n) offset = sources_of (follow get n) (get offset)

module _ {ℓ} {A : Type ℓ} where
  take-drop : (n : ℕ) (xs : List A) → take n xs ++ drop n xs ≡ xs
  unfolding take drop
  take-drop zero xs = refl
  take-drop (suc n) [] = refl
  take-drop (suc n) (x ∷ xs) = rw (take-drop n xs) refl

  drop-add : (m n : ℕ) (xs : List A) → drop (m + n) xs ≡ drop n (drop m xs)
  unfolding drop
  drop-add zero n xs = let same : zero + n ≡ n = omega arith in rw same refl
  drop-add (suc m) zero [] = simp unary_clauses refl
  drop-add (suc m) (suc n) [] = simp unary_clauses refl
  drop-add (suc m) n (x ∷ xs) =
      let same : suc m + n ≡ suc (m + n) = omega arith in rw same (drop-add m n xs)

  drop_all : (n : ℕ) (xs : List A) → length xs ≤ n → drop n xs ≡ []
  unfolding drop
  drop_all zero [] h = refl
  drop_all zero (x ∷ xs) h = ground (arith, h)
  drop_all (suc n) [] h = refl
  drop_all (suc n) (x ∷ xs) h = drop_all n xs (omega arith)

length-place :
    (iso : ℕ → String) (x : String × EvidenceSource) (ys : Dict EvidenceSource)
    → length (place iso x ys) ≡ suc (length ys)
unfolding place
length-place iso x [] = refl
length-place iso x (y ∷ ys) = elim (Bool-cases (is_later iso y x)) [
  | inl later ↦ rw later (omega (arith, length-place iso x ys))
  | inr first ↦ rw first refl
]

length-latest_first :
    (iso : ℕ → String) (xs : Dict EvidenceSource) → length (latest_first iso xs) ≡ length xs
unfolding latest_first
length-latest_first iso [] = refl
length-latest_first iso (x ∷ xs) =
    length-place iso x (latest_first iso xs) ∙ rw (length-latest_first iso xs) refl

module _ (limit malformed : ℕ) (items : Dict EvidenceSource) where
  rest_of_page :
      (n offset : ℕ)
      → 1 ≤ limit
      → length items ≤ offset + n
      → (follow (λ o. some (page_of limit o malformed items)) n offset ≡ drop offset items)
  unfolding follow page_of next_page
  rest_of_page zero offset some_limit enough = sym (drop_all offset items (omega (arith, enough)))
  rest_of_page (suc n) offset some_limit enough =
      elim (Bool-cases (ltb (offset + limit) (length items))) [
        | inl more ↦ rw more (
            rw (rest_of_page n (offset + limit) some_limit (omega (arith, enough, some_limit)))
              (rw (drop-add offset limit items) (take-drop limit (drop offset items))))
        | inr last ↦ rw last (
            let nothing : drop limit (drop offset items) ≡ [] =
              sym (drop-add offset limit items)
              ∙ drop_all (offset + limit) items
                  (ltb-false→le (offset + limit) (length items) last) in
            rw nothing at (take-drop limit (drop offset items)))
      ]

-- Following next_offset from the first page, with page bounds that are accepted and enough calls
-- (one for each listed source suffices), gives the readable records with the wanted status, sorted
-- with the latest first: no source is lost between two pages, and none is given by both.
pub follow-list_sources :
    (fields : Fields) (iso : ℕ → String) (status : Option ProcessingStatus)
    (unprocessed_only : Bool) (limit calls : ℕ) (store : Store)
    → 1 ≤ limit
    → limit ≤ 500
    → length
        (scan_sources
          (λ id. read_source fields id store)
          (is_listed status unprocessed_only)
          store.sources).0
      ≤ calls
    → follow (λ offset. list_sources fields iso status unprocessed_only limit offset store) calls 0
      ≡ latest_first iso
          (scan_sources
            (λ id. read_source fields id store)
            (is_listed status unprocessed_only)
            store.sources).0
unfolding list_sources drop
follow-list_sources fields iso status unprocessed_only limit calls store from to enough =
    rw (le→leb 1 limit from) (
      rw (le→leb limit 500 to) (
        rest_of_page limit _ (latest_first iso _) calls 0 from
          (rw length-latest_first (omega (arith, enough)))))
