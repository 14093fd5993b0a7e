-- ===== src/Agent/Search.antt =====
-- `search_transcript`: its loop over the lines, against a filter of them.
use se_skills.Prelude.{
  ℕ, zero, suc, ◌+◌, ◌≤◌, ◌<◌, ◌≡◌, refl, sym, ◌∙◌, String, true, false, Option, some, none,
  Option-cases, List, [], ◌∷◌, ◌++◌, arith, if◌then◌else◌, is_some, length, length-append, leb,
  Bool-cases, inl, inr,
}
use text.Mathlib.Text.{find?}
use mathlib.Core.List.{append-nil, append_assoc}
use se_skills.Prelude.Int.{ℤ, pos_part}
use se_skills.Prelude.Text.{splitlines}
use se_skills.Prelude.Result.{ok}
use se_skills.Json.{Json, Fields, get}
use se_skills.Contract.Job.{RuntimeJob}
use se_skills.Agent.Host.{Host, OutputDir}
use se_skills.Agent.Inputs.{
  SearchInput, search_transcript_input, clamp_max_results, max_results_field,
}
use se_skills.Agent.Tools.{
  content, run_tool, search_transcript, or_no_matches, search_lines, match_line,
}

-- The first `n` elements.
abbrev pub first {ℓ} : {A : Type ℓ} → ℕ → List A → List A
first zero xs = []
first (suc n) [] = []
first (suc n) (x ∷ xs) = x ∷ first n xs

-- Every match, from line `i` on.
unfoldable pub matches_from : (String → String) → String → ℕ → List String → List String
matches_from lower query i [] = []
matches_from lower query i (line ∷ lines) =
    let rest = matches_from lower query (i + 1) lines in
    if is_some (find? (lower line) query) then match_line i line ∷ rest else rest

leb-true : (a b : ℕ) → a ≤ b → leb a b ≡ true
leb-true a b h = ground arith

leb-false : (a b : ℕ) → b < a → leb a b ≡ false
leb-false a b h = ground arith

search_lines-append :
    (lower : String → String) (query : String) (limit k i : ℕ) (found lines : List String)
    → limit ≡ length found + suc k
    → search_lines lower query limit i found lines
      ≡ found ++ first (suc k) (matches_from lower query i lines)
unfolding search_lines matches_from
search_lines-append lower query limit k i found [] h = sym (append-nil found)
search_lines-append lower query limit k i found (line ∷ lines) h =
    elim (Bool-cases (is_some (find? (lower line) query))) [
      | inr other ↦
          rw (other, leb-false limit (length found) (omega (arith, h)))
            (search_lines-append lower query limit k (i + 1) found lines h)
      | inl matches ↦
          rw matches
            (matched k h (λ j e. search_lines-append lower query limit j (i + 1) _ lines e))
    ]
  where
    more : List String
    more = found ++ match_line i line ∷ []

    grown : length more ≡ length found + 1
    grown = length-append found (match_line i line ∷ [])

    matched :
        (k : ℕ)
        → limit ≡ length found + suc k
        → ((j : ℕ)
            → limit ≡ length more + suc j
            → search_lines lower query limit (i + 1) more lines
              ≡ more ++ first (suc j) (matches_from lower query (i + 1) lines))
        → (if leb limit (length more)
            then more
            else search_lines lower query limit (i + 1) more lines)
          ≡ found ++ match_line i line ∷ first k (matches_from lower query (i + 1) lines)
    matched zero h again = rw (leb-true limit (length more) (omega (arith, h, grown))) refl
    matched (suc j) h again =
        rw (leb-false limit (length more) (omega (arith, h, grown)))
          (again j (omega (arith, h, grown)) ∙ append_assoc found _ _)

search_lines-first :
    (lower : String → String) (query : String) (limit : ℕ) (lines : List String)
    → 1 ≤ limit
    → search_lines lower query limit 1 [] lines ≡ first limit (matches_from lower query 1 lines)
search_lines-first lower query zero lines h = ground arith
search_lines-first lower query (suc k) lines h =
    search_lines-append lower query (suc k) k 1 [] lines (omega arith)

clamp_max_results-bounds :
    (n : ℤ) → (1 ≤ pos_part (clamp_max_results n)) × (pos_part (clamp_max_results n) ≤ 100)
unfolding clamp_max_results
clamp_max_results-bounds n = ground arith

max_results_field-bounds :
    (to_int : Json → Option ℤ) (o : Option Json) (n : ℤ)
    → max_results_field to_int o ≡ some n
    → (1 ≤ pos_part n) × (pos_part n ≤ 100)
unfolding max_results_field
max_results_field-bounds to_int none n h = ground arith
max_results_field-bounds to_int (some j) n h = elim (Option-cases (to_int j)) [
  | inl bad ↦ cc (rw bad at h)
  | inr (k, good) ↦
      let bounds = clamp_max_results-bounds k in
      let same : n ≡ clamp_max_results k = cc (rw good at h) in rw same bounds
]

search_transcript_input-bounds :
    (to_int : Json → Option ℤ) (d : Fields) (q : SearchInput)
    → search_transcript_input to_int d ≡ some q
    → (1 ≤ pos_part q.max_results) × (pos_part q.max_results ≤ 100)
unfolding search_transcript_input
search_transcript_input-bounds to_int d q h =
    ground (arith, max_results_field-bounds to_int (get "max_results" d) q.max_results)

-- A use of `search_transcript` with a valid input gives the lines that hold the query once both are
-- lowered: the first ones, each with its number, in order. It gives as many as the input allows,
-- which are from 1 to 100 whatever number it asks for.
pub run_tool-search :
    (host : Host) (job : RuntimeJob) (transcript id : String) (d : Fields) (q : SearchInput)
    (out : OutputDir)
    → search_transcript_input host.to_int d ≡ some q
    → (run_tool host job transcript (record { id = id; name = "search_transcript"; input = d }) out
        ≡ (
          ok (
              content (
                or_no_matches (
                  first
                    (pos_part q.max_results)
                    (matches_from host.lower (host.lower q.query) 1 (splitlines transcript))))),
          out,
        ))
      × (1 ≤ pos_part q.max_results)
      × (pos_part q.max_results ≤ 100)
unfolding run_tool search_transcript
run_tool-search host job transcript id d q out h =
    let (low, high) = search_transcript_input-bounds host.to_int d q h in
    (
      rw
          (
            h,
            search_lines-first host.lower (host.lower q.query) (pos_part q.max_results)
                (splitlines transcript) low,
          )
          refl,
      low,
      high,
    )
