-- ===== src/Prelude/Text/Decimal.antt =====
-- Decimal numerals: `str(n)`, and `int(text)` on texts of one-byte characters.
use Prim.Native.Nat.{ℕ, zero, suc, ◌+◌, ◌-◌, ◌*◌, ◌/◌, ◌%◌, ◌<◌}
use Prim.Native.Char.{Char, code}
use Prim.Native.String.{String, [], ◌∷◌}
use mathlib.Core.Path.{◌≡◌, refl, ◌∙◌, ap}
use mathlib.Core.Logic.{inl, inr}
use mathlib.Core.Bool.{Bool, true, false, ◌&&◌}
use mathlib.Core.Option
use mathlib.Core.Option.{Option, none, some}
use native.Mathlib.Omega.{arith}
use se_skills.Prelude.Tests.{ltb, leb, eqb, if◌then◌else◌, Bool-cases}
use se_skills.Prelude.Int.{ℤ, pos, negsuc, sub_ℕ}
use se_skills.Prelude.Text.Chars.{is_space, lstrip, drop_right, rstrip, strip}

digit_char : ℕ → Char
digit_char zero = "0"
digit_char (suc zero) = "1"
digit_char (suc (suc zero)) = "2"
digit_char (suc (suc (suc zero))) = "3"
digit_char (suc (suc (suc (suc zero)))) = "4"
digit_char (suc (suc (suc (suc (suc zero))))) = "5"
digit_char (suc (suc (suc (suc (suc (suc zero)))))) = "6"
digit_char (suc (suc (suc (suc (suc (suc (suc zero))))))) = "7"
digit_char (suc (suc (suc (suc (suc (suc (suc (suc zero)))))))) = "8"
digit_char (suc (suc (suc (suc (suc (suc (suc (suc (suc n))))))))) = "9"

unfoldable pub digit_value : Char → Option ℕ
digit_value c = if leb b'0' (code c) && leb (code c) b'9' then some (code c - b'0') else none

-- A digit below ten is read back, and is neither an underscore, a sign nor a space.
abbrev Digit : Char → ℕ → Type 0
Digit c n =
    (digit_value c ≡ some n)
    × (eqb (code c) b'_' ≡ false)
    × (eqb (code c) b'-' ≡ false)
    × (eqb (code c) b'+' ≡ false)
    × (is_space (code c) ≡ false)

digit_char-Digit : (n : ℕ) → n < 10 → Digit (digit_char n) n
unfolding digit_char digit_value is_space
digit_char-Digit zero h = (refl, refl, refl, refl, refl)
digit_char-Digit (suc zero) h = (refl, refl, refl, refl, refl)
digit_char-Digit (suc (suc zero)) h = (refl, refl, refl, refl, refl)
digit_char-Digit (suc (suc (suc zero))) h = (refl, refl, refl, refl, refl)
digit_char-Digit (suc (suc (suc (suc zero)))) h = (refl, refl, refl, refl, refl)
digit_char-Digit (suc (suc (suc (suc (suc zero))))) h = (refl, refl, refl, refl, refl)
digit_char-Digit (suc (suc (suc (suc (suc (suc zero)))))) h = (refl, refl, refl, refl, refl)
digit_char-Digit (suc (suc (suc (suc (suc (suc (suc zero))))))) h = (refl, refl, refl, refl, refl)
digit_char-Digit (suc (suc (suc (suc (suc (suc (suc (suc zero)))))))) h =
    (refl, refl, refl, refl, refl)
digit_char-Digit (suc (suc (suc (suc (suc (suc (suc (suc (suc zero))))))))) h =
    (refl, refl, refl, refl, refl)
digit_char-Digit (suc (suc (suc (suc (suc (suc (suc (suc (suc (suc n)))))))))) h =
    absurd (omega arith)

-- The digits of `n`, in front of `rest`.
unfoldable pub show_from : ℕ → ℕ → String → String
unfolding digit_char
show_from zero n rest = rest
show_from (suc fuel) n rest =
    let more = show_from fuel (n / 10) (digit_char (n % 10) ∷ rest) in
    if ltb n 10 then digit_char n ∷ rest else more

-- str(n)
unfoldable pub show_ℕ : ℕ → String
unfolding show_from
show_ℕ n = show_from (suc n) n []

-- The digits of an `int` literal: single underscores may stand between two of them.
unfoldable pub scan : ℕ → Bool → String → Option ℕ
unfolding digit_value
scan n after_digit [] = if after_digit then some n else none
scan n after_digit (c ∷ s) = elim (eqb (code c) b'_') [
  | true ↦ elim after_digit [ true ↦ scan n false s | false ↦ none ]
  | false ↦ elim (digit_value c) [ none ↦ none | some d ↦ scan (n * 10 + d) true s ]
]

unfoldable pub signed : String → Option ℤ
unfolding scan
signed [] = none
signed (c ∷ s) =
    if eqb (code c) b'-'
    then Option.map (λ n. sub_ℕ 0 n) (scan 0 false s)
    else if eqb (code c) b'+'
    then Option.map pos (scan 0 false s)
    else Option.map pos (scan 0 false (c ∷ s))

-- int(text); `none` stands for the ValueError
unfoldable pub int_of_text : String → Option ℤ
unfolding signed strip
int_of_text s = signed (strip s)

scan-Digit :
    (c : Char) (acc n : ℕ) (b : Bool) (rest : String)
    → Digit c n
    → scan acc b (c ∷ rest) ≡ scan (acc * 10 + n) true rest
unfolding scan
scan-Digit c acc n b rest d = rw (scan, d.1, d.0)

scan-show_from :
    (fuel n : ℕ) (rest : String)
    → n < fuel
    → scan 0 false (show_from fuel n rest) ≡ scan n true rest
unfolding show_from
scan-show_from zero n rest h = elim h [ ]
scan-show_from (suc fuel) n rest h = elim (Bool-cases (ltb n 10)) [
  | inl small ↦ rw small (
      scan-Digit _ 0 n false rest (digit_char-Digit n (ground arith))
      ∙ ap (λ (k : ℕ). scan k true rest) (omega arith))
  | inr big ↦
      rw (big, scan-show_from fuel (n / 10) (digit_char (n % 10) ∷ rest) (ground arith))
        (scan-Digit _ (n / 10) (n % 10) true rest (digit_char-Digit (n % 10) (omega arith))
          ∙ ap (λ (k : ℕ). scan k true rest) (omega arith))
]

-- A numeral begins with a digit, and stripping leaves it alone.
abbrev Clean : String → Type 0
Clean [] = Unit
Clean (c ∷ s) =
    (is_space (code c) ≡ false)
    × (eqb (code c) b'-' ≡ false)
    × (eqb (code c) b'+' ≡ false)
    × Clean s

show_from-Clean : (fuel n : ℕ) (rest : String) → Clean rest → Clean (show_from fuel n rest)
unfolding show_from
show_from-Clean zero n rest h = h
show_from-Clean (suc fuel) n rest h = elim (Bool-cases (ltb n 10)) [
  | inl small ↦ let d = digit_char-Digit n (ground arith) in rw small (d.4, d.2, d.3, h)
  | inr big ↦
      let d = digit_char-Digit (n % 10) (omega arith) in
      rw big (show_from-Clean fuel (n / 10) (digit_char (n % 10) ∷ rest) (d.4, d.2, d.3, h))
]

lstrip-Clean : (s : String) → Clean s → lstrip s ≡ s
unfolding lstrip
lstrip-Clean [] h = refl
lstrip-Clean (c ∷ s) h = rw h.0

rstrip-Clean : (s : String) → Clean s → drop_right is_space s ≡ s
unfolding drop_right
rstrip-Clean [] h = refl
rstrip-Clean (c ∷ s) h = rw (rstrip-Clean s h.3, h.0)

strip-Clean : (s : String) → Clean s → strip s ≡ s
unfolding strip rstrip
strip-Clean s h = rw (lstrip-Clean s h) (rstrip-Clean s h)

signed-Clean : (s : String) → Clean s → signed s ≡ Option.map pos (scan 0 false s)
unfolding signed scan
signed-Clean [] h = refl
signed-Clean (c ∷ s) h = rw (h.1, h.2)

-- int(str(n)) == n
pub int_of_text-show_ℕ : (n : ℕ) → int_of_text (show_ℕ n) ≡ some (pos n)
unfolding int_of_text show_ℕ scan
int_of_text-show_ℕ n =
    let clean = show_from-Clean (suc n) n [] tt in
    rw (strip-Clean _ clean, signed-Clean _ clean, scan-show_from (suc n) n [] (omega arith))

int_of_texts :
    (int_of_text " 1_024" ≡ some (pos 1024))
    × (int_of_text "-7" ≡ some (negsuc 6))
    × (int_of_text "1__0" ≡ none)
    × (int_of_text "" ≡ none)
    × (show_ℕ 1203 ≡ "1203")
unfolding int_of_text show_ℕ
int_of_texts = (refl, refl, refl, refl, refl)
