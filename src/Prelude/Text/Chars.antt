-- ===== src/Prelude/Text/Chars.antt =====
-- `str.strip`, `str.lstrip`, `str.rstrip`, slices by characters, and `str.lower` on ASCII letters.
use Prim.Native.Nat.{ℕ, zero, suc, ◌+◌}
use Prim.Native.Char.{code}
use Prim.Native.String.{String, [], ◌∷◌}
use mathlib.Core.Bool.{Bool, true, false, ◌&&◌, ◌||◌}
use se_skills.Prelude.Tests.{leb, eqb, if◌then◌else◌}

-- `str.isspace` of one character.
unfoldable pub is_space : ℕ → Bool
is_space c =
    (leb 9 c && leb c 13)
    || (leb 28 c && leb c 32)
    || eqb c 0x85
    || eqb c 0xa0
    || eqb c 0x1680
    || (leb 0x2000 c && leb c 0x200a)
    || eqb c 0x2028
    || eqb c 0x2029
    || eqb c 0x202f
    || eqb c 0x205f
    || eqb c 0x3000

abbrev is_nil : String → Bool
is_nil [] = true
is_nil (c ∷ s) = false

unfoldable pub lstrip : String → String
unfolding is_space
lstrip [] = []
lstrip (c ∷ s) = let rest = lstrip s in if is_space (code c) then rest else c ∷ s

-- Drops the longest suffix of characters that pass the test.
unfoldable pub drop_right : (ℕ → Bool) → String → String
drop_right test [] = []
drop_right test (c ∷ s) =
    let rest = drop_right test s in if test (code c) && is_nil rest then [] else c ∷ rest

unfoldable pub rstrip : String → String
unfolding is_space drop_right
rstrip s = drop_right is_space s

unfoldable pub strip : String → String
unfolding lstrip rstrip
strip s = rstrip (lstrip s)

-- s[:n]
unfoldable pub take : ℕ → String → String
take zero s = []
take (suc n) [] = []
take (suc n) (c ∷ s) = c ∷ take n s

-- s[n:]
unfoldable pub drop : ℕ → String → String
drop zero s = s
drop (suc n) [] = []
drop (suc n) (c ∷ s) = drop n s

-- The codes of s.lower(), where only the letters A to Z are changed: exact for a test against a
-- text of small ASCII letters in which no `i` or `k` stands.
unfoldable pub lower_ascii : ℕ → ℕ
lower_ascii c = if leb b'A' c && leb c b'Z' then c + 32 else c

-- s.rstrip("/")
unfoldable pub rstrip_slash : String → String
unfolding drop_right
rstrip_slash s = drop_right (λ c. eqb c b'/') s
