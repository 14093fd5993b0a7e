-- ===== src/Prelude/Text/Lines.antt =====
-- `str.splitlines`, and `separator.join(parts)`.
use Prim.Native.Nat.{ℕ}
use Prim.Native.Char.{Char, code}
use Prim.Native.String.{String, [], ◌∷◌, ◌++◌}
use mathlib.Core.Bool.{Bool, false, ◌&&◌, ◌||◌}
use mathlib.Core.List.{List}
use se_skills.Prelude.Tests.{leb, eqb, if◌then◌else◌}

-- The characters that end a line.
unfoldable pub ends_line : ℕ → Bool
ends_line c =
    (leb 10 c && leb c 13) || (leb 28 c && leb c 30) || eqb c 0x85 || eqb c 0x2028 || eqb c 0x2029

abbrev starts_with_newline : String → Bool
starts_with_newline [] = false
starts_with_newline (c ∷ s) = eqb (code c) 10

-- A character in front of the lines of the rest.
abbrev onto_first : Char → List String → List String
onto_first c List.[] = List.◌∷◌ (c ∷ []) List.[]
onto_first c (List.◌∷◌ l ls) = List.◌∷◌ (c ∷ l) ls

-- A line ends before its terminator; a carriage return and the line feed after it are one.
unfoldable pub splitlines : String → List String
unfolding ends_line
splitlines [] = List.[]
splitlines (c ∷ s) =
    let rest = splitlines s in
    if eqb (code c) 13 && starts_with_newline s
    then rest
    else if ends_line (code c)
    then List.◌∷◌ [] rest
    else onto_first c rest

-- `Path.read_text`, with universal newlines: a carriage return, with the line feed after it if there
-- is one, is read as a line feed.
unfoldable pub universal_newlines : String → String
universal_newlines [] = []
universal_newlines (c ∷ s) =
    let rest = universal_newlines s in
    if eqb (code c) 13 then (if starts_with_newline s then rest else "\n" ++ rest) else c ∷ rest

unfoldable pub join : String → List String → String
join sep List.[] = []
join sep (List.◌∷◌ t List.[]) = t
join sep (List.◌∷◌ t (List.◌∷◌ u ts)) = t ++ sep ++ join sep (List.◌∷◌ u ts)
