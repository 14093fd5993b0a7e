-- ===== src/Prelude/Text/Sorted.antt =====
-- `sorted` of a collection of texts: by code points, ascending.
use Prim.Native.Nat.{Ordering}
use Prim.Native.String.{String, compare}
use mathlib.Core.List.{List, [], ◌∷◌}

-- sorted(names)
unfoldable pub insert_sorted : String → List String → List String
insert_sorted t [] = t ∷ []
insert_sorted t (x ∷ xs) =
    let rest = insert_sorted t xs in elim (compare t x) [ Ordering.gt ↦ x ∷ rest | _ ↦ t ∷ x ∷ xs ]

unfoldable pub sorted : List String → List String
unfolding insert_sorted
sorted [] = []
sorted (x ∷ xs) = insert_sorted x (sorted xs)
