-- ===== src/Json.antt =====
-- JSON values as Python's `json.loads` returns them.
use se_skills.Prelude.{
  ℕ, suc, ◌/◌, ◌^◌, String, Bool, true, false, not, Option, none, some, ◌==◌, eqb, if◌then◌else◌,
}
use se_skills.Prelude.Int.{ℤ, pos, negsuc, sub_ℕ}

-- A float: the number m / 2 ^ k, or one of the values that are no number.
pub data Float : Type 0 where
  finite : ℤ → ℕ → Float
  nan infinite : Float

mutual
  pub data Json : Type 0 where
    null : Json
    bool : Bool → Json
    int : ℤ → Json
    float : Float → Json
    str : String → Json
    arr : Items → Json
    obj : Fields → Json

  pub data Items : Type 0 where
    nil : Items
    cons : Json → Items → Items

  pub data Fields : Type 0 where
    end : Fields
    field : String → Json → Fields → Fields

-- d.get(key)
unfoldable pub get : String → Fields → Option Json
get k end = none
get k (field j v d) = if j == k then some v else get k d

-- bool(value)
unfoldable pub truthy : Json → Bool
truthy null = false
truthy (bool b) = b
truthy (int (pos n)) = not (eqb n 0)
truthy (int (negsuc n)) = true
truthy (float (finite (pos n) k)) = not (eqb n 0)
truthy (float (finite (negsuc n) k)) = true
truthy (float nan) = true
truthy (float infinite) = true
truthy (str String.[]) = false
truthy (str (String.◌∷◌ c s)) = true
truthy (arr nil) = false
truthy (arr (cons x xs)) = true
truthy (obj end) = false
truthy (obj (field k v d)) = true

-- math.trunc(m / 2 ^ k)
unfoldable pub truncate : ℤ → ℕ → ℤ
truncate (pos n) k = pos (n / 2 ^ k)
truncate (negsuc n) k = sub_ℕ 0 (suc n / 2 ^ k)
