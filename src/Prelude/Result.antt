-- ===== src/Prelude/Result.antt =====
-- A Python expression or method that may raise: its value, or the exception's class.

pub data Exception : Type 0 where
  value_error type_error attribute_error overflow_error unicode_error : Exception

pub data Result {ℓ} (A : Type ℓ) : Type ℓ where
  ok : A → Result A
  raised : Exception → Result A

infixl 10 ◌>>=◌
abbrev pub ◌>>=◌ {ℓ κ} : {A : Type ℓ} {B : Type κ} → Result A → (A → Result B) → Result B
ok a >>= f = f a
raised e >>= f = raised e
