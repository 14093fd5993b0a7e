-- ===== src/Contract/Validity.antt =====
-- What the validators of the runtime contract let through.
use se_skills.Prelude.{◌≡◌, refl, Option, none, some, arith}
use se_skills.Prelude.Int.{ℤ, pos, ◌+ℤ◌, ◌≤ℤ◌, +ℤ_zero, eq_of_parts}
use se_skills.Prelude.Result.{ok}
use se_skills.Contract.Result.{
  TokenUsage, token_usage, FailureCategory, RuntimeResult, runtime_failure, failure_message,
}

-- The count of an optional field.
abbrev pub count : Option ℤ → ℤ
count none = pos 0
count (some n) = n

pub record IsUsage (u : TokenUsage) : Type 0 where
  pub input_nonneg : pos 0 ≤ℤ u.input_tokens
  pub output_nonneg : pos 0 ≤ℤ u.output_tokens
  pub creation_nonneg : pos 0 ≤ℤ count u.cache_creation_input_tokens
  pub read_nonneg : pos 0 ≤ℤ count u.cache_read_input_tokens
  pub total_exact :
      u.total_tokens
      ≡ u.input_tokens
        +ℤ u.output_tokens
        +ℤ count u.cache_creation_input_tokens
        +ℤ count u.cache_read_input_tokens

-- A constructed usage has no negative count, and its total is the sum of the four counts,
-- whether the caller gave the total or left it out.
pub token_usage-IsUsage :
    (i o : ℤ) (c r given : Option ℤ) (u : TokenUsage) → token_usage i o c r given ≡ ok u → IsUsage u
unfolding token_usage
token_usage-IsUsage i o none none given u h =
    ground (arith, +ℤ_zero (i +ℤ o), eq_of_parts u.total_tokens (i +ℤ o))
token_usage-IsUsage i o none (some r) given u h =
    ground (arith, +ℤ_zero (i +ℤ o), eq_of_parts u.total_tokens (i +ℤ o +ℤ r))
token_usage-IsUsage i o (some c) none given u h =
    ground (arith, +ℤ_zero (i +ℤ o +ℤ c), eq_of_parts u.total_tokens (i +ℤ o +ℤ c))
token_usage-IsUsage i o (some c) (some r) given u h =
    ground (arith, eq_of_parts u.total_tokens (i +ℤ o +ℤ c +ℤ r))

abbrev pub plus : ℤ → Option ℤ → ℤ
plus n none = n
plus n (some k) = n +ℤ k

abbrev pub usage_of : ℤ → ℤ → Option ℤ → Option ℤ → TokenUsage
usage_of i o c r = record {
  input_tokens = i;
  output_tokens = o;
  cache_creation_input_tokens = c;
  cache_read_input_tokens = r;
  total_tokens = plus (plus (i +ℤ o) c) r;
}

-- Without a given total, the construction is refused only for a negative count.
pub token_usage_total :
    (i o : ℤ) (c r : Option ℤ)
    → pos 0 ≤ℤ i
    → pos 0 ≤ℤ o
    → pos 0 ≤ℤ count c
    → pos 0 ≤ℤ count r
    → token_usage i o c r none ≡ ok (usage_of i o c r)
unfolding token_usage
token_usage_total i o none none hi ho hc hr = ground arith
token_usage_total i o none (some r) hi ho hc hr = ground arith
token_usage_total i o (some c) none hi ho hc hr = ground arith
token_usage_total i o (some c) (some r) hi ho hc hr = ground arith

pub runtime_failure_lem :
    {Cost : Type 0} (c : FailureCategory)
    → (f : RuntimeResult Cost) × (runtime_failure c ≡ ok f)
      × (f.output_artifact ≡ none)
      × (f.failure ≡ some (record { category = c; message = failure_message c }))
unfolding runtime_failure
runtime_failure_lem c = (_, refl, refl, refl)
