-- ===== src/Agent/Usage.antt =====
-- The usage of a successful result, and the totals of the loop.
use se_skills.Prelude.{◌≡◌, ◌∙◌, ap, Option, some, none, arith}
use se_skills.Prelude.Int.{ℤ, pos, negsuc}
use se_skills.Prelude.Result.{ok}
use se_skills.Contract.Result.{token_usage, TokenUsage}
use se_skills.Contract.Validity.{IsUsage, token_usage-IsUsage, count}
use se_skills.Agent.Collect.{TokenTotals, or_none}

-- A usage that counts the totals.
pub record Counts (t : TokenTotals) (u : TokenUsage) : Type 0 where
  pub same_input : u.input_tokens ≡ t.input
  pub same_output : u.output_tokens ≡ t.output
  pub same_creation : count u.cache_creation_input_tokens ≡ t.creation
  pub same_read : count u.cache_read_input_tokens ≡ t.read
  pub valid : IsUsage u

pub or_none-count : (n : ℤ) → count (or_none n) ≡ n
unfolding or_none
or_none-count (pos n) = ground (arith)
or_none-count (negsuc n) = ground (arith)

pub token_usage-fields :
    (i o : ℤ) (c r given : Option ℤ) (u : TokenUsage)
    → token_usage i o c r given ≡ ok u
    → (u.input_tokens ≡ i)
      × (u.output_tokens ≡ o)
      × (u.cache_creation_input_tokens ≡ c)
      × (u.cache_read_input_tokens ≡ r)
unfolding token_usage
token_usage-fields i o none none given u h = ground arith
token_usage-fields i o none (some r) given u h = ground arith
token_usage-fields i o (some c) none given u h = ground arith
token_usage-fields i o (some c) (some r) given u h = ground arith

pub token_usage-Counts :
    (t : TokenTotals) (u : TokenUsage)
    → token_usage t.input t.output (or_none t.creation) (or_none t.read) none ≡ ok u
    → Counts t u
token_usage-Counts t u h =
    let (i, o, c, r) = token_usage-fields _ _ _ _ _ u h in
    record {
      same_input = i;
      same_output = o;
      same_creation = ap count c ∙ or_none-count t.creation;
      same_read = ap count r ∙ or_none-count t.read;
      valid = token_usage-IsUsage _ _ _ _ _ u h;
    }
