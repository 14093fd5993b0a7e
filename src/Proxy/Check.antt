-- ===== src/Proxy/Check.antt =====
-- A run of guards: it passes, answers the request with an error response, or raises.
use se_skills.Prelude.{ℕ, String, Bool, true, false}
use se_skills.Prelude.Result.{Exception}
use se_skills.Json.{Fields}

-- An `httpx.Response`: `_error_response(status, category)`, or status 200 with a JSON object.
pub data Response : Type 0 where
  error_response : ℕ → String → Response
  reply : Fields → Response

pub data Check {ℓ} (A : Type ℓ) : Type ℓ where
  pass : A → Check A
  refuse : ℕ → String → Check A
  fails : Exception → Check A

infixl 10 ◌>>=◌ ◌>>◌
abbrev pub ◌>>=◌ {ℓ κ} : {A : Type ℓ} {B : Type κ} → Check A → (A → Check B) → Check B
pass a >>= f = f a
refuse status category >>= f = refuse status category
fails e >>= f = fails e

abbrev pub ◌>>◌ {ℓ} : {B : Type ℓ} → Check (Unit {0}) → Check B → Check B
m >> k = m >>= λ _. k

-- `if not test: return _error_response(status, category)`
abbrev pub require : Bool → ℕ → String → Check (Unit {0})
require true status category = pass tt
require false status category = refuse status category
