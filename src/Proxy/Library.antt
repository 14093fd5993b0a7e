-- ===== src/Proxy/Library.antt =====
-- What the proxy calls and does not implement: the token library, the JSON decoder, the request
-- models' field parsing, the hash, the calendar, and float arithmetic.
use se_skills.Prelude.{ℕ, String, Option, List}
use se_skills.Prelude.Int.{ℤ}
use se_skills.Json.{Json}
use se_skills.Proxy.State.{ProxyCapability, MessageRequest}

-- `jwt.decode`: the claims, `ExpiredSignatureError`, or another `InvalidTokenError`.
pub data Decoded : Type 0 where
  claims : Json → Decoded
  expired : Decoded
  invalid : Decoded

-- `json.loads` of bytes: a value, `JSONDecodeError`, or `UnicodeDecodeError`.
pub data Loaded : Type 0 where
  value : Json → Loaded
  malformed : Loaded
  undecodable : Loaded

pub record Library : Type 1 where
  pub Cost : Type 0
  pub Rest : Type 0
  -- float arithmetic
  pub of_int : ℤ → Cost
  pub add : Cost → Cost → Cost
  pub mul : Cost → Cost → Cost
  pub div : Cost → Cost → Cost
  -- jwt.encode(claims, secret), jwt.decode(token, secret) at a second with the leeway
  pub encode : Json → String → String
  pub decode : String → String → ℕ → Decoded
  -- json.loads
  pub loads : List ℕ → Loaded
  -- the fields of ProxyCapability and of ProxyMessageRequest; `none` is a ValidationError
  pub capability_fields : Json → Option ProxyCapability
  pub request_fields : Json → Option (MessageRequest Rest)
  -- hashlib.sha256(text).hexdigest()[:32]
  pub digest : String → String
  -- datetime.isoformat and datetime.fromisoformat (with a time zone); `none` is a ValueError
  pub isoformat : ℕ → String
  pub fromisoformat : String → Option ℕ
