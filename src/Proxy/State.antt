-- ===== src/Proxy/State.antt =====
-- The proxy's data: configuration, capability claims, and the ledger of sessions. The lock of a
-- session makes the body of `handle` one step, so it needs no field; the cancel event is a flag.
use se_skills.Prelude.{ℕ, String, Bool, false, Option, none, List}
use se_skills.Prelude.Int.{ℤ, pos}
use se_skills.Prelude.Dict.{Dict}
use se_skills.Contract.Result.{FailureCategory}

-- `Cost` is the type of the floats; a timeout is a number of microseconds.
pub record ProxyConfig (Cost : Type 0) : Type 0 where
  pub secret : String
  pub anthropic_api_key : String
  pub anthropic_api_url : String
  pub anthropic_api_version : String
  pub max_body_bytes : ℕ
  pub max_response_bytes : ℕ
  pub max_upstream_timeout : ℕ
  pub min_upstream_timeout : ℕ
  pub max_tokens : ℕ
  pub cost_per_1k_input : Cost
  pub cost_per_1k_output : Cost

pub record ProxyCapability : Type 0 where
  pub jti : String
  pub job_id : String
  pub attempt_number : ℤ
  pub attempt_id : String
  pub model : String
  pub deadline : String
  pub endpoint : String
  pub api_version : String
  pub allowed_tools : List String

pub record ProxySession : Type 0 where
  pub jti : String
  pub attempt_id : String
  pub job_id : String
  pub attempt_number : ℤ
  pub model : String
  pub deadline : String
  pub endpoint : String
  pub api_version : String
  pub allowed_tools : List String
  pub next_seq : ℕ
  pub input_tokens : ℤ
  pub output_tokens : ℤ
  pub cache_creation : ℤ
  pub cache_read : ℤ
  pub request_count : ℕ
  pub terminal_category : Option FailureCategory
  pub cancelled : Bool

-- `_ProxySession.__init__`, from the claims that name its fields.
unfoldable pub new_session : ProxyCapability → ProxySession
new_session c = record {
  jti = c.jti;
  attempt_id = c.attempt_id;
  job_id = c.job_id;
  attempt_number = c.attempt_number;
  model = c.model;
  deadline = c.deadline;
  endpoint = c.endpoint;
  api_version = c.api_version;
  allowed_tools = c.allowed_tools;
  next_seq = 1;
  input_tokens = pos 0;
  output_tokens = pos 0;
  cache_creation = pos 0;
  cache_read = pos 0;
  request_count = 0;
  terminal_category = none;
  cancelled = false;
}

-- `self._sessions`
abbrev pub Sessions : Type 0
Sessions = Dict ProxySession

pub record Message : Type 0 where
  pub role : String
  pub content : String

pub record ProxyTool : Type 0 where
  pub name : String
  pub description : String

-- `ProxyMessageRequest`: the fields that the proxy reads. `rest` stands for those that it passes on.
pub record MessageRequest (Rest : Type 0) : Type 0 where
  pub model : Option String
  pub max_tokens : ℕ
  pub messages : List Message
  pub tools : Option (List ProxyTool)
  pub stream : Option Bool
  pub rest : Rest
