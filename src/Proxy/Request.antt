-- ===== src/Proxy/Request.antt =====
-- The guards of `ModelProxy.handle`, in its order: those before the session's lock is taken, the
-- binding of the request to the session, and the checks of the request's body.
use se_skills.Prelude.{
  ℕ, String, Bool, true, false, not, ◌&&◌, Option, none, some, List, [], ◌∷◌, ◌==◌, ltb, eqb,
  length, is_some, is_empty, contains, if◌then◌else◌,
}
use text.Mathlib.Text.{find?}
use Prim.Native.Char.{code}
use se_skills.Prelude.Int.{ℤ, pos, negsuc, eqb_ℤ, ltb_ℤ}
use se_skills.Prelude.Dict.{Dict, lookup}
use se_skills.Prelude.Text.{strip, drop, lower_ascii, int_of_text}
use se_skills.Prelude.Result.{unicode_error}
use se_skills.Json.{Json, obj, end}
use se_skills.Proxy.State.{ProxyConfig, ProxyCapability, ProxySession, ProxyTool, MessageRequest}
use se_skills.Proxy.Library.{Library, claims, expired, invalid, value, malformed, undecodable}
use se_skills.Proxy.Check.{Check, pass, refuse, fails, ◌>>=◌, ◌>>◌, require}

-- An `httpx.Request`; the names of headers are in lower case.
pub record Request : Type 0 where
  pub method : String
  pub path : String
  pub headers : Dict String
  pub content : List ℕ

abbrev pub header_or : Request → String → String → String
header_or r name default = elim (lookup name r.headers) [ none ↦ default | some v ↦ v ]

-- text.lower().startswith(prefix), for a lower-case prefix of ASCII letters
unfoldable pub starts_with_lower : String → String → Bool
unfolding lower_ascii
starts_with_lower s String.[] = true
starts_with_lower String.[] (String.◌∷◌ d p) = false
starts_with_lower (String.◌∷◌ c s) (String.◌∷◌ d p) =
    eqb (lower_ascii (code c)) (code d) && starts_with_lower s p

-- `ProxyCapability._positive_attempt`
unfoldable pub positive_attempt : Option ProxyCapability → Check ProxyCapability
positive_attempt none = refuse 401 "malformed_capability"
positive_attempt (some c) =
    if ltb_ℤ c.attempt_number (pos 1) then refuse 401 "malformed_capability" else pass c

-- `headers.get("x-attempt-number") or 0`, as an `int`
unfoldable pub attempt_header : Option String → Option ℤ
attempt_header none = some (pos 0)
attempt_header (some s) = if s == "" then some (pos 0) else int_of_text s

-- `int(seq_str) if seq_str is not None else -1`
unfoldable pub seq_header : Option String → Option ℤ
seq_header none = some (negsuc 0)
seq_header (some s) = int_of_text s

abbrev pub is_int : Option ℤ → ℤ → Bool
is_int none n = false
is_int (some m) n = eqb_ℤ m n

abbrev pub is_text : Option String → String → Bool
is_text none t = false
is_text (some s) t = s == t

unfoldable pub bind_identity : ProxySession → ProxyCapability → Request → Check (Unit {0})
unfolding attempt_header seq_header
bind_identity s c r = do
  require (not s.cancelled) 499 "session_cancelled"
  require (is_text (lookup "x-job-id" r.headers) c.job_id) 403 "job_mismatch"
  require (is_int (attempt_header (lookup "x-attempt-number" r.headers)) c.attempt_number) 403
      "attempt_mismatch"
  require (is_text (lookup "x-attempt-id" r.headers) c.attempt_id) 403 "attempt_id_mismatch"
  require (is_some (seq_header (lookup "x-request-seq" r.headers))) 400 "invalid_request_sequence"
  require (is_int (seq_header (lookup "x-request-seq" r.headers)) (pos s.next_seq)) 403
      "sequence_mismatch"

-- `for tool in req.tools: if tool.name not in allowed_tools: …`
unfoldable pub tools_allowed : List String → List ProxyTool → Bool
tools_allowed allowed [] = true
tools_allowed allowed (t ∷ ts) = contains t.name allowed && tools_allowed allowed ts

module _ (lib : Library) where
  open lib use {Cost, Rest, decode, loads, capability_fields, request_fields}

  -- `json.loads(body) if body else {}`
  unfoldable pub parse_body : List ℕ → Check Json
  parse_body [] = pass (obj end)
  parse_body (b ∷ bs) = elim (loads (b ∷ bs)) [
    | value j ↦ pass j
    | malformed ↦ refuse 400 "invalid_json"
    | undecodable ↦ fails unicode_error
  ]

  -- `_decode_token`, with the status and category that `handle` answers
  unfoldable pub decode_token : ProxyConfig Cost → ℕ → String → Check ProxyCapability
  unfolding positive_attempt
  decode_token cfg now token = elim (decode cfg.secret token now) [
    | expired ↦ refuse 401 "capability_expired"
    | invalid ↦ refuse 401 "invalid_capability"
    | claims j ↦ positive_attempt (capability_fields j)
  ]

  -- The guards before the lock; `now` is the second at which the token is checked.
  unfoldable pub screen : ProxyConfig Cost → ℕ → Request → Check (Json × ProxyCapability)
  unfolding parse_body decode_token starts_with_lower
  screen cfg now r = do
    require (r.method == "POST") 405 "method_not_allowed"
    require (r.path == "/v1/messages") 404 "route_not_found"
    require (is_some (find? (header_or r "content-type" "") "application/json")) 415
        "unsupported_media_type"
    require (not (ltb cfg.max_body_bytes (length r.content))) 413 "request_too_large"
    payload ← parse_body r.content
    require (starts_with_lower (header_or r "authorization" "") "bearer ") 401 "missing_capability"
    c ← decode_token cfg now (strip (drop 7 (header_or r "authorization" "")))
    pass (payload, c)

  -- `ProxyMessageRequest.model_validate(payload)`
  unfoldable pub request_shape : Json → Check (MessageRequest Rest)
  request_shape payload = elim (request_fields payload) [
    | none ↦ refuse 400 "invalid_request_shape"
    | some q ↦ pass q
  ]

  unfoldable pub check_request :
      ProxyConfig Cost → ProxyCapability → Json → Check (MessageRequest Rest)
  unfolding request_shape tools_allowed
  check_request cfg c payload = do
    q ← request_shape payload
    require (not (ltb cfg.max_tokens q.max_tokens)) 400 "max_tokens_exceeded"
    require (elim q.stream [ none ↦ true | some b ↦ not b ]) 400 "streaming_not_allowed"
    require (not (is_empty q.messages)) 400 "missing_messages"
    require (elim q.model [ none ↦ true | some m ↦ m == c.model ]) 403 "model_mismatch"
    require (elim q.tools [ none ↦ true | some ts ↦ tools_allowed c.allowed_tools ts ]) 403
        "forbidden_tool"
    pass q
