-- ===== src/Proxy/Handle.antt =====
-- `ModelProxy.handle`: one request, from its guards to the answer. The part under the session's
-- lock is a chain of stages, each with the session that it has written so far.
use se_skills.Prelude.{ℕ, ◌+◌, ◌-◌, String, Option, none, some, leb, max, min, if◌then◌else◌}
use text.Mathlib.Text.{starts_with}
use se_skills.Prelude.Dict.{insert}
use se_skills.Prelude.Text.{rstrip_slash}
use se_skills.Prelude.Result.{Result, ok, raised, value_error, attribute_error, unicode_error}
use se_skills.Json.{Json, obj, Fields, get}
use se_skills.Contract.Result.{timeout}
use se_skills.Proxy.State.{ProxyConfig, ProxyCapability, ProxySession, Sessions, MessageRequest}
use se_skills.Proxy.Library.{Library, Loaded, value, malformed, undecodable}
use se_skills.Proxy.Check.{Check, pass, refuse, fails, Response, error_response, reply}
use se_skills.Proxy.Ledger.{ensure_session}
use se_skills.Proxy.Stream.{Race, upstream_with_cancel}
use se_skills.Proxy.Request.{Request, screen, bind_identity, check_request}
use se_skills.Proxy.Account.{usage_fields, add_usage, redact_response}

-- What one call finds: the second at which the token is checked, the two times at which the
-- deadline is, and the race of the upstream call.
pub record Moment : Type 0 where
  pub token_time : ℕ
  pub deadline_time : ℕ
  pub stream_time : ℕ
  pub race : Race

-- The request that goes upstream, with the headers of `_build_upstream_headers`.
pub record Upstream (Rest : Type 0) : Type 0 where
  pub url : String
  pub api_key : String
  pub api_version : String
  pub read_timeout : ℕ
  pub request : MessageRequest Rest

-- The session after the call, the answer or the exception, and what was sent upstream.
pub record Outcome (Rest : Type 0) : Type 0 where
  pub session : ProxySession
  pub response : Result Response
  pub forwarded : Option (Upstream Rest)

-- Go on with a value that passed its check, or stop with the session as it is.
abbrev pub continue :
    {Rest A : Type 0}
    → Check A
    → ProxySession
    → Option (Upstream Rest)
    → (A → Outcome Rest)
    → Outcome Rest
continue (pass a) s sent next = next a
continue (refuse status category) s sent next = record {
  session = s;
  response = ok (error_response status category);
  forwarded = sent;
}
continue (fails e) s sent next = record { session = s; response = raised e; forwarded = sent }

-- `model`, `request_count` and the answer, after the usage was added.
unfoldable pub answer :
    {Rest : Type 0}
    → ProxyCapability
    → Fields
    → Option (Upstream Rest)
    → ProxySession × Result (Unit {0})
    → Outcome Rest
unfolding redact_response
answer c d sent (s, raised e) = record { session = s; response = raised e; forwarded = sent }
answer c d sent (s, ok _) = record {
  session = record s { model = c.model; request_count = s.request_count + 1 };
  response = ok (reply (redact_response d));
  forwarded = sent;
}

abbrev pub after_usage :
    {Rest : Type 0}
    → ProxyCapability
    → Fields
    → Option (Upstream Rest)
    → ProxySession
    → Result Fields
    → Outcome Rest
after_usage c d sent s (ok u) = answer c d sent (add_usage u s)
after_usage c d sent s (raised e) = record { session = s; response = raised e; forwarded = sent }

-- What is done with the decoded answer of the provider.
unfoldable pub settle :
    {Rest : Type 0}
    → ProxyCapability
    → Option (Upstream Rest)
    → ProxySession
    → Loaded
    → Outcome Rest
unfolding answer add_usage usage_fields
settle c sent s malformed = record {
  session = s;
  response = ok (error_response 502 "upstream_error");
  forwarded = sent;
}
settle c sent s undecodable = record {
  session = s;
  response = raised unicode_error;
  forwarded = sent;
}
settle c sent s (value (obj d)) = after_usage c d sent s (usage_fields (get "usage" d))
settle c sent s (value j) = record {
  session = s;
  response = raised attribute_error;
  forwarded = sent;
}

module _ (lib : Library) where
  open lib use {Cost, Rest, loads, fromisoformat}

  -- The upstream call, and the answer read from it.
  unfoldable pub forward :
      ProxyConfig Cost
      → ProxyCapability
      → ℕ
      → Moment
      → MessageRequest Rest
      → ProxySession
      → Outcome Rest
  unfolding upstream_with_cancel settle
  forward cfg c deadline m q s =
      let sent = some (record {
        url = c.endpoint;
        api_key = cfg.anthropic_api_key;
        api_version = cfg.anthropic_api_version;
        read_timeout =
            max cfg.min_upstream_timeout
              (min (deadline - m.deadline_time) cfg.max_upstream_timeout);
        request = record q { model = some c.model };
      }) in
      let (s', got) = upstream_with_cancel cfg.max_response_bytes deadline m.stream_time m.race s in
      continue got s' sent (λ bytes. settle c sent s' (loads bytes))

  -- The deadline and the endpoint.
  unfoldable pub dispatch :
      ProxyConfig Cost
      → ProxyCapability
      → Moment
      → MessageRequest Rest
      → ProxySession
      → Outcome Rest
  unfolding forward
  dispatch cfg c m q s = elim (fromisoformat c.deadline) [
    | none ↦ record { session = s; response = raised value_error; forwarded = none }
    | some deadline ↦
        if leb deadline m.deadline_time
        then record {
          session = record s { terminal_category = some timeout };
          response = ok (error_response 410 "deadline_expired");
          forwarded = none;
        }
        else if starts_with c.endpoint (rstrip_slash cfg.anthropic_api_url)
        then forward cfg c deadline m q s
        else record {
          session = s;
          response = ok (error_response 403 "endpoint_mismatch");
          forwarded = none;
        }
  ]

  -- `async with session.lock`: the sequence number is spent before the body is checked.
  unfoldable pub locked :
      ProxyConfig Cost → ProxyCapability → Json → Moment → Request → ProxySession → Outcome Rest
  unfolding dispatch bind_identity check_request
  locked cfg c payload m r s = continue (bind_identity s c r) s none λ _.
      let s' = record s { next_seq = s.next_seq + 1 } in
      continue (check_request lib cfg c payload) s' none λ q. dispatch cfg c m q s'

  -- The whole handler over the ledger.
  pub record Handled : Type 0 where
    pub sessions : Sessions
    pub response : Result Response
    pub forwarded : Option (Upstream Rest)

  abbrev pub enter :
      ProxyConfig Cost → Sessions → Moment → Request → Check (Json × ProxyCapability) → Handled
  enter cfg sessions m r (refuse status category) = record {
    sessions = sessions;
    response = ok (error_response status category);
    forwarded = none;
  }
  enter cfg sessions m r (fails e) = record {
    sessions = sessions;
    response = raised e;
    forwarded = none;
  }
  enter cfg sessions m r (pass (payload, c)) =
      let s = ensure_session c sessions in
      let o = locked cfg c payload m r s in
      record {
        sessions = insert c.jti o.session sessions;
        response = o.response;
        forwarded = o.forwarded;
      }

  unfoldable pub handle : ProxyConfig Cost → Sessions → Moment → Request → Handled
  unfolding screen locked ensure_session
  handle cfg sessions m r = enter cfg sessions m r (screen lib cfg m.token_time r)
