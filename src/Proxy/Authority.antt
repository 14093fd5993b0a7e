-- ===== src/Proxy/Authority.antt =====
-- What a request has passed when `handle` sends it upstream, and what is sent.
use Prim.Native.Nat.{ℕ}
use text.Mathlib.Text.{starts_with}
use se_skills.Prelude.{
  String, eq_iff, ◌+◌, ◌≤◌, ◌<◌, ◌≡◌, ◌≢◌, refl, true, false, Option, none, some, arith, is_empty,
  Option-cases, inl, inr, max, min, ◌-◌,
}
use se_skills.Prelude.Text.{rstrip_slash}
use se_skills.Prelude.Result.{Result, ok, raised}
use se_skills.Json.{Json, obj, Fields, get}
use se_skills.Proxy.State.{ProxyConfig, ProxyCapability, ProxySession, MessageRequest, Sessions}
use se_skills.Proxy.Library.{Library, Loaded, value, malformed, undecodable}
use se_skills.Proxy.Account.{add_usage, usage_fields}
use se_skills.Proxy.Check.{Check, pass, refuse, fails}
use se_skills.Proxy.Ledger.{ensure_session}
use se_skills.Proxy.Request.{Request, bind_identity, request_shape, check_request, screen}
use se_skills.Proxy.Stream.{upstream_with_cancel}
use se_skills.Proxy.Handle.{
  Moment, Upstream, Outcome, continue, dispatch, forward, locked, handle, enter, settle, answer,
  after_usage,
}
use se_skills.Proxy.Binding.{IsBound, bind_identity-IsBound, ToolsWithin, tools-ToolsWithin}
use se_skills.Proxy.Screened.{IsScreened, screen-IsScreened}

-- Whatever comes back, what was sent stays in the outcome.
forwarded-answer :
    {Rest : Type 0} (c : ProxyCapability) (d : Fields) (sent : Option (Upstream Rest))
    (p : ProxySession × Result (Unit {0}))
    → (answer c d sent p).forwarded ≡ sent
unfolding answer
forwarded-answer c d sent (s, ok _) = refl
forwarded-answer c d sent (s, raised e) = refl

forwarded-after_usage :
    {Rest : Type 0} (c : ProxyCapability) (d : Fields) (sent : Option (Upstream Rest))
    (s : ProxySession) (u : Result Fields)
    → (after_usage c d sent s u).forwarded ≡ sent
forwarded-after_usage c d sent s (ok u) = forwarded-answer c d sent (add_usage u s)
forwarded-after_usage c d sent s (raised e) = refl

forwarded-settle :
    {Rest : Type 0} (c : ProxyCapability) (sent : Option (Upstream Rest)) (s : ProxySession)
    (l : Loaded)
    → (settle c sent s l).forwarded ≡ sent
unfolding settle
forwarded-settle c sent s (value (obj d)) =
    forwarded-after_usage c d sent s (usage_fields (get "usage" d))
forwarded-settle c sent s (value j) = refl
forwarded-settle c sent s malformed = refl
forwarded-settle c sent s undecodable = refl

forwarded-continue :
    {Rest A : Type 0} (k : Check A) (s : ProxySession) (sent : Option (Upstream Rest))
    (next : A → Outcome Rest)
    → ((a : A) → (next a).forwarded ≡ sent)
    → (continue k s sent next).forwarded ≡ sent
forwarded-continue (pass a) s sent next h = h a
forwarded-continue (refuse status category) s sent next h = refl
forwarded-continue (fails e) s sent next h = refl

-- Where nothing was sent before a check, what is sent later shows that it passed.
passed-continue :
    {Rest A : Type 0} (k : Check A) (s : ProxySession) (next : A → Outcome Rest) (u : Upstream Rest)
    → (continue k s none next).forwarded ≡ some u
    → (a : A) × (k ≡ pass a) × ((next a).forwarded ≡ some u)
passed-continue (pass a) s next u h = (a, refl, h)
passed-continue (refuse status category) s next u h = cc
passed-continue (fails e) s next u h = cc

module _ (lib : Library) where
  open lib use {Cost, Rest, decode, loads, capability_fields, request_fields, fromisoformat}

  -- A body that passed: its shape, its size of answer, its messages, its model and its tools.
  pub record IsPermitted (cfg : ProxyConfig Cost) (c : ProxyCapability) (payload : Json)
      (q : MessageRequest Rest) : Type 0 where
    pub well_formed : request_fields payload ≡ some q
    pub bounded : q.max_tokens ≤ cfg.max_tokens
    pub not_streamed : q.stream ≢ some true
    pub has_messages : is_empty q.messages ≡ false
    pub model_of_token : (name : String) → q.model ≡ some name → name ≡ c.model
    pub tools_within : ToolsWithin c.allowed_tools q.tools

  request_shape-pass :
      (payload : Json) (q : MessageRequest Rest)
      → request_shape lib payload ≡ pass q
      → request_fields payload ≡ some q
  unfolding request_shape
  request_shape-pass payload q h = ground arith

  pub check_request-IsPermitted :
      (cfg : ProxyConfig Cost) (c : ProxyCapability) (payload : Json) (q : MessageRequest Rest)
      → check_request lib cfg c payload ≡ pass q
      → IsPermitted cfg c payload q
  unfolding check_request
  check_request-IsPermitted cfg c payload q h = record {
    well_formed = request_shape-pass payload q (ground arith);
    bounded = ground arith;
    not_streamed = λ e. ground arith;
    has_messages = ground arith;
    model_of_token = λ name e. ground (arith, eq_iff name c.model);
    tools_within = tools-ToolsWithin c.allowed_tools q.tools (ground arith);
  }

  -- What stands in the request that goes upstream.
  pub record IsConfined (cfg : ProxyConfig Cost) (c : ProxyCapability) (m : Moment)
      (q : MessageRequest Rest) (u : Upstream Rest) : Type 0 where
    pub url_of_token : u.url ≡ c.endpoint
    pub url_at_provider : starts_with u.url (rstrip_slash cfg.anthropic_api_url) ≡ true
    pub key_of_worker : u.api_key ≡ cfg.anthropic_api_key
    pub version_of_worker : u.api_version ≡ cfg.anthropic_api_version
    pub body_of_request : u.request ≡ record q { model = some c.model }
    pub in_time : (d : ℕ) × (fromisoformat c.deadline ≡ some d) × (m.deadline_time < d)

  forwarded-forward :
      (cfg : ProxyConfig Cost) (c : ProxyCapability) (deadline : ℕ) (m : Moment)
      (q : MessageRequest Rest) (s : ProxySession)
      → (forward lib cfg c deadline m q s).forwarded
        ≡ some (record {
          url = c.endpoint;
          api_key = cfg.anthropic_api_key;
          api_version = cfg.anthropic_api_version;
          read_timeout =
              max cfg.min_upstream_timeout
                (min (deadline - m.deadline_time) cfg.max_upstream_timeout);
          request = record q { model = some c.model };
        })
  unfolding forward
  forwarded-forward cfg c deadline m q s =
      let (s', got) = upstream_with_cancel cfg.max_response_bytes deadline m.stream_time m.race s in
      forwarded-continue got s' _ (λ bytes. settle c _ s' (lib.loads bytes))
        (λ bytes. forwarded-settle c _ s' (lib.loads bytes))

  dispatch-IsConfined :
      (cfg : ProxyConfig Cost) (c : ProxyCapability) (m : Moment) (q : MessageRequest Rest)
      (s : ProxySession) (u : Upstream Rest)
      → (dispatch lib cfg c m q s).forwarded ≡ some u
      → IsConfined cfg c m q u
  unfolding dispatch
  dispatch-IsConfined cfg c m q s u h = elim (Option-cases (fromisoformat c.deadline)) [
    | inl never ↦ ground arith
    | inr (d, read) ↦ record {
      url_of_token = ground (arith, forwarded-forward cfg c d m q s);
      url_at_provider = ground (arith, forwarded-forward cfg c d m q s);
      key_of_worker = ground (arith, forwarded-forward cfg c d m q s);
      version_of_worker = ground (arith, forwarded-forward cfg c d m q s);
      body_of_request = ground (arith, forwarded-forward cfg c d m q s);
      in_time = (d, read, ground (arith, forwarded-forward cfg c d m q s));
    }
  ]

  pub record IsAuthorized (cfg : ProxyConfig Cost) (c : ProxyCapability) (payload : Json)
      (m : Moment) (r : Request) (s : ProxySession) (u : Upstream Rest) : Type 0 where
    pub bound : IsBound s c r
    pub asked : MessageRequest Rest
    pub permitted : IsPermitted cfg c payload asked
    pub confined : IsConfined cfg c m asked u

  pub locked-IsAuthorized :
      (cfg : ProxyConfig Cost) (c : ProxyCapability) (payload : Json) (m : Moment) (r : Request)
      (s : ProxySession) (u : Upstream Rest)
      → (locked lib cfg c payload m r s).forwarded ≡ some u
      → IsAuthorized cfg c payload m r s u
  unfolding locked
  locked-IsAuthorized cfg c payload m r s u h =
      let (t, bound, h') = passed-continue (bind_identity s c r) s _ u h in
      let s' = record s { next_seq = s.next_seq + 1 } in
      let (q, permitted, h'') = passed-continue (check_request lib cfg c payload) s' _ u h' in
      record {
        bound = bind_identity-IsBound s c r bound;
        asked = q;
        permitted = check_request-IsPermitted cfg c payload q permitted;
        confined = dispatch-IsConfined cfg c m q s' u h'';
      }

  sent-enter :
      (cfg : ProxyConfig Cost) (sessions : Sessions) (m : Moment) (r : Request) (u : Upstream Rest)
      (k : Check (Json × ProxyCapability))
      → (enter lib cfg sessions m r k).forwarded ≡ some u
      → (payload : Json) × (c : ProxyCapability) × (k ≡ pass (payload, c))
        × IsAuthorized cfg c payload m r (ensure_session c sessions) u
  sent-enter cfg sessions m r u (refuse status category) h = cc
  sent-enter cfg sessions m r u (fails e) h = cc
  sent-enter cfg sessions m r u (pass (payload, c)) h =
      (payload, c, refl, locked-IsAuthorized cfg c payload m r (ensure_session c sessions) u h)

  -- A request that is sent upstream has passed every guard: it is a POST of JSON to the route, within
  -- the size, with a signed token that is not expired and names a positive attempt; it carries the
  -- token's identity, on a session that is not cancelled, with the next number; its body asks for no
  -- stream, at most the tokens of the configuration, no other model and no other tools than the
  -- token's, and has a message. What is sent goes to the endpoint of the token, at the provider's URL,
  -- before the token's deadline, with the key of the worker and the model of the token.
  pub handle-IsAuthorized :
      (cfg : ProxyConfig Cost) (sessions : Sessions) (m : Moment) (r : Request) (u : Upstream Rest)
      → (handle lib cfg sessions m r).forwarded ≡ some u
      → (payload : Json) × (c : ProxyCapability) × IsScreened lib cfg m.token_time r payload c
        × IsAuthorized cfg c payload m r (ensure_session c sessions) u
  unfolding handle
  handle-IsAuthorized cfg sessions m r u h =
      let (payload, c, screened, authorized) =
        sent-enter cfg sessions m r u (screen lib cfg m.token_time r) h in
      (payload, c, screen-IsScreened lib cfg m.token_time r payload c screened, authorized)
