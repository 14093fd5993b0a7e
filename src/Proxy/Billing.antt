-- ===== src/Proxy/Billing.antt =====
-- The usage ledger: what a call adds to a session, and what the answer to the sandbox shows.
use se_skills.Prelude.{
  ℕ, ◌+◌, ◌≡◌, refl, ap, sym, ◌∙◌, String, false, Option, none, some, ◌==◌, arith, Option-cases,
  eq_refl, inl, inr,
}
use se_skills.Prelude.Int.{pos}
use se_skills.Prelude.Result.{Result, ok, raised}
use se_skills.Prelude.Dict.{lookup, lookup-insert}
use se_skills.Json.{Json, obj, Fields, get}
use se_skills.Proxy.State.{ProxyConfig, ProxyCapability, ProxySession, MessageRequest, Sessions}
use se_skills.Proxy.Library.{Library, Loaded, value, malformed, undecodable}
use se_skills.Proxy.Check.{Check, pass, refuse, fails, Response, error_response, reply}
use se_skills.Proxy.Account.{usage_fields, add_usage, redact_response}
use se_skills.Proxy.Stream.{Race, upstream_with_cancel}
use se_skills.Proxy.Request.{Request, bind_identity, check_request, screen}
use se_skills.Proxy.Ledger.{ensure_session}
use se_skills.Proxy.Handle.{
  Moment, Upstream, Outcome, continue, answer, after_usage, settle, forward, dispatch, locked,
  handle,
}
use se_skills.Proxy.Totals.{
  get-redact_response, Totals, totals, with_usage, add_usage-totals, usage_or_empty,
}

-- The totals after an answer: an error response adds nothing, a reply adds the usage that it shows.
unfoldable pub bill : Response → Totals → Totals
unfolding usage_or_empty usage_fields with_usage
bill (error_response status category) t = t
bill (reply d) t = with_usage (usage_or_empty (usage_fields (get "usage" d))) t

pub record Bills {Rest : Type 0} (s : ProxySession) (o : Outcome Rest) : Type 0 where
  pub at : (r : Response) → o.response ≡ ok r → totals o.session ≡ bill r (totals s)

bill-redact_response :
    (d u : Fields) (t : Totals)
    → usage_fields (get "usage" d) ≡ ok u
    → bill (reply (redact_response d)) t ≡ with_usage u t
unfolding bill
bill-redact_response d u t read = rw (bill, get-redact_response "usage" d, read)

reply-injective : {r : Response} {q : Response} → ok q ≡ ok r → q ≡ r
reply-injective e = cc

answer-Bills :
    {Rest : Type 0} (c : ProxyCapability) (d : Fields) (sent : Option (Upstream Rest))
    (s : ProxySession) (u : Fields) (p : ProxySession × Result (Unit {0}))
    → usage_fields (get "usage" d) ≡ ok u
    → (p.1 ≡ ok tt
        → totals (record p.0 { request_count = p.0.request_count + 1 }) ≡ with_usage u (totals s))
    → Bills s (answer c d sent p)
unfolding answer
answer-Bills c d sent s u (t, ok _) read h = record {
  at = λ r e.
      h refl
      ∙ sym (bill-redact_response d u (totals s) read)
      ∙ ap (λ (x : Response). bill x (totals s)) (reply-injective e);
}
answer-Bills c d sent s u (t, raised x) read h = record { at = λ r e. cc }

after_usage-Bills :
    {Rest : Type 0} (c : ProxyCapability) (d : Fields) (sent : Option (Upstream Rest))
    (s : ProxySession) (u : Result Fields)
    → usage_fields (get "usage" d) ≡ u
    → Bills s (after_usage c d sent s u)
after_usage-Bills c d sent s (ok u) read =
    answer-Bills c d sent s u (add_usage u s) read (add_usage-totals u s)
after_usage-Bills c d sent s (raised x) read = record { at = λ r e. cc }

settle-Bills :
    {Rest : Type 0} (c : ProxyCapability) (sent : Option (Upstream Rest)) (s : ProxySession)
    (l : Loaded)
    → Bills s (settle c sent s l)
unfolding settle bill
settle-Bills c sent s (value (obj d)) =
    after_usage-Bills c d sent s (usage_fields (get "usage" d)) refl
settle-Bills c sent s (value j) = record { at = λ r e. cc }
settle-Bills c sent s malformed = record { at = λ r e. ground arith }
settle-Bills c sent s undecodable = record { at = λ r e. cc }

no-Bills :
    {Rest : Type 0} (s t : ProxySession) (status : ℕ) (category : String)
    (sent : Option (Upstream Rest))
    → totals t ≡ totals s
    → Bills s
        (record { session = t; response = ok (error_response status category); forwarded = sent })
unfolding bill
no-Bills s t status category sent h = record { at = λ r e. ground arith }

continue-Bills :
    {Rest A : Type 0} (k : Check A) (s t : ProxySession) (sent : Option (Upstream Rest))
    (next : A → Outcome Rest)
    → totals t ≡ totals s
    → ((a : A) → Bills t (next a))
    → Bills s (continue k t sent next)
continue-Bills (pass a) s t sent next h k = record { at = λ r e. (k a).at r e ∙ ap (bill r) h }
continue-Bills (refuse status category) s t sent next h k = no-Bills s t status category sent h
continue-Bills (fails x) s t sent next h k = record { at = λ r e. cc }

upstream-totals :
    (limit deadline now : ℕ) (race : Race) (s : ProxySession)
    → totals (upstream_with_cancel limit deadline now race s).0 ≡ totals s
unfolding upstream_with_cancel
upstream-totals limit deadline now race s = ground arith

-- The totals under an identifier; one that has no session has used nothing.
abbrev pub session_totals : Option ProxySession → Totals
session_totals none = record {
  input = pos 0;
  output = pos 0;
  creation = pos 0;
  read = pos 0;
  requests = 0;
}
session_totals (some s) = totals s

module _ (lib : Library) where
  open lib use {Cost, Rest, fromisoformat}

  forward-Bills :
      (cfg : ProxyConfig Cost) (c : ProxyCapability) (deadline : ℕ) (m : Moment)
      (q : MessageRequest Rest) (s : ProxySession)
      → Bills s (forward lib cfg c deadline m q s)
  unfolding forward
  forward-Bills cfg c deadline m q s =
      let (t, got) = upstream_with_cancel cfg.max_response_bytes deadline m.stream_time m.race s in
      continue-Bills got s t _ (λ bytes. settle c _ t (lib.loads bytes))
        (upstream-totals cfg.max_response_bytes deadline m.stream_time m.race s)
        (λ bytes. settle-Bills c _ t (lib.loads bytes))

  dispatch-Bills :
      (cfg : ProxyConfig Cost) (c : ProxyCapability) (m : Moment) (q : MessageRequest Rest)
      (s : ProxySession)
      → Bills s (dispatch lib cfg c m q s)
  unfolding dispatch bill
  dispatch-Bills cfg c m q s = elim (Option-cases (fromisoformat c.deadline)) [
    | inl never ↦ record { at = λ r e. ground arith }
    | inr (d, read) ↦ record { at = λ r e. ground (arith, (forward-Bills cfg c d m q s).at r) }
  ]

  pub locked-Bills :
      (cfg : ProxyConfig Cost) (c : ProxyCapability) (payload : Json) (m : Moment) (r : Request)
      (s : ProxySession)
      → Bills s (locked lib cfg c payload m r s)
  unfolding locked
  locked-Bills cfg c payload m r s =
      let next = record s { next_seq = s.next_seq + 1 } in
      continue-Bills (bind_identity s c r) s s _ _ refl λ _.
        continue-Bills (check_request lib cfg c payload) s next _ _ refl
          λ q. dispatch-Bills cfg c m q next

  ensure_session-totals :
      (c : ProxyCapability) (sessions : Sessions)
      → totals (ensure_session c sessions) ≡ session_totals (lookup c.jti sessions)
  unfolding ensure_session
  ensure_session-totals c sessions = ground arith

  -- An answered request changes the ledger only under the identifier of its token. There an error
  -- response adds nothing to the usage totals or the request count, and a reply adds one request
  -- and the usage that the sandbox reads in that very reply.
  pub handle_bills :
      (cfg : ProxyConfig Cost) (sessions : Sessions) (m : Moment) (r : Request) (payload : Json)
      (c : ProxyCapability) (answered : Response)
      → screen lib cfg m.token_time r ≡ pass (payload, c)
      → (handle lib cfg sessions m r).response ≡ ok answered
      → (session_totals (lookup c.jti (handle lib cfg sessions m r).sessions)
          ≡ bill answered (session_totals (lookup c.jti sessions)))
        × ((j : String)
            → (c.jti == j) ≡ false
            → lookup j (handle lib cfg sessions m r).sessions ≡ lookup j sessions)
  unfolding handle
  handle_bills cfg sessions m r payload c answered screened =
      rw (screened, handle)
        λ response.
          let s = ensure_session c sessions in
          (
            rw (lookup-insert, eq_refl)
                ((locked-Bills cfg c payload m r s).at answered response
                  ∙ ap (bill answered) (ensure_session-totals c sessions)),
            λ j other. rw (lookup-insert, other),
          )
