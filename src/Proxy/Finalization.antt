-- ===== src/Proxy/Finalization.antt =====
-- What the worker reads of a session after the sandbox has ended, and what is left of it.
use se_skills.Prelude.{
  ◌≡◌, refl, sym, ◌∙◌, String, none, some, ◌==◌, eq_refl, arith, if◌then◌else◌, [], Option-cases,
  inl, inr,
}
use se_skills.Prelude.Int.{ℤ, pos, ◌+ℤ◌, ◌≤ℤ◌}
use se_skills.Prelude.Result.{ok}
use se_skills.Prelude.Dict.{lookup, without, lookup-without}
use se_skills.Json.{Json}
use se_skills.Contract.Result.{no_metadata}
use se_skills.Contract.Validity.{usage_of, token_usage_total, count}
use se_skills.Proxy.State.{ProxyConfig, ProxyCapability, ProxySession, Sessions, new_session}
use se_skills.Proxy.Library.{Library}
use se_skills.Proxy.Check.{pass}
use se_skills.Proxy.Ledger.{
  ensure_session, or_none, ProxyFinalization, metadata_for_session, consume_attempt_finalization,
}
use se_skills.Proxy.Request.{Request, screen}
use se_skills.Proxy.Handle.{Moment, handle}

pub record IsCounted (s : ProxySession) : Type 0 where
  pub input_nonneg : pos 0 ≤ℤ s.input_tokens
  pub output_nonneg : pos 0 ≤ℤ s.output_tokens
  pub creation_nonneg : pos 0 ≤ℤ s.cache_creation
  pub read_nonneg : pos 0 ≤ℤ s.cache_read

ensure_session-missing :
    (c : ProxyCapability) (sessions : Sessions)
    → lookup c.jti sessions ≡ none
    → ensure_session c sessions ≡ new_session c
unfolding ensure_session
ensure_session-missing c sessions missing = rw (ensure_session, missing)

or_none-nonneg : (n : ℤ) → pos 0 ≤ℤ n → pos 0 ≤ℤ count (or_none n)
unfolding or_none
or_none-nonneg n h = ground arith

module _ (lib : Library) (cfg : ProxyConfig lib.Cost) where
  open lib use {of_int, add, mul, div}

  -- The price of a session: its input and cached tokens, and its output tokens, by the thousand.
  unfoldable pub price : ProxySession → lib.Cost
  price s =
      add
        (div
          (mul (of_int (s.input_tokens +ℤ s.cache_creation +ℤ s.cache_read)) cfg.cost_per_1k_input)
          (of_int (pos 1000)))
        (div (mul (of_int s.output_tokens) cfg.cost_per_1k_output) (of_int (pos 1000)))

  abbrev pub finalization : ProxySession → ProxyFinalization lib
  finalization s = record {
    metadata = record {
      runtime_version = none;
      model = some s.model;
      token_usage =
          usage_of s.input_tokens s.output_tokens (or_none s.cache_creation) (or_none s.cache_read);
      cost = some (price s);
    };
    terminal_category = s.terminal_category;
  }

  abbrev pub empty_finalization : ProxyFinalization lib
  empty_finalization = record { metadata = no_metadata; terminal_category = none }

  metadata_for_session-ok :
      (s : ProxySession)
      → IsCounted s
      → metadata_for_session lib cfg (some s) ≡ ok (finalization s).metadata
  unfolding metadata_for_session price
  metadata_for_session-ok s counted = rw (
    metadata_for_session,
    token_usage_total s.input_tokens s.output_tokens (or_none s.cache_creation)
        (or_none s.cache_read) counted.input_nonneg counted.output_nonneg
        (or_none-nonneg s.cache_creation counted.creation_nonneg)
        (or_none-nonneg s.cache_read counted.read_nonneg),
  )

  consume-lookup :
      (j : String) (s : ProxySession) (sessions : Sessions)
      → lookup j sessions ≡ some s
      → IsCounted s
      → consume_attempt_finalization lib cfg (some j) sessions
        ≡ (without j sessions, ok (finalization s))
  unfolding consume_attempt_finalization
  consume-lookup j s sessions there counted =
      rw (there, consume_attempt_finalization, metadata_for_session-ok s counted)

  consume-missing :
      (j : String) (sessions : Sessions)
      → lookup j sessions ≡ none
      → consume_attempt_finalization lib cfg (some j) sessions ≡ (sessions, ok empty_finalization)
  unfolding consume_attempt_finalization
  consume-missing j sessions missing = rw (missing, consume_attempt_finalization)

  -- Finalization is given once. With counts that are not negative it holds the session's model,
  -- usage, price and terminal category, the usage total being the sum of all four counts. The
  -- session is gone after it, every other session is as it was, and a second call finds nothing.
  pub consume_once :
      (j : String) (s : ProxySession) (sessions : Sessions)
      → lookup j sessions ≡ some s
      → IsCounted s
      → let (after, got) = consume_attempt_finalization lib cfg (some j) sessions in
        (got ≡ ok (finalization s))
        × (consume_attempt_finalization lib cfg (some j) after ≡ (after, ok empty_finalization))
        × ((i : String) → lookup i after ≡ (if j == i then none else lookup i sessions))
  consume_once j s sessions there counted = rw (consume-lookup j s sessions there counted) (
    refl,
    consume-missing j (without j sessions) (rw (lookup-without, eq_refl)),
    λ i. lookup-without j i sessions,
  )

  consumed-missing :
      (j : String) (sessions : Sessions)
      → lookup j (consume_attempt_finalization lib cfg (some j) sessions).0 ≡ none
  unfolding consume_attempt_finalization
  consumed-missing j sessions = elim (Option-cases (lookup j sessions)) [
    | inl missing ↦ rw (missing, consume_attempt_finalization) missing
    | inr (s, there) ↦ rw (there, consume_attempt_finalization) (rw (lookup-without, eq_refl))
  ]

  consumed_ensure :
      (j : String) (sessions : Sessions) (c : ProxyCapability)
      → c.jti ≡ j
      → ensure_session c (consume_attempt_finalization lib cfg (some j) sessions).0
        ≡ ensure_session c []
  unfolding lookup
  consumed_ensure j sessions c e =
      ensure_session-missing c (consume_attempt_finalization lib cfg (some j) sessions).0
        (rw e (consumed-missing j sessions))
      ∙ sym (ensure_session-missing c [] refl)

  -- A token outlives its session: on a request whose token has the identifier `j`, a proxy that has
  -- consumed the session of `j` answers and sends as one that never had a session does.
  pub handle-consume :
      (j : String) (sessions : Sessions) (m : Moment) (r : Request) (payload : Json)
      (c : ProxyCapability)
      → screen lib cfg m.token_time r ≡ pass (payload, c)
      → c.jti ≡ j
      → let after = (consume_attempt_finalization lib cfg (some j) sessions).0 in
        ((handle lib cfg after m r).response ≡ (handle lib cfg [] m r).response)
        × ((handle lib cfg after m r).forwarded ≡ (handle lib cfg [] m r).forwarded)
  unfolding handle
  handle-consume j sessions m r payload c screened e =
      rw (screened, handle, consumed_ensure j sessions c e) (refl, refl)
