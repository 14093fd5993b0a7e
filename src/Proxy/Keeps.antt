-- ===== src/Proxy/Keeps.antt =====
-- What the stages of `handle` under the lock keep of the session: its next number, and a
-- cancellation.
use se_skills.Prelude.{ℕ, ◌≡◌, true, Option, arith, Option-cases, inl, inr}
use se_skills.Prelude.Int.{ℤ}
use se_skills.Prelude.Result.{Result, ok, raised}
use se_skills.Json.{obj, Fields, get}
use se_skills.Proxy.State.{ProxyConfig, ProxyCapability, ProxySession, MessageRequest}
use se_skills.Proxy.Library.{Library, Loaded, value}
use se_skills.Proxy.Check.{Check, pass, refuse, fails}
use se_skills.Proxy.Account.{
  Statement, assign, next_statement, ◌and_then◌, add_input, add_output, add_creation, add_read,
  add_usage, usage_fields,
}
use se_skills.Proxy.Stream.{Race, upstream_with_cancel}
use se_skills.Proxy.Handle.{
  Moment, Upstream, Outcome, continue, answer, after_usage, settle, forward, dispatch,
}

-- What no stage after the binding changes: the next number, and a cancellation.
pub record Keeps (s t : ProxySession) : Type 0 where
  pub same_number : t.next_seq ≡ s.next_seq
  pub still_cancelled : s.cancelled ≡ true → t.cancelled ≡ true

Keeps-trans : {s t u : ProxySession} → Keeps s t → Keeps t u → Keeps s u
Keeps-trans h k = ground arith

-- A statement that keeps the session's number and cancellation.
record Preserves (p : Statement) : Type 0 where
  at : (s : ProxySession) → Keeps s (p s).0

assign-Preserves :
    (write : ℤ → ProxySession → ProxySession) (r : Result ℤ)
    → ((n : ℤ) (s : ProxySession) → Keeps s (write n s))
    → Preserves (assign write r)
assign-Preserves write (ok n) h = record { at = h n }
assign-Preserves write (raised e) h = record { at = λ s. ground arith }

next_statement-Keeps :
    {q : Statement} (s : ProxySession) (r : ProxySession × Result (Unit {0}))
    → Keeps s r.0
    → Preserves q
    → Keeps s (next_statement q r).0
next_statement-Keeps s (t, ok _) h hq = Keeps-trans h (hq.at t)
next_statement-Keeps s (t, raised e) h hq = h

and_then-Preserves : (p q : Statement) → Preserves p → Preserves q → Preserves (p and_then q)
unfolding ◌and_then◌
and_then-Preserves p q hp hq = record {
  at = λ s. next_statement-Keeps {q = q} s (p s) (hp.at s) hq;
}

add_usage-Preserves : (u : Fields) → Preserves (add_usage u)
unfolding add_usage
add_usage-Preserves u =
    and_then-Preserves _ _ (assign-Preserves add_input _ (λ n s. ground arith)) (
      and_then-Preserves _ _ (assign-Preserves add_output _ (λ n s. ground arith)) (
        and_then-Preserves _ _ (assign-Preserves add_creation _ (λ n s. ground arith))
          (assign-Preserves add_read _ (λ n s. ground arith))))

answer-Keeps :
    {Rest : Type 0} (c : ProxyCapability) (d : Fields) (sent : Option (Upstream Rest))
    (s : ProxySession) (p : ProxySession × Result (Unit {0}))
    → Keeps s p.0
    → Keeps s (answer c d sent p).session
unfolding answer
answer-Keeps c d sent s (t, ok _) h = ground arith
answer-Keeps c d sent s (t, raised e) h = h

after_usage-Keeps :
    {Rest : Type 0} (c : ProxyCapability) (d : Fields) (sent : Option (Upstream Rest))
    (s : ProxySession) (u : Result Fields)
    → Keeps s (after_usage c d sent s u).session
after_usage-Keeps c d sent s (ok u) =
    answer-Keeps c d sent s (add_usage u s) ((add_usage-Preserves u).at s)
after_usage-Keeps c d sent s (raised e) = ground arith

settle-Keeps :
    {Rest : Type 0} (c : ProxyCapability) (sent : Option (Upstream Rest)) (s : ProxySession)
    (l : Loaded)
    → Keeps s (settle c sent s l).session
unfolding settle
settle-Keeps c sent s (value (obj d)) = after_usage-Keeps c d sent s (usage_fields (get "usage" d))
settle-Keeps c sent s _ = ground arith

upstream_with_cancel-Keeps :
    (limit deadline now : ℕ) (race : Race) (s : ProxySession)
    → Keeps s (upstream_with_cancel limit deadline now race s).0
unfolding upstream_with_cancel
upstream_with_cancel-Keeps limit deadline now race s = ground arith

continue-Keeps :
    {Rest A : Type 0} (k : Check A) (s t : ProxySession) (sent : Option (Upstream Rest))
    (next : A → Outcome Rest)
    → Keeps s t
    → ((a : A) → Keeps s (next a).session)
    → Keeps s (continue k t sent next).session
continue-Keeps (pass a) s t sent next h k = k a
continue-Keeps (refuse status category) s t sent next h k = h
continue-Keeps (fails e) s t sent next h k = h

module _ (lib : Library) where
  open lib use {Cost, Rest, fromisoformat}

  forward-Keeps :
      (cfg : ProxyConfig Cost) (c : ProxyCapability) (deadline : ℕ) (m : Moment)
      (q : MessageRequest Rest) (s : ProxySession)
      → Keeps s (forward lib cfg c deadline m q s).session
  unfolding forward
  forward-Keeps cfg c deadline m q s =
      let (t, got) = upstream_with_cancel cfg.max_response_bytes deadline m.stream_time m.race s in
      let keep =
        upstream_with_cancel-Keeps cfg.max_response_bytes deadline m.stream_time m.race s in
      continue-Keeps got s t _ (λ bytes. settle c _ t (lib.loads bytes)) keep
        (λ bytes. Keeps-trans keep (settle-Keeps c _ t (lib.loads bytes)))

  pub dispatch-Keeps :
      (cfg : ProxyConfig Cost) (c : ProxyCapability) (m : Moment) (q : MessageRequest Rest)
      (s : ProxySession)
      → Keeps s (dispatch lib cfg c m q s).session
  unfolding dispatch
  dispatch-Keeps cfg c m q s = elim (Option-cases (fromisoformat c.deadline)) [
    | inl never ↦ ground arith
    | inr (d, read) ↦ ground (arith, forward-Keeps cfg c d m q s)
  ]
