-- ===== src/Proxy/Sequence.antt =====
-- Sequence numbers and cancellation over a history of calls.
use se_skills.Prelude.{
  ℕ, ◌≡◌, refl, String, true, false, Option, none, some, List, [], ◌∷◌, ◌++◌, ◌==◌, ◌∙◌, ap, arith,
  All, Option-cases, String-cases, inl, inr,
}
use se_skills.Prelude.Int.{ℤ, pos}
use se_skills.Prelude.Dict.{lookup, insert, lookup-insert, lookup-without}
use se_skills.Json.{Json}
use se_skills.Contract.Job.{RuntimeJob}
use se_skills.Proxy.State.{ProxyConfig, ProxyCapability, ProxySession, Sessions}
use se_skills.Proxy.Library.{Library}
use se_skills.Proxy.Check.{Check, pass, refuse, fails}
use se_skills.Proxy.Ledger.{
  ensure_session, issue_capability, cancel_session, consume_attempt_finalization, jti_or,
  attempt_id_or, capability_for,
}
use se_skills.Proxy.Request.{Request, seq_header, screen}
use se_skills.Proxy.Handle.{Moment, Upstream, Outcome, locked, enter, handle}
use se_skills.Proxy.Authority.{locked-IsAuthorized}
use se_skills.Proxy.Run.{Event, issue, call, cancel, consume, Sent, sent_by, step, run}
use se_skills.Proxy.Advances.{next_number, is_cancelled, Advances, locked-Advances}
use se_skills.Proxy.Moves.{
  numbers, Ascending, Ascending-append, numbers-append, Moves, ensure_session-number, quiet_later,
  quiet, cancel_session-is_cancelled, consumes,
}

module _ (lib : Library) (cfg : ProxyConfig lib.Cost) where
  sent-Moves :
      (j : String) (m : Moment) (r : Request) (payload : Json) (c : ProxyCapability)
      (sessions : Sessions) (s : ProxySession) (o : Outcome lib.Rest)
      → s.next_seq ≡ next_number (lookup c.jti sessions)
      → s.cancelled ≡ is_cancelled (lookup c.jti sessions)
      → Advances s o
      → ((u : Upstream lib.Rest)
          → o.forwarded ≡ some u
          → (seq_header (lookup "x-request-seq" r.headers) ≡ some (pos s.next_seq))
            × (s.cancelled ≡ false))
      → Moves j sessions
          (insert c.jti o.session sessions)
          (sent_by lib cfg r o.forwarded (pass (payload, c)))
  unfolding numbers
  sent-Moves j m r payload c sessions s o hn hc adv bound = elim (Option-cases o.forwarded) [
    | inl nothing ↦ rw nothing (
        quiet_later j c.jti o.session sessions (omega (arith, adv.grows))
          (λ h. adv.keeps_cancelled (hc ∙ h)))
    | inr (u, sent) ↦ rw sent (spent u sent)
  ]
    where
      spent :
          (u : Upstream lib.Rest)
          → o.forwarded ≡ some u
          → Moves j sessions
              (insert c.jti o.session sessions)
              (record { jti = c.jti; number = seq_header (lookup "x-request-seq" r.headers) } ∷ [])
      spent u sent = elim (String-cases c.jti j) [
        | inl (e, same) ↦ record {
          ascends =
              rw (lookup-insert, same, ← e, ← hn)
                (s.next_seq, (bound u sent).0, omega arith, omega (arith, adv.spends u sent));
          stays_cancelled = λ h.
              cc (h, hc, (bound u sent).1, ap (λ (i : String). is_cancelled (lookup i sessions)) e);
          silent = λ h.
              cc (h, hc, (bound u sent).1, ap (λ (i : String). is_cancelled (lookup i sessions)) e);
        }
        | inr (ne, other) ↦ record {
          ascends = rw (lookup-insert, other) (omega arith);
          stays_cancelled = λ h. rw (lookup-insert, other) h;
          silent = λ h. rw other;
        }
      ]

  enter-Moves :
      (j : String) (m : Moment) (r : Request) (sessions : Sessions)
      (k : Check (Json × ProxyCapability))
      → Moves j sessions
          (enter lib cfg sessions m r k).sessions
          (sent_by lib cfg r (enter lib cfg sessions m r k).forwarded k)
  enter-Moves j m r sessions (refuse status category) = quiet j sessions
  enter-Moves j m r sessions (fails e) = quiet j sessions
  enter-Moves j m r sessions (pass (payload, c)) =
      let s = ensure_session c sessions in
      let old = ensure_session-number c sessions in
      sent-Moves j m r payload c sessions s (locked lib cfg c payload m r s) old.0 old.1
        (locked-Advances lib cfg c payload m r s)
        λ u sent.
          let a = locked-IsAuthorized lib cfg c payload m r s u sent in
          (a.bound.next_number, a.bound.live)

  issue-Moves :
      (j : String) (job : RuntimeJob) (attempt : ℤ) (jti attempt_id : Option String)
      (fresh : String) (iat : ℕ) (sessions : Sessions)
      → Moves j sessions
          (issue_capability lib cfg job attempt jti attempt_id fresh iat sessions).0
          []
  unfolding issue_capability
  issue-Moves j job attempt jti attempt_id fresh iat sessions =
      let i = jti_or lib jti fresh in
      let c = capability_for lib cfg job attempt i (attempt_id_or lib attempt_id i) in
      let old = ensure_session-number c sessions in
      quiet_later j i (ensure_session c sessions) sessions (omega (arith, old.0)) (λ h. old.1 ∙ h)

  cancel-Moves :
      (j i : String) (sessions : Sessions) → Moves j sessions (cancel_session (some i) sessions) []
  unfolding cancel_session
  cancel-Moves j i sessions = elim (Option-cases (lookup i sessions)) [
    | inl nothing ↦ rw (nothing, cancel_session) (quiet j sessions)
    | inr (s, there) ↦
        rw (there, cancel_session)
          (quiet_later j i (record s { cancelled = true }) sessions (rw there (omega arith))
            (λ h. refl))
  ]

  consume-Moves :
      (j i : String) (sessions : Sessions)
      → (i == j) ≡ false
      → Moves j sessions (consume_attempt_finalization lib cfg (some i) sessions).0 []
  unfolding consume_attempt_finalization numbers
  consume-Moves j i sessions other = elim (Option-cases (lookup i sessions)) [
    | inl nothing ↦ rw (nothing, consume_attempt_finalization) (quiet j sessions)
    | inr (s, there) ↦
        rw (there, consume_attempt_finalization)
          (record {
            ascends = rw (lookup-without, other) (omega arith);
            stays_cancelled = λ h. rw (lookup-without, other) h;
            silent = λ h. refl;
          })
  ]

  step-Moves :
      (j : String) (e : Event) (sessions : Sessions)
      → consumes j e ≡ false
      → Moves j sessions (step lib cfg e sessions).0 (step lib cfg e sessions).1
  unfolding step handle
  step-Moves j (issue job attempt jti attempt_id fresh iat) sessions h =
      issue-Moves j job attempt jti attempt_id fresh iat sessions
  step-Moves j (call m r) sessions h = enter-Moves j m r sessions (screen lib cfg m.token_time r)
  step-Moves j (cancel none) sessions h = unfold cancel_session in quiet j sessions
  step-Moves j (cancel (some i)) sessions h = cancel-Moves j i sessions
  step-Moves j (consume none) sessions h = unfold consume_attempt_finalization in quiet j sessions
  step-Moves j (consume (some i)) sessions h = consume-Moves j i sessions h

  Moves-trans :
      (j : String) (a b c : Sessions) (xs ys : List Sent)
      → Moves j a b xs
      → Moves j b c ys
      → Moves j a c (xs ++ ys)
  Moves-trans j a b c xs ys h k = record {
    ascends =
        rw (numbers-append j xs ys)
          (Ascending-append _ _ (numbers j xs) (numbers j ys) _ h.ascends k.ascends);
    stays_cancelled = λ e. k.stays_cancelled (h.stays_cancelled e);
    silent = λ e. rw (numbers-append j xs ys, h.silent e) (k.silent (h.stays_cancelled e));
  }

  run-Moves :
      (j : String) (es : List Event) (sessions : Sessions)
      → All (λ (e : Event). consumes j e ≡ false) es
      → Moves j sessions (run lib cfg es sessions).0 (run lib cfg es sessions).1
  unfolding run
  run-Moves j [] sessions h = quiet j sessions
  run-Moves j (e ∷ es) sessions h =
      let (mid, first) = step lib cfg e sessions in
      let (last, rest) = run lib cfg es mid in
      Moves-trans j sessions mid last first rest (step-Moves j e sessions h.0)
        (run-Moves j es mid h.1)

  -- Over any history in which the session is not consumed, the sequence numbers that went upstream
  -- under its identifier are strictly ascending, begin no lower than its next number was, and all
  -- lie below the next number that it has at the end: none goes upstream twice.
  pub numbers-run-Ascending :
      (j : String) (es : List Event) (sessions : Sessions)
      → All (λ (e : Event). consumes j e ≡ false) es
      → Ascending
          (next_number (lookup j sessions))
          (numbers j (run lib cfg es sessions).1)
          (next_number (lookup j (run lib cfg es sessions).0))
  numbers-run-Ascending j es sessions h = (run-Moves j es sessions h).ascends

  -- After `cancel_session` of a session of the ledger nothing goes upstream under its identifier,
  -- in any history in which the session is not consumed.
  pub numbers-run_cancelled :
      (j : String) (s : ProxySession) (es : List Event) (sessions : Sessions)
      → lookup j sessions ≡ some s
      → All (λ (e : Event). consumes j e ≡ false) es
      → numbers j (run lib cfg es (cancel_session (some j) sessions)).1 ≡ []
  numbers-run_cancelled j s es sessions there h =
      (run-Moves j es (cancel_session (some j) sessions) h).silent
        (cancel_session-is_cancelled j s sessions there)
