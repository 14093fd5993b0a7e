-- ===== src/Proxy/Run.antt =====
-- A history of the proxy: the calls that the worker and the sandbox make, in the order in which the
-- event loop finishes them.
use se_skills.Prelude.{ℕ, String, Option, none, some, List, [], ◌∷◌, ◌++◌}
use se_skills.Prelude.Int.{ℤ}
use se_skills.Prelude.Dict.{lookup}
use se_skills.Contract.Job.{RuntimeJob}
use se_skills.Json.{Json}
use se_skills.Proxy.State.{ProxyConfig, ProxyCapability, Sessions}
use se_skills.Proxy.Library.{Library}
use se_skills.Proxy.Check.{Check, pass, refuse, fails}
use se_skills.Proxy.Ledger.{issue_capability, cancel_session, consume_attempt_finalization}
use se_skills.Proxy.Request.{Request, seq_header, screen}
use se_skills.Proxy.Handle.{Moment, Upstream, handle}

pub data Event : Type 0 where
  issue : RuntimeJob → ℤ → Option String → Option String → String → ℕ → Event
  call : Moment → Request → Event
  cancel : Option String → Event
  consume : Option String → Event

-- A request that went upstream, by the token that it carried and its number.
pub record Sent : Type 0 where
  pub jti : String
  pub number : Option ℤ

module _ (lib : Library) (cfg : ProxyConfig lib.Cost) where
  abbrev pub sent_by :
      Request → Option (Upstream lib.Rest) → Check (Json × ProxyCapability) → List Sent
  sent_by r none k = []
  sent_by r (some u) (pass (payload, c)) =
      record { jti = c.jti; number = seq_header (lookup "x-request-seq" r.headers) } ∷ []
  sent_by r (some u) (refuse status category) = []
  sent_by r (some u) (fails e) = []

  unfoldable pub step : Event → Sessions → Sessions × List Sent
  step (issue job attempt jti attempt_id fresh iat) sessions =
      ((issue_capability lib cfg job attempt jti attempt_id fresh iat sessions).0, [])
  step (call m r) sessions =
      let h = handle lib cfg sessions m r in
      (h.sessions, sent_by r h.forwarded (screen lib cfg m.token_time r))
  step (cancel jti) sessions = (cancel_session jti sessions, [])
  step (consume jti) sessions = ((consume_attempt_finalization lib cfg jti sessions).0, [])

  -- The ledger after a history, and what went upstream, in order.
  unfoldable pub run : List Event → Sessions → Sessions × List Sent
  unfolding step
  run [] sessions = (sessions, [])
  run (e ∷ es) sessions =
      let (mid, first) = step e sessions in let (last, rest) = run es mid in (last, first ++ rest)
