-- ===== src/Proxy/Advances.antt =====
-- What one call under the lock makes of a session: its next number and its cancellation.
use se_skills.Prelude.{ℕ, suc, ◌+◌, ◌≤◌, ◌≡◌, Bool, true, false, Option, none, some, arith}
use se_skills.Json.{Json}
use se_skills.Proxy.State.{ProxyConfig, ProxyCapability, ProxySession}
use se_skills.Proxy.Library.{Library}
use se_skills.Proxy.Check.{Check, pass, refuse, fails}
use se_skills.Proxy.Request.{Request, bind_identity, check_request}
use se_skills.Proxy.Handle.{Moment, Upstream, Outcome, continue, dispatch, locked}
use se_skills.Proxy.Keeps.{dispatch-Keeps}

-- The next number and the cancel flag under an identifier; a session that is not there begins at 1.
abbrev pub next_number : Option ProxySession → ℕ
next_number none = 1
next_number (some s) = s.next_seq

abbrev pub is_cancelled : Option ProxySession → Bool
is_cancelled none = false
is_cancelled (some s) = s.cancelled

-- What one call makes of a session.
pub record Advances {Rest : Type 0} (s : ProxySession) (o : Outcome Rest) : Type 0 where
  pub grows : s.next_seq ≤ o.session.next_seq
  pub keeps_cancelled : s.cancelled ≡ true → o.session.cancelled ≡ true
  pub spends : (u : Upstream Rest) → o.forwarded ≡ some u → o.session.next_seq ≡ suc s.next_seq

module _ (lib : Library) where
  open lib use {Cost, Rest}

  pub locked-Advances :
      (cfg : ProxyConfig Cost) (c : ProxyCapability) (payload : Json) (m : Moment) (r : Request)
      (s : ProxySession)
      → Advances s (locked lib cfg c payload m r s)
  unfolding locked
  locked-Advances cfg c payload m r s = bind-Advances (bind_identity s c r)
    where
      next : ProxySession
      next = record s { next_seq = s.next_seq + 1 }

      check-Advances :
          (k : Check _) → Advances s (continue k next none λ q. dispatch lib cfg c m q next)
      check-Advances (pass q) =
          let keep = dispatch-Keeps lib cfg c m q next in
          record {
            grows = omega (arith, keep.same_number);
            keeps_cancelled = λ h. keep.still_cancelled h;
            spends = λ u h. omega (arith, keep.same_number);
          }
      check-Advances (refuse status category) = record {
        grows = omega arith;
        keeps_cancelled = λ h. h;
        spends = λ u h. cc;
      }
      check-Advances (fails e) = record {
        grows = omega arith;
        keeps_cancelled = λ h. h;
        spends = λ u h. cc;
      }

      bind-Advances :
          (k : Check (Unit {0}))
          → Advances s (
              continue k s none λ _.
                continue
                  (check_request lib cfg c payload)
                  next
                  none
                  λ q. dispatch lib cfg c m q next)
      bind-Advances (pass t) = check-Advances (check_request lib cfg c payload)
      bind-Advances (refuse status category) = record {
        grows = omega arith;
        keeps_cancelled = λ h. h;
        spends = λ u h. cc;
      }
      bind-Advances (fails e) = record {
        grows = omega arith;
        keeps_cancelled = λ h. h;
        spends = λ u h. cc;
      }
