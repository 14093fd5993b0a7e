-- ===== src/Proxy/Binding.antt =====
-- What the identity check of a request lets through, and the check of its tools.

use se_skills.Prelude.{
  ◌≡◌, String, true, false, Option, none, some, List, [], ◌∷◌, eq_iff, arith, contains, All,
}
use se_skills.Prelude.Int.{ℤ, pos}
use se_skills.Prelude.Dict.{lookup}
use se_skills.Proxy.State.{ProxyCapability, ProxySession, ProxyTool}
use se_skills.Proxy.Check.{pass}
use se_skills.Proxy.Request.{
  Request, is_text, is_int, attempt_header, seq_header, bind_identity, tools_allowed,
}

pub is_text-eq : (o : Option String) (t : String) → is_text o t ≡ true → o ≡ some t
is_text-eq none t h = cc
is_text-eq (some s) t h = ground (arith, eq_iff s t)

pub is_int-eq : (o : Option ℤ) (n : ℤ) → is_int o n ≡ true → o ≡ some n
is_int-eq none n h = cc
is_int-eq (some m) n h = ground arith

-- The request carries the identity that the token names, on a live session, with the next number.
pub record IsBound (s : ProxySession) (c : ProxyCapability) (r : Request) : Type 0 where
  pub live : s.cancelled ≡ false
  pub same_job : lookup "x-job-id" r.headers ≡ some c.job_id
  pub same_attempt : attempt_header (lookup "x-attempt-number" r.headers) ≡ some c.attempt_number
  pub same_attempt_id : lookup "x-attempt-id" r.headers ≡ some c.attempt_id
  pub next_number : seq_header (lookup "x-request-seq" r.headers) ≡ some (pos s.next_seq)

pub bind_identity-IsBound :
    (s : ProxySession) (c : ProxyCapability) (r : Request)
    → bind_identity s c r ≡ pass tt
    → IsBound s c r
unfolding bind_identity
bind_identity-IsBound s c r h = ground (
  arith,
  is_text-eq (lookup "x-job-id" r.headers) c.job_id,
  is_int-eq (attempt_header (lookup "x-attempt-number" r.headers)) c.attempt_number,
  is_text-eq (lookup "x-attempt-id" r.headers) c.attempt_id,
  is_int-eq (seq_header (lookup "x-request-seq" r.headers)) (pos s.next_seq),
)

-- Every tool that a request defines is one that the token allows.
abbrev pub ToolsWithin : List String → Option (List ProxyTool) → Type 0
ToolsWithin allowed none = Unit
ToolsWithin allowed (some ts) = All (λ (t : ProxyTool). contains t.name allowed ≡ true) ts

pub tools_allowed-All :
    (allowed : List String) (ts : List ProxyTool)
    → tools_allowed allowed ts ≡ true
    → All (λ (t : ProxyTool). contains t.name allowed ≡ true) ts
unfolding tools_allowed
tools_allowed-All allowed [] h = tt
tools_allowed-All allowed (t ∷ ts) h = (ground arith, tools_allowed-All allowed ts (ground arith))

pub tools-ToolsWithin :
    (allowed : List String) (o : Option (List ProxyTool))
    → elim o [ none ↦ true | some ts ↦ tools_allowed allowed ts ] ≡ true
    → ToolsWithin allowed o
tools-ToolsWithin allowed none h = tt
tools-ToolsWithin allowed (some ts) h = tools_allowed-All allowed ts h
