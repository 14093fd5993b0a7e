-- ===== src/Exchange.antt =====
-- The harness's calls of the proxy: `_default_client` and `_call_proxy` of
-- webapp/hosted/agent_loop_harness.py, against the binding of webapp/hosted/model_proxy.py.
mod Examples
use Prim.Native.String.{◌++◌ as ◌+s◌}
use se_skills.Prelude.{
  ℕ, suc, ◌+◌, ◌≡◌, refl, sym, ◌∙◌, ap, String, Bool, true, false, Option, none, some, List, [],
  ◌∷◌, ◌++◌, ◌==◌, arith, map, if◌then◌else◌, Bool-cases, eq_iff, eq_refl, inl, inr,
}
use se_skills.Prelude.Int.{ℤ, pos}
use se_skills.Prelude.Dict.{Dict, lookup, insert}
use se_skills.Prelude.Text.{show_ℕ, int_of_text, int_of_text-show_ℕ}
use se_skills.Contract.Job.{RuntimeJob}
use se_skills.Agent.Messages.{MessageRequest}
use se_skills.Agent.Host.{Host, OutputDir, Turn}
use se_skills.Agent.Loop.{State}
use se_skills.Agent.Requests.{NumberedFrom}
use se_skills.Agent.Attempt.{execute-requests}
use se_skills.Agent.Execute.{execute}
use se_skills.Proxy.State.{ProxyCapability, ProxySession}
use se_skills.Proxy.Check.{pass}
use se_skills.Proxy.Request.{Request, bind_identity, attempt_header, seq_header, is_int}

abbrev pub token_header : Option String → Dict String
token_header none = []
token_header (some t) = if t == "" then [] else ("authorization", "Bearer " +s t) ∷ []

abbrev pub attempt_id_header : String → Dict String
attempt_id_header t = if t == "" then [] else ("x-attempt-id", t) ∷ []

-- The headers of the client that `_default_client` builds for a job, their names in lower case, and
-- after them those of a request.
unfoldable pub client_headers : RuntimeJob → Dict String → Dict String
client_headers job more =
    ("content-type", "application/json")
    ∷ (token_header job.proxy_token
        ++ (("x-job-id", job.job_id)
            ∷ ("x-attempt-number", show_ℕ job.attempt_number)
            ∷ (attempt_id_header job.attempt_id ++ more)))

-- `_call_proxy`: what arrives at the proxy for a request, whose body is encoded by the client.
unfoldable pub call_request : (MessageRequest → List ℕ) → RuntimeJob → MessageRequest → Request
unfolding client_headers
call_request encode job r = record {
  method = "POST";
  path = "/v1/messages";
  headers = client_headers job (("x-request-seq", show_ℕ r.seq) ∷ []);
  content = encode r;
}

-- The token is for the job's attempt.
pub record IsFor (job : RuntimeJob) (c : ProxyCapability) : Type 0 where
  pub same_job : c.job_id ≡ job.job_id
  pub same_number : c.attempt_number ≡ pos job.attempt_number
  pub same_attempt : c.attempt_id ≡ job.attempt_id
  pub has_attempt : (job.attempt_id == "") ≡ false

-- Each of the calls is bound, whatever else the session holds by then, if the number that the
-- session expects has gone up by one for each and it was not cancelled.
abbrev pub AllBound : ProxyCapability → ProxySession → List Request → Type 0
AllBound c s [] = Unit
AllBound c s (r ∷ rs) =
    (bind_identity s c r ≡ pass tt)
    × ((t : ProxySession) → t.next_seq ≡ suc s.next_seq → t.cancelled ≡ false → AllBound c t rs)

show_ℕ-nonempty : (n : ℕ) → (show_ℕ n == "") ≡ false
unfolding int_of_text
show_ℕ-nonempty n = elim (Bool-cases (show_ℕ n == "")) [
  | inl empty ↦ cc (ap int_of_text ((eq_iff (show_ℕ n) "").0 empty), int_of_text-show_ℕ n)
  | inr other ↦ other
]

lookup-token_header :
    (o : Option String) (k : String) (d : Dict String)
    → ("authorization" == k) ≡ false
    → lookup k (token_header o ++ d) ≡ lookup k d
unfolding lookup
lookup-token_header none k d h = refl
lookup-token_header (some t) k d h = elim (Bool-cases (t == "")) [
  | inl empty ↦ rw empty refl
  | inr other ↦ rw (other, h) refl
]

call_request-headers :
    (encode : MessageRequest → List ℕ) (job : RuntimeJob) (c : ProxyCapability) (r : MessageRequest)
    → IsFor job c
    → (lookup "x-job-id" (call_request encode job r).headers ≡ some c.job_id)
      × (lookup "x-attempt-number" (call_request encode job r).headers
          ≡ some (show_ℕ job.attempt_number))
      × (lookup "x-attempt-id" (call_request encode job r).headers ≡ some c.attempt_id)
      × (lookup "x-request-seq" (call_request encode job r).headers ≡ some (show_ℕ r.seq))
unfolding call_request lookup
call_request-headers encode job c r h =
    let skip = λ (k : String) (d : Dict String) (e : ("authorization" == k) ≡ false).
      lookup-token_header job.proxy_token k d e in
    (
      rw (skip "x-job-id" _ refl) (ap some (sym h.same_job)),
      skip "x-attempt-number" _ refl,
      rw (skip "x-attempt-id" _ refl, h.has_attempt) (ap some (sym h.same_attempt)),
      rw (skip "x-request-seq" _ refl, h.has_attempt) refl,
    )

attempt_header-show_ℕ : (n : ℕ) → attempt_header (some (show_ℕ n)) ≡ some (pos n)
unfolding attempt_header
attempt_header-show_ℕ n = rw (show_ℕ-nonempty n) (int_of_text-show_ℕ n)

seq_header-show_ℕ : (n : ℕ) → seq_header (some (show_ℕ n)) ≡ some (pos n)
unfolding seq_header
seq_header-show_ℕ n = int_of_text-show_ℕ n

is_int-pos : (n : ℕ) → is_int (some (pos n)) (pos n) ≡ true
is_int-pos n = ground arith

-- A call of the harness is bound to a live session that expects its number.
call_request-bound :
    (encode : MessageRequest → List ℕ) (job : RuntimeJob) (c : ProxyCapability) (r : MessageRequest)
    (s : ProxySession)
    → IsFor job c
    → s.cancelled ≡ false
    → r.seq ≡ s.next_seq
    → bind_identity s c (call_request encode job r) ≡ pass tt
unfolding bind_identity
call_request-bound encode job c r s h live number =
    let (job_id, attempt, attempt_id, seq) = call_request-headers encode job c r h in
    rw
      (
        live, job_id, attempt, attempt_id, seq, eq_refl, attempt_header-show_ℕ, h.same_number,
        is_int-pos, seq_header-show_ℕ, number, is_int-pos, eq_refl,
      )
      refl

all-bound :
    (encode : MessageRequest → List ℕ) (job : RuntimeJob) (c : ProxyCapability) (k : ℕ)
    (rs : List MessageRequest) (s : ProxySession)
    → IsFor job c
    → NumberedFrom k rs
    → s.next_seq ≡ k + 1
    → s.cancelled ≡ false
    → AllBound c s (map (call_request encode job) rs)
all-bound encode job c k [] s h n e live = tt
all-bound encode job c k (r ∷ rs) s h (number, n) e live = (
  call_request-bound encode job c r s h live (number ∙ sym e),
  λ t e' live'. all-bound encode job c (k + 1) rs t h n (omega (arith, e, e')) live',
)

-- The calls of an attempt are all bound by the proxy, in their order: with a token for the attempt
-- and a live session that expects the number 1, each of them has the job, the attempt and the number
-- that the session expects, if the number goes up by one for each call and the session is not
-- cancelled.
pub execute-AllBound :
    (Cost : Type 0) (host : Host) (job : RuntimeJob) (max_turns : ℕ) (cancelled_before : Bool)
    (turns : ℕ → Turn) (out : OutputDir) (s : State) (encode : MessageRequest → List ℕ)
    (c : ProxyCapability) (session : ProxySession)
    → (execute {Cost = Cost} host job max_turns cancelled_before turns out).final ≡ some s
    → IsFor job c
    → session.next_seq ≡ 1
    → session.cancelled ≡ false
    → AllBound c session (map (call_request encode job) s.sent)
execute-AllBound Cost host job n before turns out s encode c session final h first live =
    let (few, numbered, requests) = execute-requests Cost host job n before turns out s final in
    all-bound encode job c 0 s.sent session h numbered (omega (arith, first)) live
