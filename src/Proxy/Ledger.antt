-- ===== src/Proxy/Ledger.antt =====
-- The ledger of sessions: `issue_capability`, `_ensure_session`, `cancel_session`,
-- `get_attempt_metadata` and `consume_attempt_finalization`.

use Prim.Native.String.{◌++◌ as ◌+s◌}
use se_skills.Prelude.{ℕ, ◌/◌, String, true, Option, none, some, List, [], ◌∷◌, ◌==◌, if◌then◌else◌}
use se_skills.Prelude.Int.{ℤ, pos, ◌+ℤ◌, eqb_ℤ}
use se_skills.Prelude.Dict.{lookup, insert, without}
use se_skills.Prelude.Text.{rstrip_slash, sorted}
use se_skills.Prelude.Result.{Result, ok, ◌>>=◌}
use se_skills.Json.{Json, str, int, arr, obj, Items, nil, cons, end, field}
use se_skills.Contract.Result.{FailureCategory, ExecutionMetadata, no_metadata, token_usage}
use se_skills.Contract.Job.{RuntimeJob}
use se_skills.Proxy.State.{ProxyConfig, ProxyCapability, ProxySession, Sessions, new_session}
use se_skills.Proxy.Library.{Library}

-- `_ensure_session`: the session of the claims' `jti`, or a new one with their fields.
unfoldable pub ensure_session : ProxyCapability → Sessions → ProxySession
unfolding new_session
ensure_session c sessions = elim (lookup c.jti sessions) [ none ↦ new_session c | some s ↦ s ]

unfoldable pub cancel_session : Option String → Sessions → Sessions
cancel_session none sessions = sessions
cancel_session (some jti) sessions = elim (lookup jti sessions) [
  | none ↦ sessions
  | some s ↦ insert jti (record s { cancelled = true }) sessions
]

-- `count or None`
unfoldable pub or_none : ℤ → Option ℤ
or_none n = if eqb_ℤ n (pos 0) then none else some n

abbrev pub texts : List String → Items
texts [] = nil
texts (x ∷ xs) = cons (str x) (texts xs)

module _ (lib : Library) where
  open lib use {Cost, of_int, add, mul, div, encode, isoformat, digest}

  -- The claims of a token for one attempt; `iat` is the second of the call.
  unfoldable pub claims_of : ProxyCapability → ℕ → ℕ → Json
  claims_of c iat deadline = obj (
      field "jti" (str c.jti) (
        field "job_id" (str c.job_id) (
          field "attempt_number" (int c.attempt_number) (
            field "attempt_id" (str c.attempt_id) (
              field "model" (str c.model) (
                field "deadline" (str c.deadline) (
                  field "endpoint" (str c.endpoint) (
                    field "api_version" (str c.api_version) (
                      field "allowed_tools" (arr (texts c.allowed_tools)) (
                        field "iat" (int (pos iat))
                          (field "exp" (int (pos (deadline / 1_000_000))) end)))))))))))

  unfoldable pub capability_for :
      ProxyConfig Cost → RuntimeJob → ℤ → String → String → ProxyCapability
  unfolding sorted
  capability_for cfg job attempt_number jti attempt_id = record {
    jti = jti;
    job_id = job.job_id;
    attempt_number = attempt_number;
    attempt_id = attempt_id;
    model = job.requested_model;
    deadline = isoformat job.execution_deadline;
    endpoint = rstrip_slash cfg.anthropic_api_url +s "/v1/messages";
    api_version = cfg.anthropic_api_version;
    allowed_tools = sorted job.allowlist.tools;
  }

  -- `jti or uuid.uuid4().hex`, where `fresh` is the new identifier
  abbrev pub jti_or : Option String → String → String
  jti_or none fresh = fresh
  jti_or (some t) fresh = if t == "" then fresh else t

  abbrev pub attempt_id_or : Option String → String → String
  attempt_id_or none jti = digest jti
  attempt_id_or (some t) jti = t

  unfoldable pub issue_capability :
      ProxyConfig Cost
      → RuntimeJob
      → ℤ
      → Option String
      → Option String
      → String
      → ℕ
      → Sessions
      → Sessions × String × String × String
  unfolding claims_of capability_for ensure_session
  issue_capability cfg job attempt_number jti? attempt_id? fresh iat sessions =
      let jti = jti_or jti? fresh in
      let attempt_id = attempt_id_or attempt_id? jti in
      let c = capability_for cfg job attempt_number jti attempt_id in
      (
        insert jti (ensure_session c sessions) sessions,
        encode (claims_of c iat job.execution_deadline) cfg.secret,
        jti,
        attempt_id,
      )

  -- `_metadata_for_session`; building the metadata raises on a negative count
  unfoldable pub metadata_for_session :
      ProxyConfig Cost → Option ProxySession → Result (ExecutionMetadata Cost)
  unfolding or_none token_usage
  metadata_for_session cfg none = ok no_metadata
  metadata_for_session cfg (some s) =
      let total_input = s.input_tokens +ℤ s.cache_creation +ℤ s.cache_read in
      let thousand = of_int (pos 1000) in
      let cost =
        add (div (mul (of_int total_input) cfg.cost_per_1k_input) thousand)
          (div (mul (of_int s.output_tokens) cfg.cost_per_1k_output) thousand) in
      do
        usage ←
            token_usage s.input_tokens s.output_tokens (or_none s.cache_creation)
              (or_none s.cache_read) none
        ok (record {
          runtime_version = none;
          model = some s.model;
          token_usage = usage;
          cost = some cost;
        })

  abbrev pub session_of : Option String → Sessions → Option ProxySession
  session_of none sessions = none
  session_of (some jti) sessions = lookup jti sessions

  unfoldable pub get_attempt_metadata :
      ProxyConfig Cost → Option String → Sessions → Result (ExecutionMetadata Cost)
  unfolding metadata_for_session
  get_attempt_metadata cfg jti sessions = metadata_for_session cfg (session_of jti sessions)

  pub record ProxyFinalization : Type 0 where
    pub metadata : ExecutionMetadata Cost
    pub terminal_category : Option FailureCategory

  -- The session is popped before its metadata are built.
  unfoldable pub consume_attempt_finalization :
      ProxyConfig Cost → Option String → Sessions → Sessions × Result ProxyFinalization
  unfolding metadata_for_session
  consume_attempt_finalization cfg none sessions =
      (sessions, ok (record { metadata = no_metadata; terminal_category = none }))
  consume_attempt_finalization cfg (some jti) sessions = elim (lookup jti sessions) [
    | none ↦ (sessions, ok (record { metadata = no_metadata; terminal_category = none }))
    | some s ↦ (
      without jti sessions,
      do
        m ← metadata_for_session cfg (some s)
        ok (record { metadata = m; terminal_category = s.terminal_category }),
    )
  ]
