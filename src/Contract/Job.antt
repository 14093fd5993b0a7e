-- ===== src/Contract/Job.antt =====
-- `RuntimeJob` and its parts: what the worker hands to the sandbox for one attempt. Identifiers are
-- texts, a `frozenset` is the list of its members, and a time is a number of microseconds.
use se_skills.Prelude.{ℕ, String, Option, List}
use se_skills.Contract.Modes.{Mode}

pub record NetworkDestination : Type 0 where
  pub host : String
  pub port : Option ℕ
  pub scheme : String
  pub path_prefix : String

pub record InputManifest : Type 0 where
  pub transcript_id : String
  pub transcript_ref : String
  pub account_id : String
  pub org_id : String
  pub opportunity_id : Option String
  pub prior_context_refs : List String

pub record Allowlist : Type 0 where
  pub tools : List String
  pub network : List NetworkDestination

pub record RuntimeJob : Type 0 where
  pub job_id : String
  pub org_id : String
  pub account_id : String
  pub transcript_id : String
  pub requester_id : String
  pub opportunity_id : Option String
  pub skill : String
  pub skill_version : String
  pub requested_model : String
  pub requested_runtime_version : Option String
  pub mode : Mode
  pub attempt_number : ℕ
  pub input_manifest : InputManifest
  pub allowlist : Allowlist
  pub execution_deadline : ℕ
  pub input_workspace : String
  pub output_workspace : String
  pub attempt_id : String
  pub proxy_token : Option String
  pub proxy_uds_path : Option String
