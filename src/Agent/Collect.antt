-- ===== src/Agent/Collect.antt =====
-- `_collect_result`: the candidate output, read back from the output directory.
use se_skills.Prelude.{String, Bool, ◌&&◌, Option, none, some, ◌==◌, if◌then◌else◌}
use se_skills.Prelude.Text.{universal_newlines}
use se_skills.Prelude.Int.{ℤ, pos, eqb_ℤ}
use se_skills.Prelude.Result.{Result, ok, raised, type_error, unicode_error, ◌>>=◌}
use se_skills.Json.{Json, obj}
use se_skills.Contract.Job.{RuntimeJob}
use se_skills.Contract.Modes.{mode_eqb}
use se_skills.Contract.Result.{
  Sidecar, RuntimeResult, runtime_result, runtime_failure, TokenUsage, token_usage, output_error,
}
use se_skills.Agent.Host.{Host, OutputDir}
use se_skills.Agent.Inputs.{sidecar_of}

-- The four token totals of an attempt.
pub record TokenTotals : Type 0 where
  pub input : ℤ
  pub output : ℤ
  pub creation : ℤ
  pub read : ℤ

-- `SandboxOutputSidecar(**data)` raises TypeError on data that are no object.
unfoldable pub sidecar_of_json : Option Json → Result (Option Sidecar)
unfolding sidecar_of
sidecar_of_json none = ok none
sidecar_of_json (some (obj d)) = ok (sidecar_of d)
sidecar_of_json (some j) = raised type_error

-- The sidecar file: `none` is an output error.
unfoldable pub read_sidecar : Host → Option String → Result (Option Sidecar)
unfolding sidecar_of_json
read_sidecar host none = ok none
read_sidecar host (some t) = sidecar_of_json (host.loads (universal_newlines t))

-- The sidecar names the job's skill, its version and its mode.
unfoldable pub matches_job : Sidecar → RuntimeJob → Bool
matches_job s job =
    s.skill == job.skill && s.skill_version == job.skill_version && mode_eqb s.mode job.mode

-- `count or None`
unfoldable pub or_none : ℤ → Option ℤ
or_none n = if eqb_ℤ n (pos 0) then none else some n

-- `output_md.read_text` raises on text that is no UTF-8, and changes the ends of lines.
abbrev pub text_of : Option String → Result String
text_of none = raised unicode_error
text_of (some t) = ok (universal_newlines t)

-- The result of an attempt with its Markdown, its sidecar and its usage.
abbrev pub successful :
    {Cost : Type 0}
    → RuntimeJob
    → String
    → String
    → Sidecar
    → TokenUsage
    → Result (RuntimeResult Cost)
successful job model_name markdown s usage = runtime_result (record {
  output_artifact = some markdown;
  sidecar = some s;
  execution_metadata = record {
    runtime_version = job.requested_runtime_version;
    model = some model_name;
    token_usage = usage;
    cost = none;
  };
  failure = none;
})

module _ {Cost : Type 0} (job : RuntimeJob) (model_name : String) (t : TokenTotals) where
  -- The result of an attempt whose files were accepted.
  unfoldable pub success : String → Sidecar → Result (RuntimeResult Cost)
  unfolding token_usage or_none runtime_result
  success markdown s =
      token_usage t.input t.output (or_none t.creation) (or_none t.read) none
      >>= successful job model_name markdown s

  abbrev pub accept : Option String → Option Sidecar → Result (RuntimeResult Cost)
  accept md none = runtime_failure output_error
  accept md (some s) =
      if matches_job s job then text_of md >>= (λ m. success m s) else runtime_failure output_error

  abbrev pub collect_files :
      Host → Option (Option String) → Option (Option String) → Result (RuntimeResult Cost)
  collect_files host none sidecar = runtime_failure output_error
  collect_files host (some md) none = runtime_failure output_error
  collect_files host (some md) (some sidecar) = read_sidecar host sidecar >>= accept md

  unfoldable pub collect_result : Host → OutputDir → Result (RuntimeResult Cost)
  unfolding read_sidecar matches_job success runtime_failure
  collect_result host out = collect_files host out.output_md out.sidecar_json
