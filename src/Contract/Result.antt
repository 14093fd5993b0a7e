-- ===== src/Contract/Result.antt =====
-- `TokenUsage`, `ExecutionMetadata`, `RedactedFailure`, `SandboxOutputSidecar` and `RuntimeResult`,
-- with the validators that their constructors run.
use se_skills.Prelude.{
  String, Bool, Option, none, some, ◌==◌, is_some, is_none, ◌&&◌, ◌||◌, not, if◌then◌else◌,
}
use se_skills.Contract.Modes.{Mode}
use se_skills.Prelude.Int.{ℤ, pos, ◌+ℤ◌, ltb_ℤ, eqb_ℤ}
use se_skills.Prelude.Result.{Result, ok, raised, value_error, ◌>>=◌}

pub data FailureCategory : Type 0 where
  cancelled cleanup_error configuration_error forbidden_tool input_error model_error :
      FailureCategory
  output_error runtime_error timeout tool_input_error unknown_tool : FailureCategory

pub FailureCategory-discrete : Discrete FailureCategory
FailureCategory-discrete = hlevel

unfoldable pub failure_message : FailureCategory → String
failure_message cancelled = "Execution was cancelled"
failure_message cleanup_error = "Output cleanup failed"
failure_message configuration_error = "Runtime configuration error"
failure_message forbidden_tool = "Disallowed tool requested"
failure_message input_error = "Invalid manifest or input file"
failure_message model_error = "Model request or response error"
failure_message output_error = "Sandbox produced invalid output"
failure_message runtime_error = "Runtime error"
failure_message timeout = "Execution timed out"
failure_message tool_input_error = "Tool received invalid arguments"
failure_message unknown_tool = "Unknown tool requested"

pub record TokenUsage : Type 0 where
  pub input_tokens : ℤ
  pub output_tokens : ℤ
  pub cache_creation_input_tokens : Option ℤ
  pub cache_read_input_tokens : Option ℤ
  pub total_tokens : ℤ

abbrev pub is_negative : ℤ → Bool
is_negative n = ltb_ℤ n (pos 0)

-- One optional cache count joins the total.
unfoldable pub add_cache : Option ℤ → ℤ → Result ℤ
add_cache none total = ok total
add_cache (some n) total = if is_negative n then raised value_error else ok (total +ℤ n)

-- `total_tokens` is given or computed.
unfoldable pub settle_total : Option ℤ → ℤ → Result ℤ
settle_total none total = ok total
settle_total (some given) total = if eqb_ℤ given total then ok total else raised value_error

unfoldable pub token_usage : ℤ → ℤ → Option ℤ → Option ℤ → Option ℤ → Result TokenUsage
unfolding add_cache settle_total
token_usage input output creation read given =
    if is_negative input || is_negative output then raised value_error else do
      with_creation ← add_cache creation (input +ℤ output)
      with_read ← add_cache read with_creation
      total ← settle_total given with_read
      ok (record {
        input_tokens = input;
        output_tokens = output;
        cache_creation_input_tokens = creation;
        cache_read_input_tokens = read;
        total_tokens = total;
      })

abbrev pub no_usage : TokenUsage
no_usage = record {
  input_tokens = pos 0;
  output_tokens = pos 0;
  cache_creation_input_tokens = none;
  cache_read_input_tokens = none;
  total_tokens = pos 0;
}

-- `Cost` is the type of the floats.
pub record ExecutionMetadata (Cost : Type 0) : Type 0 where
  pub runtime_version : Option String
  pub model : Option String
  pub token_usage : TokenUsage
  pub cost : Option Cost

-- ExecutionMetadata()
abbrev pub no_metadata : {Cost : Type 0} → ExecutionMetadata Cost
no_metadata = record { runtime_version = none; model = none; token_usage = no_usage; cost = none }

pub record RedactedFailure : Type 0 where
  pub category : FailureCategory
  pub message : String

unfoldable pub redacted_failure : FailureCategory → String → Result RedactedFailure
unfolding failure_message
redacted_failure c message =
    let expected = failure_message c in
    if message == ""
    then ok (record { category = c; message = expected })
    else if message == expected
    then ok (record { category = c; message = message })
    else raised value_error

pub record Sidecar : Type 0 where
  pub skill : String
  pub skill_version : String
  pub mode : Mode
  pub title : Option String
  pub date : Option String
  pub source_coverage : Option String

pub record RuntimeResult (Cost : Type 0) : Type 0 where
  pub output_artifact : Option String
  pub sidecar : Option Sidecar
  pub execution_metadata : ExecutionMetadata Cost
  pub failure : Option RedactedFailure

unfoldable pub runtime_result : {Cost : Type 0} → RuntimeResult Cost → Result (RuntimeResult Cost)
runtime_result r =
    let has_output = is_some r.output_artifact in
    let has_failure = is_some r.failure in
    if has_output && has_failure
    then raised value_error
    else if not has_output && not has_failure
    then raised value_error
    else if has_output && is_none r.sidecar
    then raised value_error
    else ok r

-- `_failure` of agent_loop_harness.py and `runtime_failure` of model_proxy.py.
unfoldable pub runtime_failure : {Cost : Type 0} → FailureCategory → Result (RuntimeResult Cost)
unfolding redacted_failure runtime_result
runtime_failure c = do
  f ← redacted_failure c ""
  runtime_result (record {
    output_artifact = none;
    sidecar = none;
    execution_metadata = no_metadata;
    failure = some f;
  })
