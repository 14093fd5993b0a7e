-- ===== src/Agent/Examples.antt =====
-- An attempt of two turns: the model searches the transcript, then writes the report and finishes.
use se_skills.Prelude.{
  arith, ℕ, zero, suc, ◌≤◌, ◌≡◌, refl, ap, String, true, false, Option, none, some, [], ◌∷◌, length,
  All, contains,
}
use se_skills.Prelude.Int.{ℤ, pos, ◌+ℤ◌}
use se_skills.Prelude.Text.{splitlines}
use se_skills.Prelude.Result.{ok}
use se_skills.Json.{str, obj, Fields, end, field}
use se_skills.Contract.Modes.{full, mode_eqb}
use se_skills.Contract.Job.{RuntimeJob}
use se_skills.Contract.Result.{Sidecar, RuntimeResult}
use se_skills.Agent.Messages.{ToolUse, tool_use, Usage, MessageResponse}
use se_skills.Agent.Host.{Host, file, OutputDir, response, Turn}
use se_skills.Agent.Inputs.{
  WriteInput, sidecar_of, empty_input, sidecar_json, SearchInput, search_transcript_input,
  write_output_input,
}
use se_skills.Agent.Collect.{TokenTotals, matches_job, collect_result}
use se_skills.Agent.Acceptance.{collect_result-write_output}
use se_skills.Agent.Tools.{write_output, content, run_tool, or_no_matches, tool_definitions}
use se_skills.Agent.Loop.{State}
use se_skills.Agent.Requests.{NumberedFrom, IsRequest}
use se_skills.Agent.Work.{last_written, written_by}
use se_skills.Agent.Attempt.{execute-requests}
use se_skills.Prelude.Text.{universal_newlines}
use se_skills.Agent.Delivery.{execute_success, execute-sums, ReadsBack, Delivers}
use se_skills.Agent.Usage.{Counts}
use se_skills.Agent.Totals.{sums, last_model}
use se_skills.Agent.Search.{first, matches_from, run_tool-search}
use se_skills.Agent.Execute.{start, Executed, execute}

abbrev pub job : RuntimeJob
job = record {
  job_id = "job-1";
  org_id = "org-1";
  account_id = "account-1";
  transcript_id = "transcript-1";
  requester_id = "user-1";
  opportunity_id = none;
  skill = "post-call";
  skill_version = "1.0";
  requested_model = "claude";
  requested_runtime_version = some "1";
  mode = full;
  attempt_number = 1;
  input_manifest = record {
    transcript_id = "transcript-1";
    transcript_ref = "call.txt";
    account_id = "account-1";
    org_id = "org-1";
    opportunity_id = none;
    prior_context_refs = [];
  };
  allowlist = record {
    tools = "finish" ∷ "search_transcript" ∷ "write_output" ∷ [];
    network = record { host = "proxy"; port = none; scheme = "http"; path_prefix = "/v1" } ∷ [];
  };
  execution_deadline = 100;
  input_workspace = "/in";
  output_workspace = "/out";
  attempt_id = "attempt-1";
  proxy_token = some "token";
  proxy_uds_path = none;
}

abbrev report_sidecar : Sidecar
report_sidecar = record {
  skill = "post-call";
  skill_version = "1.0";
  mode = full;
  title = some "Call";
  date = none;
  source_coverage = none;
}

abbrev pub host : Host
host = record {
  input_exists = true;
  node = λ path. file (some "hello\nbudget");
  model_client = none;
  default_base_url = λ url. url;
  lower = λ t. t;
  dumps = λ j. "printed";
  loads = λ t. some (obj (sidecar_json report_sidecar));
  to_int = λ j. some (pos 7);
}

abbrev usage : Usage
usage = record {
  input_tokens = pos 3;
  output_tokens = pos 5;
  cache_creation_input_tokens = none;
  cache_read_input_tokens = some (pos 2);
}

abbrev query : Fields
query = field "query" (str "budget") end

abbrev searches : MessageResponse
searches = record {
  content = tool_use (record { id = "1"; name = "search_transcript"; input = query }) ∷ [];
  model = "claude-a";
  stop_reason = some "tool_use";
  usage = usage;
}

abbrev writes : MessageResponse
writes = record {
  content =
      tool_use (record {
        id = "2";
        name = "write_output";
        input = field "markdown" (str "# Report") (
            field "sidecar" (obj (field "skill" (str "post-call") (field "title" (str "Call") end)))
              end);
      })
      ∷ tool_use (record { id = "3"; name = "finish"; input = end })
      ∷ [];
  model = "claude-b";
  stop_reason = some "tool_use";
  usage = usage;
}

abbrev pub turn : MessageResponse → Turn
turn r = record {
  is_cancelled = false;
  now = 0;
  race = record { deadline = false; cancel = false; request = some (response r) };
}

abbrev pub turns : ℕ → Turn
turns zero = turn writes
turns (suc n) = turn searches

abbrev pub no_output : OutputDir
no_output = record { output_md = none; sidecar_json = none }

abbrev pub executed : Executed ℤ
executed = execute host job 2 false turns no_output

abbrev state_or : State → Option State → State
state_or s none = s
state_or s (some t) = t

-- The state at the end.
abbrev pub final_state : State
final_state = state_or (start job "" [] no_output) executed.final

pub reaches : executed.final ≡ some final_state
unfolding execute run_tool search_transcript_input write_output_input empty_input
reaches = refl

writes_report : last_written final_state.ran ≡ some ("# Report", report_sidecar)
unfolding execute run_tool search_transcript_input write_output_input empty_input last_written
    written_by
writes_report = refl

reads_back :
    (t : State) (m : String) (sc : Sidecar)
    → executed.final ≡ some t
    → last_written t.ran ≡ some (m, sc)
    → ReadsBack host sc
reads_back t m sc e w =
    let same : report_sidecar ≡ sc = cc (e, reaches, writes_report, w) in
    ap (λ x. some (obj (sidecar_json x))) same

abbrev report : RuntimeResult ℤ
report = record {
  output_artifact = some "# Report";
  sidecar = some report_sidecar;
  execution_metadata = record {
    runtime_version = some "1";
    model = some "claude-b";
    token_usage = record {
      input_tokens = pos 6;
      output_tokens = pos 10;
      cache_creation_input_tokens = none;
      cache_read_input_tokens = some (pos 4);
      total_tokens = pos 20;
    };
    cost = none;
  };
  failure = none;
}

reports : executed.result ≡ ok report
unfolding execute run_tool search_transcript_input write_output_input empty_input mode_eqb ◌+ℤ◌
    universal_newlines
reports = refl

execute-requests_example :
    (length final_state.sent ≤ 2)
    × NumberedFrom 0 final_state.sent
    × All (IsRequest job (tool_definitions job.allowlist.tools)) final_state.sent
execute-requests_example = execute-requests ℤ host job 2 false turns no_output final_state reaches

execute_success_example :
    (s : State) × (markdown : String) × (sc : Sidecar) × (executed.final ≡ some s)
    × (last_written s.ran ≡ some (markdown, sc))
    × Delivers job s markdown sc report
    × All (λ (t : ToolUse). contains t.name job.allowlist.tools ≡ true) s.ran
execute_success_example =
    execute_success host job 2 false turns no_output report reads_back reports refl

execute-sums_example :
    (s : State) × (executed.final ≡ some s)
    × Counts (sums s.responses) report.execution_metadata.token_usage
    × (report.execution_metadata.model ≡ some (last_model job.requested_model s.responses))
execute-sums_example = execute-sums host job 2 false turns no_output report reads_back reports refl

abbrev budget : SearchInput
budget = record { query = "budget"; max_results = pos 10 }

reads_query : search_transcript_input host.to_int query ≡ some budget
unfolding search_transcript_input
reads_query = refl

run_tool-search_example :
    (run_tool host job "hello\nbudget"
        (record { id = "1"; name = "search_transcript"; input = query })
        no_output
      ≡ (
        ok (
            content (
              or_no_matches
                (first 10 (matches_from host.lower "budget" 1 (splitlines "hello\nbudget"))))),
        no_output,
      ))
    × (1 ≤ 10)
    × (10 ≤ 100)
run_tool-search_example =
    run_tool-search host job "hello\nbudget" "1" query budget no_output reads_query

abbrev report_input : WriteInput
report_input = record {
  markdown = "# Report";
  sidecar = field "skill" (str "post-call") (field "title" (str "Call") end);
}

abbrev report_totals : TokenTotals
report_totals = record { input = pos 6; output = pos 10; creation = pos 0; read = pos 4 }

collect_result-write_output_example :
    let (said, after) = write_output host job "hello" report_input no_output in
    (said ≡ ok (content "Output written"))
    × ((r : RuntimeResult ℤ) × (collect_result job "claude-b" report_totals host after ≡ ok r)
        × (r.output_artifact ≡ some "# Report")
        × (r.sidecar ≡ some report_sidecar)
        × (r.failure ≡ none))
unfolding sidecar_of matches_job mode_eqb universal_newlines
collect_result-write_output_example =
    collect_result-write_output host job "hello" report_input report_sidecar no_output "claude-b"
      report_totals refl refl refl
      (record {
        input = omega arith;
        output = omega arith;
        creation = omega arith;
        read = omega arith;
      })
