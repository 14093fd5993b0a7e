-- ===== src/Agent/Tools.antt =====
-- `_tool_definitions`, and `_run_tool`: one typed tool, its result for the model, and the files that
-- it writes.
use Prim.Native.String.{◌++◌ as ◌+s◌}
use text.Mathlib.Text.{find?}
use se_skills.Prelude.{
  ℕ, ◌+◌, String, Option, none, some, List, [], ◌∷◌, ◌++◌, ◌==◌, leb, contains, length, is_some,
  if◌then◌else◌,
}
use se_skills.Prelude.Int.{pos, pos_part}
use se_skills.Prelude.Text.{take, strip, show_ℕ, sorted, splitlines, join}
use se_skills.Prelude.Result.{Result, ok, raised, unicode_error}
use se_skills.Json.{str, int, arr, obj, Items, nil, cons, end, field}
use se_skills.Contract.Job.{RuntimeJob}
use se_skills.Contract.Result.{
  FailureCategory, input_error, output_error, model_error, tool_input_error, unknown_tool,
}
use se_skills.Agent.Messages.{ToolUse, ToolDefinition}
use se_skills.Agent.Host.{Host, Node, file, no_file, OutputDir, is_within}
use se_skills.Agent.Inputs.{
  empty_input, read_prior_context_input, SearchInput, search_transcript_input, WriteInput,
  write_output_input, report_failure_input, sidecar_of, sidecar_json,
}

abbrev pub tool_descriptions : List (String × String)
tool_descriptions =
    ("read_transcript", "Read the full transcript. Returns the transcript text.")
    ∷ ("read_prior_context", "Read an approved prior-context file by its manifest reference id.")
    ∷ ("list_priors", "List the manifest reference ids of available prior-context files.")
    ∷ ("search_transcript", "Search the transcript for a keyword and return matching line ranges.")
    ∷ ("write_output", "Write the final Markdown report and sidecar to the output workspace.")
    ∷ ("finish", "Signal that the report is complete.")
    ∷ ("report_failure", "Report a non-recoverable failure with a redacted model-report category.")
    ∷ []

abbrev description_of : String → List (String × String) → Option String
description_of name [] = none
description_of name ((k, d) ∷ rest) = if k == name then some d else description_of name rest

-- The definitions of the names that have one.
unfoldable pub defined : List String → List ToolDefinition
defined [] = []
defined (name ∷ names) =
    let rest = defined names in
    elim (description_of name tool_descriptions) [
      | none ↦ rest
      | some d ↦ record { name = name; description = d } ∷ rest
    ]

-- `_tool_definitions`: a name is the key of its definition, so sorting the names sorts these.
unfoldable pub tool_definitions : List String → List ToolDefinition
unfolding sorted defined
tool_definitions allowed = defined (sorted allowed)

-- What a tool gives back: text for the model, or a failure that ends the attempt.
pub data ToolOutcome : Type 0 where
  content : String → ToolOutcome
  failed : FailureCategory → ToolOutcome

abbrev pub parsed :
    {A : Type 0}
    → Option A
    → (A → Result ToolOutcome × OutputDir)
    → OutputDir
    → Result ToolOutcome × OutputDir
parsed none run out = (ok (failed tool_input_error), out)
parsed (some a) run out = run a

-- `f"Line {i}: {line.strip()[:200]}"`
unfoldable pub match_line : ℕ → String → String
unfolding show_ℕ take strip
match_line i line = "Line " +s show_ℕ i +s ": " +s take 200 (strip line)

-- The loop over the lines: it stops once it has enough matches.
unfoldable pub search_lines :
    (String → String) → String → ℕ → ℕ → List String → List String → List String
unfolding match_line
search_lines lower query limit i matches [] = matches
search_lines lower query limit i matches (line ∷ lines) =
    let found =
      if is_some (find? (lower line) query) then matches ++ match_line i line ∷ [] else matches in
    let rest = search_lines lower query limit (i + 1) found lines in
    if leb limit (length found) then found else rest

abbrev pub or_no_matches : List String → String
or_no_matches [] = "No matches"
or_no_matches (m ∷ ms) = join "\n" (m ∷ ms)

-- `[{"ref": ref, "index": i} for i, ref in enumerate(refs)]`
unfoldable pub listed : ℕ → List String → Items
listed i [] = nil
listed i (ref ∷ refs) =
    cons (obj (field "ref" (str ref) (field "index" (int (pos i)) end))) (listed (i + 1) refs)

-- Reads a file that is known to be one; text that is no UTF-8 raises.
unfoldable pub read_text : Node → ℕ → Result ToolOutcome
unfolding take
read_text no_file limit = ok (failed input_error)
read_text (file none) limit = raised unicode_error
read_text (file (some t)) limit = ok (content (take limit t))

module _ (host : Host) (job : RuntimeJob) (transcript : String) where
  unfoldable pub search_transcript : SearchInput → String
  unfolding search_lines splitlines
  search_transcript q = or_no_matches (
      search_lines host.lower (host.lower q.query) (pos_part q.max_results) 1 []
        (splitlines transcript))

  unfoldable pub read_prior : String → Result ToolOutcome
  unfolding is_within read_text
  read_prior ref =
      if contains ref job.input_manifest.prior_context_refs
      then if is_within job.input_workspace ref
        then read_text (host.node ref) 100_000
        else ok (failed input_error)
      else ok (failed input_error)

  unfoldable pub write_output : WriteInput → OutputDir → Result ToolOutcome × OutputDir
  unfolding sidecar_of sidecar_json
  write_output w out = elim (sidecar_of w.sidecar) [
    | none ↦ (ok (failed output_error), out)
    | some s ↦ (
      ok (content "Output written"),
      record {
        output_md = some (some w.markdown);
        sidecar_json = some (some (host.dumps (obj (sidecar_json s))));
      },
    )
  ]

  -- `_run_tool`
  unfoldable pub run_tool : ToolUse → OutputDir → Result ToolOutcome × OutputDir
  unfolding search_transcript read_prior write_output
  run_tool t out =
      if t.name == "read_transcript"
      then parsed (empty_input t.input) (λ _. (ok (content (take 500_000 transcript)), out)) out
      else if t.name == "read_prior_context"
      then parsed (read_prior_context_input t.input) (λ ref. (read_prior ref, out)) out
      else if t.name == "list_priors"
      then parsed (empty_input t.input)
          (λ _. (
            ok (
                content
                  (host.dumps (arr (listed 0 (sorted job.input_manifest.prior_context_refs))))),
            out,
          ))
          out
      else if t.name == "search_transcript"
      then parsed (search_transcript_input host.to_int t.input)
          (λ q. (ok (content (search_transcript q)), out)) out
      else if t.name == "write_output"
      then parsed (write_output_input t.input) (λ w. write_output w out) out
      else if t.name == "finish"
      then parsed (empty_input t.input) (λ _. (ok (content "Finished"), out)) out
      else if t.name == "report_failure"
      then parsed (report_failure_input t.input) (λ _. (ok (failed model_error), out)) out
      else (ok (failed unknown_tool), out)
