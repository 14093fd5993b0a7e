-- ===== src/Agent/Execute.antt =====
-- `TypedToolRuntime.execute`: its guards, the loop, and the result.
use Prim.Native.String.{◌++◌ as ◌+s◌}
use se_skills.Prelude.{
  ℕ, String, Bool, false, not, Option, none, some, List, [], ◌∷◌, ◌++◌, ◌==◌, contains,
  if◌then◌else◌,
}
use se_skills.Prelude.Int.{pos}
use se_skills.Prelude.Text.{show_ℕ, sorted, join, rstrip_slash}
use se_skills.Prelude.Result.{Result, raised, unicode_error}
use se_skills.Contract.Job.{RuntimeJob, NetworkDestination}
use se_skills.Contract.Modes.{Mode, full, brief}
use se_skills.Contract.Result.{
  RuntimeResult, runtime_failure, cancelled, input_error, configuration_error, output_error,
}
use se_skills.Agent.Messages.{user_text}
use se_skills.Agent.Host.{Host, file, no_file, OutputDir, Turn, is_within}
use se_skills.Agent.Tools.{tool_definitions}
use se_skills.Agent.Collect.{collect_result}
use se_skills.Agent.Loop.{State, Flow, leave, next, fail, crash, loop}

-- A file under the input directory by its reference: its text, if it is UTF-8.
unfoldable pub file_at : Host → RuntimeJob → String → Option (Option String)
unfolding is_within
file_at host job ref =
    if host.input_exists
    then if is_within job.input_workspace ref
      then elim (host.node ref) [ file t ↦ some t | no_file ↦ none ]
      else none
    else none

abbrev pub both : {A : Type 0} → Option A → Option (List A) → Option (List A)
both none rest = none
both (some t) none = none
both (some t) (some ts) = some (t ∷ ts)

-- `_prior_paths`: all of the files, or none.
unfoldable pub files_at : Host → RuntimeJob → List String → Option (List (Option String))
unfolding file_at
files_at host job [] = if host.input_exists then some [] else none
files_at host job (ref ∷ refs) = both (file_at host job ref) (files_at host job refs)

-- `[p.read_text(encoding="utf-8") for p in prior_paths]`; `none` stands for the UnicodeDecodeError
unfoldable pub read_all : List (Option String) → Option (List String)
read_all [] = some []
read_all (t ∷ ts) = elim t [ none ↦ none | some x ↦ both (some x) (read_all ts) ]

-- `str(destination)`
unfoldable pub show_destination : NetworkDestination → String
unfolding show_ℕ
show_destination d =
    d.scheme
    +s "://"
    +s d.host
    +s elim d.port [ none ↦ "" | some p ↦ ":" +s show_ℕ p ]
    +s d.path_prefix

-- `_proxy_base_url`: `none` stands for the RuntimeError
unfoldable pub proxy_base_url : List NetworkDestination → Option String
unfolding show_destination
proxy_base_url [] = none
proxy_base_url (d ∷ []) = some (show_destination d)
proxy_base_url (d ∷ e ∷ ds) = none

-- The base URL of the client that the runtime uses.
abbrev pub client_base_url : Host → String → String
client_base_url host url = elim host.model_client [ none ↦ host.default_base_url url | some u ↦ u ]

-- `_base_url_mismatch`
unfoldable pub base_url_mismatch : String → String → Bool
unfolding rstrip_slash
base_url_mismatch base proxy = not (rstrip_slash base == rstrip_slash proxy)

unfoldable pub system_prompt : RuntimeJob → String
system_prompt job =
    "You are an SE assistant executing the '" +s job.skill +s "' skill version "
    +s job.skill_version
    +s ". Read the provided transcript and prior context, then produce a Markdown report. Use only the provided tools. Do not emit shell commands, browser automation, git operations, or arbitrary HTTP requests."

abbrev pub show_mode : Mode → String
show_mode full = "full"
show_mode brief = "brief"

abbrev pub prior_parts : List String → List String
prior_parts [] = []
prior_parts (t ∷ ts) = "\nPrior context:" ∷ t ∷ ts

unfoldable pub user_prompt : RuntimeJob → String → List String → String
unfolding join
user_prompt job transcript priors = join "\n" (
    "Transcript:" ∷ transcript ∷ prior_parts priors
    ++ ("\nProduce a '"
        +s show_mode job.mode
        +s "' post-call output and then call the finish tool. Use write_output to write the Markdown and sidecar first if needed.")
      ∷ [])

abbrev pub start : RuntimeJob → String → List String → OutputDir → State
start job transcript priors out = record {
  request_seq = 0;
  messages = user_text (user_prompt job transcript priors) ∷ [];
  totals = record { input = pos 0; output = pos 0; creation = pos 0; read = pos 0 };
  model_name = job.requested_model;
  output_written = false;
  output = out;
  sent = [];
  responses = [];
  ran = [];
}

-- What `execute` returns or raises, and the loop's state when it does, if the loop was entered.
pub record Executed (Cost : Type 0) : Type 0 where
  pub result : Result (RuntimeResult Cost)
  pub final : Option State

abbrev pub refuse_with : {Cost : Type 0} → Result (RuntimeResult Cost) → Executed Cost
refuse_with r = record { result = r; final = none }

module _ {Cost : Type 0} (host : Host) (job : RuntimeJob) where
  -- After the loop was left.
  unfoldable pub after_loop : State → Executed Cost
  unfolding collect_result runtime_failure
  after_loop s = record {
    result =
        if s.output_written
        then collect_result job s.model_name s.totals host s.output
        else runtime_failure output_error;
    final = some s;
  }

  -- What follows the loop: it never ends by `next`, which is read as leaving it.
  unfoldable pub conclude : Flow → Executed Cost
  unfolding after_loop runtime_failure
  conclude (leave s) = after_loop s
  conclude (next s) = after_loop s
  conclude (fail s f) = record { result = runtime_failure f; final = some s }
  conclude (crash s e) = record { result = raised e; final = some s }

  -- The client is settled: the loop runs from the first message.
  unfoldable pub run_turns : ℕ → (ℕ → Turn) → String → List String → OutputDir → Executed Cost
  unfolding loop conclude tool_definitions system_prompt user_prompt
  run_turns max_turns turns transcript priors out = conclude (
      loop host job transcript (system_prompt job) (tool_definitions job.allowlist.tools) max_turns
        turns (start job transcript priors out))

  abbrev pub connect : Option String → Executed Cost → Executed Cost
  connect none ready = refuse_with (runtime_failure configuration_error)
  connect (some url) ready =
      if base_url_mismatch (client_base_url host url) url
      then refuse_with (runtime_failure configuration_error)
      else ready

  abbrev pub read_priors :
      String → Option (List String) → (String → List String → Executed Cost) → Executed Cost
  read_priors transcript none go = refuse_with (raised unicode_error)
  read_priors transcript (some priors) go = go transcript priors

  abbrev pub read_transcript :
      Option String → List (Option String) → (String → List String → Executed Cost) → Executed Cost
  read_transcript none priors go = refuse_with (raised unicode_error)
  read_transcript (some t) priors go = read_priors t (read_all priors) go

  abbrev pub gather :
      Option (Option String)
      → Option (List (Option String))
      → (String → List String → Executed Cost)
      → Executed Cost
  gather none priors go = refuse_with (runtime_failure input_error)
  gather (some t) priors go =
      if contains job.input_manifest.transcript_ref job.input_manifest.prior_context_refs
      then refuse_with (runtime_failure input_error)
      else elim priors [
        | none ↦ refuse_with (runtime_failure input_error)
        | some ps ↦ read_transcript t ps go
      ]

  -- `cancelled` is the token at the call; `out` is what the output directory holds then.
  unfoldable pub execute : ℕ → Bool → (ℕ → Turn) → OutputDir → Executed Cost
  unfolding file_at files_at read_all proxy_base_url base_url_mismatch run_turns runtime_failure
  execute max_turns cancelled_before turns out =
      if cancelled_before
      then refuse_with (runtime_failure cancelled)
      else gather (file_at host job job.input_manifest.transcript_ref)
          (files_at host job (sorted job.input_manifest.prior_context_refs))
          λ transcript priors.
            connect (proxy_base_url job.allowlist.network)
              (run_turns max_turns turns transcript priors out)
