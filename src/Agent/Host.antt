-- ===== src/Agent/Host.antt =====
-- What surrounds the harness: the sandbox's files, the clock, the race of each model call, and the
-- library functions that it calls.
use se_skills.Prelude.{ℕ, String, Bool, Option, ◌==◌, ◌||◌, not}
use se_skills.Prelude.Int.{ℤ}
use se_skills.Json.{Json}
use text.Mathlib.Text.{starts_with}
use Prim.Native.String.{◌++◌ as ◌+s◌}
use se_skills.Agent.Messages.{MessageResponse}

-- A path under the input directory: a file, with what `read_text` gives of it if it is UTF-8, or no
-- file.
pub data Node : Type 0 where
  file : Option String → Node
  no_file : Node

-- The two files of the output directory, each with the text that it holds if that is UTF-8.
pub record OutputDir : Type 0 where
  pub output_md : Option (Option String)
  pub sidecar_json : Option (Option String)

-- `candidate.relative_to(input_dir)` for `candidate = input_dir / ref`: an absolute `ref` replaces
-- the directory when it is joined.
unfoldable pub is_within : String → String → Bool
is_within dir ref = not (starts_with ref "/") || ref == dir || starts_with ref (dir +s "/")

-- `_call_proxy`: a parsed response, or any exception.
pub data Called : Type 0 where
  response : MessageResponse → Called
  error : Called

-- The tasks that `asyncio.wait` finds done, at least one of them.
pub record Race : Type 0 where
  pub deadline : Bool
  pub cancel : Bool
  pub request : Option Called

-- What one turn finds: the cancellation flag and the time at its start, and its race.
pub record Turn : Type 0 where
  pub is_cancelled : Bool
  pub now : ℕ
  pub race : Race

pub record Host : Type 0 where
  pub input_exists : Bool
  pub node : String → Node
  -- the base URL of the client given to the runtime, and of the one that it builds for a URL
  pub model_client : Option String
  pub default_base_url : String → String
  -- str.lower, json.dumps, json.loads of a text, and the integers of the tool inputs
  pub lower : String → String
  pub dumps : Json → String
  pub loads : String → Option Json
  pub to_int : Json → Option ℤ
