-- ===== src/Agent/Messages.antt =====
-- The messages of the conversation with the model, as the harness reads and writes them.
use se_skills.Prelude.{ℕ, String, Option, List}
use se_skills.Prelude.Int.{ℤ}
use se_skills.Json.{Fields}

pub record ToolUse : Type 0 where
  pub id : String
  pub name : String
  pub input : Fields

-- One content block of a model's answer: `TextBlock`, `ToolUseBlock`, or a block of another type,
-- which the harness passes back as it came.
pub data Block : Type 0 where
  text : String → Block
  tool_use : ToolUse → Block
  other : Fields → Block

-- `ToolResultBlock`
pub record ToolResult : Type 0 where
  pub tool_use_id : String
  pub content : String

-- `Message`: a question of the harness, an answer of the model, or the results of its tools.
pub data Message : Type 0 where
  user_text : String → Message
  assistant : List Block → Message
  user_results : List ToolResult → Message

pub record Usage : Type 0 where
  pub input_tokens : ℤ
  pub output_tokens : ℤ
  pub cache_creation_input_tokens : Option ℤ
  pub cache_read_input_tokens : Option ℤ

pub record MessageResponse : Type 0 where
  pub content : List Block
  pub model : String
  pub stop_reason : Option String
  pub usage : Usage

pub record ToolDefinition : Type 0 where
  pub name : String
  pub description : String

-- `MessageRequest`, with the number of its header `x-request-seq`.
pub record MessageRequest : Type 0 where
  pub seq : ℕ
  pub model : String
  pub max_tokens : ℕ
  pub system : String
  pub messages : List Message
  pub tools : List ToolDefinition
