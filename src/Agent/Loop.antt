-- ===== src/Agent/Loop.antt =====
-- The turns of `TypedToolRuntime.execute`.
use se_skills.Prelude.{
  ℕ, zero, suc, ◌+◌, String, Bool, false, ◌||◌, Option, none, some, List, [], ◌∷◌, ◌++◌, ◌==◌, leb,
  contains, is_empty, if◌then◌else◌,
}
use se_skills.Prelude.Int.{ℤ, ◌+ℤ◌}
use se_skills.Prelude.Result.{Result, ok, raised, Exception}
use se_skills.Contract.Job.{RuntimeJob}
use se_skills.Contract.Result.{FailureCategory, cancelled, timeout, model_error, forbidden_tool}
use se_skills.Agent.Messages.{
  ToolUse, Block, text, tool_use, other, ToolResult, Message, assistant, user_results, Usage,
  MessageResponse, ToolDefinition, MessageRequest,
}
use se_skills.Agent.Host.{Host, OutputDir, Called, response, error, Race, Turn}
use se_skills.Agent.Tools.{ToolOutcome, content, failed, run_tool}
use se_skills.Agent.Collect.{TokenTotals}

-- The variables of the loop, and what it has done so far: the requests that it sent, the responses
-- that it got and the tools that it ran, in order.
pub record State : Type 0 where
  pub request_seq : ℕ
  pub messages : List Message
  pub totals : TokenTotals
  pub model_name : String
  pub output_written : Bool
  pub output : OutputDir
  pub sent : List MessageRequest
  pub responses : List MessageResponse
  pub ran : List ToolUse

-- How the loop, or a part of it, goes on: it is left by `break`, the next round follows, or
-- `execute` returns a failure or raises.
pub data Flow : Type 0 where
  leave : State → Flow
  next : State → Flow
  fail : State → FailureCategory → Flow
  crash : State → Exception → Flow

-- The next round, if there is one.
abbrev pub onward : Flow → (State → Flow) → Flow
onward (leave s) go = leave s
onward (next s) go = go s
onward (fail s f) go = fail s f
onward (crash s e) go = crash s e

-- What a tool's result leads to.
abbrev pub after_tool : Result ToolOutcome → State → (String → Flow) → Flow
after_tool (ok (content c)) s rest = rest c
after_tool (ok (failed f)) s rest = fail s f
after_tool (raised e) s rest = crash s e

-- `_cancellable_await`: what it returns or raises, by the tasks that are done.
pub data Awaited : Type 0 where
  answered : MessageResponse → Awaited
  stopped : FailureCategory → Awaited
  broken : Awaited

abbrev pub request_result : Option Called → Awaited
request_result (some (response r)) = answered r
request_result (some error) = broken
request_result none = broken

-- The deadline task is there, since the time that remains is positive.
unfoldable pub cancellable_await : Race → Awaited
cancellable_await race =
    if race.deadline
    then stopped timeout
    else if race.cancel
    then stopped cancelled
    else request_result race.request

unfoldable pub add_cache : Option ℤ → ℤ → ℤ
add_cache none total = total
add_cache (some n) total = total +ℤ n

unfoldable pub add_usage : Usage → TokenTotals → TokenTotals
unfolding add_cache
add_usage u t = record {
  input = t.input +ℤ u.input_tokens;
  output = t.output +ℤ u.output_tokens;
  creation = add_cache u.cache_creation_input_tokens t.creation;
  read = add_cache u.cache_read_input_tokens t.read;
}

-- `[block for block in response.content if isinstance(block, ToolUseBlock)]`
unfoldable pub tool_uses : List Block → List ToolUse
tool_uses [] = []
tool_uses (tool_use t ∷ bs) = t ∷ tool_uses bs
tool_uses (text s ∷ bs) = tool_uses bs
tool_uses (other d ∷ bs) = tool_uses bs

-- Whether the turn runs tools, ends the loop, or is a model error.
pub data Verdict : Type 0 where
  dispatch end_of_turn refused : Verdict

unfoldable pub verdict : Option String → List ToolUse → Verdict
verdict none tools = refused
verdict (some reason) tools =
    if reason == "tool_use"
    then (if is_empty tools then refused else dispatch)
    else if reason == "end_turn" || reason == "stop_sequence"
    then (if is_empty tools then end_of_turn else refused)
    else refused

module _ (host : Host) (job : RuntimeJob) (transcript : String) where
  -- The `for tool in tool_use_blocks` loop with the results and the `finished` flag so far. At its
  -- end the results become a message.
  unfoldable pub run_tools : List ToolUse → List ToolResult → Bool → State → Flow
  run_tools [] results finished s =
      let s' = record s { messages = s.messages ++ user_results results ∷ [] } in
      if finished then leave s' else next s'
  run_tools (t ∷ ts) results finished s =
      let (result, out) = run_tool host job transcript t s.output in
      let s' = record s { output = out; ran = s.ran ++ t ∷ [] } in
      let rest = λ (c : String).
        run_tools ts (results ++ record { tool_use_id = t.id; content = c } ∷ [])
          (finished || t.name == "finish")
          (record s' { output_written = s'.output_written || t.name == "write_output" }) in
      if contains t.name job.allowlist.tools
      then after_tool result s' rest
      else fail s forbidden_tool

  -- What is done with a response.
  abbrev pub obey : Verdict → MessageResponse → State → Flow
  obey refused r s = fail s model_error
  obey end_of_turn r s = leave s
  obey dispatch r s =
      run_tools (tool_uses r.content) [] false
        (record s { messages = s.messages ++ assistant r.content ∷ [] })

  unfoldable pub receive : Awaited → State → Flow
  unfolding add_usage tool_uses verdict run_tools
  receive broken s = fail s model_error
  receive (stopped f) s = fail s f
  receive (answered r) s = obey (verdict r.stop_reason (tool_uses r.content)) r (record s {
    model_name = r.model;
    totals = add_usage r.usage s.totals;
    responses = s.responses ++ r ∷ [];
  })

  module _ (system : String) (tools : List ToolDefinition) where
    abbrev pub request_of : State → MessageRequest
    request_of s = record {
      seq = s.request_seq + 1;
      model = job.requested_model;
      max_tokens = 4096;
      system = system;
      messages = s.messages;
      tools = tools;
    }

    -- One round of the loop.
    unfoldable pub take_turn : Turn → State → Flow
    unfolding cancellable_await receive
    take_turn turn s =
        if turn.is_cancelled
        then fail s cancelled
        else if leb job.execution_deadline turn.now
        then fail s timeout
        else receive (cancellable_await turn.race)
            (record s { request_seq = s.request_seq + 1; sent = s.sent ++ request_of s ∷ [] })

    -- `for _turn in range(n)`, where `turns k` is what the k-th of the rounds left finds.
    unfoldable pub loop : ℕ → (ℕ → Turn) → State → Flow
    unfolding take_turn
    loop zero turns s = leave s
    loop (suc n) turns s = onward (take_turn (turns n) s) (λ s'. loop n turns s')
