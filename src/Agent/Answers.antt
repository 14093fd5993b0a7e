-- ===== src/Agent/Answers.antt =====
-- What running the tools of a turn keeps of the state, and the results that it adds.
use se_skills.Prelude.{
  ℕ, ◌≡◌, refl, sym, ◌∙◌, ap, String, Bool, false, List, [], ◌∷◌, ◌++◌, map, contains,
}
use mathlib.Core.List.{append-nil}
use se_skills.Contract.Job.{RuntimeJob}
use se_skills.Agent.Messages.{
  ToolUse, ToolResult, Message, user_results, MessageRequest, MessageResponse,
}
use se_skills.Agent.Host.{Host}
use se_skills.Agent.Tools.{run_tool}
use se_skills.Agent.Collect.{TokenTotals}
use se_skills.Agent.Loop.{State, run_tools}
use se_skills.Agent.Turns.{Ends, Ends-map, after_tool-Ends, if-Ends}

-- What the tools of a turn leave alone.
pub record Kept (seq : ℕ) (sent : List MessageRequest) (totals : TokenTotals) (model : String)
    (responses : List MessageResponse) (t : State) : Type 0 where
  pub same_seq : t.request_seq ≡ seq
  pub same_sent : t.sent ≡ sent
  pub same_totals : t.totals ≡ totals
  pub same_model : t.model_name ≡ model
  pub same_responses : t.responses ≡ responses

-- The messages `ms` and then one result for each of the identifiers, in their order.
abbrev pub Answers : List Message → List String → List Message → Type 0
Answers ms ids after =
    (rs : List ToolResult) × (after ≡ ms ++ user_results rs ∷ [])
    × (map (λ (r : ToolResult). r.tool_use_id) rs ≡ ids)

abbrev pub ids_of : List ToolUse → List String
ids_of ts = map (λ (t : ToolUse). t.id) ts

abbrev pub results_of : List ToolResult → List String
results_of rs = map (λ (r : ToolResult). r.tool_use_id) rs

pub results_of-snoc :
    (rs : List ToolResult) (r : ToolResult) (ids : List String)
    → results_of (rs ++ r ∷ []) ++ ids ≡ results_of rs ++ r.tool_use_id ∷ ids
results_of-snoc [] r ids = refl
results_of-snoc (x ∷ rs) r ids = ap (λ xs. x.tool_use_id ∷ xs) (results_of-snoc rs r ids)

pub Kept-refl : (t : State) → Kept t.request_seq t.sent t.totals t.model_name t.responses t
Kept-refl t = record {
  same_seq = refl;
  same_sent = refl;
  same_totals = refl;
  same_model = refl;
  same_responses = refl;
}

module _ (host : Host) (job : RuntimeJob) (transcript : String) where
  pub run_tools-Answers :
      (ts : List ToolUse) (rs : List ToolResult) (finished : Bool) (s : State) (ids : List String)
      → results_of rs ++ ids_of ts ≡ ids
      → Ends
          (λ t.
            Kept s.request_seq s.sent s.totals s.model_name s.responses t
            × Answers s.messages ids t.messages)
          (Kept s.request_seq s.sent s.totals s.model_name s.responses)
          (run_tools host job transcript ts rs finished s)
  unfolding run_tools
  run_tools-Answers [] rs finished s ids h =
      if-Ends _ _ finished _ _ (Kept-refl (ended s))
        (Kept-refl (ended s), (rs, refl, sym (append-nil (results_of rs)) ∙ h))
    where
      ended : State → State
      ended s = record s { messages = s.messages ++ user_results rs ∷ [] }
  run_tools-Answers (t ∷ ts) rs finished s ids h =
      if-Ends _ _ (contains t.name job.allowlist.tools) _ _
        (after_tool-Ends _ _ (run_tool host job transcript t s.output).0 _ _ (Kept-refl (ran s))
          λ c e. run_tools-Answers ts _ _ _ ids (results_of-snoc rs _ (ids_of ts) ∙ h))
        (Kept-refl s)
    where
      ran : State → State
      ran s = record s {
        output = (run_tool host job transcript t s.output).1;
        ran = s.ran ++ t ∷ [];
      }

  -- What the tools of a turn lead to, from what they keep and add.
  pub run_tools-Keeps :
      (I J : State → Type 0) (ts : List ToolUse) (s : State)
      → ((t : State)
          → Kept s.request_seq s.sent s.totals s.model_name s.responses t
          → Answers s.messages (ids_of ts) t.messages
          → I t)
      → ((t : State) → Kept s.request_seq s.sent s.totals s.model_name s.responses t → J t)
      → Ends I J (run_tools host job transcript ts [] false s)
  run_tools-Keeps I J ts s f g =
      Ends-map
        (λ t.
          Kept s.request_seq s.sent s.totals s.model_name s.responses t
          × Answers s.messages (ids_of ts) t.messages)
        (Kept s.request_seq s.sent s.totals s.model_name s.responses) I J _
        (run_tools-Answers ts [] false s (ids_of ts) refl) (λ t h. f t h.0 h.1) g
