-- ===== src/Agent/Turns.antt =====
-- Induction over the loop's turns, and what running the tools of a turn leaves alone.
use se_skills.Prelude.{
  ℕ, ◌+◌, leb, zero, suc, ◌≡◌, refl, String, Bool, true, false, ◌||◌, List, [], ◌∷◌, ◌++◌, ◌==◌,
  contains, if◌then◌else◌, Bool-cases, inl, inr,
}
use se_skills.Prelude.Result.{Result, ok, raised}
use se_skills.Contract.Job.{RuntimeJob}
use se_skills.Agent.Messages.{ToolUse, ToolResult, assistant, MessageResponse, ToolDefinition}
use se_skills.Agent.Host.{Host, OutputDir, Turn}
use se_skills.Agent.Tools.{ToolOutcome, content, failed, run_tool}
use se_skills.Agent.Loop.{
  State, Flow, leave, next, fail, crash, onward, after_tool, run_tools, take_turn, loop, tool_uses,
  verdict, dispatch, refused, end_of_turn, add_usage, request_of, Awaited, answered, stopped,
  broken, Verdict, obey, receive, cancellable_await,
}

-- The state that a flow carries.
abbrev pub reached : Flow → State
reached (leave s) = s
reached (next s) = s
reached (fail s f) = s
reached (crash s e) = s

-- `I` holds when the loop goes on, and `J` when it ends.
abbrev pub Ends {ℓ} : (State → Type ℓ) → (State → Type ℓ) → Flow → Type ℓ
Ends I J (leave s) = J s
Ends I J (next s) = I s
Ends I J (fail s f) = J s
Ends I J (crash s e) = J s

-- The state with a response's usage and model, and then with its message.
abbrev pub heard : MessageResponse → State → State
heard r s = record s {
  model_name = r.model;
  totals = add_usage r.usage s.totals;
  responses = s.responses ++ r ∷ [];
}

abbrev pub answered_by : MessageResponse → State → State
answered_by r s = record s { messages = s.messages ++ assistant r.content ∷ [] }

pub Ends-map {ℓ} :
    (I J K L : State → Type ℓ) (k : Flow)
    → Ends I J k
    → ((s : State) → I s → K s)
    → ((s : State) → J s → L s)
    → Ends K L k
Ends-map I J K L (leave s) e f g = g s e
Ends-map I J K L (next s) e f g = f s e
Ends-map I J K L (fail s x) e f g = g s e
Ends-map I J K L (crash s x) e f g = g s e

pub onward-Ends {ℓ} :
    (I J : State → Type ℓ) (k : Flow) (go : State → Flow)
    → Ends I J k
    → ((s : State) → I s → J (reached (go s)))
    → J (reached (onward k go))
onward-Ends I J (leave s) go e h = e
onward-Ends I J (next s) go e h = h s e
onward-Ends I J (fail s f) go e h = e
onward-Ends I J (crash s x) go e h = e

pub after_tool-Ends {ℓ} :
    (I J : State → Type ℓ) (r : Result ToolOutcome) (s : State) (rest : String → Flow)
    → J s
    → ((c : String) → r ≡ ok (content c) → Ends I J (rest c))
    → Ends I J (after_tool r s rest)
after_tool-Ends I J (ok (content c)) s rest j h = h c refl
after_tool-Ends I J (ok (failed f)) s rest j h = j
after_tool-Ends I J (raised e) s rest j h = j

pub if-Ends {ℓ} :
    (I J : State → Type ℓ) (b : Bool) (x y : Flow)
    → Ends I J x
    → Ends I J y
    → Ends I J (if b then x else y)
if-Ends I J true x y hx hy = hx
if-Ends I J false x y hx hy = hy

module _ (host : Host) (job : RuntimeJob) (transcript : String) where
  obey-Ends {ℓ} :
      (I J : State → Type ℓ) (v : Verdict) (r : MessageResponse) (s : State)
      → J s
      → (v ≡ dispatch
          → Ends I J
              (run_tools host job transcript (tool_uses r.content) [] false (answered_by r s)))
      → Ends I J (obey host job transcript v r s)
  obey-Ends I J refused r s j h = j
  obey-Ends I J end_of_turn r s j h = j
  obey-Ends I J dispatch r s j h = h refl

  receive-Ends {ℓ} :
      (I J : State → Type ℓ) (a : Awaited) (s : State)
      → J s
      → ((r : MessageResponse) → J (heard r s))
      → ((r : MessageResponse)
          → verdict r.stop_reason (tool_uses r.content) ≡ dispatch
          → Ends I J (
              run_tools host job transcript
                (tool_uses r.content)
                []
                false
                (answered_by r (heard r s))))
      → Ends I J (receive host job transcript a s)
  unfolding receive
  receive-Ends I J broken s j hears runs = j
  receive-Ends I J (stopped f) s j hears runs = j
  receive-Ends I J (answered r) s j hears runs =
      obey-Ends I J (verdict r.stop_reason (tool_uses r.content)) r (heard r s) (hears r) (runs r)

  module _ (system : String) (tools : List ToolDefinition) where
    pub loop-Ends {ℓ} :
        (I J : State → Type ℓ)
        → ((s : State) → I s → J s)
        → ((turn : Turn) (s : State)
            → I s
            → Ends I J (take_turn host job transcript system tools turn s))
        → (n : ℕ) (turns : ℕ → Turn) (s : State) → I s
        → J (reached (loop host job transcript system tools n turns s))
    unfolding loop
    loop-Ends I J weaken step zero turns s h = weaken s h
    loop-Ends I J weaken step (suc n) turns s h =
        onward-Ends I J (take_turn host job transcript system tools (turns n) s) _
          (step (turns n) s h) (λ s' i. loop-Ends I J weaken step n turns s' i)

    -- The state once the request of a turn was sent.
    abbrev pub asked : State → State
    asked s = record s {
      request_seq = s.request_seq + 1;
      sent = s.sent ++ request_of host job transcript system tools s ∷ [];
    }

    -- What a turn leads to, from what each of its stages leads to.
    pub take_turn-Ends {ℓ} :
        (I J : State → Type ℓ) (turn : Turn) (s : State)
        → J s
        → J (asked s)
        → ((r : MessageResponse) → J (heard r (asked s)))
        → ((r : MessageResponse)
            → verdict r.stop_reason (tool_uses r.content) ≡ dispatch
            → Ends I J (
                run_tools host job transcript
                  (tool_uses r.content)
                  []
                  false
                  (answered_by r (heard r (asked s)))))
        → Ends I J (take_turn host job transcript system tools turn s)
    unfolding take_turn
    take_turn-Ends I J turn s before after hears runs = if-Ends I J turn.is_cancelled _ _ before (
        if-Ends I J (leb job.execution_deadline turn.now) _ _ before
          (receive-Ends I J (cancellable_await turn.race) (asked s) after hears runs))

  -- What holds of the tools that ran, the files and the flag through the tools of a turn, from what
  -- one tool keeps.
  pub run_tools-Ends {ℓ} :
      (I J : List ToolUse → OutputDir → Bool → Type ℓ)
      → ((ran : List ToolUse) (out : OutputDir) (w : Bool) → I ran out w → J ran out w)
      → ((t : ToolUse) (ran : List ToolUse) (out : OutputDir) (w : Bool)
          → contains t.name job.allowlist.tools ≡ true
          → I ran out w
          → J (ran ++ t ∷ []) (run_tool host job transcript t out).1 w
            × ((c : String)
                → (run_tool host job transcript t out).0 ≡ ok (content c)
                → I
                    (ran ++ t ∷ [])
                    (run_tool host job transcript t out).1
                    (w || t.name == "write_output")))
      → (ts : List ToolUse) (rs : List ToolResult) (finished : Bool) (s : State)
      → I s.ran s.output s.output_written
      → Ends
          (λ s'. I s'.ran s'.output s'.output_written)
          (λ s'. J s'.ran s'.output s'.output_written)
          (run_tools host job transcript ts rs finished s)
  unfolding run_tools
  run_tools-Ends I J weaken step [] rs true s h = weaken _ _ _ h
  run_tools-Ends I J weaken step [] rs false s h = h
  run_tools-Ends I J weaken step (t ∷ ts) rs finished s h =
      elim (Bool-cases (contains t.name job.allowlist.tools)) [
        | inr other ↦ rw other (weaken _ _ _ h)
        | inl allowed ↦
            let k = step t s.ran s.output s.output_written allowed h in
            rw allowed (
              after_tool-Ends _ _ (run_tool host job transcript t s.output).0 _ _ k.0
                λ c e. run_tools-Ends I J weaken step ts _ _ _ (k.1 c e))
      ]
