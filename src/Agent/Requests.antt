-- ===== src/Agent/Requests.antt =====
-- The requests of an attempt: their numbers, what every one holds, and the conversation in it.
use se_skills.Prelude.{
  ℕ, zero, suc, ◌+◌, ◌≤◌, ◌≡◌, ◌≢◌, refl, sym, ◌∙◌, ap, String, List, [], ◌∷◌, ◌++◌, arith, All,
  length, length-append, Option,
}
use mathlib.Core.List.{append_assoc}
use se_skills.Contract.Job.{RuntimeJob}
use se_skills.Agent.Messages.{
  ToolResult, Block, Message, user_text, assistant, user_results, MessageRequest, MessageResponse,
  ToolDefinition,
}
use se_skills.Agent.Host.{Host, Turn}
use se_skills.Agent.Loop.{State, take_turn, loop, tool_uses, verdict, dispatch, request_of}
use se_skills.Agent.Turns.{reached, Ends, Ends-map, onward-Ends, asked, take_turn-Ends, loop-Ends}
use se_skills.Agent.Answers.{ids_of, results_of, run_tools-Keeps}

-- A conversation that a question opens: each answer of the model uses tools, and is followed by one
-- result for each of them, in their order.
pub data Conversation : List Message → Type 0 where
  opening : (question : String) → Conversation (user_text question ∷ [])
  exchange :
      (ms : List Message) (blocks : List Block) (results : List ToolResult)
      → Conversation ms
      → tool_uses blocks ≢ []
      → results_of results ≡ ids_of (tool_uses blocks)
      → Conversation (ms ++ assistant blocks ∷ user_results results ∷ [])

-- What every request of the job holds.
pub record IsRequest (job : RuntimeJob) (tools : List ToolDefinition) (r : MessageRequest)
    : Type 0 where
  pub right_model : r.model ≡ job.requested_model
  pub right_tools : r.tools ≡ tools
  pub conversation : Conversation r.messages

-- The requests are numbered by ones, from the number after `k`.
abbrev pub NumberedFrom : ℕ → List MessageRequest → Type 0
NumberedFrom k [] = Unit
NumberedFrom k (r ∷ rs) = (r.seq ≡ k + 1) × NumberedFrom (k + 1) rs

NumberedFrom-snoc :
    (k : ℕ) (rs : List MessageRequest) (r : MessageRequest)
    → NumberedFrom k rs
    → r.seq ≡ k + length rs + 1
    → NumberedFrom k (rs ++ r ∷ [])
NumberedFrom-snoc k [] r h e = (omega (arith, e), tt)
NumberedFrom-snoc k (x ∷ rs) r (h, hs) e = (h, NumberedFrom-snoc (k + 1) rs r hs (omega (arith, e)))

pub All-snoc {ℓ κ} :
    {A : Type ℓ} (P : A → Type κ) (xs : List A) (x : A) → All P xs → P x → All P (xs ++ x ∷ [])
All-snoc P [] x h p = (p, tt)
All-snoc P (y ∷ xs) x (q, h) p = (q, All-snoc P xs x h p)

verdict-dispatch : (reason : Option String) → verdict reason [] ≢ dispatch
unfolding verdict
verdict-dispatch reason e = ground arith

-- What holds of the requests so far, in a state that a turn starts from.
pub record Proper (job : RuntimeJob) (tools : List ToolDefinition) (s : State) : Type 0 where
  pub counted : s.request_seq ≡ length s.sent
  pub numbered : NumberedFrom 0 s.sent
  pub requests : All (IsRequest job tools) s.sent
  pub talk : Conversation s.messages

-- What holds of them in any state.
pub record Numbered (job : RuntimeJob) (tools : List ToolDefinition) (s : State) : Type 0 where
  pub numbered : NumberedFrom 0 s.sent
  pub requests : All (IsRequest job tools) s.sent

-- What holds after the request of a turn.
record Asked (job : RuntimeJob) (tools : List ToolDefinition) (seq : ℕ) (sent : List MessageRequest)
    : Type 0 where
  counted : seq ≡ length sent
  numbered : NumberedFrom 0 sent
  requests : All (IsRequest job tools) sent

module _ (host : Host) (job : RuntimeJob) (transcript : String) (system : String)
    (tools : List ToolDefinition) where
  Proper-Asked :
      (s : State)
      → Proper job tools s
      → Asked job tools (s.request_seq + 1) (asked host job transcript system tools s).sent
  Proper-Asked s p = record {
    counted = rw (length-append, p.counted) refl;
    numbered = NumberedFrom-snoc 0 s.sent _ p.numbered (omega (arith, p.counted));
    requests =
        All-snoc _ s.sent _ p.requests
          (record { right_model = refl; right_tools = refl; conversation = p.talk });
  }

  take_turn-Proper :
      (turn : Turn) (s : State)
      → Proper job tools s
      → Ends
          (Proper job tools)
          (Numbered job tools)
          (take_turn host job transcript system tools turn s)
  take_turn-Proper turn s p =
      take_turn-Ends host job transcript system tools _ _ turn s
        (record { numbered = p.numbered; requests = p.requests })
        (record { numbered = q.numbered; requests = q.requests })
        (λ r. record { numbered = q.numbered; requests = q.requests })
        λ r d.
          run_tools-Keeps host job transcript _ _ (tool_uses r.content) _
            (λ t kept (rs, after, ids). record {
              counted = kept.same_seq ∙ q.counted ∙ sym (ap length kept.same_sent);
              numbered = rw kept.same_sent q.numbered;
              requests = rw kept.same_sent q.requests;
              talk = rw after (spoken r rs d ids);
            })
            (λ t kept. record {
              numbered = rw kept.same_sent q.numbered;
              requests = rw kept.same_sent q.requests;
            })
    where
      q : Asked job tools (s.request_seq + 1) (asked host job transcript system tools s).sent
      q = Proper-Asked s p

      spoken :
          (r : MessageResponse) (rs : List ToolResult)
          → verdict r.stop_reason (tool_uses r.content) ≡ dispatch
          → results_of rs ≡ ids_of (tool_uses r.content)
          → Conversation ((s.messages ++ assistant r.content ∷ []) ++ user_results rs ∷ [])
      spoken r rs d ids = rw (append_assoc s.messages) (
          exchange s.messages r.content rs p.talk
            (λ e. verdict-dispatch r.stop_reason (ap (verdict r.stop_reason) (sym e) ∙ d)) ids)

  pub loop-Proper :
      (n : ℕ) (turns : ℕ → Turn) (s : State)
      → Proper job tools s
      → Numbered job tools (reached (loop host job transcript system tools n turns s))
  loop-Proper =
      loop-Ends host job transcript system tools _ _
        (λ s p. record { numbered = p.numbered; requests = p.requests }) take_turn-Proper

  -- One request a turn, at most.
  take_turn-length :
      (turn : Turn) (s : State)
      → Ends
          (λ t. length t.sent ≤ suc (length s.sent))
          (λ t. length t.sent ≤ suc (length s.sent))
          (take_turn host job transcript system tools turn s)
  take_turn-length turn s =
      take_turn-Ends host job transcript system tools _ _ turn s (omega arith) one (λ r. one)
        λ r d.
          run_tools-Keeps host job transcript _ _ (tool_uses r.content) _
            (λ t kept a. rw kept.same_sent one) (λ t kept. rw kept.same_sent one)
    where
      one : length (asked host job transcript system tools s).sent ≤ suc (length s.sent)
      one = omega (arith, length-append s.sent (request_of host job transcript system tools s ∷ []))

  pub loop-length :
      (n : ℕ) (turns : ℕ → Turn) (s : State)
      → length (reached (loop host job transcript system tools n turns s)).sent ≤ length s.sent + n
  unfolding loop
  loop-length zero turns s = omega arith
  loop-length (suc n) turns s =
      onward-Ends (λ t. length t.sent ≤ suc (length s.sent))
        (λ t. length t.sent ≤ length s.sent + suc n)
        (take_turn host job transcript system tools (turns n) s) _
        (Ends-map (λ t. length t.sent ≤ suc (length s.sent))
          (λ t. length t.sent ≤ suc (length s.sent)) (λ t. length t.sent ≤ suc (length s.sent))
          (λ t. length t.sent ≤ length s.sent + suc n) _ (take_turn-length (turns n) s) (λ t h. h)
          (λ t h. omega (arith, h)))
        λ t h. omega (arith, h, loop-length n turns t)
