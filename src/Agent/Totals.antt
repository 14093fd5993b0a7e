-- ===== src/Agent/Totals.antt =====
-- The token totals of an attempt, and the responses that it got.
use se_skills.Prelude.{
  ◌≡◌, refl, sym, ◌∙◌, ap, ℕ, ◌+◌, String, Option, none, some, List, [], ◌∷◌, ◌++◌,
}
use se_skills.Prelude.Int.{ℤ, pos, ◌+ℤ◌, +ℤ_zero, zero-+ℤ, +ℤ_assoc}
use se_skills.Contract.Job.{RuntimeJob}
use se_skills.Agent.Messages.{MessageRequest, MessageResponse, ToolDefinition}
use se_skills.Agent.Host.{Host, Turn}
use se_skills.Agent.Collect.{TokenTotals}
use se_skills.Agent.Loop.{State, add_cache, add_usage, take_turn, loop, tool_uses}
use se_skills.Agent.Turns.{reached, heard, asked, Ends, take_turn-Ends, loop-Ends}
use se_skills.Agent.Answers.{run_tools-Keeps, Kept}

abbrev count : Option ℤ → ℤ
count none = pos 0
count (some n) = n

-- One number of each response, added up.
abbrev pub sum : (MessageResponse → ℤ) → List MessageResponse → ℤ
sum f [] = pos 0
sum f (r ∷ rs) = f r +ℤ sum f rs

sum-snoc :
    (f : MessageResponse → ℤ) (rs : List MessageResponse) (r : MessageResponse)
    → sum f (rs ++ r ∷ []) ≡ sum f rs +ℤ f r
sum-snoc f [] r = +ℤ_zero (f r) ∙ sym (zero-+ℤ (f r))
sum-snoc f (x ∷ rs) r = ap (λ n. f x +ℤ n) (sum-snoc f rs r) ∙ sym (+ℤ_assoc (f x) (sum f rs) (f r))

-- The model that the last response names.
abbrev pub last_model : String → List MessageResponse → String
last_model name [] = name
last_model name (r ∷ rs) = last_model r.model rs

last_model-snoc :
    (name : String) (rs : List MessageResponse) (r : MessageResponse)
    → last_model name (rs ++ r ∷ []) ≡ r.model
last_model-snoc name [] r = refl
last_model-snoc name (x ∷ rs) r = last_model-snoc x.model rs r

-- The sums of the four numbers; a cache number that is not given counts 0.
abbrev pub sums : List MessageResponse → TokenTotals
sums rs = record {
  input = sum (λ r. r.usage.input_tokens) rs;
  output = sum (λ r. r.usage.output_tokens) rs;
  creation = sum (λ r. count r.usage.cache_creation_input_tokens) rs;
  read = sum (λ r. count r.usage.cache_read_input_tokens) rs;
}

add_cache-count : (o : Option ℤ) (n : ℤ) → add_cache o n ≡ n +ℤ count o
unfolding add_cache
add_cache-count none n = sym (+ℤ_zero n)
add_cache-count (some k) n = refl

sums-snoc :
    (rs : List MessageResponse) (r : MessageResponse)
    → add_usage r.usage (sums rs) ≡ sums (rs ++ r ∷ [])
unfolding add_usage
sums-snoc rs r = simp (add_cache-count, sum-snoc) refl

-- The totals are the sums over the responses so far, and the model is the last response's.
pub record Summed (job : RuntimeJob) (s : State) : Type 0 where
  pub totals : s.totals ≡ sums s.responses
  pub model : s.model_name ≡ last_model job.requested_model s.responses

module _ (host : Host) (job : RuntimeJob) (transcript : String) where
  take_turn-Summed :
      (system : String) (tools : List ToolDefinition) (turn : Turn) (s : State)
      → Summed job s
      → Ends (Summed job) (Summed job) (take_turn host job transcript system tools turn s)
  take_turn-Summed system tools turn s h =
      take_turn-Ends host job transcript system tools _ _ turn s h
        (record { totals = h.totals; model = h.model }) hears
        λ r d.
          run_tools-Keeps host job transcript _ _ (tool_uses r.content) _
            (λ t kept a. keeps r _ t kept) (λ t kept. keeps r _ t kept)
    where
      hears :
          (r : MessageResponse) → Summed job (heard r (asked host job transcript system tools s))
      hears r = record {
        totals = ap (add_usage r.usage) h.totals ∙ sums-snoc s.responses r;
        model = sym (last_model-snoc job.requested_model s.responses r);
      }

      keeps :
          (r : MessageResponse) (sent : List MessageRequest) (t : State)
          → Kept
              (s.request_seq + 1)
              sent
              (add_usage r.usage s.totals)
              r.model
              (s.responses ++ r ∷ [])
              t
          → Summed job t
      keeps r _ t kept = record {
        totals = kept.same_totals ∙ (hears r).totals ∙ ap sums (sym kept.same_responses);
        model =
            kept.same_model
            ∙ (hears r).model
            ∙ ap (last_model job.requested_model) (sym kept.same_responses);
      }

  pub loop-Summed :
      (system : String) (tools : List ToolDefinition) (n : ℕ) (turns : ℕ → Turn) (s : State)
      → Summed job s
      → Summed job (reached (loop host job transcript system tools n turns s))
  loop-Summed system tools =
      loop-Ends host job transcript system tools _ _ (λ s h. h) (take_turn-Summed system tools)
