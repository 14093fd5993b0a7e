-- ===== src/Agent/Attempt.antt =====
-- A whole attempt, from its first message: the loop as `execute` enters it.
use se_skills.Prelude.{
  ℕ, contains, ◌+◌, ◌≤◌, ◌≡◌, refl, String, Bool, true, false, Option, some, none, List, arith,
  if◌then◌else◌, All, length,
}
use se_skills.Prelude.Text.{sorted}
use se_skills.Prelude.Result.{raised, Exception}
use se_skills.Contract.Job.{RuntimeJob}
use se_skills.Contract.Result.{FailureCategory, runtime_failure, configuration_error, input_error}
use se_skills.Agent.Host.{Host, OutputDir, Turn}
use se_skills.Agent.Tools.{tool_definitions}
use se_skills.Agent.Loop.{State, Flow, leave, next, fail, crash, loop}
use se_skills.Agent.Turns.{reached}
use se_skills.Agent.Requests.{opening, IsRequest, NumberedFrom, loop-Proper, loop-length}
use se_skills.Agent.Execute.{
  refuse_with, client_base_url, Executed, start, system_prompt, run_turns, conclude, connect,
  read_priors, read_transcript, gather, execute, proxy_base_url, file_at, files_at,
  base_url_mismatch, read_all,
}

-- What holds of every failure, of every exception and of what is run holds of the guards in front of it.
module _ {Cost : Type 0} (host : Host) (job : RuntimeJob) (Q : Executed Cost → Type 0)
    (failing : (f : FailureCategory) → Q (refuse_with (runtime_failure f)))
    (raising : (e : Exception) → Q (refuse_with (raised e))) where
  pub connect-Q :
      (url : Option String) (ready : Executed Cost) → Q ready → Q (connect host job url ready)
  connect-Q none ready h = failing _
  connect-Q (some url) ready h =
      elim (base_url_mismatch (client_base_url host url) url)
        as (λ b. Q (if b then refuse_with (runtime_failure configuration_error) else ready)) [
          | true ↦ failing _
          | false ↦ h
        ]

  module _ (go : String → List String → Executed Cost)
      (h : (t : String) (ps : List String) → Q (go t ps)) where
    read_priors-Q : (t : String) (ps : Option (List String)) → Q (read_priors host job t ps go)
    read_priors-Q t none = raising _
    read_priors-Q t (some ps) = h t ps

    read_transcript-Q :
        (t : Option String) (ps : List (Option String)) → Q (read_transcript host job t ps go)
    read_transcript-Q none ps = raising _
    read_transcript-Q (some t) ps = read_priors-Q t (read_all ps)

    pub gather-Q :
        (t : Option (Option String)) (ps : Option (List (Option String)))
        → Q (gather host job t ps go)
    gather-Q none ps = failing _
    gather-Q (some t) ps =
        elim (contains job.input_manifest.transcript_ref job.input_manifest.prior_context_refs)
          as (λ b. Q (
            if b then refuse_with (runtime_failure input_error) else elim ps [
              | none ↦ refuse_with (runtime_failure input_error)
              | some qs ↦ read_transcript host job t qs go
            ])) [
              | true ↦ failing _
              | false ↦
                  elim ps
                    as (λ o. Q (elim o [
                      | none ↦ refuse_with (runtime_failure input_error)
                      | some qs ↦ read_transcript host job t qs go
                    ])) [ none ↦ failing _ | some qs ↦ read_transcript-Q t qs ]
            ]

-- The flow of the loop from its start.
abbrev pub attempt : Host → RuntimeJob → ℕ → (ℕ → Turn) → String → List String → OutputDir → Flow
attempt host job n turns transcript priors out =
    loop host job transcript (system_prompt job) (tool_definitions job.allowlist.tools) n turns
      (start job transcript priors out)

-- An execution that enters the loop at most once, and ends in the state `s` that the loop reaches.
pub record Entered {Cost : Type 0} (host : Host) (job : RuntimeJob) (n : ℕ) (turns : ℕ → Turn)
    (out : OutputDir) (e : Executed Cost) (s : State) : Type 0 where
  pub transcript : String
  pub priors : List String
  pub reaches : s ≡ reached (attempt host job n turns transcript priors out)
  pub concludes : e ≡ conclude host job (attempt host job n turns transcript priors out)

module _ (Cost : Type 0) (host : Host) (job : RuntimeJob) where
  pub conclude-reached : (k : Flow) → (conclude {Cost = Cost} host job k).final ≡ some (reached k)
  unfolding conclude
  conclude-reached (leave s) = refl
  conclude-reached (next s) = refl
  conclude-reached (fail s f) = refl
  conclude-reached (crash s e) = refl

  run_turns-Entered :
      (n : ℕ) (turns : ℕ → Turn) (transcript : String) (priors : List String) (out : OutputDir)
      (s : State)
      → (run_turns {Cost = Cost} host job n turns transcript priors out).final ≡ some s
      → Entered host job n turns out
          (run_turns {Cost = Cost} host job n turns transcript priors out)
          s
  unfolding run_turns
  run_turns-Entered n turns transcript priors out s h = record {
    transcript = transcript;
    priors = priors;
    reaches = cc (h, conclude-reached (attempt host job n turns transcript priors out));
    concludes = refl;
  }

  pub execute-Entered :
      (n : ℕ) (cancelled_before : Bool) (turns : ℕ → Turn) (out : OutputDir) (s : State)
      → (execute {Cost = Cost} host job n cancelled_before turns out).final ≡ some s
      → Entered host job n turns out (execute {Cost = Cost} host job n cancelled_before turns out) s
  unfolding execute
  execute-Entered n true turns out s h = cc h
  execute-Entered n false turns out s h =
      gather-Q host job Q (λ f e. cc e) (λ x e. cc e) _
        (λ t ps.
          connect-Q host job Q (λ f e. cc e) (λ x e. cc e) (proxy_base_url job.allowlist.network) _
            (λ e. run_turns-Entered n turns t ps out s e))
        (file_at host job job.input_manifest.transcript_ref)
        (files_at host job (sorted job.input_manifest.prior_context_refs)) h
    where
      Q : Executed Cost → Type 0
      Q e = e.final ≡ some s → Entered host job n turns out e s

-- The requests of an attempt are at most `max_turns`, are numbered 1, 2, 3 and so on, name the job's
-- model and the definitions of its tools, and each holds a conversation in which every tool use of
-- the model is answered by one result, in order.
pub execute-requests :
    (Cost : Type 0) (host : Host) (job : RuntimeJob) (max_turns : ℕ) (cancelled_before : Bool)
    (turns : ℕ → Turn) (out : OutputDir) (s : State)
    → (execute {Cost = Cost} host job max_turns cancelled_before turns out).final ≡ some s
    → (length s.sent ≤ max_turns)
      × NumberedFrom 0 s.sent
      × All (IsRequest job (tool_definitions job.allowlist.tools)) s.sent
execute-requests Cost host job n before turns out s h =
    let e = execute-Entered Cost host job n before turns out s h in
    let proper =
      loop-Proper host job e.transcript (system_prompt job) (tool_definitions job.allowlist.tools) n
        turns (start job e.transcript e.priors out)
        (record { counted = refl; numbered = tt; requests = tt; talk = opening _ }) in
    let few : length (reached (attempt host job n turns e.transcript e.priors out)).sent ≤ 0 + n =
      loop-length host job e.transcript (system_prompt job) (tool_definitions job.allowlist.tools) n
        turns (start job e.transcript e.priors out) in
    rw e.reaches (omega (arith, few), proper.numbered, proper.requests)
