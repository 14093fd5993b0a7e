-- ===== src/Agent/Delivery.antt =====
-- What a successful attempt delivers: its files, its sidecar and its usage.
use se_skills.Prelude.{
  ℕ, ◌≡◌, refl, sym, ◌∙◌, ap, String, Bool, true, false, some, none, arith, All, contains,
  Bool-cases, Option-cases, inl, inr, eq_iff,
}
use se_skills.Prelude.Text.{sorted, universal_newlines}
use se_skills.Prelude.Result.{Result, ok, raised, ◌>>=◌}
use se_skills.Json.{obj}
use se_skills.Contract.Modes.{mode_eqb}
use se_skills.Contract.Job.{RuntimeJob}
use se_skills.Contract.Result.{
  FailureCategory, Sidecar, RuntimeResult, runtime_result, runtime_failure, token_usage, TokenUsage,
  output_error,
}
use se_skills.Contract.Validity.{runtime_failure_lem}
use se_skills.Agent.Messages.{ToolUse}
use se_skills.Agent.Tools.{tool_definitions}
use se_skills.Agent.Host.{Host, OutputDir, Turn}
use se_skills.Agent.Inputs.{sidecar_json, sidecar_of-sidecar_json}
use se_skills.Agent.Collect.{
  matches_job, successful, success, accept, collect_result, read_sidecar, or_none, sidecar_of_json,
}
use se_skills.Agent.Loop.{State, Flow, leave, next, fail, crash}
use se_skills.Agent.Turns.{reached}
use se_skills.Agent.Work.{last_written, Worked, loop-Worked, files_of}
use se_skills.Agent.Totals.{sums, last_model, Summed, loop-Summed}
use se_skills.Agent.Attempt.{conclude-reached, execute-Entered, connect-Q, gather-Q}
use se_skills.Agent.Execute.{
  Executed, start, execute, conclude, after_loop, run_turns, proxy_base_url, file_at, files_at,
  system_prompt,
}
use se_skills.Agent.Usage.{Counts, token_usage-Counts}

-- What `json.dumps` prints of a sidecar, `json.loads` reads back from the file.
abbrev pub ReadsBack : Host → Sidecar → Type 0
ReadsBack host sc =
    host.loads (universal_newlines (host.dumps (obj (sidecar_json sc))))
    ≡ some (obj (sidecar_json sc))

-- A result that is no failure.
abbrev Succeeds : {Cost : Type 0} → Result (RuntimeResult Cost) → RuntimeResult Cost → Type 0
Succeeds e r = (e ≡ ok r) × (r.failure ≡ none)

runtime_failure-Succeeds :
    {Cost : Type 0} (f : FailureCategory) (r : RuntimeResult Cost) {A : Type 0}
    → Succeeds (runtime_failure f) r
    → A
runtime_failure-Succeeds {Cost = Cost} f r (h, n) =
    let (x, e, a, b) = runtime_failure_lem {Cost = Cost} f in cc (h, n, e, b)

-- What a successful result says, of the Markdown and the sidecar that were written.
pub record Delivers {Cost : Type 0} (job : RuntimeJob) (s : State) (markdown : String)
    (sc : Sidecar) (r : RuntimeResult Cost) : Type 0 where
  pub right_artifact : r.output_artifact ≡ some (universal_newlines markdown)
  pub right_sidecar : r.sidecar ≡ some sc
  pub right_skill : sc.skill ≡ job.skill
  pub right_version : sc.skill_version ≡ job.skill_version
  pub right_mode : mode_eqb sc.mode job.mode ≡ true
  pub right_runtime : r.execution_metadata.runtime_version ≡ job.requested_runtime_version
  pub right_usage : Counts s.totals r.execution_metadata.token_usage
  pub right_model : r.execution_metadata.model ≡ some s.model_name

module _ {Cost : Type 0} (host : Host) (job : RuntimeJob) where
  counted-Delivers :
      (s : State) (m : String) (sc : Sidecar) (r : RuntimeResult Cost) (u : Result TokenUsage)
      → matches_job sc job ≡ true
      → token_usage s.totals.input s.totals.output
          (or_none s.totals.creation)
          (or_none s.totals.read)
          none
        ≡ u
      → (u >>= successful job s.model_name (universal_newlines m) sc) ≡ ok r
      → Delivers job s m sc r
  unfolding matches_job runtime_result
  counted-Delivers s m sc r (raised e) same eq h = cc h
  counted-Delivers s m sc r (ok u) same eq h =
      let counts = token_usage-Counts s.totals u eq in
      let usage : r.execution_metadata.token_usage ≡ u = ground arith in
      record {
        right_artifact = ground arith;
        right_sidecar = ground arith;
        right_skill = ground (arith, eq_iff sc.skill job.skill);
        right_version = ground (arith, eq_iff sc.skill_version job.skill_version);
        right_mode = ground arith;
        right_runtime = ground arith;
        right_usage = rw usage counts;
        right_model = ground arith;
      }

  success-Delivers :
      (s : State) (m : String) (sc : Sidecar) (r : RuntimeResult Cost)
      → matches_job sc job ≡ true
      → success job s.model_name s.totals (universal_newlines m) sc ≡ ok r
      → Delivers job s m sc r
  unfolding success
  success-Delivers s m sc r same h = counted-Delivers s m sc r _ same refl h

  accept-Delivers :
      (s : State) (m : String) (sc : Sidecar) (r : RuntimeResult Cost)
      → Succeeds (accept job s.model_name s.totals (some m) (some sc)) r
      → Delivers job s m sc r
  accept-Delivers s m sc r h = elim (Bool-cases (matches_job sc job)) [
    | inl same ↦ success-Delivers s m sc r same (rw same at h.0)
    | inr other ↦ runtime_failure-Succeeds output_error r (rw other at h)
  ]

  -- The files hold what was written, and are read back.
  collect_result-Delivers :
      (s : State) (m : String) (sc : Sidecar) (first : OutputDir) (r : RuntimeResult Cost)
      → ReadsBack host sc
      → s.output ≡ files_of host (some (m, sc)) first
      → Succeeds (collect_result job s.model_name s.totals host s.output) r
      → Delivers job s m sc r
  unfolding collect_result
  collect_result-Delivers s m sc first r reads files h =
      accept-Delivers s m sc r
        (rw (files, read_sidecar, reads, sidecar_of_json, sidecar_of-sidecar_json) at h)

  after_loop-Delivers :
      (s : State) (first : OutputDir) (r : RuntimeResult Cost)
      → ((m : String) (sc : Sidecar) → last_written s.ran ≡ some (m, sc) → ReadsBack host sc)
      → Worked host job first s.ran s.output s.output_written
      → Succeeds (after_loop host job s).result r
      → (m : String) × (sc : Sidecar) × (last_written s.ran ≡ some (m, sc)) × Delivers job s m sc r
  unfolding after_loop
  after_loop-Delivers s first r reads w h = elim (Bool-cases s.output_written) [
    | inr none_written ↦ runtime_failure-Succeeds output_error r (rw none_written at h)
    | inl written ↦ elim (Option-cases (last_written s.ran)) [
      | inl nothing ↦ cc (nothing, w.flag written)
      | inr ((m, sc), there) ↦ (
        m,
        sc,
        there,
        collect_result-Delivers s m sc first r (reads m sc there)
            (w.files ∙ ap (λ o. files_of host o first) there) (rw written at h),
      )
    ]
  ]

  conclude-Succeeds :
      (k : Flow) (r : RuntimeResult Cost)
      → Succeeds (conclude host job k).result r
      → Succeeds (after_loop host job (reached k)).result r
  unfolding conclude
  conclude-Succeeds (leave s) r h = h
  conclude-Succeeds (next s) r h = h
  conclude-Succeeds (fail s f) r h = runtime_failure-Succeeds f r h
  conclude-Succeeds (crash s e) r h = cc (h.0)

  -- Only an execution that entered the loop succeeds.
  execute-final :
      (n : ℕ) (cancelled_before : Bool) (turns : ℕ → Turn) (out : OutputDir)
      (r : RuntimeResult Cost)
      → Succeeds (execute host job n cancelled_before turns out).result r
      → (s : State) × ((execute {Cost = Cost} host job n cancelled_before turns out).final ≡ some s)
  unfolding execute
  execute-final n true turns out r h = runtime_failure-Succeeds _ r h
  execute-final n false turns out r h =
      gather-Q host job Q (λ f e. runtime_failure-Succeeds f r e) (λ x e. cc (e.0)) _
        (λ t ps.
          connect-Q host job Q (λ f e. runtime_failure-Succeeds f r e) (λ x e. cc (e.0))
            (proxy_base_url job.allowlist.network) _
            (λ e. (_, unfold run_turns in conclude-reached Cost host job _)))
        (file_at host job job.input_manifest.transcript_ref)
        (files_at host job (sorted job.input_manifest.prior_context_refs)) h
    where
      Q : Executed Cost → Type 0
      Q e = Succeeds e.result r → (s : State) × (e.final ≡ some s)

-- A result that is no failure has the sidecar that the last valid `write_output` of the attempt
-- wrote, and its Markdown with every end of a line read as a line feed; the sidecar names the job's skill, version and mode; the result names the
-- job's runtime version, and has the model and the token totals of the loop's last state; and every
-- tool that ran is in the job's allowlist. The condition: what `json.dumps` prints of the sidecar
-- that was last written, `json.loads` reads back.
pub execute_success :
    {Cost : Type 0} (host : Host) (job : RuntimeJob) (max_turns : ℕ) (cancelled_before : Bool)
    (turns : ℕ → Turn) (out : OutputDir) (r : RuntimeResult Cost)
    → ((t : State) (m : String) (sc : Sidecar)
        → (execute {Cost = Cost} host job max_turns cancelled_before turns out).final ≡ some t
        → last_written t.ran ≡ some (m, sc)
        → ReadsBack host sc)
    → (execute host job max_turns cancelled_before turns out).result ≡ ok r
    → r.failure ≡ none
    → (s : State) × (markdown : String) × (sc : Sidecar) × ((execute {Cost = Cost} host job
          max_turns cancelled_before turns out).final
        ≡ some s)
      × (last_written s.ran ≡ some (markdown, sc))
      × Delivers job s markdown sc r
      × All (λ (t : ToolUse). contains t.name job.allowlist.tools ≡ true) s.ran
unfolding last_written
execute_success {Cost = Cost} host job n before turns out r reads h ok_result =
    let (s, final) = execute-final host job n before turns out r (h, ok_result) in
    let e = execute-Entered Cost host job n before turns out s final in
    let w : Worked host job out s.ran s.output s.output_written = rw e.reaches (
      loop-Worked host job e.transcript out (system_prompt job)
        (tool_definitions job.allowlist.tools) n turns (start job e.transcript e.priors out)
        (record { in_allowlist = tt; files = refl; flag = λ e. cc e })) in
    let after =
      conclude-Succeeds host job _ r (ap (λ x. x.result) (sym e.concludes) ∙ h, ok_result) in
    let (m, sc, there, delivers) =
      after_loop-Delivers host job s out r (λ m sc e. reads s m sc final e) w
        (rw e.reaches after) in
    (s, m, sc, final, there, delivers, w.in_allowlist)

-- A result that is no failure counts the tokens of all the responses of the attempt: each of its
-- four numbers is the sum of the responses' numbers, its total is the sum of the four, and none is
-- negative. It names the model of the last response. The condition: what `json.dumps` prints of the
-- sidecar that was last written, `json.loads` reads back.
pub execute-sums :
    {Cost : Type 0} (host : Host) (job : RuntimeJob) (max_turns : ℕ) (cancelled_before : Bool)
    (turns : ℕ → Turn) (out : OutputDir) (r : RuntimeResult Cost)
    → ((t : State) (m : String) (sc : Sidecar)
        → (execute {Cost = Cost} host job max_turns cancelled_before turns out).final ≡ some t
        → last_written t.ran ≡ some (m, sc)
        → ReadsBack host sc)
    → (execute host job max_turns cancelled_before turns out).result ≡ ok r
    → r.failure ≡ none
    → (s : State) × ((execute {Cost = Cost} host job max_turns cancelled_before turns out).final
        ≡ some s)
      × Counts (sums s.responses) r.execution_metadata.token_usage
      × (r.execution_metadata.model ≡ some (last_model job.requested_model s.responses))
execute-sums {Cost = Cost} host job n before turns out r reads h succeeds =
    let (s, m, sc, final, there, d, allowed) =
      execute_success host job n before turns out r reads h succeeds in
    let e = execute-Entered Cost host job n before turns out s final in
    let t : Summed job s = rw e.reaches (
      loop-Summed host job e.transcript (system_prompt job) (tool_definitions job.allowlist.tools) n
        turns (start job e.transcript e.priors out) (record { totals = refl; model = refl })) in
    (s, final, rw (sym t.totals) d.right_usage, d.right_model ∙ ap some t.model)
