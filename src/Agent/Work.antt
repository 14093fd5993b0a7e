-- ===== src/Agent/Work.antt =====
-- The tools that an attempt ran and the files that they left.
use se_skills.Prelude.{
  ℕ, ◌⊎◌, ◌≡◌, refl, sym, ◌∙◌, ap, String, Bool, true, false, ◌||◌, Option, some, none, List, [],
  ◌∷◌, ◌++◌, ◌==◌, contains, if◌then◌else◌, is_some, All, arith, Option-cases, String-cases, eq_iff,
  inl, inr,
}
use se_skills.Prelude.Result.{Result, ok}
use se_skills.Json.{obj, Fields}
use se_skills.Contract.Job.{RuntimeJob}
use se_skills.Contract.Result.{Sidecar}
use se_skills.Agent.Messages.{ToolUse, ToolDefinition}
use se_skills.Agent.Host.{Host, OutputDir, Turn}
use se_skills.Agent.Inputs.{write_output_input, WriteInput, sidecar_of, sidecar_json, ◌>>=◌}
use se_skills.Agent.Tools.{ToolOutcome, content, run_tool, write_output, parsed}
use se_skills.Agent.Loop.{State, run_tools, loop, tool_uses}
use se_skills.Agent.Requests.{All-snoc}
use se_skills.Agent.Turns.{reached, Ends, run_tools-Ends, loop-Ends, take_turn-Ends}

-- The Markdown and the sidecar that a use of `write_output` writes, if its input is valid.
unfoldable written_of : Fields → Option (String × Sidecar)
written_of d = write_output_input d >>= (λ w. sidecar_of w.sidecar >>= (λ s. some (w.markdown, s)))

unfoldable pub written_by : ToolUse → Option (String × Sidecar)
unfolding written_of
written_by t = if t.name == "write_output" then written_of t.input else none

abbrev pub or_else {ℓ} : {A : Type ℓ} → Option A → Option A → Option A
or_else none b = b
or_else (some a) b = some a

-- What the last tool that writes has written.
unfoldable pub last_written : List ToolUse → Option (String × Sidecar)
last_written [] = none
last_written (t ∷ ts) = or_else (last_written ts) (written_by t)

-- The output directory once these were written to it.
abbrev pub files_of : Host → Option (String × Sidecar) → OutputDir → OutputDir
files_of host none out = out
files_of host (some (markdown, s)) out = record {
  output_md = some (some markdown);
  sidecar_json = some (some (host.dumps (obj (sidecar_json s))));
}

last_written-snoc :
    (ts : List ToolUse) (t : ToolUse)
    → last_written (ts ++ t ∷ []) ≡ or_else (written_by t) (last_written ts)
unfolding last_written
last_written-snoc [] t = ground arith
last_written-snoc (x ∷ ts) t = ground (arith, last_written-snoc ts t)

files_of-or_else :
    (host : Host) (a b : Option (String × Sidecar)) (out : OutputDir)
    → files_of host (or_else a b) out ≡ files_of host a (files_of host b out)
files_of-or_else host none b out = refl
files_of-or_else host (some a) b out = refl

either : (a b : Bool) → (a || b) ≡ true → (a ≡ true) ⊎ (b ≡ true)
either true b h = inl refl
either false b h = inr h

-- A stage that leaves the directory as it was.
abbrev Quiet : OutputDir → Result ToolOutcome × OutputDir → Type 0
Quiet out r = r.1 ≡ out

if-Quiet :
    (out : OutputDir) (b : Bool) (x y : Result ToolOutcome × OutputDir)
    → Quiet out x
    → (b ≡ false → Quiet out y)
    → Quiet out (if b then x else y)
if-Quiet out true x y hx hy = hx
if-Quiet out false x y hx hy = hy refl

parsed-Quiet :
    {A : Type 0} (out : OutputDir) (o : Option A) (f : A → Result ToolOutcome)
    → Quiet out (parsed o (λ a. (f a, out)) out)
parsed-Quiet out none f = refl
parsed-Quiet out (some a) f = refl

-- What holds of the tools, the directory and the flag at every point of an attempt.
pub record Worked (host : Host) (job : RuntimeJob) (first : OutputDir) (ran : List ToolUse)
    (out : OutputDir) (written : Bool) : Type 0 where
  pub in_allowlist : All (λ (t : ToolUse). contains t.name job.allowlist.tools ≡ true) ran
  pub files : out ≡ files_of host (last_written ran) first
  pub flag : written ≡ true → is_some (last_written ran) ≡ true

module _ (host : Host) (job : RuntimeJob) (transcript : String) where
  parsed-files :
      (o : Option WriteInput) (out : OutputDir)
      → (parsed o (λ w. write_output host job transcript w out) out).1
        ≡ files_of host (o >>= (λ w. sidecar_of w.sidecar >>= (λ s. some (w.markdown, s)))) out
  unfolding write_output
  parsed-files none out = refl
  parsed-files (some w) out = elim (Option-cases (sidecar_of w.sidecar)) [
    | inl invalid ↦ rw (invalid, write_output) refl
    | inr (s, valid) ↦ rw (valid, write_output) refl
  ]

  write_output-files :
      (d : Fields) (out : OutputDir)
      → (parsed (write_output_input d) (λ w. write_output host job transcript w out) out).1
        ≡ files_of host (written_of d) out
  unfolding written_of
  write_output-files d out = parsed-files (write_output_input d) out

  write_output-written :
      (d : Fields) (out : OutputDir) (c : String)
      → (parsed (write_output_input d) (λ w. write_output host job transcript w out) out).0
        ≡ ok (content c)
      → is_some (written_of d) ≡ true
  unfolding write_output written_of
  write_output-written d out c h = ground arith

  run_tool-other :
      (t : ToolUse) (out : OutputDir)
      → (t.name == "write_output") ≡ false
      → (run_tool host job transcript t out).1 ≡ out
  unfolding run_tool
  run_tool-other t out other =
      if-Quiet out (t.name == "read_transcript") _ _ (parsed-Quiet out _ _) λ e.
        if-Quiet out (t.name == "read_prior_context") _ _ (parsed-Quiet out _ _) λ e.
          if-Quiet out (t.name == "list_priors") _ _ (parsed-Quiet out _ _) λ e.
            if-Quiet out (t.name == "search_transcript") _ _ (parsed-Quiet out _ _) λ e. rw other (
              if-Quiet out (t.name == "finish") _ _ (parsed-Quiet out _ _)
                λ e. if-Quiet out (t.name == "report_failure") _ _ (parsed-Quiet out _ _) λ e. refl)

  run_tool-write :
      (t : ToolUse) (out : OutputDir)
      → t.name ≡ "write_output"
      → run_tool host job transcript t out
        ≡ parsed (write_output_input t.input) (λ w. write_output host job transcript w out) out
  unfolding run_tool
  run_tool-write t out e = rw e refl

  run_tool-files :
      (t : ToolUse) (out : OutputDir)
      → (run_tool host job transcript t out).1 ≡ files_of host (written_by t) out
  unfolding written_by
  run_tool-files t out = elim (String-cases t.name "write_output") [
    | inl (e, same) ↦ rw (run_tool-write t out e, same) (write_output-files t.input out)
    | inr (ne, other) ↦ rw other (run_tool-other t out other)
  ]

  run_tool-written :
      (t : ToolUse) (out : OutputDir) (c : String)
      → (run_tool host job transcript t out).0 ≡ ok (content c)
      → (t.name == "write_output") ≡ true
      → is_some (written_by t) ≡ true
  unfolding written_by
  run_tool-written t out c h same = rw same (
      write_output-written t.input out c
        (sym (ap (λ r. r.0) (run_tool-write t out ((eq_iff _ _).0 same))) ∙ h))

  is_some-or_else :
      (a b : Option (String × Sidecar)) → is_some a ≡ true → is_some (or_else a b) ≡ true
  is_some-or_else none b h = cc h
  is_some-or_else (some a) b h = refl

  or_else-is_some :
      (a b : Option (String × Sidecar)) → is_some b ≡ true → is_some (or_else a b) ≡ true
  or_else-is_some none b h = h
  or_else-is_some (some a) b h = refl

  tool-Worked :
      (first : OutputDir) (t : ToolUse) (ran : List ToolUse) (out : OutputDir) (written w : Bool)
      → contains t.name job.allowlist.tools ≡ true
      → Worked host job first ran out written
      → (w ≡ true → (is_some (last_written ran) ≡ true) ⊎ (is_some (written_by t) ≡ true))
      → Worked host job first (ran ++ t ∷ []) (run_tool host job transcript t out).1 w
  tool-Worked first t ran out written w allowed h hw = record {
    in_allowlist = All-snoc _ ran t h.in_allowlist allowed;
    files =
        run_tool-files t out
        ∙ ap (files_of host (written_by t)) h.files
        ∙ sym (files_of-or_else host (written_by t) (last_written ran) first)
        ∙ ap (λ o. files_of host o first) (sym (last_written-snoc ran t));
    flag = λ e. rw (last_written-snoc ran t) (elim (hw e) [
      | inl before ↦ or_else-is_some (written_by t) (last_written ran) before
      | inr now ↦ is_some-or_else (written_by t) (last_written ran) now
    ]);
  }

  run_tools-Worked :
      (first : OutputDir) (ts : List ToolUse) (s : State)
      → Worked host job first s.ran s.output s.output_written
      → Ends
          (λ t. Worked host job first t.ran t.output t.output_written)
          (λ t. Worked host job first t.ran t.output t.output_written)
          (run_tools host job transcript ts [] false s)
  run_tools-Worked first ts s h =
      run_tools-Ends host job transcript (Worked host job first) (Worked host job first)
        (λ ran out w k. k)
        (λ t ran out w allowed k. (
          tool-Worked first t ran out w w allowed k (λ e. inl (k.flag e)),
          λ c e. tool-Worked first t ran out w _ allowed k (λ both. elim (either w _ both) [
            | inl before ↦ inl (k.flag before)
            | inr new ↦ inr (run_tool-written t out c e new)
          ]),
        ))
        ts [] false s h

  pub loop-Worked :
      (first : OutputDir) (system : String) (tools : List ToolDefinition) (n : ℕ) (turns : ℕ → Turn)
      (s : State)
      → Worked host job first s.ran s.output s.output_written
      → let t = reached (loop host job transcript system tools n turns s) in
        Worked host job first t.ran t.output t.output_written
  loop-Worked first system tools =
      loop-Ends host job transcript system tools _ _ (λ s h. h)
        λ turn s h.
          take_turn-Ends host job transcript system tools _ _ turn s h h (λ r. h)
            λ r d. run_tools-Worked first (tool_uses r.content) _ h
