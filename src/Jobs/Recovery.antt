-- ===== src/Jobs/Recovery.antt =====
-- What a restart makes of a job.
use se_skills.Prelude.{
  ◌≡◌, refl, sym, String, Bool, true, false, some, List, [], ◌∷◌, ◌==◌, All, if◌then◌else◌,
  Bool-cases, inl, inr,
}
use se_skills.Prelude.Dict.{lookup, insert, without, lookup-insert, lookup-without}
use se_skills.Prelude.Result.{Result, ok, raised, ◌>>=◌}
use se_skills.Json.{Json, bool, arr, truthy}
use se_skills.Jobs.Record.{Value, json, Job, text, is_set}
use se_skills.Jobs.Persistence.{
  with_sig, interrupt, explain, explain_overview, explain_other, kind_in, overview_kinds, stderr_of,
  with_notice, restore_sig,
}

-- The keys that the recovery of a job may write or remove.
abbrev pub recovery_keys : List String
recovery_keys =
    "status" ∷ "ok" ∷ "finished_at" ∷ "stdout" ∷ "stderr" ∷ "error_code" ∷ "error_message" ∷ "sig"
    ∷ []

abbrev pub Untouched : String → Type 0
Untouched j = All (λ (k : String). (k == j) ≡ false) recovery_keys

-- What became of a job that was running.
pub record Interrupted (job after : Job) : Type 0 where
  pub failed : lookup "status" after ≡ some (text "error")
  pub not_ok : lookup "ok" after ≡ some (json (bool false))
  pub finished : is_set (lookup "finished_at" after) ≡ true
  pub others : (j : String) → Untouched j → lookup j after ≡ lookup j job

pub interrupt-Interrupted :
    (now : Json) (job : Job) → truthy now ≡ true → Interrupted job (interrupt now job)
unfolding interrupt
interrupt-Interrupted now job h = elim (Bool-cases (is_set (lookup "finished_at" failed))) [
  | inl done ↦ rw done (record {
    failed = rw lookup-insert (rw lookup-insert refl);
    not_ok = rw lookup-insert refl;
    finished = done;
    others = λ j (s, (o, rest)). rw (lookup-insert, o) (rw (lookup-insert, s) refl);
  })
  | inr open_end ↦ rw open_end (record {
    failed = rw lookup-insert (rw lookup-insert (rw lookup-insert refl));
    not_ok = rw lookup-insert (rw lookup-insert refl);
    finished = rw lookup-insert h;
    others = λ j (s, (o, (f, rest))).
        rw (lookup-insert, f) (rw (lookup-insert, o) (rw (lookup-insert, s) refl));
  })
]
  where
    failed : Job
    failed = insert "ok" (json (bool false)) (insert "status" (text "error") job)

-- A key that the recovery may write, other than those of the outcome.
abbrev Explains : String → Type 0
Explains k =
    ((k == "status") ≡ false)
    × ((k == "ok") ≡ false)
    × ((k == "finished_at") ≡ false)
    × ((j : String) → Untouched j → (k == j) ≡ false)

insert-Interrupted :
    (k : String) (v : Value) (job after : Job)
    → Explains k
    → Interrupted job after
    → Interrupted job (insert k v after)
insert-Interrupted k v job after (s, o, f, rest) h = record {
  failed = rw (lookup-insert, s) h.failed;
  not_ok = rw (lookup-insert, o) h.not_ok;
  finished = rw (lookup-insert, f) h.finished;
  others = λ j u. rw (lookup-insert, rest j u) (h.others j u);
}

without-Interrupted :
    (k : String) (job after : Job)
    → Explains k
    → Interrupted job after
    → Interrupted job (without k after)
without-Interrupted k job after (s, o, f, rest) h = record {
  failed = rw (lookup-without, s) h.failed;
  not_ok = rw (lookup-without, o) h.not_ok;
  finished = rw (lookup-without, f) h.finished;
  others = λ j u. rw (lookup-without, rest j u) (h.others j u);
}

stdout_Explains : Explains "stdout"
stdout_Explains = (refl, refl, refl, λ j (s, (o, (f, (a, rest)))). a)

stderr_Explains : Explains "stderr"
stderr_Explains = (refl, refl, refl, λ j (s, (o, (f, (a, (b, rest))))). b)

code_Explains : Explains "error_code"
code_Explains = (refl, refl, refl, λ j (s, (o, (f, (a, (b, (c, rest)))))). c)

message_Explains : Explains "error_message"
message_Explains = (refl, refl, refl, λ j (s, (o, (f, (a, (b, (c, (d, rest))))))). d)

sig_Explains : Explains "sig"
sig_Explains = (refl, refl, refl, λ j (s, (o, (f, (a, (b, (c, (d, (e, rest)))))))). e)

pub restore_sig-Interrupted :
    (job after : Job) → Interrupted job after → Interrupted job (restore_sig after)
unfolding restore_sig
restore_sig-Interrupted job after h =
    elim (lookup "sig" after) as (λ o. Interrupted job (with_sig o after)) [
      | some (json (arr xs)) ↦ insert-Interrupted "sig" _ job after sig_Explains h
      | _ ↦ h
    ]

explain_overview-Interrupted :
    (job after : Job) → Interrupted job after → Interrupted job (explain_overview after)
explain_overview-Interrupted job after h = insert-Interrupted _ _ job _ message_Explains (
    insert-Interrupted _ _ job _ code_Explains
      (without-Interrupted _ job _ stderr_Explains (without-Interrupted _ job _ stdout_Explains h)))

pub explain-Interrupted :
    (job mid after : Job) → Interrupted job mid → explain mid ≡ ok after → Interrupted job after
unfolding explain
explain-Interrupted job mid after h e = by_kind (kind_in overview_kinds (lookup "kind" mid)) e
  where
    by_stderr :
        (r : Result String)
        → (r >>= (λ existing. ok (insert "stderr" (text (with_notice existing)) mid))) ≡ ok after
        → Interrupted job after
    by_stderr (raised x) e = cc e
    by_stderr (ok existing) e =
        let same : insert "stderr" (text (with_notice existing)) mid ≡ after = cc e in
        rw (sym same) (insert-Interrupted _ _ job mid stderr_Explains h)

    by_kind :
        (r : Result Bool)
        → (r >>= (λ overview. if overview then ok (explain_overview mid) else explain_other mid))
          ≡ ok after
        → Interrupted job after
    by_kind (raised x) e = cc e
    by_kind (ok true) e =
        let same : explain_overview mid ≡ after = cc e in
        rw (sym same) (explain_overview-Interrupted job mid h)
    by_kind (ok false) e = by_stderr (stderr_of (lookup "stderr" mid)) e
