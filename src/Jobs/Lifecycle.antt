-- ===== src/Jobs/Lifecycle.antt =====
-- How the background run of a job ends.
use se_skills.Prelude.{
  ◌≡◌, refl, ◌∙◌, ap, String, Bool, true, false, ◌||◌, not, Option, some, List, [], ◌∷◌,
  if◌then◌else◌, contains, Bool-cases, String-cases, inl, inr,
}
use se_skills.Prelude.Int.{ℤ, pos, eqb_ℤ}
use se_skills.Prelude.Dict.{lookup, insert, lookup-insert}
use se_skills.Json.{Json, bool}
use se_skills.Jobs.Record.{Value, json, Job, text}
use se_skills.Jobs.Service.{
  failure_fields, update, Ran, finished, managed_error, unexpected, clashes, end_managed, Process,
  exited, not_found, timed_out, failed, end_run,
}

-- What a background run leaves: whether it is done or an error, whether it is ok, and when it ended.
pub record Ended (done success : Bool) (now : Json) (after : Job) : Type 0 where
  pub right_status : lookup "status" after ≡ some (text (if done then "done" else "error"))
  pub right_ok : lookup "ok" after ≡ some (json (bool success))
  pub right_time : lookup "finished_at" after ≡ some (json now)

abbrev pub exits : Process → Bool
exits (exited code out err) = true
exits _ = false

abbrev pub succeeds : Process → Bool
succeeds (exited code out err) = eqb_ℤ code (pos 0)
succeeds _ = false

-- However its process ends, a skill job ends: done if the process exited, and ok if it did with 0;
-- otherwise an error and not ok.
pub end_run-Ended :
    (patterns : List (String → String)) (pid : Option ℤ) (p : Process)
    (has_output : Option (Option Bool)) (now : Json) (job : Job)
    → Ended (exits p) (succeeds p) now (end_run patterns pid p has_output now job)
unfolding end_run
end_run-Ended patterns pid (exited code out err) has_output now job = record {
  right_status = simp lookup-insert refl;
  right_ok = simp lookup-insert refl;
  right_time = simp lookup-insert refl;
}
end_run-Ended patterns pid not_found has_output now job = record {
  right_status = simp lookup-insert refl;
  right_ok = simp lookup-insert refl;
  right_time = simp lookup-insert refl;
}
end_run-Ended patterns pid timed_out has_output now job = record {
  right_status = simp lookup-insert refl;
  right_ok = simp lookup-insert refl;
  right_time = simp lookup-insert refl;
}
end_run-Ended patterns pid (failed shown) has_output now job = record {
  right_status = simp lookup-insert refl;
  right_ok = simp lookup-insert refl;
  right_time = simp lookup-insert refl;
}

abbrev outcome_keys : List String
outcome_keys = "status" ∷ "ok" ∷ "finished_at" ∷ []

neither : (a b : Bool) → (a || b) ≡ false → (a ≡ false) × (b ≡ false)
neither true b h = cc h
neither false b h = (refl, h)

update-clashes :
    (items : List (String × Value)) (job : Job) (j : String)
    → clashes items ≡ false
    → contains j outcome_keys ≡ true
    → lookup j (update items job) ≡ lookup j job
unfolding update clashes
update-clashes [] job j h c = refl
update-clashes ((k, v) ∷ items) job j h c =
    let (apart, rest) = neither (contains k outcome_keys) (clashes items) h in
    update-clashes items (insert k v job) j rest c ∙ elim (String-cases k j) [
      | inl (e, same) ↦ cc (apart, c, ap (λ t. contains t outcome_keys) e)
      | inr (ne, other) ↦ rw (lookup-insert, other) refl
    ]

abbrev pub returns : Ran → Bool
returns (finished items) = not (clashes items)
returns _ = false

failure-Ended :
    (code message : String) (now : Json) (job : Job)
    → Ended false false now (update (failure_fields code message now) job)
unfolding update
failure-Ended code message now job = record {
  right_status = simp lookup-insert refl;
  right_ok = simp lookup-insert refl;
  right_time = simp lookup-insert refl;
}

-- However its runner ends, a managed job ends: done and ok if the runner returned fields of which
-- none is `status`, `ok` or `finished_at`; otherwise an error and not ok.
pub end_managed-Ended :
    (r : Ran) (now : Json) (job : Job) → Ended (returns r) (returns r) now (end_managed r now job)
unfolding end_managed
end_managed-Ended (managed_error code detail) now job = failure-Ended code detail now job
end_managed-Ended unexpected now job = failure-Ended _ _ now job
end_managed-Ended (finished items) now job = elim (Bool-cases (clashes items)) [
  | inl twice ↦ rw twice (failure-Ended _ _ now job)
  | inr apart ↦ rw apart (record {
    right_status = update-clashes items _ "status" apart refl ∙ done_status;
    right_ok = update-clashes items _ "ok" apart refl ∙ done_ok;
    right_time = update-clashes items _ "finished_at" apart refl ∙ done_time;
  })
]
  where
    done_fields : List (String × Value)
    done_fields =
        ("status", text "done") ∷ ("ok", json (bool true)) ∷ ("finished_at", json now) ∷ []

    done_status : lookup "status" (update done_fields job) ≡ some (text "done")
    done_status = simp lookup-insert refl

    done_ok : lookup "ok" (update done_fields job) ≡ some (json (bool true))
    done_ok = simp lookup-insert refl

    done_time : lookup "finished_at" (update done_fields job) ≡ some (json now)
    done_time = simp lookup-insert refl
