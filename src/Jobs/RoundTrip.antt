-- ===== src/Jobs/RoundTrip.antt =====
-- `load_jobs` after `save_jobs`.
use se_skills.Prelude.{
  ◌≡◌, ◌⊎◌, refl, sym, ◌∙◌, ap, String, true, false, Option, none, some, [], ◌∷◌, ◌==◌, All,
  contains, if◌then◌else◌, Bool-cases, Option-cases, String-cases, inl, inr,
}
use se_skills.Prelude.Dict.{lookup, insert}
use se_skills.Prelude.Result.{ok}
use se_skills.Json.{Json, Items, arr, obj, Fields, end, field}
use se_skills.Jobs.Record.{Value, json, tuple, Job, Jobs, is_text, is_running}
use se_skills.Jobs.Persistence.{
  Codec, with_sig, transient, clean, encode_job, payload, save_jobs, job_of, restore_sig, recover,
  recover_all, load_jobs,
}
use se_skills.Jobs.Restart.{restore_sig-is_running}

-- A field that is no signature, with a JSON value.
abbrev IsPlain : String × Value → Type 0
IsPlain (k, v) = ((k == "sig") ≡ false) × ((j : Json) × (v ≡ json j))

-- A signature: a tuple.
abbrev IsSig : String × Value → Type 0
IsSig (k, v) = (k ≡ "sig") × ((xs : Items) × (v ≡ tuple xs))

-- The fields are JSON values, but for one signature at most.
abbrev pub Savable : Job → Type 0
Savable [] = Unit
Savable (f ∷ job) = (IsPlain f × Savable job) ⊎ (IsSig f × All IsPlain job)

job_of-encode_job :
    (job : Job) (d : Fields)
    → All IsPlain job
    → encode_job job ≡ some d
    → (job_of d ≡ job) × (lookup "sig" job ≡ none)
unfolding encode_job job_of lookup
job_of-encode_job [] d h e = let same : end ≡ d = cc e in (rw (sym same) refl, refl)
job_of-encode_job ((k, v) ∷ job) d ((other, (j, plain)), h) e =
    elim (Option-cases (encode_job job)) [
      | inl bad ↦ cc (rw bad at (rw plain at e))
      | inr (rest, good) ↦
          let same : field k j rest ≡ d = cc (rw good at (rw plain at e)) in
          let (back, no_sig) = job_of-encode_job job rest h good in
          (
            rw (sym same) (ap (λ js. (k, json j) ∷ js) back ∙ ap (λ w. (k, w) ∷ job) (sym plain)),
            rw other no_sig,
          )
    ]

with_sig-cons :
    (o : Option Value) (k : String) (j : Json) (rest : Job)
    → (k == "sig") ≡ false
    → with_sig o ((k, json j) ∷ rest) ≡ (k, json j) ∷ with_sig o rest
unfolding insert
with_sig-cons (some (json (arr xs))) k j rest other = rw other refl
with_sig-cons _ k j rest other = refl

restore_sig-json :
    (k : String) (j : Json) (rest job : Job)
    → (k == "sig") ≡ false
    → restore_sig rest ≡ job
    → restore_sig ((k, json j) ∷ rest) ≡ (k, json j) ∷ job
unfolding restore_sig lookup insert
restore_sig-json k j rest job other h =
    rw other (with_sig-cons (lookup "sig" rest) k j rest other ∙ ap (λ js. (k, json j) ∷ js) h)

restore_sig-encode_job :
    (job : Job) (d : Fields) → Savable job → encode_job job ≡ some d → restore_sig (job_of d) ≡ job
unfolding encode_job job_of restore_sig lookup insert
restore_sig-encode_job [] d h e = let same : end ≡ d = cc e in rw (sym same) refl
restore_sig-encode_job ((k, v) ∷ job) d (inl ((other, (j, plain)), h)) e =
    elim (Option-cases (encode_job job)) [
      | inl bad ↦ cc (rw bad at (rw plain at e))
      | inr (rest, good) ↦
          let same : field k j rest ≡ d = cc (rw good at (rw plain at e)) in
          rw (sym same, plain)
            (restore_sig-json k j (job_of rest) job other (restore_sig-encode_job job rest h good))
    ]
restore_sig-encode_job ((k, v) ∷ job) d (inr ((sig, (xs, tuples)), h)) e =
    elim (Option-cases (encode_job job)) [
      | inl bad ↦ cc (rw bad at (rw tuples at e))
      | inr (rest, good) ↦
          let same : field k (arr xs) rest ≡ d = cc (rw good at (rw tuples at e)) in
          rw (sym same, tuples, sig)
            (ap (λ js. ("sig", tuple xs) ∷ js) (job_of-encode_job job rest h good).0)
    ]

-- What `load_jobs` gives back for the jobs that were saved.
abbrev pub cleaned : Jobs → Jobs
cleaned [] = []
cleaned ((id, job) ∷ jobs) = (id, clean job) ∷ cleaned jobs

-- No job runs, and each can be saved.
abbrev pub AllSavable : Jobs → Type 0
AllSavable [] = Unit
AllSavable ((id, job) ∷ jobs) = (is_running job ≡ false) × Savable (clean job) × AllSavable jobs

clean-status : (job : Job) → lookup "status" (clean job) ≡ lookup "status" job
unfolding clean lookup
clean-status [] = refl
clean-status ((k, v) ∷ job) = elim (Bool-cases (contains k transient)) [
  | inl drops ↦ rw (drops, other_key k drops) (clean-status job)
  | inr keeps ↦ rw keeps (ap (λ o. if k == "status" then some v else o) (clean-status job))
]
  where
    other_key : (k : String) → contains k transient ≡ true → (k == "status") ≡ false
    other_key k h = elim (String-cases k "status") [
      | inl (e, same) ↦ cc (h, ap (λ t. contains t transient) e)
      | inr (ne, other) ↦ other
    ]

clean-is_running : (job : Job) → is_running (clean job) ≡ is_running job
unfolding is_running
clean-is_running job = ap (is_text "running") (clean-status job)

recover-saved :
    (now : Json) (job : Job) (d : Fields)
    → is_running job ≡ false
    → Savable (clean job)
    → encode_job (clean job) ≡ some d
    → recover now (job_of d) ≡ ok (some (clean job))
unfolding recover
recover-saved now job d idle h e =
    let back = restore_sig-encode_job (clean job) d h e in
    rw (sym (restore_sig-is_running (job_of d)) ∙ ap is_running back ∙ clean-is_running job ∙ idle)
      (ap (λ j. ok (some j)) back)

recover_all-saved :
    (now : Json) (jobs : Jobs) (d : Fields)
    → AllSavable jobs
    → payload jobs ≡ some d
    → recover_all now d ≡ ok (cleaned jobs)
unfolding payload recover_all
recover_all-saved now [] d h e = let same : end ≡ d = cc e in rw (sym same) refl
recover_all-saved now ((id, job) ∷ jobs) d (idle, savable, h) e =
    elim (Option-cases (encode_job (clean job))) [
      | inl bad ↦ cc (rw bad at e)
      | inr (f, good) ↦ elim (Option-cases (payload jobs)) [
        | inl bad ↦ cc (rw bad at (rw good at e))
        | inr (rest, all) ↦
            let same : field id (obj f) rest ≡ d = cc (rw all at (rw good at e)) in
            rw (sym same) (
              rw (recover-saved now job f idle savable good, recover_all-saved now jobs rest h all)
                refl)
      ]
    ]

-- Jobs of which none runs, and whose fields are JSON values but for a signature that is a tuple, are
-- loaded as they were saved, without their transient fields; the signatures are tuples again. The
-- condition: what `json.dumps` prints of the snapshot, `json.loads` reads back.
pub load_jobs-save_jobs :
    (codec : Codec) (now : Json) (jobs : Jobs) (before after : Option String)
    → ((d : Fields) → payload jobs ≡ some d → codec.loads (codec.dumps (obj d)) ≡ some (obj d))
    → AllSavable jobs
    → save_jobs codec true jobs before ≡ (true, after)
    → load_jobs codec now after ≡ ok (cleaned jobs)
unfolding save_jobs load_jobs
load_jobs-save_jobs codec now jobs before after reads h e = elim (Option-cases (payload jobs)) [
  | inl bad ↦ cc (rw (bad, save_jobs) at e)
  | inr (d, good) ↦
      let written : some (codec.dumps (obj d)) ≡ after = cc (rw (good, save_jobs) at e) in
      rw (sym written) (rw (reads d good) (recover_all-saved now jobs d h good))
]
