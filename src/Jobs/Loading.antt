-- ===== src/Jobs/Loading.antt =====
-- `load_jobs` on a snapshot whose records have texts where it reads them.
use se_skills.Prelude.{
  ◌≡◌, ◌⊎◌, refl, String, true, false, none, some, List, if◌then◌else◌, Bool-cases, inl, inr,
}
use se_skills.Prelude.Dict.{lookup, insert, lookup-insert}
use se_skills.Prelude.Result.{Result, ok}
use se_skills.Json.{Json, null, bool, int, float, str, arr, obj, Fields, end, field, truthy}
use se_skills.Jobs.Record.{json, Job, Jobs, text, is_set, is_running}
use se_skills.Jobs.Persistence.{
  Codec, interrupt, explain, explain_overview, explain_other, kind_in, overview_kinds, stderr_of,
  recover, recover_all, load_jobs, job_of,
}
use se_skills.Jobs.Restart.{Recovered, load_jobs-Recovered}

-- The field is missing or a text.
abbrev pub HasText : String → Job → Type 0
HasText k job = (lookup k job ≡ none) ⊎ ((s : String) × (lookup k job ≡ some (text s)))

-- The kind and the error output of each record are missing or texts.
abbrev pub Typed : Fields → Type 0
Typed end = Unit
Typed (field id (obj r) rest) = HasText "kind" (job_of r) × HasText "stderr" (job_of r) × Typed rest
Typed (field id other rest) = Typed rest

abbrev Returns : {A : Type 0} → Result A → Type 0
Returns {A = A} r = (a : A) × (r ≡ ok a)

interrupt-lookup :
    (now : Json) (job : Job)
    → (lookup "kind" (interrupt now job) ≡ lookup "kind" job)
      × (lookup "stderr" (interrupt now job) ≡ lookup "stderr" job)
unfolding interrupt
interrupt-lookup now job = elim (Bool-cases (is_set (lookup "finished_at" failed))) [
  | inl done ↦ rw done (simp lookup-insert refl, simp lookup-insert refl)
  | inr open_end ↦ rw open_end (simp lookup-insert refl, simp lookup-insert refl)
]
  where
    failed : Job
    failed = insert "ok" (json (bool false)) (insert "status" (text "error") job)

explain_other-Returns : (job : Job) → HasText "stderr" job → Returns (explain_other job)
unfolding stderr_of
explain_other-Returns job (inl missing) = rw missing (_, refl)
explain_other-Returns job (inr (s, there)) = rw there (_, refl)

kind_in-Returns :
    (kinds : List String) (job : Job)
    → HasText "kind" job
    → Returns (kind_in kinds (lookup "kind" job))
unfolding kind_in
kind_in-Returns kinds job (inl missing) = rw missing (_, refl)
kind_in-Returns kinds job (inr (s, there)) = rw there (_, refl)

explain-Returns : (job : Job) → HasText "kind" job → HasText "stderr" job → Returns (explain job)
unfolding explain
explain-Returns job hk he =
    let (overview, e) = kind_in-Returns overview_kinds job hk in
    rw e
      (elim overview
        as (λ b. Returns (if b then ok (explain_overview job) else explain_other job)) [
          | true ↦ (_, refl)
          | false ↦ explain_other-Returns job he
        ])

recover-Returns :
    (now : Json) (job : Job) → HasText "kind" job → HasText "stderr" job → Returns (recover now job)
unfolding recover
recover-Returns now job hk he = elim (Bool-cases (is_running job)) [
  | inr idle ↦ rw idle (_, refl)
  | inl runs ↦ rw runs (elim (Bool-cases (is_set (lookup "started_at" job))) [
    | inr never ↦ rw never (_, refl)
    | inl started ↦ rw started (
        let (mid, explains) =
          explain-Returns (interrupt now job) (rw (interrupt-lookup now job).0 hk)
            (rw (interrupt-lookup now job).1 he) in
        rw explains (_, refl))
  ])
]

recover_all-Returns : (now : Json) (d : Fields) → Typed d → Returns (recover_all now d)
unfolding recover_all
recover_all-Returns now end h = (_, refl)
recover_all-Returns now (field id null rest) h = recover_all-Returns now rest h
recover_all-Returns now (field id (bool b) rest) h = recover_all-Returns now rest h
recover_all-Returns now (field id (int n) rest) h = recover_all-Returns now rest h
recover_all-Returns now (field id (float x) rest) h = recover_all-Returns now rest h
recover_all-Returns now (field id (str s) rest) h = recover_all-Returns now rest h
recover_all-Returns now (field id (arr xs) rest) h = recover_all-Returns now rest h
recover_all-Returns now (field id (obj r) rest) (hk, he, h) =
    let (o, one) = recover-Returns now (job_of r) hk he in
    let (js, all) = recover_all-Returns now rest h in rw (one, all) (_, refl)

-- A snapshot that is an object, whose records have texts for a kind and an error output or lack
-- them, is loaded, and gives the jobs that `Recovered` tells: no job runs; one that ran and had
-- started is an error, not ok, with a finish time, and nothing else of it changed but its output,
-- its error fields and its signature; one that had not started is dropped; and every other one is as
-- it was, with a signature that is a list made a tuple. The time of the recovery is not the number 0.
pub load_jobs_lem :
    (codec : Codec) (now : Json) (content : String) (d : Fields)
    → truthy now ≡ true
    → codec.loads content ≡ some (obj d)
    → Typed d
    → (jobs : Jobs) × (load_jobs codec now (some content) ≡ ok jobs) × Recovered d jobs
unfolding load_jobs
load_jobs_lem codec now content d h reads typed =
    let (jobs, e) = recover_all-Returns now d typed in
    let loaded : load_jobs codec now (some content) ≡ ok jobs = rw reads e in
    (jobs, loaded, load_jobs-Recovered codec now content d jobs h reads loaded)
