-- ===== src/Jobs/Restart.antt =====
-- `load_jobs`: what a restart makes of the snapshot.
use se_skills.Prelude.{
  ◌≡◌, ◌≢◌, ◌⊎◌, refl, sym, ◌∙◌, String, true, false, Option, none, some, [], ◌∷◌, Bool-cases, inl,
  inr,
}
use se_skills.Prelude.Dict.{lookup, lookup-insert}
use se_skills.Prelude.Result.{Result, ok, raised, ◌>>=◌}
use se_skills.Json.{Json, null, bool, int, float, str, arr, obj, Fields, end, field, truthy}
use se_skills.Jobs.Record.{json, Job, Jobs, is_text, is_set, is_running}
use se_skills.Jobs.Persistence.{
  with_sig, Codec, interrupt, explain, restore_sig, recover, recover_all, load_jobs, keep, job_of,
}
use se_skills.Jobs.Recovery.{
  Interrupted, interrupt-Interrupted, explain-Interrupted, restore_sig-Interrupted,
}

-- What became of a job that is kept: it does not run, and is an interrupted job or, if it did not
-- run before, the job as it was with its signature a tuple again.
pub record Settled (before after : Job) : Type 0 where
  pub stopped : is_running after ≡ false
  pub outcome :
      ((is_running before ≡ true) × Interrupted before after)
      ⊎ ((is_running before ≡ false) × (after ≡ restore_sig before))

-- The jobs that are loaded from the records of a snapshot: a record that is no object is skipped,
-- and one that ran without ever starting is dropped.
pub data Recovered : Fields → Jobs → Type 0 where
  nothing : Recovered end []
  skipped :
      (id : String) (j : Json) (rest : Fields) (jobs : Jobs)
      → ((d : Fields) → j ≢ obj d)
      → Recovered rest jobs
      → Recovered (field id j rest) jobs
  dropped :
      (id : String) (d rest : Fields) (jobs : Jobs)
      → is_running (job_of d) ≡ true
      → is_set (lookup "started_at" (job_of d)) ≡ false
      → Recovered rest jobs
      → Recovered (field id (obj d) rest) jobs
  kept :
      (id : String) (d rest : Fields) (after : Job) (jobs : Jobs)
      → Settled (job_of d) after
      → Recovered rest jobs
      → Recovered (field id (obj d) rest) ((id, after) ∷ jobs)

pub restore_sig-is_running : (job : Job) → is_running (restore_sig job) ≡ is_running job
unfolding restore_sig is_running
restore_sig-is_running job =
    elim (lookup "sig" job)
      as (λ o.
        is_text "running" (lookup "status" (with_sig o job))
        ≡ is_text "running" (lookup "status" job)) [
          | some (json (arr xs)) ↦ rw lookup-insert refl
          | _ ↦ refl
        ]

Interrupted-is_running : (job after : Job) → Interrupted job after → is_running after ≡ false
unfolding is_running
Interrupted-is_running job after h = rw h.failed refl

-- What `recover` gives back for a record.
abbrev Recovers : Job → Option Job → Type 0
Recovers job none = (is_running job ≡ true) × (is_set (lookup "started_at" job) ≡ false)
Recovers job (some after) = Settled job after

recover-Recovers :
    (now : Json) (job : Job) (o : Option Job)
    → truthy now ≡ true
    → recover now job ≡ ok o
    → Recovers job o
unfolding recover
recover-Recovers now job o h e = elim (Bool-cases (is_running job)) [
  | inr idle ↦
      let same : some (restore_sig job) ≡ o = cc (rw idle at e) in
      rw (sym same)
        (record { stopped = restore_sig-is_running job ∙ idle; outcome = inr (idle, refl) })
  | inl runs ↦ elim (Bool-cases (is_set (lookup "started_at" job))) [
    | inr never ↦
        let same : none ≡ o = cc (rw never at (rw runs at e)) in rw (sym same) (runs, never)
    | inl started ↦ explained (explain (interrupt now job)) runs refl (rw started at (rw runs at e))
  ]
]
  where
    explained :
        (r : Result Job)
        → is_running job ≡ true
        → explain (interrupt now job) ≡ r
        → (r >>= (λ explained. ok (some (restore_sig explained)))) ≡ ok o
        → Recovers job o
    explained (raised x) runs ex e = cc e
    explained (ok mid) runs ex e =
        let same : some (restore_sig mid) ≡ o = cc e in
        let i : Interrupted job (restore_sig mid) =
          restore_sig-Interrupted job mid (
            explain-Interrupted job (interrupt now job) mid (interrupt-Interrupted now job h) ex) in
        rw (sym same) (record {
          stopped = Interrupted-is_running job (restore_sig mid) i;
          outcome = inl (runs, i);
        })

recovered :
    (now : Json) (id : String) (d rest : Fields) (jobs : Jobs) (r : Result (Option Job))
    (rs : Result Jobs)
    → ((o : Option Job) → r ≡ ok o → Recovers (job_of d) o)
    → ((js : Jobs) → rs ≡ ok js → Recovered rest js)
    → (r >>= (λ job. rs >>= (λ js. ok (keep id job js)))) ≡ ok jobs
    → Recovered (field id (obj d) rest) jobs
recovered now id d rest jobs (raised x) rs one all e = cc e
recovered now id d rest jobs (ok o) (raised x) one all e = cc e
recovered now id d rest jobs (ok none) (ok js) one all e =
    let same : js ≡ jobs = cc e in
    let (runs, never) = one none refl in
    rw (sym same) (dropped id d rest js runs never (all js refl))
recovered now id d rest jobs (ok (some after)) (ok js) one all e =
    let same : (id, after) ∷ js ≡ jobs = cc e in
    rw (sym same) (kept id d rest after js (one (some after) refl) (all js refl))

pub recover_all-Recovered :
    (now : Json) (d : Fields) (jobs : Jobs)
    → truthy now ≡ true
    → recover_all now d ≡ ok jobs
    → Recovered d jobs
unfolding recover_all
recover_all-Recovered now end jobs h e = let same : [] ≡ jobs = cc e in rw (sym same) nothing
recover_all-Recovered now (field id null rest) jobs h e =
    skipped id null rest jobs (λ d x. cc x) (recover_all-Recovered now rest jobs h e)
recover_all-Recovered now (field id (bool b) rest) jobs h e =
    skipped id (bool b) rest jobs (λ d x. cc x) (recover_all-Recovered now rest jobs h e)
recover_all-Recovered now (field id (int n) rest) jobs h e =
    skipped id (int n) rest jobs (λ d x. cc x) (recover_all-Recovered now rest jobs h e)
recover_all-Recovered now (field id (float x) rest) jobs h e =
    skipped id (float x) rest jobs (λ d x. cc x) (recover_all-Recovered now rest jobs h e)
recover_all-Recovered now (field id (str s) rest) jobs h e =
    skipped id (str s) rest jobs (λ d x. cc x) (recover_all-Recovered now rest jobs h e)
recover_all-Recovered now (field id (arr xs) rest) jobs h e =
    skipped id (arr xs) rest jobs (λ d x. cc x) (recover_all-Recovered now rest jobs h e)
recover_all-Recovered now (field id (obj d) rest) jobs h e =
    recovered now id d rest jobs (recover now (job_of d)) (recover_all now rest)
      (λ o x. recover-Recovers now (job_of d) o h x) (λ js x. recover_all-Recovered now rest js h x)
      e

-- Loading the snapshot turns its records into the jobs that `Recovered` tells: no job runs; one that
-- ran and had started is an error, not ok, with a finish time, and nothing else of it changed but
-- its output, its error fields and its signature; one that had not started is dropped; and every
-- other one is as it was, with a signature that is a list made a tuple. The conditions: the snapshot
-- is an object, the loading does not raise, and the time of the recovery is not the number 0.
pub load_jobs-Recovered :
    (codec : Codec) (now : Json) (content : String) (d : Fields) (jobs : Jobs)
    → truthy now ≡ true
    → codec.loads content ≡ some (obj d)
    → load_jobs codec now (some content) ≡ ok jobs
    → Recovered d jobs
unfolding load_jobs
load_jobs-Recovered codec now content d jobs h reads e =
    recover_all-Recovered now d jobs h (rw reads at e)
