-- ===== src/Jobs/History.antt =====
-- The web application over time: jobs are launched, their background runs end, and the server
-- restarts and loads the snapshot.
use se_skills.Prelude.{
  arith, ◌≡◌, refl, sym, ◌∙◌, ap, String, Bool, true, false, ◌||◌, ◌&&◌, not, Option, none, some,
  List, [], ◌∷◌, ◌==◌, if◌then◌else◌, Bool-cases, Option-cases, String-cases, inl, inr,
}
use se_skills.Prelude.Int.{ℤ}
use se_skills.Prelude.Dict.{lookup, insert, without, lookup-insert, lookup-without}
use se_skills.Prelude.Result.{Result, ok}
use se_skills.Json.{Json, Fields, null, bool, int, float, str, arr, obj, truthy}
use se_skills.Jobs.Record.{Job, Jobs, text, is_text, is_running}
use se_skills.Jobs.Persistence.{Codec, load_jobs, save_jobs, recover_data}
use se_skills.Jobs.Restart.{recover_all-Recovered, Recovered, nothing, skipped, dropped, kept}
use se_skills.Jobs.Lifecycle.{exits, returns, end_run-Ended, end_managed-Ended}
use se_skills.Jobs.Service.{
  Saving, ends, interrupted, after_save, is_scheduled, die, Store, drop_warnings, warn,
  save_snapshot, launch, finish, Ran, end_managed, Process, end_run, persistence_warning,
}

-- How the run of a job changes the job's dict at its end.
pub data Ending : Type 0 where
  skill_run : List (String → String) → Option ℤ → Process → Option (Option Bool) → Json → Ending
  managed_run : Ran → Json → Ending

abbrev pub end_of : Ending → Job → Job
end_of (skill_run patterns pid p has_output now) job = end_run patterns pid p has_output now job
end_of (managed_run r now) job = end_managed r now job

-- The store, the identifiers whose background run has not ended, and those whose launch raised before
-- the run was scheduled, or whose run was ended by an exception without a handler.
pub record System : Type 0 where
  pub store : Store
  pub pending : String → Bool
  pub lost : String → Bool

-- One step of the application. A snapshot may fail to be written, or be interrupted, at any step.
pub data Step (codec : Codec) : System → System → Type 0 where
  launched :
      (s : System) (saving : Saving) (id : String) (job : Job)
      → Step codec s (record {
        store = (launch codec saving id job s.store).1;
        pending =
            λ i. (id == i && is_scheduled (launch codec saving id job s.store).0) || s.pending i;
        lost =
            λ i. (id == i && not (is_scheduled (launch codec saving id job s.store).0)) || s.lost i;
      })
  ended :
      (s : System) (saving : Saving) (id : String) (e : Ending)
      → s.pending id ≡ true
      → Step codec s (record {
        store = finish codec saving id (end_of e) s.store;
        pending = λ i. not (id == i) && s.pending i;
        lost = s.lost;
      })
  died :
      (s : System) (id : String) (pid : Option ℤ)
      → s.pending id ≡ true
      → Step codec s (record {
        store = die id pid s.store;
        pending = λ i. not (id == i) && s.pending i;
        lost = λ i. id == i || s.lost i;
      })
  restarted :
      (s : System) (now : Json) (jobs : Jobs)
      → truthy now ≡ true
      → load_jobs codec now s.store.disk ≡ ok jobs
      → Step codec s (record {
        store = record { jobs = jobs; disk = s.store.disk };
        pending = λ i. false;
        lost = λ i. false;
      })

-- Any number of steps.
pub data Steps (codec : Codec) : System → System → Type 0 where
  none_yet : (s : System) → Steps codec s s
  then_step : (s t u : System) → Steps codec s t → Step codec t u → Steps codec s u

-- `runs o`: there is a job and it says that it runs.
abbrev pub runs : Option Job → Bool
runs none = false
runs (some job) = is_running job

-- A job that says that it runs has a background run, or was lost.
pub record Attended (s : System) : Type 0 where
  pub at : (id : String) → runs (lookup id s.store.jobs) ≡ true → (s.pending id || s.lost id) ≡ true

without_warning-is_running :
    (job : Job) → is_running (without "persistence_warning" job) ≡ is_running job
unfolding is_running
without_warning-is_running job = rw lookup-without refl

with_warning-is_running :
    (job : Job)
    → is_running (insert "persistence_warning" (text persistence_warning) job) ≡ is_running job
unfolding is_running
with_warning-is_running job = rw lookup-insert refl

drop_warnings-runs :
    (id : String) (jobs : Jobs) → runs (lookup id (drop_warnings jobs)) ≡ runs (lookup id jobs)
unfolding drop_warnings lookup
drop_warnings-runs id [] = refl
drop_warnings-runs id ((i, job) ∷ jobs) = elim (Bool-cases (i == id)) [
  | inl same ↦ rw same (without_warning-is_running job)
  | inr other ↦ rw other (drop_warnings-runs id jobs)
]

warn-runs : (w id : String) (jobs : Jobs) → runs (lookup id (warn w jobs)) ≡ runs (lookup id jobs)
unfolding warn lookup
warn-runs w id [] = refl
warn-runs w id ((i, job) ∷ jobs) = elim (Bool-cases (i == w)) [
  | inl here ↦ rw here (elim (Bool-cases (i == id)) [
    | inl same ↦ rw same (with_warning-is_running job)
    | inr other ↦ rw other refl
  ])
  | inr later ↦ rw later (elim (Bool-cases (i == id)) [
    | inl same ↦ rw same refl
    | inr other ↦ rw other (warn-runs w id jobs)
  ])
]

after_save-runs :
    (saved : Bool) (w id : String) (jobs : Jobs) (disk : Option String)
    → runs (lookup id (after_save saved w jobs disk).1.jobs) ≡ runs (lookup id jobs)
after_save-runs true w id jobs disk = drop_warnings-runs id jobs
after_save-runs false w id jobs disk = warn-runs w id jobs

save_snapshot-runs :
    (codec : Codec) (saving : Saving) (w id : String) (s : Store)
    → runs (lookup id (save_snapshot codec saving w s).1.jobs) ≡ runs (lookup id s.jobs)
unfolding save_snapshot
save_snapshot-runs codec (ends writes) w id s =
    after_save-runs (save_jobs codec writes s.jobs s.disk).0 w id s.jobs
      (save_jobs codec writes s.jobs s.disk).1
save_snapshot-runs codec (interrupted writes) w id s = refl

end_of-is_running : (e : Ending) (job : Job) → is_running (end_of e job) ≡ false
unfolding is_running
end_of-is_running (skill_run patterns pid p has_output now) job =
    rw (end_run-Ended patterns pid p has_output now job).right_status
      (elim (exits p)
        as (λ b. is_text "running" (some (text (if b then "done" else "error"))) ≡ false) [
          | true ↦ refl
          | false ↦ refl
        ])
end_of-is_running (managed_run r now) job =
    rw (end_managed-Ended r now job).right_status
      (elim (returns r)
        as (λ b. is_text "running" (some (text (if b then "done" else "error"))) ≡ false) [
          | true ↦ refl
          | false ↦ refl
        ])

-- A job that is launched is pending, or lost.
launch_covers :
    (same scheduled p l : Bool)
    → same ≡ true
    → (((same && scheduled) || p) || ((same && not scheduled) || l)) ≡ true
launch_covers same scheduled p l e = ground arith

launch_keeps :
    (same scheduled p l : Bool)
    → (p || l) ≡ true
    → (((same && scheduled) || p) || ((same && not scheduled) || l)) ≡ true
launch_keeps same scheduled p l e = ground arith

launched-other :
    (codec : Codec) (s : System) (saving : Saving) (id : String) (job : Job) (i : String)
    → id == i ≡ false
    → runs (lookup i (launch codec saving id job s.store).1.jobs) ≡ true
    → runs (lookup i s.store.jobs) ≡ true
unfolding launch
launched-other codec s saving id job i other r =
    rw (lookup-insert, other) at
      (sym (
          save_snapshot-runs codec saving id i
            (record s.store { jobs = insert id job s.store.jobs }))
        ∙ r)

launched-Attended :
    (codec : Codec) (s : System) (saving : Saving) (id : String) (job : Job) (i : String)
    → Attended s
    → runs (lookup i (launch codec saving id job s.store).1.jobs) ≡ true
    → (((id == i && is_scheduled (launch codec saving id job s.store).0) || s.pending i)
        || ((id == i && not (is_scheduled (launch codec saving id job s.store).0)) || s.lost i))
      ≡ true
launched-Attended codec s saving id job i h r = elim (Bool-cases (id == i)) [
  | inl same ↦
      launch_covers (id == i) (is_scheduled (launch codec saving id job s.store).0) (s.pending i)
        (s.lost i) same
  | inr other ↦
      launch_keeps (id == i) (is_scheduled (launch codec saving id job s.store).0) (s.pending i)
        (s.lost i) (h.at i (launched-other codec s saving id job i other r))
]

finish-runs :
    (codec : Codec) (s : Store) (saving : Saving) (id : String) (e : Ending) (i : String)
    → runs (lookup i (finish codec saving id (end_of e) s).jobs) ≡ true
    → (id == i ≡ false) × (runs (lookup i s.jobs) ≡ true)
unfolding finish
finish-runs codec s saving id e i r = elim (Option-cases (lookup id s.jobs)) [
  | inl absent ↦
      let still : runs (lookup i s.jobs) ≡ true = rw (absent, finish) at r in
      elim (String-cases id i) [
        | inl (e, same) ↦ cc (ap (λ k. runs (lookup k s.jobs)) e, ap runs absent, still)
        | inr (ne, other) ↦ (other, still)
      ]
  | inr (job, there) ↦
      let still : runs (lookup i (insert id (end_of e job) s.jobs)) ≡ true =
        sym (
          save_snapshot-runs codec saving id i
            (record s { jobs = insert id (end_of e job) s.jobs }))
        ∙ (rw (there, finish) at r) in
      elim (Bool-cases (id == i)) [
        | inl same ↦ cc (rw (lookup-insert, same) at still, end_of-is_running e job)
        | inr other ↦ (other, rw (lookup-insert, other) at still)
      ]
]

die-runs :
    (s : Store) (id : String) (pid : Option ℤ) (i : String)
    → id == i ≡ false
    → runs (lookup i (die id pid s).jobs) ≡ runs (lookup i s.jobs)
unfolding die
die-runs s id pid i other = elim (Option-cases (lookup id s.jobs)) [
  | inl absent ↦ rw (absent, die) refl
  | inr (job, there) ↦ rw (there, die) (rw (lookup-insert, other) refl)
]

emptied : (jobs : Jobs) → ◌≡◌ {A = Result Jobs} (ok []) (ok jobs) → [] ≡ jobs
emptied jobs e = cc e

Recovered-runs :
    (i : String) (d : Fields) (jobs : Jobs) → Recovered d jobs → runs (lookup i jobs) ≡ false
unfolding lookup
Recovered-runs i d jobs nothing = refl
Recovered-runs i d jobs (skipped id j rest js h r) = Recovered-runs i rest jobs r
Recovered-runs i d jobs (dropped id e rest js a b r) = Recovered-runs i rest jobs r
Recovered-runs i d jobs (kept id e rest after js settled r) = elim (Bool-cases (id == i)) [
  | inl same ↦ rw same settled.stopped
  | inr other ↦ rw other (Recovered-runs i rest js r)
]

recover_data-runs :
    (i : String) (now : Json) (o : Option Json) (jobs : Jobs)
    → truthy now ≡ true
    → recover_data now o ≡ ok jobs
    → runs (lookup i jobs) ≡ false
unfolding lookup
recover_data-runs i now none jobs h e = rw (sym (emptied jobs e)) refl
recover_data-runs i now (some (obj d)) jobs h e =
    Recovered-runs i d jobs (recover_all-Recovered now d jobs h e)
recover_data-runs i now (some null) jobs h e = rw (sym (emptied jobs e)) refl
recover_data-runs i now (some (bool b)) jobs h e = rw (sym (emptied jobs e)) refl
recover_data-runs i now (some (int n)) jobs h e = rw (sym (emptied jobs e)) refl
recover_data-runs i now (some (float x)) jobs h e = rw (sym (emptied jobs e)) refl
recover_data-runs i now (some (str t)) jobs h e = rw (sym (emptied jobs e)) refl
recover_data-runs i now (some (arr xs)) jobs h e = rw (sym (emptied jobs e)) refl

load_jobs-runs :
    (codec : Codec) (i : String) (now : Json) (disk : Option String) (jobs : Jobs)
    → truthy now ≡ true
    → load_jobs codec now disk ≡ ok jobs
    → runs (lookup i jobs) ≡ false
unfolding load_jobs
load_jobs-runs codec i now none jobs h e = recover_data-runs i now none jobs h e
load_jobs-runs codec i now (some content) jobs h e =
    recover_data-runs i now (codec.loads content) jobs h e

ended_keeps : (same p l : Bool) → same ≡ false → (p || l) ≡ true → ((not same && p) || l) ≡ true
ended_keeps same p l e h = ground arith

died_keeps :
    (same p l : Bool) → (same ≡ false → (p || l) ≡ true) → ((not same && p) || (same || l)) ≡ true
died_keeps true p l h = refl
died_keeps false p l h = h refl

Step-Attended : (codec : Codec) (s t : System) → Step codec s t → Attended s → Attended t
Step-Attended codec s t (launched s' saving id job) h = record {
  at = λ i r. launched-Attended codec s saving id job i h r;
}
Step-Attended codec s t (ended s' saving id e p) h = record {
  at = λ i r.
      let (other, still) = finish-runs codec s.store saving id e i r in
      ended_keeps (id == i) (s.pending i) (s.lost i) other (h.at i still);
}
Step-Attended codec s t (died s' id pid p) h = record {
  at = λ i r.
      died_keeps (id == i) (s.pending i) (s.lost i)
        (λ other. h.at i (sym (die-runs s.store id pid i other) ∙ r));
}
Step-Attended codec s t (restarted s' now jobs late e) h = record {
  at = λ i r. cc (r, load_jobs-runs codec i now s.store.disk jobs late e);
}

-- A job that says that it runs has a background run that has not ended, unless since the last
-- restart its launch raised before the run was scheduled, or an exception without a handler ended
-- the run: if this holds at first, it holds after any number of launches, ends, deaths of runs and
-- restarts, whether or not their snapshots were written or interrupted.
pub Steps-Attended : (codec : Codec) (s t : System) → Steps codec s t → Attended s → Attended t
Steps-Attended codec s t (none_yet s') h = h
Steps-Attended codec s t (then_step s' m t' before step) h =
    Step-Attended codec m t step (Steps-Attended codec s m before h)
