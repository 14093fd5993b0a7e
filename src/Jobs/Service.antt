-- ===== src/Jobs/Service.antt =====
-- `JobService`: the start of a job, its background run, and the snapshots.
use Prim.Native.String.{◌++◌ as ◌+s◌}
use se_skills.Prelude.{
  String, Bool, true, false, ◌||◌, Option, none, some, List, [], ◌∷◌, ◌==◌, contains, if◌then◌else◌,
}
use se_skills.Prelude.Int.{ℤ, pos, eqb_ℤ}
use se_skills.Prelude.Dict.{lookup, insert, without}
use se_skills.Json.{Json, null, bool, int}
use se_skills.Jobs.Record.{Value, json, Job, Jobs, text, is_text}
use se_skills.Jobs.Persistence.{Codec, save_jobs}

-- The jobs in memory, and the text of the snapshot file.
pub record Store : Type 0 where
  pub jobs : Jobs
  pub disk : Option String

-- d.update(items)
unfoldable pub update : List (String × Value) → Job → Job
unfolding insert
update [] job = job
update ((k, v) ∷ items) job = update items (insert k v job)

abbrev pub persistence_warning : String
persistence_warning = "This job will not survive a server restart because state could not be saved."

unfoldable pub drop_warnings : Jobs → Jobs
unfolding without
drop_warnings [] = []
drop_warnings ((id, job) ∷ jobs) = (id, without "persistence_warning" job) ∷ drop_warnings jobs

-- `self.jobs[id]["persistence_warning"] = …`, if the job is there
unfoldable pub warn : String → Jobs → Jobs
unfolding insert
warn id [] = []
warn id ((i, job) ∷ jobs) =
    let rest = warn id jobs in
    if i == id
    then (i, insert "persistence_warning" (text persistence_warning) job) ∷ jobs
    else (i, job) ∷ rest

-- How the thread of `save_jobs` ends: it can write the file or not; or an exception goes through
-- `save_snapshot`, a RuntimeError of the thread, when the jobs change under its iteration, or a
-- cancellation, with which the thread goes on and writes the file or not.
pub data Saving : Type 0 where
  ends : Bool → Saving
  interrupted : Bool → Saving

-- A call that returns a warning or none, or raises.
pub data Saved : Type 0 where
  warns : Option String → Saved
  raises : Saved

abbrev pub after_save : Bool → String → Jobs → Option String → Saved × Store
after_save true id jobs disk = (warns none, record { jobs = drop_warnings jobs; disk = disk })
after_save false id jobs disk =
    (warns (some persistence_warning), record { jobs = warn id jobs; disk = disk })

-- `save_snapshot`, and the store then.
unfoldable pub save_snapshot : Codec → Saving → String → Store → Saved × Store
unfolding save_jobs drop_warnings warn
save_snapshot codec (ends writes) id s =
    let (saved, disk) = save_jobs codec writes s.jobs s.disk in after_save saved id s.jobs disk
save_snapshot codec (interrupted writes) id s =
    (raises, record { jobs = s.jobs; disk = (save_jobs codec writes s.jobs s.disk).1 })

abbrev pub optional : Option String → Value
optional none = json null
optional (some s) = text s

-- The dict of a job that `launch` starts.
unfoldable pub new_job : String → Option String → String → Option String → Value → Json → Job
new_job account opp_slug skill opportunity sig now =
    ("kind", text "skill")
    ∷ ("status", text "running")
    ∷ ("ok", json null)
    ∷ ("stdout", text "")
    ∷ ("stderr", text "")
    ∷ ("skill", text skill)
    ∷ ("account", text account)
    ∷ ("opportunity", optional opportunity)
    ∷ ("opp_slug", optional opp_slug)
    ∷ ("sig", sig)
    ∷ ("started_at", json now)
    ∷ []

-- The dict of a job that `launch_managed` starts.
unfoldable pub new_managed_job :
    String → String → String → String → Value → List (String × Value) → Json → Job
unfolding update
new_managed_job kind account opp_slug opportunity sig safe_metadata now = update safe_metadata (
    ("kind", text kind)
    ∷ ("status", text "running")
    ∷ ("ok", json null)
    ∷ ("account", text account)
    ∷ ("opportunity", text opportunity)
    ∷ ("opp_slug", text opp_slug)
    ∷ ("sig", sig)
    ∷ ("started_at", json now)
    ∷ [])

-- Both: the job is added and saved. If the saving returns, the background run is scheduled under the
-- identifier; if it raises, the job stays without a run.
unfoldable pub launch : Codec → Saving → String → Job → Store → Saved × Store
unfolding insert save_snapshot
launch codec saving id job s =
    save_snapshot codec saving id (record s { jobs = insert id job s.jobs })

-- `create_task` is reached.
abbrev pub is_scheduled : Saved → Bool
is_scheduled (warns w) = true
is_scheduled raises = false

-- How the runner of a managed job ends.
pub data Ran : Type 0 where
  finished : List (String × Value) → Ran
  managed_error : String → String → Ran
  unexpected : Ran

-- A keyword that is given twice.
unfoldable pub clashes : List (String × Value) → Bool
clashes [] = false
clashes ((k, v) ∷ items) = contains k ("status" ∷ "ok" ∷ "finished_at" ∷ []) || clashes items

abbrev pub failure_fields : String → String → Json → List (String × Value)
failure_fields code message now =
    ("status", text "error")
    ∷ ("ok", json (bool false))
    ∷ ("error_code", text code)
    ∷ ("error_message", text message)
    ∷ ("finished_at", json now)
    ∷ []

abbrev pub unexpected_message : Option Value → String
unexpected_message kind =
    if is_text "command_center_reconcile" kind
    then "Reconciliation failed unexpectedly. The accepted overview was either left unchanged or promoted with its application incomplete; check the source's run history and reconcile again to resume safely."
    else "Overview "
      +s (if is_text "opportunity_state_update" kind then "update" else "creation")
      +s " failed safely; no state was saved."

-- The end of `_run_managed_job` for the job's dict.
unfoldable pub end_managed : Ran → Json → Job → Job
unfolding update clashes lookup
end_managed (finished items) now job =
    if clashes items
    then update (failure_fields "internal_error" (unexpected_message (lookup "kind" job)) now) job
    else update items (
        update (("status", text "done") ∷ ("ok", json (bool true)) ∷ ("finished_at", json now) ∷ [])
          job)
end_managed (managed_error code detail) now job = update (failure_fields code detail now) job
end_managed unexpected now job =
    update (failure_fields "internal_error" (unexpected_message (lookup "kind" job)) now) job

-- `security.redact_sensitive`, where a pattern is what its `sub` does.
unfoldable pub redact_sensitive : List (String → String) → String → String
redact_sensitive patterns t = if t == "" then "" else redact_all patterns t
  where
    redact_all : List (String → String) → String → String
    redact_all [] t = t
    redact_all (pattern ∷ patterns) t = redact_all patterns (pattern t)

-- How the child process of `_run_job` ends: by itself, with its exit code and its outputs; or by an
-- exception, which the last case shows as text.
pub data Process : Type 0 where
  exited : ℤ → String → String → Process
  not_found : Process
  timed_out : Process
  failed : String → Process

abbrev pub end_fields : String → Bool → String → String → Json → List (String × Value)
end_fields status success out err now =
    ("status", text status)
    ∷ ("ok", json (bool success))
    ∷ ("stdout", text out)
    ∷ ("stderr", text err)
    ∷ ("finished_at", json now)
    ∷ []

-- `produced_output`, by `has_output_since`, which is `none` if it is not given or raises.
abbrev pub produced : Bool → Option (Option Bool) → Value
produced true (some (some b)) = json (bool b)
produced _ _ = json null

-- `job["pid"] = proc.pid`, once the process is there
abbrev pub with_pid : Option ℤ → Job → Job
with_pid none job = job
with_pid (some pid) job = insert "pid" (json (int pid)) job

-- The end of `_run_job` for the job's dict.
unfoldable pub end_run :
    List (String → String) → Option ℤ → Process → Option (Option Bool) → Json → Job → Job
unfolding update insert redact_sensitive
end_run patterns pid (exited code out err) has_output now job =
    update
      (("status", text "done")
        ∷ ("ok", json (bool (eqb_ℤ code (pos 0))))
        ∷ ("produced_output", produced (eqb_ℤ code (pos 0)) has_output)
        ∷ ("stdout", text (redact_sensitive patterns out))
        ∷ ("stderr", text (redact_sensitive patterns err))
        ∷ ("finished_at", json now)
        ∷ [])
      (with_pid pid job)
end_run patterns pid not_found has_output now job =
    update
      (end_fields "error" false ""
        (redact_sensitive patterns "`claude` CLI not found on PATH — is Claude Code installed?")
        now)
      (with_pid pid job)
end_run patterns pid timed_out has_output now job =
    update
      (end_fields "error" false ""
        (redact_sensitive patterns "Skill run timed out after 20 minutes.") now)
      (with_pid pid job)
end_run patterns pid (failed shown) has_output now job =
    update (end_fields "error" false "" (redact_sensitive patterns shown) now) (with_pid pid job)

-- A background run that comes to its end: the job's dict is changed in place, and the snapshot is
-- saved, whose exceptions are passed over. Without a job under the identifier nothing is done, since
-- the run raises.
unfoldable pub finish : Codec → Saving → String → (Job → Job) → Store → Store
unfolding lookup insert save_snapshot
finish codec saving id end s = elim (lookup id s.jobs) [
  | none ↦ s
  | some job ↦ (save_snapshot codec saving id (record s { jobs = insert id (end job) s.jobs })).1
]

-- A background run that an exception ends for which it has no handler: a cancellation, with the
-- process there or not, or an exception of `model_for`, before the process.
unfoldable pub die : String → Option ℤ → Store → Store
unfolding lookup insert
die id pid s = elim (lookup id s.jobs) [
  | none ↦ s
  | some job ↦ record s { jobs = insert id (with_pid pid job) s.jobs }
]
