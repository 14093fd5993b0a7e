-- ===== src/Jobs/Persistence.antt =====
-- `save_jobs` and `load_jobs` of webapp/persistence.py: the snapshot file, and the recovery of the
-- jobs that ran when the server stopped.
use Prim.Native.String.{◌++◌ as ◌+s◌}
use se_skills.Prelude.{
  String, Bool, true, false, Option, none, some, List, [], ◌∷◌, ◌==◌, contains, if◌then◌else◌,
}
use se_skills.Prelude.Dict.{lookup, insert, without}
use se_skills.Prelude.Result.{Result, ok, raised, type_error, ◌>>=◌}
use se_skills.Json.{Json, bool, str, arr, obj, Fields, end, field, truthy}
use se_skills.Jobs.Record.{
  Value, json, tuple, python_object, Job, Jobs, text, is_text, is_set, is_running,
}

-- `json.dumps` and `json.loads`, where `none` is a ValueError.
pub record Codec : Type 0 where
  pub dumps : Json → String
  pub loads : String → Option Json

abbrev pub transient : List String
transient = "task" ∷ "proc" ∷ "persistence_warning" ∷ []

-- The fields of a job that are written.
unfoldable pub clean : Job → Job
clean [] = []
clean ((k, v) ∷ job) = let rest = clean job in if contains k transient then rest else (k, v) ∷ rest

-- What `json.dumps` prints a value as, by `_serialize_default`; `none` is a TypeError.
abbrev pub encode : Value → Option Json
encode (json j) = some j
encode (tuple xs) = some (arr xs)
encode python_object = none

abbrev pub put_field : String → Option Json → Option Fields → Option Fields
put_field k (some j) (some d) = some (field k j d)
put_field k _ _ = none

unfoldable pub encode_job : Job → Option Fields
encode_job [] = some end
encode_job ((k, v) ∷ job) = put_field k (encode v) (encode_job job)

abbrev pub put_job : String → Option Fields → Option Fields → Option Fields
put_job id (some d) (some rest) = some (field id (obj d) rest)
put_job id _ _ = none

-- The payload of the snapshot.
unfoldable pub payload : Jobs → Option Fields
unfolding clean encode_job
payload [] = some end
payload ((id, job) ∷ jobs) = put_job id (encode_job (clean job)) (payload jobs)

-- `save_jobs`: whether it succeeded, and what the file holds then. `writes` tells whether the
-- operating system lets the file be written; it is written whole or not at all.
unfoldable pub save_jobs : Codec → Bool → Jobs → Option String → Bool × Option String
unfolding payload
save_jobs codec writes jobs before = elim (payload jobs) [
  | none ↦ (false, before)
  | some d ↦ if writes then (true, some (codec.dumps (obj d))) else (false, before)
]

-- The dict of an object that was read.
unfoldable pub job_of : Fields → Job
job_of end = []
job_of (field k j d) = (k, json j) ∷ job_of d

-- `rec.get("kind") in {…}`: a list or a dict has no hash.
unfoldable pub kind_in : List String → Option Value → Result Bool
kind_in kinds (some (json (str s))) = ok (contains s kinds)
kind_in kinds (some (json (arr xs))) = raised type_error
kind_in kinds (some (json (obj d))) = raised type_error
kind_in kinds _ = ok false

-- `rec.get("stderr") or ""`, to which a text is added.
unfoldable pub stderr_of : Option Value → Result String
unfolding truthy
stderr_of (some (json (str s))) = ok s
stderr_of other = if is_set other then raised type_error else ok ""

abbrev pub restart_notice : String
restart_notice = "[Server restarted while this job was running. Re-run if needed.]"

abbrev pub with_notice : String → String
with_notice existing = if existing == "" then restart_notice else existing +s "\n" +s restart_notice

abbrev pub interrupted_message : Job → String
interrupted_message job =
    "The server restarted while "
    +s (if is_text "opportunity_state_update" (lookup "kind" job) then "updating" else "creating")
    +s " the overview; no state was promoted. Retry when ready."

-- A job that was running is now an error.
unfoldable pub interrupt : Json → Job → Job
unfolding lookup insert truthy
interrupt now job =
    let failed = insert "ok" (json (bool false)) (insert "status" (text "error") job) in
    if is_set (lookup "finished_at" failed) then failed else insert "finished_at" (json now) failed

abbrev pub overview_kinds : List String
overview_kinds = "opportunity_state_create" ∷ "opportunity_state_update" ∷ []

abbrev pub explain_overview : Job → Job
explain_overview job =
    insert "error_message" (text (interrupted_message job))
      (insert "error_code" (text "interrupted") (without "stderr" (without "stdout" job)))

abbrev pub explain_other : Job → Result Job
explain_other job =
    stderr_of (lookup "stderr" job)
    >>= (λ existing. ok (insert "stderr" (text (with_notice existing)) job))

-- How the job says that it was interrupted.
unfoldable pub explain : Job → Result Job
unfolding kind_in stderr_of lookup insert without
explain job =
    kind_in overview_kinds (lookup "kind" job)
    >>= (λ overview. if overview then ok (explain_overview job) else explain_other job)

abbrev pub with_sig : Option Value → Job → Job
with_sig (some (json (arr xs))) job = insert "sig" (tuple xs) job
with_sig _ job = job

-- `if isinstance(sig, list): rec["sig"] = tuple(sig)`
unfoldable pub restore_sig : Job → Job
unfolding lookup insert
restore_sig job = with_sig (lookup "sig" job) job

-- The body of the loop over the records: `none` is a record that is dropped.
unfoldable pub recover : Json → Job → Result (Option Job)
unfolding is_running interrupt explain restore_sig lookup truthy
recover now job =
    if is_running job
    then (if is_set (lookup "started_at" job)
        then (do explained ← explain (interrupt now job); ok (some (restore_sig explained)))
        else ok none)
    else ok (some (restore_sig job))

abbrev pub keep : String → Option Job → Jobs → Jobs
keep id none jobs = jobs
keep id (some job) jobs = (id, job) ∷ jobs

-- The loop over the records, whose keys are distinct.
unfoldable pub recover_all : Json → Fields → Result Jobs
unfolding recover job_of
recover_all now end = ok []
recover_all now (field id (obj d) rest) = do
  job ← recover now (job_of d)
  jobs ← recover_all now rest
  ok (keep id job jobs)
recover_all now (field id other rest) = recover_all now rest

abbrev pub recover_data : Json → Option Json → Result Jobs
recover_data now (some (obj d)) = recover_all now d
recover_data now _ = ok []

-- `load_jobs` of the file's text.
unfoldable pub load_jobs : Codec → Json → Option String → Result Jobs
unfolding recover_all
load_jobs codec now none = ok []
load_jobs codec now (some content) = recover_data now (codec.loads content)
