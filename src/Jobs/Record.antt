-- ===== src/Jobs/Record.antt =====
-- A job: the dict of its fields.
use se_skills.Prelude.{String, Bool, true, false, Option, none, some, ◌==◌}
use se_skills.Prelude.Dict.{Dict, lookup}
use se_skills.Json.{Json, str, arr, Items, truthy}

-- The value of a field: a JSON value, a tuple, or an object that JSON has no form for, such as a
-- task or a process.
pub data Value : Type 0 where
  json : Json → Value
  tuple : Items → Value
  python_object : Value

abbrev pub Job : Type 0
Job = Dict Value

abbrev pub Jobs : Type 0
Jobs = Dict Job

abbrev pub text : String → Value
text s = json (str s)

-- `job.get(key) == "text"`
abbrev pub is_text : String → Option Value → Bool
is_text t (some (json (str s))) = s == t
is_text t _ = false

-- `job.get(key)`, tested as a condition
abbrev pub is_set : Option Value → Bool
is_set none = false
is_set (some (json j)) = truthy j
is_set (some (tuple xs)) = truthy (arr xs)
is_set (some python_object) = true

abbrev pub status : Job → Option Value
status job = lookup "status" job

unfoldable pub is_running : Job → Bool
unfolding lookup
is_running job = is_text "running" (status job)
