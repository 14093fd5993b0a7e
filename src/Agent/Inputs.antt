-- ===== src/Agent/Inputs.antt =====
-- The strict input models of the tools and of the sidecar: exactly the named fields, each of its
-- type. `none` stands for a ValidationError.
use se_skills.Prelude.{
  ◌≡◌, arith, String, Bool, true, false, ◌&&◌, Option, none, some, List, [], ◌∷◌, ◌==◌, contains,
  if◌then◌else◌,
}
use se_skills.Prelude.Int.{ℤ, pos, ltb_ℤ}
use se_skills.Json.{Json, null, str, obj, Fields, end, field, get}
use se_skills.Contract.Modes.{Mode, full, brief}
use se_skills.Contract.Result.{Sidecar}

infixl 10 ◌>>=◌
abbrev pub ◌>>=◌ {ℓ κ} : {A : Type ℓ} {B : Type κ} → Option A → (A → Option B) → Option B
none >>= f = none
some a >>= f = f a

-- `extra="forbid"`
unfoldable pub only : List String → Fields → Bool
only names end = true
only names (field k v d) = contains k names && only names d

abbrev pub as_str : Option Json → Option String
as_str (some (str s)) = some s
as_str _ = none

-- A field of type `str | None`, which may be left out.
abbrev pub as_optional : Option Json → Option (Option String)
as_optional none = some none
as_optional (some null) = some none
as_optional (some (str s)) = some (some s)
as_optional (some _) = none

abbrev pub checked : Bool → Option (Unit {0})
checked true = some tt
checked false = none

-- `EmptyInput`
unfoldable pub empty_input : Fields → Option (Unit {0})
empty_input end = some tt
empty_input (field k v d) = none

-- `ReadPriorContextInput`
unfoldable pub read_prior_context_input : Fields → Option String
unfolding only get
read_prior_context_input d = do _ ← checked (only ("ref" ∷ []) d); as_str (get "ref" d)

-- `SearchTranscriptInput._clamp_max_results`
unfoldable pub clamp_max_results : ℤ → ℤ
clamp_max_results n = if ltb_ℤ n (pos 1) then pos 1 else if ltb_ℤ (pos 100) n then pos 100 else n

pub record SearchInput : Type 0 where
  pub query : String
  pub max_results : ℤ

-- The default is not validated, and lies within the bounds.
unfoldable pub max_results_field : (Json → Option ℤ) → Option Json → Option ℤ
unfolding clamp_max_results
max_results_field to_int none = some (pos 10)
max_results_field to_int (some j) = do n ← to_int j; some (clamp_max_results n)

-- `SearchTranscriptInput`
unfoldable pub search_transcript_input : (Json → Option ℤ) → Fields → Option SearchInput
unfolding only get max_results_field
search_transcript_input to_int d = do
  _ ← checked (only ("query" ∷ "max_results" ∷ []) d)
  query ← as_str (get "query" d)
  max_results ← max_results_field to_int (get "max_results" d)
  some (record { query = query; max_results = max_results })

pub record WriteInput : Type 0 where
  pub markdown : String
  pub sidecar : Fields

abbrev pub as_obj : Option Json → Option Fields
as_obj (some (obj d)) = some d
as_obj _ = none

-- `WriteOutputInput`
unfoldable pub write_output_input : Fields → Option WriteInput
unfolding only get
write_output_input d = do
  _ ← checked (only ("markdown" ∷ "sidecar" ∷ []) d)
  markdown ← as_str (get "markdown" d)
  sidecar ← as_obj (get "sidecar" d)
  some (record { markdown = markdown; sidecar = sidecar })

-- `ReportFailureInput`
unfoldable pub report_failure_input : Fields → Option (Unit {0})
unfolding only get
report_failure_input d = do
  _ ← checked (only ("category" ∷ []) d)
  category ← as_str (get "category" d)
  checked (category == "model_reported_failure")

-- A field `mode: Mode = "full"`.
unfoldable pub mode_field : Option Json → Option Mode
mode_field none = some full
mode_field (some (str s)) =
    if s == "full" then some full else if s == "brief" then some brief else none
mode_field (some _) = none

-- A field `skill_version: str = "1.0"`.
unfoldable pub version_field : Option Json → Option String
version_field none = some "1.0"
version_field (some (str s)) = some s
version_field (some _) = none

abbrev pub sidecar_fields : List String
sidecar_fields = "skill" ∷ "skill_version" ∷ "mode" ∷ "title" ∷ "date" ∷ "source_coverage" ∷ []

-- `SandboxOutputSidecar(**fields)`
unfoldable pub sidecar_of : Fields → Option Sidecar
unfolding only get mode_field version_field
sidecar_of d = do
  _ ← checked (only sidecar_fields d)
  skill ← as_str (get "skill" d)
  version ← version_field (get "skill_version" d)
  mode ← mode_field (get "mode" d)
  title ← as_optional (get "title" d)
  date ← as_optional (get "date" d)
  coverage ← as_optional (get "source_coverage" d)
  some (record {
    skill = skill;
    skill_version = version;
    mode = mode;
    title = title;
    date = date;
    source_coverage = coverage;
  })

abbrev pub optional_json : Option String → Json
optional_json none = null
optional_json (some s) = str s

abbrev pub mode_json : Mode → Json
mode_json full = str "full"
mode_json brief = str "brief"

-- The object that `model_dump_json` prints.
unfoldable pub sidecar_json : Sidecar → Fields
sidecar_json s = field "skill" (str s.skill) (
    field "skill_version" (str s.skill_version) (
      field "mode" (mode_json s.mode) (
        field "title" (optional_json s.title) (
          field "date" (optional_json s.date)
            (field "source_coverage" (optional_json s.source_coverage) end)))))

-- A sidecar that is printed is read back as it was.
pub sidecar_of-sidecar_json : (s : Sidecar) → sidecar_of (sidecar_json s) ≡ some s
unfolding sidecar_of sidecar_json
sidecar_of-sidecar_json s = ground arith
