-- ===== src/Agent/Acceptance.antt =====
-- `write_output` and `_collect_result`, one after the other.
use se_skills.Prelude.{String, ◌≡◌, refl, true, some, none}
use se_skills.Prelude.Text.{universal_newlines}
use se_skills.Prelude.Int.{pos, ◌≤ℤ◌}
use se_skills.Prelude.Result.{ok}
use se_skills.Contract.Job.{RuntimeJob}
use se_skills.Contract.Result.{Sidecar, RuntimeResult, runtime_result, token_usage}
use se_skills.Contract.Validity.{token_usage_total, usage_of}
use se_skills.Agent.Host.{Host, OutputDir}
use se_skills.Agent.Inputs.{WriteInput, sidecar_of, sidecar_of-sidecar_json}
use se_skills.Agent.Tools.{content, write_output}
use se_skills.Agent.Collect.{
  TokenTotals, collect_result, read_sidecar, sidecar_of_json, matches_job, success, or_none,
}
use se_skills.Agent.Usage.{or_none-count}
use se_skills.Agent.Delivery.{ReadsBack}

-- No total is negative.
pub record NonNegative (t : TokenTotals) : Type 0 where
  pub input : pos 0 ≤ℤ t.input
  pub output : pos 0 ≤ℤ t.output
  pub creation : pos 0 ≤ℤ t.creation
  pub read : pos 0 ≤ℤ t.read

token_usage-NonNegative :
    (t : TokenTotals)
    → NonNegative t
    → token_usage t.input t.output (or_none t.creation) (or_none t.read) none
      ≡ ok (usage_of t.input t.output (or_none t.creation) (or_none t.read))
token_usage-NonNegative t h =
    token_usage_total t.input t.output (or_none t.creation) (or_none t.read) h.input h.output
      (rw (or_none-count t.creation) h.creation) (rw (or_none-count t.read) h.read)

-- What `write_output` writes for a valid sidecar of the job's skill, version and mode, is accepted
-- by `_collect_result`: the result has the Markdown, with a line feed for every carriage return and
-- for every carriage return with the line feed after it, and the sidecar, and is no failure. The
-- conditions: no token total is negative, and what `json.dumps` prints of the sidecar, `json.loads`
-- reads back.
pub collect_result-write_output :
    {Cost : Type 0} (host : Host) (job : RuntimeJob) (transcript : String) (w : WriteInput)
    (sc : Sidecar) (out : OutputDir) (model_name : String) (t : TokenTotals)
    → sidecar_of w.sidecar ≡ some sc
    → matches_job sc job ≡ true
    → ReadsBack host sc
    → NonNegative t
    → let (said, after) = write_output host job transcript w out in
      (said ≡ ok (content "Output written"))
      × ((r : RuntimeResult Cost) × (collect_result job model_name t host after ≡ ok r)
          × (r.output_artifact ≡ some (universal_newlines w.markdown))
          × (r.sidecar ≡ some sc)
          × (r.failure ≡ none))
unfolding write_output collect_result success runtime_result
collect_result-write_output host job transcript w sc out model_name t valid same reads h =
    rw (valid, write_output)
      (
        refl,
        rw
            (
              read_sidecar,
              reads,
              sidecar_of_json,
              sidecar_of-sidecar_json,
              same,
              success,
              token_usage-NonNegative t h,
            )
            (_, refl, refl, refl, refl),
      )
