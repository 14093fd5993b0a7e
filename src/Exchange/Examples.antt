-- ===== src/Exchange/Examples.antt =====
-- The attempt of Agent/Examples against a session of the proxy.
use se_skills.Prelude.{refl, false, [], ◌∷◌, map}
use se_skills.Prelude.Int.{pos}
use se_skills.Proxy.State.{ProxyCapability, new_session}
use se_skills.Agent.Examples.{job, host, turns, no_output, final_state, reaches}
use se_skills.Exchange.{AllBound, call_request, execute-AllBound}
use se_skills.Prelude.Int.{ℤ}

abbrev capability : ProxyCapability
capability = record {
  jti = "token-1";
  job_id = "job-1";
  attempt_number = pos 1;
  attempt_id = "attempt-1";
  model = "claude";
  deadline = "2026-01-01T00:10:00+00:00";
  endpoint = "https://api.anthropic.com/v1/messages";
  api_version = "2023-06-01";
  allowed_tools = "finish" ∷ "search_transcript" ∷ "write_output" ∷ [];
}

execute-AllBound_example :
    AllBound capability
      (new_session capability)
      (map (call_request (λ r. 123 ∷ 125 ∷ []) job) final_state.sent)
unfolding new_session
execute-AllBound_example =
    execute-AllBound ℤ host job 2 false turns no_output final_state (λ r. 123 ∷ 125 ∷ []) capability
      (new_session capability) reaches
      (record { same_job = refl; same_number = refl; same_attempt = refl; has_attempt = refl }) refl
      refl
