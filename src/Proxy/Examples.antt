-- ===== src/Proxy/Examples.antt =====
-- A proxy at work: one job, one token, and the calls of a short attempt.

use se_skills.Prelude.{
  ℕ, ◌≤◌, ◌↔◌, ◌≡◌, refl, String, false, none, some, List, [], ◌∷◌, ◌==◌, arith, length,
  if◌then◌else◌,
}
use se_skills.Prelude.Int.{ℤ, pos, ◌+ℤ◌}
use se_skills.Prelude.Result.{ok}
use se_skills.Prelude.Dict.{lookup, insert}
use se_skills.Prelude.Text.{int_of_text, rstrip_slash}
use se_skills.Json.{Json, null, str, int, obj, end, field, get}
use se_skills.Proxy.State.{ProxyConfig, ProxyCapability, Sessions, MessageRequest, new_session}
use se_skills.Proxy.Library.{Library, claims, value}
use se_skills.Proxy.Check.{reply}
use se_skills.Proxy.Ledger.{ensure_session, cancel_session, consume_attempt_finalization}
use se_skills.Proxy.Stream.{chunk, finished, stream, sent, body}
use se_skills.Proxy.Request.{Request, screen}
use se_skills.Proxy.Account.{add_usage, ◌and_then◌, int_or_zero, usage_fields}
use se_skills.Proxy.Handle.{Moment, Upstream, Handled, handle}
use se_skills.Proxy.Screened.{IsScreened}
use se_skills.Proxy.Authority.{IsAuthorized, handle-IsAuthorized}
use se_skills.Proxy.Sequence.{numbers-run-Ascending, numbers-run_cancelled}
use se_skills.Proxy.Moves.{numbers, Ascending}
use se_skills.Proxy.Advances.{next_number}
use se_skills.Proxy.Billing.{bill, session_totals, handle_bills}
use se_skills.Proxy.Finalization.{finalization, empty_finalization, consume_once, handle-consume}
use se_skills.Proxy.Limits.{Ends, stream_exact}
use se_skills.Proxy.Run.{Event, call, step, run}

abbrev capability : ProxyCapability
capability = record {
  jti = "token-1";
  job_id = "job-1";
  attempt_number = pos 1;
  attempt_id = "attempt-1";
  model = "claude";
  deadline = "2026-01-01T00:10:00+00:00";
  endpoint = "https://api.anthropic.com/v1/messages";
  api_version = "2023-06-01";
  allowed_tools = "finish" ∷ [];
}

abbrev question : MessageRequest (Unit {0})
question = record {
  model = some "claude";
  max_tokens = 4096;
  messages = record { role = "user"; content = "hello" } ∷ [];
  tools = some (record { name = "finish"; description = "done" } ∷ []);
  stream = none;
  rest = tt;
}

-- The provider's answer: three input tokens and five output tokens.
abbrev provider_answer : Json
provider_answer = obj (
    field "id" (str "msg-1") (
      field "secret" (str "x") (
        field "usage"
          (obj (field "input_tokens" (int (pos 3)) (field "output_tokens" (int (pos 5)) end)))
          end)))

abbrev library : Library
library = record {
  Cost = ℤ;
  Rest = Unit;
  of_int = λ n. n;
  add = ◌+ℤ◌;
  mul = λ a b. a;
  div = λ a b. a;
  encode = λ j secret. "signed";
  decode = λ secret token now. claims null;
  loads = λ bytes. value provider_answer;
  capability_fields = λ j. some capability;
  request_fields = λ j. some question;
  digest = λ t. t;
  isoformat = λ t. "2026-01-01T00:10:00+00:00";
  fromisoformat = λ t. some 600;
}

abbrev cfg : ProxyConfig ℤ
cfg = record {
  secret = "s";
  anthropic_api_key = "key";
  anthropic_api_url = "https://api.anthropic.com/";
  anthropic_api_version = "2023-06-01";
  max_body_bytes = 100;
  max_response_bytes = 100;
  max_upstream_timeout = 120;
  min_upstream_timeout = 1;
  max_tokens = 8192;
  cost_per_1k_input = pos 3;
  cost_per_1k_output = pos 15;
}

abbrev request : String → Request
request seq = record {
  method = "POST";
  path = "/v1/messages";
  headers =
      ("content-type", "application/json")
      ∷ ("authorization", "Bearer signed")
      ∷ ("x-job-id", "job-1")
      ∷ ("x-attempt-number", "1")
      ∷ ("x-attempt-id", "attempt-1")
      ∷ ("x-request-seq", seq)
      ∷ [];
  content = 123 ∷ 125 ∷ [];
}

abbrev moment : Moment
moment = record {
  token_time = 0;
  deadline_time = 100;
  stream_time = 101;
  race = record { cancel = false; deadline = false; upstream = some (chunk (1 ∷ 2 ∷ []) finished) };
}

abbrev first_call : Handled library
first_call = handle library cfg [] moment (request "1")

first_call_goes_through :
    (first_call.response
      ≡ ok (
          reply (
            field "id" (str "msg-1") (
              field "usage"
                (obj (field "input_tokens" (int (pos 3)) (field "output_tokens" (int (pos 5)) end)))
                end))))
    × (lookup "token-1" first_call.sessions
        ≡ some (record (new_session capability) {
          next_seq = 2;
          input_tokens = pos 3;
          output_tokens = pos 5;
          request_count = 1;
        }))
unfolding handle lookup insert new_session add_usage ◌and_then◌ int_or_zero usage_fields get
    int_of_text rstrip_slash ◌+ℤ◌
first_call_goes_through = (refl, refl)

abbrev first_upstream : Upstream (Unit {0})
first_upstream = record {
  url = "https://api.anthropic.com/v1/messages";
  api_key = "key";
  api_version = "2023-06-01";
  read_timeout = 120;
  request = question;
}

handle-IsAuthorized_example :
    (payload : Json) × (c : ProxyCapability) × IsScreened library cfg 0 (request "1") payload c
    × IsAuthorized library cfg c payload moment (request "1") (ensure_session c []) first_upstream
unfolding handle lookup int_of_text rstrip_slash new_session get ◌and_then◌ int_or_zero
handle-IsAuthorized_example =
    handle-IsAuthorized library cfg [] moment (request "1") first_upstream refl

abbrev three_calls : List Event
three_calls = call moment (request "1") ∷ call moment (request "1") ∷ call moment (request "2") ∷ []

-- The second call repeats the first number, and is not sent.
numbers-three_calls :
    numbers "token-1" (run library cfg three_calls []).1 ≡ some (pos 1) ∷ some (pos 2) ∷ []
unfolding run step handle lookup insert new_session add_usage ◌and_then◌ int_or_zero usage_fields
    get int_of_text rstrip_slash ◌+ℤ◌ numbers
numbers-three_calls = refl

numbers-run-Ascending_example :
    Ascending 1
      (numbers "token-1" (run library cfg three_calls []).1)
      (next_number (lookup "token-1" (run library cfg three_calls []).0))
unfolding lookup
numbers-run-Ascending_example =
    numbers-run-Ascending library cfg "token-1" three_calls [] (refl, (refl, (refl, tt)))

abbrev open_ledger : Sessions
open_ledger = ("token-1", new_session capability) ∷ []

numbers-run_cancelled_example :
    numbers "token-1" (run library cfg three_calls (cancel_session (some "token-1") open_ledger)).1
    ≡ []
unfolding lookup
numbers-run_cancelled_example =
    numbers-run_cancelled library cfg "token-1" (new_session capability) three_calls open_ledger
      refl (refl, (refl, (refl, tt)))

handle_bills_example :
    (session_totals (lookup "token-1" first_call.sessions)
      ≡ bill
          (reply (
            field "id" (str "msg-1") (
              field "usage"
                (obj (field "input_tokens" (int (pos 3)) (field "output_tokens" (int (pos 5)) end)))
                end)))
          (session_totals (lookup "token-1" [])))
    × ((j : String) → ("token-1" == j) ≡ false → lookup j first_call.sessions ≡ lookup j [])
unfolding handle lookup int_of_text
handle_bills_example =
    handle_bills library cfg [] moment (request "1") provider_answer capability _ refl
      first_call_goes_through.0

consume_once_example :
    let (after, got) = consume_attempt_finalization library cfg (some "token-1") open_ledger in
    (got ≡ ok (finalization library cfg (new_session capability)))
    × (consume_attempt_finalization library cfg (some "token-1") after
        ≡ (after, ok (empty_finalization library cfg)))
    × ((i : String) → lookup i after ≡ (if "token-1" == i then none else lookup i open_ledger))
unfolding lookup new_session
consume_once_example =
    consume_once library cfg "token-1" (new_session capability) open_ledger refl (omega arith)

handle-consume_example :
    let after = (consume_attempt_finalization library cfg (some "token-1") first_call.sessions).0 in
    ((handle library cfg after moment (request "1")).response
      ≡ (handle library cfg [] moment (request "1")).response)
    × ((handle library cfg after moment (request "1")).forwarded
        ≡ (handle library cfg [] moment (request "1")).forwarded)
unfolding screen lookup
handle-consume_example =
    handle-consume library cfg "token-1" first_call.sessions moment (request "1") provider_answer
      capability refl refl

stream_exact_example : (stream 100 [] (chunk (1 ∷ 2 ∷ []) finished) ≡ body (1 ∷ 2 ∷ [])) ↔ (
    Ends (chunk (1 ∷ 2 ∷ []) finished)
    × (◌≡◌ {A = List ℕ} (1 ∷ 2 ∷ []) (sent (chunk (1 ∷ 2 ∷ []) finished)))
    × (length (sent (chunk (1 ∷ 2 ∷ []) finished)) ≤ 100))
stream_exact_example = stream_exact 100 (chunk (1 ∷ 2 ∷ []) finished) (1 ∷ 2 ∷ [])
