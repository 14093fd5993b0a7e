-- ===== src/Proxy/Stream.antt =====
-- `_upstream_with_cancel` and `_stream` of model_proxy.py: one upstream call, raced against
-- cancellation and the deadline.
use se_skills.Prelude.{
  ℕ, ◌+◌, Bool, true, Option, none, some, List, [], ◌++◌, ltb, leb, length, if◌then◌else◌,
}
use se_skills.Prelude.Result.{value_error}
use se_skills.Contract.Result.{timeout}
use se_skills.Proxy.State.{ProxySession}
use se_skills.Proxy.Check.{Check, pass, refuse, fails}

abbrev pub Bytes : Type 0
Bytes = List ℕ

-- `httpx` raises HTTPStatusError, TimeoutException, or another RequestError.
pub data UpstreamError : Type 0 where
  http_status timed_out request_error : UpstreamError

-- What the provider sends, chunk by chunk, until it ends or the client raises.
pub data Incoming : Type 0 where
  finished : Incoming
  broken : UpstreamError → Incoming
  chunk : Bytes → Incoming → Incoming

-- `_stream` with the body read so far: the body, a body that is too large, or the client's error.
pub data Streamed : Type 0 where
  body : Bytes → Streamed
  too_large : Streamed
  failed : UpstreamError → Streamed

unfoldable pub stream : ℕ → Bytes → Incoming → Streamed
stream limit read finished = body read
stream limit read (broken e) = failed e
stream limit read (chunk bytes rest) =
    let more = stream limit (read ++ bytes) rest in
    if ltb limit (length read + length bytes) then too_large else more

-- What `asyncio.wait` finds done, at least one of the three.
pub record Race : Type 0 where
  pub cancel : Bool
  pub deadline : Bool
  pub upstream : Option Incoming

unfoldable pub stream_result : ℕ → Option Incoming → Check Bytes
unfolding stream
stream_result limit none = fails value_error
stream_result limit (some incoming) = elim (stream limit [] incoming) [
  | body bytes ↦ pass bytes
  | too_large ↦ refuse 502 "upstream_response_too_large"
  | failed http_status ↦ refuse 502 "upstream_error"
  | failed timed_out ↦ refuse 504 "upstream_timeout"
  | failed request_error ↦ refuse 502 "upstream_error"
]

-- `now` is the time at entry. A cancellation that is found done has set the session's event.
unfoldable pub upstream_with_cancel : ℕ → ℕ → ℕ → Race → ProxySession → ProxySession × Check Bytes
unfolding stream_result
upstream_with_cancel limit deadline now race s =
    if leb deadline now
    then (record s { terminal_category = some timeout }, refuse 504 "timeout")
    else if race.cancel
    then (record s { cancelled = true }, refuse 499 "session_cancelled")
    else if race.deadline
    then (record s { terminal_category = some timeout }, refuse 504 "timeout")
    else (s, stream_result limit race.upstream)

-- All that was sent before the end of the stream.
unfoldable pub sent : Incoming → Bytes
sent finished = []
sent (broken e) = []
sent (chunk bytes rest) = bytes ++ sent rest
