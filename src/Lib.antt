-- ===== src/Lib.antt =====
-- Verification of parts of the SE Skills suite: the hosted worker, which claims jobs from a ledger in
-- the database and runs one skill in a sandbox under its control, and of the local web application its
-- background jobs and the evidence ledger of its command center.
--
-- Program parts and files
--   webapp/hosted/runtime_contract.py   Contract: the data that pass between worker and sandbox
--     (Contract/Job: RuntimeJob; Contract/Result: TokenUsage, RedactedFailure, RuntimeResult, each
--     with the validator that its constructor runs; Contract/Validity: what these let through).
--   webapp/hosted/model_proxy.py   Proxy: the proxy that holds the provider's key.
--     Proxy/State: ProxyConfig, ProxyCapability, _ProxySession and the ledger `_sessions`.
--     Proxy/Ledger: issue_capability, _ensure_session, cancel_session, get_attempt_metadata,
--     consume_attempt_finalization.
--     Proxy/Request: the guards of handle; Proxy/Stream: _upstream_with_cancel and _stream;
--     Proxy/Account: the usage accounting and _redact_response; Proxy/Handle: handle itself.
--     Proxy/Run: histories of calls. Proofs: Proxy/Binding, Screened, Authority, Keeps, Advances,
--     Moves, Sequence, Totals, Billing, Finalization, Limits. Tests and examples: Proxy/Examples.
--   webapp/hosted/agent_loop_harness.py   Agent: the typed-tool loop inside the sandbox, which asks the
--     model through the proxy and runs its tools.
--     Agent/Messages: the conversation; Agent/Host: what surrounds the harness (files, clock, race of
--     a model call, library functions); Agent/Inputs: the strict input models; Agent/Tools:
--     _tool_definitions and _run_tool; Agent/Loop: the turns of TypedToolRuntime.execute, with
--     _cancellable_await; Agent/Collect: _collect_result; Agent/Execute: the guards of execute, the
--     prompts, and execute itself.
--     Proofs: Agent/Turns (induction over the turns), Answers, Requests, Work, Totals, Usage, Attempt,
--     Delivery, Acceptance, Search.
--     Example: Agent/Examples.
--   Exchange: the headers that _default_client and _call_proxy send, against the binding of the proxy.
--   webapp/services/job_service.py, webapp/persistence.py, webapp/security.py   Jobs: the background
--     jobs of the local web application, and their snapshot.
--     Jobs/Record: a job as the dict of its fields; Jobs/Persistence: save_jobs and load_jobs;
--     Jobs/Service: save_snapshot, launch, launch_managed, the ends of _run_job and _run_managed_job,
--     redact_sensitive; Jobs/History: the application over time, as a step relation.
--     Proofs: Jobs/Recovery, Restart, Loading, RoundTrip, Lifecycle, History. Examples: Jobs/Examples.
--   webapp/hosted/migrations/*.sql, webapp/hosted/worker.py   Hosted: the ledger of jobs, as its SQL
--     functions in their last versions, and the worker that calls them. process_one claims a job, runs
--     the executor (in the sandbox of Contract, Proxy and Agent), and completes or fails the attempt.
--     Hosted/Tables: the rows of jobs, job_attempts and outputs; Hosted/Queue: enqueue_job and
--     request_job_cancellation; Hosted/Claim: claim_next_job; Hosted/Lease: worker_heartbeat,
--     complete_job, cancel_job; Hosted/Retry: fail_job, recover_expired_leases; Hosted/Calls: the
--     calls over time; Hosted/Worker: Worker.process_one.
--     Proofs: Hosted/Tracked, Leases, Rows, Rules, Oldest, Begin, Finish, Invariant, Progress, Steps,
--     Trace, Attempts, Fencing, Abandoned, Recovery, Outcome, Decisions, Claiming,
--     Idempotent. Examples:
--     Hosted/Examples.
--   webapp/command_center_evidence.py, webapp/services/evidence_ledger_service.py   Evidence: the
--     sources of the command center (meetings and messages), their associations and processing.
--     Evidence/Record: the records and their validators; Evidence/Status: _derive_processing;
--     Evidence/Association: propose_association, confirm_association, clear_association;
--     Evidence/Processing: mark_processing, mark_processed, mark_failed, retry, request_reprocessing;
--     Evidence/Store: _read_source and an operation on a source; Evidence/Import: import_meetings;
--     Evidence/Forget: begin_forget, finish_forget, purge_forgotten_source; Evidence/Listing:
--     read_content and list_sources; Evidence/Calls: the calls that write, over time.
--     Proofs: Evidence/Settled, Outcome, History (the statuses); Readable, Writing, Reading (reading a
--     record again); Same, Stuck (a record that cannot be read); Receipts, Growth, Append (what is
--     kept, and what is forgotten); Duplicate; Content; Pages.
--     Examples: Evidence/Examples.
--   Json: the values of json.loads. Prelude: shared names, lists, integers, dictionaries, texts.
--
-- How the code is read
--   A method that changes an object takes the old value and returns the new one. An exception that a
--   caller sees is a value (Prelude/Result, Proxy/Check). The body of ModelProxy.handle runs under
--   the session's lock, so a call is one step; what it finds of time and of the outside is an
--   argument (Proxy/Handle, Moment). A cancellation that arrives during the upstream call is part of
--   the race that the call waits for. Times are microseconds, integers are exact.
--   A SQL function reads the clock once, and a call that raises leaves the tables as they were; the
--   rows that other transactions hold are an argument of claim_next_job. An operation of the evidence
--   ledger runs under the file lock, so it is one step.
--   Loops are recursions on the list that they walk; fuel is used only for decimal numerals, where
--   n + 1 rounds are enough for n.
--   The agent loop makes max_turns rounds at most, and its recursion is on that number. The state of
--   the loop also records what it sent, got and ran.
--
-- Not modelled
--   A request that waits for a session's lock while the session is consumed goes on with the removed
--   session; the model lets calls finish one after the other. The semaphore of the proxy only delays.
--   The token library, the JSON decoder, the field parsing of the request models, the hash, the
--   calendar and float arithmetic are parameters (Proxy/Library). `int` of a text is exact for texts
--   of one-byte characters, which headers are. The ASGI wrapper is left out. The JSON of a reply is
--   taken to be printed, which fails for numbers that are not finite.
--   str.lower, the JSON codec and the integers of the tool inputs are parameters of Agent (Agent/Host).
--   The harness's HTTP client is a parameter: a call gives a parsed response or an exception. A tool
--   definition is its name and description; its JSON schema is fixed text. Texts that cannot be encoded
--   as UTF-8 are left out.
--   A background run changes its job in one step at its end, after the process identifier was noted; or
--   it dies, by a cancellation or an exception outside its handlers, and leaves the job as it is.
--   The JSON codec, the patterns of redact_sensitive and the outcome of each write are parameters of
--   Jobs; identifiers that uuid4 makes are taken as given. The result record that _run_job hands to
--   persist_run, and the live sessions, are left out.
--   Files are written and read on a system whose lines end with a line feed.
--   Of the worker the polling loop and the cleanup of expired outputs; the API over enqueue_job; the
--   tokens and memberships of require_active_member_for_org are a parameter (Hosted/Queue, Directory),
--   as is the equality of jsonb values. recover_expired_leases takes the rows in the order of the table.
--   Of the evidence ledger the writing of content files, the scope file and the choice of fields by
--   summarize; the parsing of the fields by Pydantic and the equality of decisions and identities are
--   parameters (Evidence/Record, Fields; Evidence/Calls, Checks), the checksum and the JSON of a
--   record are taken to give it back; a source_id is taken to have its form.
pub mod Prelude
pub mod Json
pub mod Contract
pub mod Proxy
pub mod Agent
pub mod Jobs
pub mod Hosted
pub mod Evidence
pub mod Exchange
