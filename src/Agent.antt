-- ===== src/Agent.antt =====
-- webapp/hosted/agent_loop_harness.py: the typed-tool agent loop that runs inside the sandbox.
pub mod Messages
pub mod Host
pub mod Inputs
pub mod Tools
pub mod Collect
pub mod Loop
pub mod Execute
pub mod Turns
pub mod Answers
pub mod Requests
pub mod Attempt
pub mod Work
pub mod Usage
pub mod Delivery
pub mod Totals
pub mod Search
pub mod Acceptance
pub mod Examples
