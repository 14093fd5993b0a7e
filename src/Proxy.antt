-- ===== src/Proxy.antt =====
-- webapp/hosted/model_proxy.py: the proxy that stands between a sandbox and the model provider.
pub mod State
pub mod Library
pub mod Check
pub mod Ledger
pub mod Stream
pub mod Request
pub mod Account
pub mod Handle
pub mod Binding
pub mod Screened
pub mod Authority
pub mod Run
pub mod Keeps
pub mod Advances
pub mod Moves
pub mod Sequence
pub mod Totals
pub mod Billing
pub mod Finalization
pub mod Limits
mod Examples
