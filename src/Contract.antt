-- ===== src/Contract.antt =====
-- webapp/hosted/runtime_contract.py: the data that pass between the worker and a sandbox, with the
-- validators that their constructors run. A refused construction raises `RuntimeValidationError`,
-- which is a `ValueError`.
pub mod Modes
pub mod Job
pub mod Result
pub mod Validity
