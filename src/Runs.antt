-- ===== src/Runs.antt =====
-- Pipeline runs: backend/app/pipeline and the parts of backend/app/repos/service.py that claim,
-- dispatch and retry them.
pub mod Model
pub mod Dispatch
pub mod Claims
pub mod Retries
pub mod Reconcile
mod Samples
