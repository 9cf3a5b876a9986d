-- ===== src/Writes.antt =====
-- The writes of the worker that survive throttling: worker/app/core/database.py.
pub mod Bulk
pub mod Insert
pub mod Steps
pub mod Counts
pub mod Errors
pub mod Stored
pub mod Returns
pub mod Throttled
mod Samples
