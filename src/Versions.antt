-- ===== src/Versions.antt =====
-- The analyzer versions: the cache of backend/app/pipeline/service.py, and the staleness of a
-- repository of backend/app/repos/service.py.
pub mod Cache
pub mod Stale
mod Samples
