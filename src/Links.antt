-- ===== src/Links.antt =====
-- The links between users and a repository: backend/app/repos/service.py, with the ownership check of
-- backend/app/users/dependencies.py.
pub mod Model
pub mod Covered
mod Samples
