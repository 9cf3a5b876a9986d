-- ===== src/Repos.antt =====
-- The creation, the joining and the relaunch of repositories: backend/app/repos/service.py.
pub mod Model
pub mod Create
pub mod Analyze
pub mod Relaunch
pub mod Upload
pub mod Read
pub mod Steps
pub mod Joined
pub mod Found
pub mod Twice
pub mod Race
pub mod Moved
pub mod Left
pub mod Elsewhere
pub mod Uploads
pub mod InPlace
mod Kept
mod Samples
