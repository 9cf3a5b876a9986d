-- ===== src/Git.antt =====
-- The resolution of a git remote to a commit: backend/app/repos/git.py.
pub mod Pkt
pub mod Frames
pub mod Refs
pub mod Advertisement
pub mod RoundTrip
pub mod Resolve
pub mod Name
pub mod Entries
pub mod Resolutions
pub mod Resolved
mod Samples
