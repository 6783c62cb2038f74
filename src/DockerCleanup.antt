-- ===== src/DockerCleanup.antt =====
-- docker_cleanup.py
pub mod Names
pub mod Candidates
pub mod Batches
pub mod Kept
pub mod Cleaned
pub mod Schedule
pub mod Answered
pub mod Uncancelled
pub mod TagNames
pub mod Main
pub mod Safe
