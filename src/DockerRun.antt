-- ===== src/DockerRun.antt =====
-- docker_run.py
pub mod Shell
pub mod Settings
pub mod Mounts
pub mod Arguments
pub mod Main
pub mod Volumes
pub mod Joined
pub mod ReadBack
