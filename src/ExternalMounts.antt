-- ===== src/ExternalMounts.antt =====
-- list_external_mounts.py
pub mod Minimize
pub mod FileSystem
pub mod Symlinks
pub mod Outside
pub mod Scan
pub mod Mounts
pub mod Termination
