-- ===== src/Bootstrap.antt =====
-- bootstrap.py
pub mod Excerpt
pub mod Templates
pub mod Main
pub mod Copied
pub mod Walked
pub mod Shown
pub mod Pairs
pub mod Ended
