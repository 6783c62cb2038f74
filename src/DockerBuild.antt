-- ===== src/DockerBuild.antt =====
-- docker/build.py
pub mod Schema
pub mod Conforms
pub mod Config
pub mod Graph
pub mod Reach
pub mod Order
pub mod Acyclic
pub mod Images
pub mod Builder
pub mod Tags
pub mod Build
pub mod Needed
pub mod BuildOrder
pub mod Memo
pub mod ImageRuns
pub mod Provided
pub mod Loaded
pub mod Kept
pub mod Sound
pub mod Built
pub mod AllBuilt
pub mod Environ
pub mod Printed
