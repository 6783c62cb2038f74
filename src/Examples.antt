-- ===== src/Examples.antt =====
-- Concrete runs of the scripts' models, one for each result.
mod Docker
mod Cleanup
mod Coverage
mod Mounts
mod Run
mod Boot
