-- ===== src/ContainerEvents.antt =====
-- container_event_handler.py
pub mod Listener
pub mod Resilient
pub mod Cancel
pub mod Quiet
