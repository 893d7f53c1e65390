-- ===== src/Hyos.antt =====
-- loader/src/hyos: the runtime for apps that the HYOS spawner forks.
pub mod State
pub mod Runtime
pub mod Hooks
pub mod Events
pub mod Modules
pub mod Tests
pub mod Capture
