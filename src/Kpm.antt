-- ===== src/Kpm.antt =====
-- kpm/src: the optional KernelPatch module that records execs.
pub mod Tests
pub mod Format
pub mod Ring
pub mod Channel
pub mod Control
pub mod Lifecycle
