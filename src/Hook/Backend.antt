-- ===== src/Hook/Backend.antt =====
-- loader/src/hook/backend: how each engine's hooks are kept and undone. The hooking libraries are
-- parameters.
pub mod Table
pub mod Contract
pub mod Lsplt
pub mod And64
pub mod Plti
pub mod Bytehook
pub mod Xhook
pub mod Inline
pub mod Tests
