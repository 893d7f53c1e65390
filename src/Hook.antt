-- ===== src/Hook.antt =====
-- loader/src/hook, loader/src/api/hook.cpp and loader/src/config/hooks.cpp: the hook engines and the
-- hooks that modules ask for.
pub mod Engine
pub mod Tests
pub mod Dispatch
pub mod Plt
pub mod Backend
