-- ===== src/Boot.antt =====
-- loader/src/ipc/plan.h and loader/src/module/plan.cpp: the boot plan that the injector hands to the
-- loader.
pub mod Plan
pub mod Tests
