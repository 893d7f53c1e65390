-- ===== src/Loader.antt =====
-- loader/src/entry.cpp and what it calls: the modules of the boot plan are loaded into the process.
pub mod Api
pub mod Process
pub mod Modules
pub mod Balance
pub mod Served
pub mod Entry
pub mod Tests
