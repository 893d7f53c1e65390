-- ===== src/Companion.antt =====
-- loader/src/ipc/channel.cpp and loader/src/api/companion.cpp: how a module reaches its companion.
pub mod Channel
pub mod Connect
pub mod Balance
pub mod Answered
pub mod Names
pub mod Tests
