-- ===== src/Elf.antt =====
-- loader/src/utils/elf_util.cpp and elf_util.h: the process's mappings and the symbols of its
-- libraries.
pub mod Maps
pub mod Dynamic
pub mod Image
pub mod Tests
