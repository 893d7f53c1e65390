-- ===== src/Elf/Tests.antt =====
-- loader/src/utils/elf_util.cpp: the search for a load address at work.
use zygisk_next_next.Base.{
  ℕ, ◌+◌, ◌*◌, ◌≤◌, ◌≡◌, refl, true, List, [], ◌∷◌, codes, replicate, same, some, ◌==◌,
  if◌then◌else◌,
}
use zygisk_next_next.Elf.Maps.{MapEntry, count_matches, find_library_base_in_maps}
use zygisk_next_next.Elf.Maps.Base.{Finds, find_library_base-Finds}
use zygisk_next_next.Elf.Dynamic.{
  map_end, Sym, Memory, Tables, is_match, symbol_loop, max_symbols, search_tables,
}
use zygisk_next_next.Elf.Dynamic.Bounds.{IsSymbol, cut_at, search_tables-Found}

-- A library with two mappings.
abbrev loaded : List MapEntry
loaded =
    record {
      start = 0x7000;
      end = 0x8000;
      offset = 0;
      dev = 1;
      inode = 40;
      perms = 1;
      is_private = true;
      path = codes "/l/liba.so";
    }
    ∷ record {
      start = 0x9000;
      end = 0xa000;
      offset = 0x1000;
      dev = 1;
      inode = 40;
      perms = 5;
      is_private = true;
      path = codes "/l/liba.so";
    }
    ∷ []

find_library_base-Finds_example :
    Finds
      (count_matches loaded (codes "liba.so"))
      (codes "liba.so")
      0x3000
      loaded
      (find_library_base_in_maps loaded (codes "liba.so") 0x3000)
find_library_base-Finds_example = find_library_base-Finds loaded (codes "liba.so") 0x3000

-- An image whose third symbol is `f`.
abbrev f_symbol : Sym
f_symbol = record { st_name = 1; st_shndx = 9; st_value = 0x40; st_size = 8 }

abbrev no_symbol : Sym
no_symbol = record { st_name = 0; st_shndx = 0; st_value = 0; st_size = 0 }

abbrev image : Memory
image = record {
  phdr = λ p. record { p_type = 0; p_vaddr = 0 };
  dyn = λ p. record { d_tag = 0; d_val = 0 };
  sym = λ p. if p == 0x7130 then f_symbol else no_symbol;
  bytes = λ p n. if p == 0x7201 then b'f' ∷ 0 ∷ [] else replicate n 1;
}

abbrev tables : Tables
tables = record { symtab = 0x7100; strtab = 0x7200; strsz = 3 }

f_found : search_tables image loaded tables (codes "f") ≡ some f_symbol
unfolding search_tables map_end max_symbols symbol_loop is_match same
f_found = refl

search_tables-Found_example :
    (j : ℕ) × (1 ≤ j)
    × (0x7100 + j * 24 + 24 ≤ map_end loaded 0x7100)
    × IsSymbol image (cut_at (map_end loaded 0x7200) tables) (codes "f") f_symbol j
search_tables-Found_example = search_tables-Found image loaded tables (codes "f") f_symbol f_found
