-- ===== src/Elf/Image/Tests.antt =====
-- loader/src/utils/elf_util.cpp: the theorems about `ElfImage` at work on a small file.
use zygisk_next_next.Base.{
  ℕ, ◌<◌, ◌≡◌, ◌≢◌, refl, true, List, [], ◌∷◌, ◌++◌, Bytes, codes, replicate, same, concat, none,
  some, false, Option, arith,
}
use zygisk_next_next.Debugdata.{little_endian}
use zygisk_next_next.Elf.Image.{read, read_ehdr, is_elf, section_table_in_file, strcmp, SymbolInfo}
use zygisk_next_next.Elf.Dynamic.{Memory}
use zygisk_next_next.Elf.Image.Lookup.{IsLookup, symbol_lookup-IsLookup}
use zygisk_next_next.Elf.Image.{read_shdr, read_sym, c_string, section_in_file}
use zygisk_next_next.Elf.Image.Open.{RuntimeHeader, runtime_lookup, symbol_lookup}
use zygisk_next_next.Elf.Image.Symbols.{
  Names, Parsed, is_debug_section, parse_gnu_debug_data, unpack_from, unique, ensure_parsed,
  section_names, section_loop, visit_section, table_symbols, linked_symbols, parse_symbols,
  symbol_of, debug_symbols, symbol_key,
}
use zygisk_next_next.Elf.Image.Open.{
  World, Image, open_path, open_elf, open_sized, open_image, symbols_of, find_symbol,
}
use zygisk_next_next.Elf.Image.Reads.{ends_with_nul, IsReadable}
use zygisk_next_next.Elf.Image.Safe.{IsSound, open_image-safe, IsAccepted, symbols_of-short}
use zygisk_next_next.Elf.Image.Unique.{Distinct, unique_lem}

abbrev half : ℕ → Bytes
half n = n ∷ 0 ∷ []

abbrev word : ℕ → Bytes
word n = n ∷ 0 ∷ 0 ∷ 0 ∷ []

abbrev quad : ℕ → Bytes
quad n = n ∷ 0 ∷ 0 ∷ 0 ∷ 0 ∷ 0 ∷ 0 ∷ 0 ∷ []

-- A section header: type, offset, size, link and size of an entry.
abbrev section : ℕ → ℕ → ℕ → ℕ → ℕ → Bytes
section kind offset size link entry = concat (
    word 0
    ∷ word kind
    ∷ replicate 16 0
    ∷ quad offset
    ∷ quad size
    ∷ word link
    ∷ replicate 12 0
    ∷ quad entry
    ∷ [])

-- A shared library with a symbol table of one symbol `f` at 0x40, and its string table.
abbrev library : Bytes
library = concat (
    (0x7f ∷ codes "ELF")
    ∷ replicate 12 0
    ∷ half 3
    ∷ replicate 22 0
    ∷ quad 64
    ∷ replicate 12 0
    ∷ half 2
    ∷ half 0
    ∷ section 2 192 24 1 24
    ∷ section 3 216 3 0 0
    ∷ word 1
    ∷ half 0
    ∷ half 7
    ∷ quad 0x40
    ∷ quad 16
    ∷ (0 ∷ b'f' ∷ 0 ∷ [])
    ∷ [])

abbrev world : World
world = record {
  open_file = λ path. some (record { st_size = some 219; mapped = some (library ++ 0 ∷ []) });
  maps = [];
  magic = λ address. 0x7f ∷ codes "ELF";
}

abbrev image : Image
image = record {
  path = codes "/l.so";
  base = 0x1000;
  is_dyn = true;
  content = record { bytes = library ++ 0 ∷ []; size = 219 };
  ehdr = record { e_type = 3; e_shoff = 64; e_shnum = 2; e_shstrndx = 0 };
}

open-image : open_image world (codes "/l.so") 0x1000 ≡ some image
unfolding open_image open_path open_sized open_elf is_elf read_ehdr read little_endian
    section_table_in_file same
open-image = refl

image-IsReadable : IsReadable image.content
unfolding ends_with_nul
image-IsReadable = record { in_memory = omega arith; ends = refl }

open_image-safe_example : IsSound world image × (¬ (symbols_of (λ content. none) image ≡ none))
open_image-safe_example =
    open_image-safe (λ content. none) (λ content out e f. cc e) world (codes "/l.so") 0x1000 image
      open-image image-IsReadable

-- A file with a .gnu_debugdata of six bytes, and the names of its two sections.
abbrev debug_library : Bytes
debug_library = concat (
    (0x7f ∷ codes "ELF")
    ∷ replicate 12 0
    ∷ half 3
    ∷ replicate 22 0
    ∷ quad 64
    ∷ replicate 12 0
    ∷ half 2
    ∷ half 1
    ∷ section 1 207 6 0 0
    ∷ section 3 192 15 0 0
    ∷ codes ".gnu_debugdata"
    ∷ (0 ∷ [])
    ∷ replicate 6 1
    ∷ [])

abbrev debug_world : World
debug_world = record world {
  open_file = λ path. some (record { st_size = some 213; mapped = some (debug_library ++ 0 ∷ []) });
}

abbrev debug_image : Image
debug_image = record image {
  content = record { bytes = debug_library ++ 0 ∷ []; size = 213 };
  ehdr = record { e_type = 3; e_shoff = 64; e_shnum = 2; e_shstrndx = 1 };
}

-- Whatever the section holds, it unpacks to five bytes that begin like an ELF file.
abbrev short_data : Bytes → Option Bytes
short_data content = some (0x7f ∷ codes "ELF!")

open-debug_image : open_image debug_world (codes "/l.so") 0x1000 ≡ some debug_image
unfolding open_image open_path open_sized open_elf is_elf read_ehdr read little_endian
    section_table_in_file same
open-debug_image = refl

debug_image-IsReadable : IsReadable debug_image.content
unfolding ends_with_nul
debug_image-IsReadable = record { in_memory = omega arith; ends = refl }

abbrev debug_names : Option Names
debug_names = some (record { offset = 192; size = 15 })

debug_image-names : section_names debug_image.content debug_image.ehdr ≡ some debug_names
unfolding section_names read_shdr read little_endian section_in_file
debug_image-names = refl

abbrev debug_parsed : Parsed
debug_parsed = record { symbols = []; debugdata = some (0x7f ∷ codes "ELF!") }

debug_image-unpacks :
    section_loop short_data debug_image.content debug_image.ehdr debug_names 0x1000 2 64
      (record { symbols = []; debugdata = none })
    ≡ some debug_parsed
unfolding section_loop visit_section is_debug_section parse_gnu_debug_data unpack_from strcmp is_elf
    same read_shdr read little_endian section_in_file
debug_image-unpacks = refl

symbols_of-short_example :
    IsAccepted short_data (0x7f ∷ codes "ELF!") × (symbols_of short_data debug_image ≡ none)
symbols_of-short_example =
    symbols_of-short short_data debug_world (codes "/l.so") 0x1000 debug_image debug_names
      debug_parsed (0x7f ∷ codes "ELF!") open-debug_image debug_image-IsReadable debug_image-names
      debug_image-unpacks refl (omega arith)

-- A symbol that both symbol tables have.
abbrev symbols : List SymbolInfo
symbols =
    record { name = codes "f"; addr = 64; size = 16 }
    ∷ record { name = codes "g"; addr = 64; size = 16 }
    ∷ record { name = codes "f"; addr = 64; size = 16 }
    ∷ []

unique_lem_example :
    Distinct (unique [] symbols)
    × (find_symbol (codes "g") true (unique [] symbols) ≡ find_symbol (codes "g") true symbols)
unique_lem_example =
    let letter : (c : ℕ) → 0 < c → c ≢ 0 = λ c h e. omega arith in
    unique_lem (codes "g") true symbols (
      (letter _ (omega arith), tt),
      ((letter _ (omega arith), tt), ((letter _ (omega arith), tt), tt)),
    )

abbrev no_data : Bytes → Option Bytes
no_data content = none

-- The symbols of the small file.
abbrev image_symbols : List SymbolInfo
image_symbols = record { name = codes "f"; addr = 0x1040; size = 16 } ∷ []

image-parses : symbols_of no_data image ≡ some image_symbols
unfolding symbols_of ensure_parsed section_names section_loop visit_section table_symbols
    linked_symbols parse_symbols symbol_of c_string read_shdr read_sym read little_endian
    section_in_file debug_symbols unique symbol_key
image-parses = refl

-- A process in which the library's dynamic section is not mapped.
abbrev memory : Memory
memory = record {
  phdr = λ p. record { p_type = 2; p_vaddr = 0 };
  dyn = λ p. record { d_tag = 0; d_val = 0 };
  sym = λ p. record { st_name = 0; st_shndx = 0; st_value = 0; st_size = 0 };
  bytes = λ p n. [];
}

abbrev header : ℕ → RuntimeHeader
header base = record {
  magic = 0x7f ∷ codes "ELF";
  ei_class = 2;
  ei_data = 1;
  e_phoff = 64;
  e_phnum = 1;
}

symbol_lookup-IsLookup_example :
    (r : Option (ℕ × ℕ)) × (symbol_lookup no_data memory header [] image (codes "f") false ≡ some r)
    × IsLookup
        (runtime_lookup memory header [] 0x1000 (codes "f"))
        (codes "f")
        false
        image_symbols
        r
symbol_lookup-IsLookup_example =
    symbol_lookup-IsLookup no_data memory header [] image (codes "f") false image_symbols
      image-parses
