-- ===== src/Elf/Image.antt =====
-- loader/src/utils/elf_util.cpp: `ElfImage`, the symbols of an ELF file. The layout is that of 64-bit
-- files. A function that reads bytes that are not readable answers none.
pub mod Symbols
pub mod Open
pub mod Reads
pub mod Sections
pub mod Unpacked
pub mod Safe
pub mod Unique
pub mod Lookup
pub mod Tests
use zygisk_next_next.Base.{
  ℕ, zero, suc, ◌+◌, ◌-◌, ◌*◌, ◌/◌, ◌%◌, ◌^◌, Bool, true, false, not, ◌||◌, ◌&&◌, List, [], ◌∷◌,
  ◌++◌, Bytes, codes, length, take, drop, same, ltb, leb, ◌==◌, if◌then◌else◌, Option, none, some,
  ◌>>=◌,
}
use zygisk_next_next.Debugdata.{little_endian}
use zygisk_next_next.Elf.Dynamic.{Sym, addr_add}

-- Bytes in memory of which the first `size` are the file's: a mapping goes on to the end of its page.
pub record Data : Type 0 where
  pub bytes : Bytes
  pub size : ℕ

-- A number of `n` bytes.
unfoldable pub read : Data → (n offset : ℕ) → Option ℕ
read d n offset =
    if leb (offset + n) (length d.bytes)
    then some (little_endian (take n (drop offset d.bytes)))
    else none

-- `ElfW(Ehdr)`, as far as it is read
pub record Ehdr : Type 0 where
  pub e_type : ℕ
  pub e_shoff : ℕ
  pub e_shnum : ℕ
  pub e_shstrndx : ℕ

-- `ElfW(Shdr)`, as far as it is read
pub record Shdr : Type 0 where
  pub sh_name : ℕ
  pub sh_type : ℕ
  pub sh_offset : ℕ
  pub sh_size : ℕ
  pub sh_link : ℕ
  pub sh_entsize : ℕ

-- sizeof(ElfW(Ehdr)), sizeof(ElfW(Shdr)), sizeof(ElfW(Sym))
abbrev pub ehdr_size : ℕ
ehdr_size = 64

abbrev pub shdr_size : ℕ
shdr_size = 64

abbrev pub sym_size : ℕ
sym_size = 24

unfoldable pub read_ehdr : Data → Option Ehdr
read_ehdr d = do
  e_type ← read d 2 0x10
  e_shoff ← read d 8 0x28
  e_shnum ← read d 2 0x3c
  e_shstrndx ← read d 2 0x3e
  some (record { e_type = e_type; e_shoff = e_shoff; e_shnum = e_shnum; e_shstrndx = e_shstrndx })

unfoldable pub read_shdr : Data → (offset : ℕ) → Option Shdr
read_shdr d offset = do
  sh_name ← read d 4 offset
  sh_type ← read d 4 (offset + 4)
  sh_offset ← read d 8 (offset + 24)
  sh_size ← read d 8 (offset + 32)
  sh_link ← read d 4 (offset + 40)
  sh_entsize ← read d 8 (offset + 56)
  some (record {
    sh_name = sh_name;
    sh_type = sh_type;
    sh_offset = sh_offset;
    sh_size = sh_size;
    sh_link = sh_link;
    sh_entsize = sh_entsize;
  })

unfoldable pub read_sym : Data → (offset : ℕ) → Option Sym
read_sym d offset = do
  st_name ← read d 4 offset
  st_shndx ← read d 2 (offset + 6)
  st_value ← read d 8 (offset + 8)
  st_size ← read d 8 (offset + 16)
  some (record { st_name = st_name; st_shndx = st_shndx; st_value = st_value; st_size = st_size })

-- `isElf`
unfoldable pub is_elf : Data → Bool
is_elf d = leb 5 d.size && same (take 4 d.bytes) (0x7f ∷ codes "ELF")

-- `sectionInFile`
unfoldable pub section_in_file : Shdr → (file_size : ℕ) → Bool
section_in_file sh file_size =
    leb sh.sh_offset file_size && leb sh.sh_size (file_size - sh.sh_offset)

-- `sectionTableInFile`
unfoldable pub section_table_in_file : Ehdr → (file_size : ℕ) → Bool
section_table_in_file h file_size =
    leb h.e_shoff file_size && leb (h.e_shnum * shdr_size) (file_size - h.e_shoff)

-- The C string that begins the bytes, none where they end before it.
unfoldable pub c_string : Bytes → Option Bytes
c_string [] = none
c_string (c ∷ s) = let rest = c_string s in if c == 0 then some [] else (rest >>= λ r. some (c ∷ r))

-- `strcmp` of the string that begins the bytes with a literal, as far as it reads.
unfoldable pub strcmp : Bytes → Bytes → Option Bool
strcmp [] t = none
strcmp (c ∷ s) [] = some (c == 0)
strcmp (c ∷ s) (k ∷ t) = let rest = strcmp s t in if c == k then rest else some false

-- `SymbolInfo`
pub record SymbolInfo : Type 0 where
  pub name : Bytes
  pub addr : ℕ
  pub size : ℕ

-- SHT_PROGBITS, SHT_SYMTAB, SHT_DYNSYM
abbrev pub sht_progbits : ℕ
sht_progbits = 1

abbrev pub sht_symtab : ℕ
sht_symtab = 2

abbrev pub sht_dynsym : ℕ
sht_dynsym = 11
