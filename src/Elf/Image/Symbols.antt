-- ===== src/Elf/Image/Symbols.antt =====
-- loader/src/utils/elf_util.cpp: `parseSymbols`, `parseGnuDebugData` and `ensureParsed`.
use zygisk_next_next.Base.{
  ℕ, zero, suc, ◌+◌, ◌*◌, ◌/◌, Bool, false, not, ◌||◌, ◌&&◌, List, [], ◌∷◌, ◌++◌, Bytes, codes,
  length, take, drop, same, ltb, leb, ◌==◌, if◌then◌else◌, Option, none, some, ◌>>=◌,
}
use zygisk_next_next.Elf.Dynamic.{Sym, addr_add}
use zygisk_next_next.Text.{to_string}
use zygisk_next_next.Elf.Image.{
  Data, read, Ehdr, Shdr, shdr_size, sym_size, read_shdr, read_sym, is_elf, section_in_file,
  section_table_in_file, c_string, strcmp, SymbolInfo, sht_progbits, sht_symtab, sht_dynsym,
}

-- The body of the loop of `parseSymbols` for the symbol `s`: the symbols that it appends.
unfoldable pub symbol_of : Data → (str_sh : Shdr) → (bias : ℕ) → Sym → Option (List SymbolInfo)
symbol_of d str_sh bias s =
    let name = c_string (drop (str_sh.sh_offset + s.st_name) d.bytes) in
    if s.st_shndx == 0
    then some []
    else if s.st_name == 0
    then some []
    else if leb str_sh.sh_size s.st_name
    then some []
    else (name >>= λ n. some (
        if length n == 0
        then []
        else record { name = n; addr = addr_add bias s.st_value; size = s.st_size } ∷ []))

-- `parseSymbols` for `count` symbols from `offset` on: the symbols that it appends.
unfoldable pub parse_symbols :
    Data → (str_sh : Shdr) → (bias : ℕ) → (count offset : ℕ) → Option (List SymbolInfo)
parse_symbols d str_sh bias zero offset = some []
parse_symbols d str_sh bias (suc count) offset = do
  s ← read_sym d offset
  found ← symbol_of d str_sh bias s
  rest ← parse_symbols d str_sh bias count (offset + sym_size)
  some (found ++ rest)

-- What `ensureParsed` collects.
pub record Parsed : Type 0 where
  pub symbols : List SymbolInfo
  pub debugdata : Option Bytes

-- The branch for a symbol table `sh` with its string table.
unfoldable pub linked_symbols :
    Data → (bias : ℕ) → (sh str_sh : Shdr) → List SymbolInfo → Option (List SymbolInfo)
linked_symbols d bias sh str_sh symbols =
    let found = parse_symbols d str_sh bias (sh.sh_size / sh.sh_entsize) sh.sh_offset in
    if not (section_in_file sh d.size) || not (section_in_file str_sh d.size)
    then some symbols
    else if not (sh.sh_entsize == sym_size)
    then some symbols
    else (found >>= λ f. some (symbols ++ f))

-- The branch for a symbol table whose section is `sh`.
unfoldable pub table_symbols :
    Data → Ehdr → (bias : ℕ) → (sh : Shdr) → List SymbolInfo → Option (List SymbolInfo)
table_symbols d h bias sh symbols =
    let found =
      (read_shdr d (h.e_shoff + sh.sh_link * shdr_size) >>= λ str_sh.
      linked_symbols d bias sh str_sh symbols) in
    if leb h.e_shnum sh.sh_link then some symbols else found

-- The body of the loop of `parseGnuDebugData`, for the offset `off`; `decompress` is that of debugdata.cpp.
unfoldable pub unpack_from : (Bytes → Option Bytes) → (content : Bytes) → (off : ℕ) → Option Bytes
unpack_from decompress content off =
    let out =
      (decompress (drop off content) >>= λ o.
      if is_elf (record { bytes = o; size = length o }) then some o else none) in
    if leb (length content) off then none else out

-- `parseGnuDebugData`: the new `debugdata_`.
unfoldable pub parse_gnu_debug_data : (Bytes → Option Bytes) → Bytes → Option Bytes → Option Bytes
parse_gnu_debug_data decompress content old = elim (unpack_from decompress content 4) [
  | some o ↦ some o
  | none ↦ elim (unpack_from decompress content 0) [ some o ↦ some o | none ↦ old ]
]

-- `section_names_` with `shstr_size`: where the names of the sections lie, and how long they are.
pub record Names : Type 0 where
  pub offset : ℕ
  pub size : ℕ

-- `strcmp(sec_name(sh), ".gnu_debugdata") == 0`; without a name the string is empty.
unfoldable pub is_debug_section : Data → Option Names → Shdr → Option Bool
is_debug_section d none sh = some false
is_debug_section d (some n) sh =
    let equal = strcmp (drop (n.offset + sh.sh_name) d.bytes) (codes ".gnu_debugdata") in
    if leb n.size sh.sh_name then some false else equal

-- The body of the first loop of `ensureParsed`.
unfoldable pub visit_section :
    (Bytes → Option Bytes) → Data → Ehdr → Option Names → (bias : ℕ) → Shdr → Parsed → Option Parsed
visit_section decompress d h names bias sh p =
    let content = take sh.sh_size (drop sh.sh_offset d.bytes) in
    let unpacked : Parsed = record p {
      debugdata = parse_gnu_debug_data decompress content p.debugdata;
    } in
    let table = (table_symbols d h bias sh p.symbols >>= λ s. some (record p { symbols = s })) in
    let debug =
      (is_debug_section d names sh >>= λ b.
      some (if b && section_in_file sh d.size then unpacked else p)) in
    if sh.sh_type == sht_symtab || sh.sh_type == sht_dynsym
    then table
    else if sh.sh_type == sht_progbits
    then debug
    else some p

-- The first loop of `ensureParsed`, for `n` sections from the header at `offset` on.
unfoldable pub section_loop :
    (Bytes → Option Bytes)
    → Data
    → Ehdr
    → Option Names
    → (bias : ℕ) → (n offset : ℕ) → Parsed
    → Option Parsed
section_loop decompress d h names bias zero offset p = some p
section_loop decompress d h names bias (suc n) offset p = do
  sh ← read_shdr d offset
  next ← visit_section decompress d h names bias sh p
  section_loop decompress d h names bias n (offset + shdr_size) next

-- The second loop of `ensureParsed`, over the sections of `debugdata_`.
unfoldable pub debug_loop :
    Data → Ehdr → (bias : ℕ) → (n offset : ℕ) → List SymbolInfo → Option (List SymbolInfo)
debug_loop d h bias zero offset symbols = some symbols
debug_loop d h bias (suc n) offset symbols = do
  sh ← read_shdr d offset
  next ← if not (sh.sh_type == sht_symtab) then some symbols else table_symbols d h bias sh symbols
  debug_loop d h bias n (offset + shdr_size) next

-- The header of `debugdata_`, of which only the place of the section table is read.
unfoldable pub read_table : Data → Option Ehdr
read_table d = do
  e_shnum ← read d 2 0x3c
  e_shoff ← read d 8 0x28
  some (record { e_type = 0; e_shoff = e_shoff; e_shnum = e_shnum; e_shstrndx = 0 })

-- The second part of `ensureParsed` behind the test for `debugdata_ehdr_`.
unfoldable pub unpacked_symbols : (bias : ℕ) → Data → List SymbolInfo → Option (List SymbolInfo)
unpacked_symbols bias d symbols = read_table d >>= λ h.
    (let found = debug_loop d h bias h.e_shnum h.e_shoff symbols in
      if not (section_table_in_file h d.size) then some symbols else found)

-- The second part of `ensureParsed`: the symbols with those of `debugdata_`.
unfoldable pub debug_symbols :
    (bias : ℕ) → Option Bytes → List SymbolInfo → Option (List SymbolInfo)
debug_symbols bias none symbols = some symbols
debug_symbols bias (some out) symbols =
    unpacked_symbols bias (record { bytes = out; size = length out }) symbols

-- The key of a symbol in `seen`.
unfoldable pub symbol_key : SymbolInfo → Bytes
symbol_key s = s.name ++ 0 ∷ to_string s.addr

abbrev pub member : Bytes → List Bytes → Bool
member k [] = false
member k (x ∷ xs) = same x k || member k xs

-- The last loop of `ensureParsed`: the symbols whose key is new.
unfoldable pub unique : (seen : List Bytes) → List SymbolInfo → List SymbolInfo
unique seen [] = []
unique seen (s ∷ symbols) =
    let fresh = unique (symbol_key s ∷ seen) symbols in
    let old = unique seen symbols in if member (symbol_key s) seen then old else s ∷ fresh

-- `shstr_size` with `section_names_`, which the constructor leaves null where the section is not in
-- the file.
unfoldable pub section_names : Data → Ehdr → Option (Option Names)
section_names d h =
    let found =
      (read_shdr d (h.e_shoff + h.e_shstrndx * shdr_size) >>= λ sh. some (
        if section_in_file sh d.size
        then some (record { offset = sh.sh_offset; size = sh.sh_size })
        else none)) in
    if not (h.e_shstrndx == 0) && ltb h.e_shstrndx h.e_shnum then found else some none

-- `ensureParsed` of an image that is not parsed: `symbols_`.
unfoldable pub ensure_parsed :
    (Bytes → Option Bytes) → Data → Ehdr → (bias : ℕ) → Option (List SymbolInfo)
ensure_parsed decompress d h bias = do
  names ← section_names d h
  p ←
      section_loop decompress d h names bias h.e_shnum h.e_shoff
        (record { symbols = []; debugdata = none })
  symbols ← debug_symbols bias p.debugdata p.symbols
  some (unique [] symbols)
