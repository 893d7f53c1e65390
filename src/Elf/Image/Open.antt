-- ===== src/Elf/Image/Open.antt =====
-- loader/src/utils/elf_util.cpp and loader/src/api/symbols.cpp: opening an `ElfImage`, looking a symbol
-- up in it, and the resolver of symbols that modules use.
use zygisk_next_next.Base.{
  ℕ, ◌-◌, ◌*◌, ◌/◌, Bool, true, false, not, ◌||◌, List, [], ◌∷◌, Bytes, codes, length, take, same,
  ltb, ◌==◌, if◌then◌else◌, Option, none, some, ◌>>=◌,
}
use zygisk_next_next.Elf.Maps.{MapEntry, resolve_map_path, find_library_base_in_maps}
use zygisk_next_next.Elf.Dynamic.{
  Memory, Sym, addr_add, map_end, find_dynamic, dynamic_loop, search_tables,
}
use zygisk_next_next.Elf.Image.{
  Data, Ehdr, ehdr_size, read_ehdr, is_elf, section_table_in_file, SymbolInfo,
}
use zygisk_next_next.Elf.Image.Symbols.{ensure_parsed}

-- An open file: what `fstat` says of its size, and the bytes that `mmap` maps, none for an error.
pub record File : Type 0 where
  pub st_size : Option ℕ
  pub mapped : Option Bytes

-- What the constructor asks of the process: `open`, the mappings, and the four bytes at an address.
pub record World : Type 0 where
  pub open_file : Bytes → Option File
  pub maps : List MapEntry
  pub magic : ℕ → Bytes

-- `ElfImage`; `content` and `ehdr` are of the mapped file.
pub record Image : Type 0 where
  pub path : Bytes
  pub base : ℕ
  pub is_dyn : Bool
  pub content : Data
  pub ehdr : Ehdr

abbrev pub elf_magic : Bytes
elf_magic = 0x7f ∷ codes "ELF"

-- The first part of the constructor: the file, and the path that it was opened by.
unfoldable pub open_path : World → Bytes → Option (Bytes × File)
open_path w path = elim (w.open_file path) [
  | some f ↦ some (path, f)
  | none ↦
      let resolved = resolve_map_path w.maps path in
      if length resolved == 0 then none else (w.open_file resolved >>= λ f. some (resolved, f))
]

-- The end of the constructor, behind the test for `isElf`: an image that is valid, or none.
unfoldable pub open_elf : World → (path : Bytes) → (base : ℕ) → Data → Ehdr → Option Image
open_elf w path base d h =
    let image : ℕ → Image =
      λ b. record { path = path; base = b; is_dyn = h.e_type == 3; content = d; ehdr = h } in
    if not (section_table_in_file h d.size)
    then none
    else if not (h.e_type == 3)
    then some (image 0)
    else if base == 0
    then none
    else if not (same (w.magic base) elf_magic)
    then none
    else some (image base)

-- The part of the constructor behind `fstat`. A mapping has at least the bytes of the file, so that the
-- header can be read.
unfoldable pub open_sized :
    World → (path : Bytes) → (base : ℕ) → (file_size : ℕ) → (mapped : Option Bytes) → Option Image
open_sized w path base file_size mapped =
    let base' = if base == 0 then find_library_base_in_maps w.maps path file_size else base in
    let opened = (do
      bytes ← mapped
      d ←
          (if is_elf (record { bytes = bytes; size = file_size })
            then some (record { bytes = bytes; size = file_size })
            else none)
      h ← read_ehdr d
      open_elf w path base' d h) in
    if ltb file_size ehdr_size then none else opened

-- The constructor of `ElfImage`; none is an image that is not valid.
unfoldable pub open_image : World → (path : Bytes) → (base : ℕ) → Option Image
open_image w path base = do
  (path', f) ← open_path w path
  file_size ← f.st_size
  open_sized w path' base file_size f.mapped

-- The loops of `lookup`.
unfoldable pub is_named : (name : Bytes) → (prefix : Bool) → SymbolInfo → Bool
is_named name prefix s = if prefix then same (take (length name) s.name) name else same s.name name

unfoldable pub find_symbol : (name : Bytes) → (prefix : Bool) → List SymbolInfo → Option SymbolInfo
find_symbol name prefix [] = none
find_symbol name prefix (s ∷ symbols) =
    let rest = find_symbol name prefix symbols in if is_named name prefix s then some s else rest

-- `symbols_` once it is parsed; none is a fault.
unfoldable pub symbols_of : (Bytes → Option Bytes) → Image → Option (List SymbolInfo)
symbols_of decompress i = ensure_parsed decompress i.content i.ehdr (if i.is_dyn then i.base else 0)

-- `lookup`: a fault, or the symbol, none for a null pointer.
unfoldable pub lookup :
    (Bytes → Option Bytes) → Image → (name : Bytes) → (prefix : Bool) → Option (Option SymbolInfo)
lookup decompress i name prefix =
    symbols_of decompress i >>= λ symbols. some (find_symbol name prefix symbols)

-- The loop of `forEach`: the symbols that the callback is given, up to one for which it answers false.
unfoldable pub delivered : (callback : SymbolInfo → Bool) → List SymbolInfo → List SymbolInfo
delivered callback [] = []
delivered callback (s ∷ symbols) =
    let rest = delivered callback symbols in s ∷ (if callback s then rest else [])

-- The header of the image in memory, as far as `runtimeLookup` reads it.
pub record RuntimeHeader : Type 0 where
  pub magic : Bytes
  pub ei_class : ℕ
  pub ei_data : ℕ
  pub e_phoff : ℕ
  pub e_phnum : ℕ

-- `runtimeLookup` behind the search for the dynamic section: the symbol.
unfoldable pub dynamic_symbol :
    Memory → List MapEntry → (base : ℕ) → Bytes → (dyn : Option ℕ) → Option Sym
dynamic_symbol m maps base name dyn = do
  d ← dyn
  t ←
      (if map_end maps d == 0
        then none
        else dynamic_loop m base ((map_end maps d - d) / 16) d
            (record { symtab = 0; strtab = 0; strsz = 0 }))
  search_tables m maps t name

-- `runtimeLookup`: the address and the size of the symbol, none for the address 0.
unfoldable pub runtime_lookup :
    Memory → (ℕ → RuntimeHeader) → List MapEntry → (base : ℕ) → Bytes → Option (ℕ × ℕ)
runtime_lookup m header maps base name =
    let eh = header base in
    let ph = addr_add base eh.e_phoff in
    let ph_end = map_end maps ph in
    let found = dynamic_symbol m maps base name (find_dynamic m base eh.e_phnum ph) in
    if base == 0
    then none
    else if not (same eh.magic elf_magic) || (not (eh.ei_class == 2) || not (eh.ei_data == 1))
    then none
    else if ph_end == 0 || ltb (ph_end - ph) (eh.e_phnum * 56)
    then none
    else (found >>= λ s. some (addr_add base s.st_value, s.st_size))

-- `newSymbolResolver`; no path is a null pointer.
unfoldable pub new_symbol_resolver : World → (path : Option Bytes) → (base : ℕ) → Option Image
new_symbol_resolver w path base = path >>= λ p. open_image w p base

-- The second part of `symbolLookup`.
unfoldable pub elf_symbol : Option (Option SymbolInfo) → Option (Option (ℕ × ℕ))
elf_symbol found = found >>= λ o. some (o >>= λ s. some (s.addr, s.size))

-- What `symbolLookup` returns, from what `runtimeLookup` and the second part find.
unfoldable pub runtime_or :
    (prefix : Bool)
    → (runtime : Option (ℕ × ℕ)) → (found : Option (Option (ℕ × ℕ))) → Option (Option (ℕ × ℕ))
runtime_or true runtime found = found
runtime_or false none found = found
runtime_or false (some (address, size)) found =
    if address == 0 then found else some (some (address, size))

-- `symbolLookup` of a resolver and a name that are not null: a fault, or the address with the size, none
-- for a null pointer.
unfoldable pub symbol_lookup :
    (Bytes → Option Bytes)
    → Memory
    → (ℕ → RuntimeHeader)
    → List MapEntry
    → Image
    → (name : Bytes) → (prefix : Bool) → Option (Option (ℕ × ℕ))
symbol_lookup decompress m header maps i name prefix =
    runtime_or prefix (runtime_lookup m header maps i.base name)
      (elf_symbol (lookup decompress i name prefix))

-- `resolveLibrarySymbol`: a fault, or the address, 0 for none.
unfoldable pub resolve_library_symbol :
    World → (Bytes → Option Bytes) → (lib_name symbol : Bytes) → Option ℕ
resolve_library_symbol w decompress lib_name symbol = elim (open_image w lib_name 0) [
  | none ↦ some 0
  | some i ↦ lookup decompress i symbol false >>= λ o. some (elim o [ none ↦ 0 | some s ↦ s.addr ])
]
