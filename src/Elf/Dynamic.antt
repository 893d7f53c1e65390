-- ===== src/Elf/Dynamic.antt =====
-- loader/src/utils/elf_util.cpp: `ElfImage::runtimeLookup`, the search in the dynamic symbol table of a
-- loaded library. What lies in memory is a parameter: the program headers, the dynamic entries and
-- the symbols as they are read, and the bytes of the string table.

pub mod Bounds
use zygisk_next_next.Base.{
  ℕ, zero, suc, ◌+◌, ◌-◌, ◌*◌, ◌/◌, ◌%◌, ◌^◌, Bool, true, false, not, ◌||◌, ◌&&◌, List, [], ◌∷◌,
  ◌++◌, Bytes, length, same, ltb, leb, ◌==◌, if◌then◌else◌, Option, none, some,
}
use zygisk_next_next.Elf.Maps.{MapEntry}

-- `uintptr_t` arithmetic
abbrev pub addr_add : ℕ → ℕ → ℕ
addr_add a b = (a + b) % 2 ^ 64

-- `mapEnd`
unfoldable pub map_end : List MapEntry → ℕ → ℕ
map_end [] address = 0
map_end (m ∷ maps) address =
    let rest = map_end maps address in
    if leb m.start address && ltb address m.end then m.end else rest

-- `ElfW(Phdr)`, `ElfW(Dyn)` and `ElfW(Sym)`, as far as the search reads them; 56, 16 and 24 bytes long.
pub record Phdr : Type 0 where
  pub p_type : ℕ
  pub p_vaddr : ℕ

pub record Dyn : Type 0 where
  pub d_tag : ℕ
  pub d_val : ℕ

pub record Sym : Type 0 where
  pub st_name : ℕ
  pub st_shndx : ℕ
  pub st_value : ℕ
  pub st_size : ℕ

-- The memory of the image, by address; `bytes p n` are `n` bytes from `p` on.
pub record Memory : Type 0 where
  pub phdr : ℕ → Phdr
  pub dyn : ℕ → Dyn
  pub sym : ℕ → Sym
  pub bytes : ℕ → ℕ → Bytes

-- The loop over the program headers, `n` of them from `p` on: the address of the dynamic section.
unfoldable pub find_dynamic : Memory → (base : ℕ) → (n p : ℕ) → Option ℕ
find_dynamic m base zero p = none
find_dynamic m base (suc n) p =
    let rest = find_dynamic m base n (p + 56) in
    if (m.phdr p).p_type == 2 then some (addr_add base (m.phdr p).p_vaddr) else rest

-- `symtab`, `strtab` and `strsz`; an address 0 is a null pointer.
pub record Tables : Type 0 where
  pub symtab : ℕ
  pub strtab : ℕ
  pub strsz : ℕ

-- The `switch` in the loop over the dynamic entries: DT_SYMTAB is 6, DT_STRTAB 5, DT_STRSZ 10.
unfoldable pub note_entry : (base : ℕ) → Dyn → Tables → Tables
note_entry base d t =
    if d.d_tag == 6
    then record t { symtab = addr_add base d.d_val }
    else if d.d_tag == 5
    then record t { strtab = addr_add base d.d_val }
    else if d.d_tag == 10
    then record t { strsz = d.d_val }
    else t

-- The loop over the dynamic entries, `room` of which lie before `dyn_end`: none when no DT_NULL ends it.
unfoldable pub dynamic_loop : Memory → (base : ℕ) → (room p : ℕ) → Tables → Option Tables
dynamic_loop m base zero p t = none
dynamic_loop m base (suc room) p t =
    let rest = dynamic_loop m base room (p + 16) (note_entry base (m.dyn p) t) in
    if (m.dyn p).d_tag == 0 then some t else rest

-- The tests in the loop over the symbols.
unfoldable pub is_match : Memory → Tables → Bytes → Sym → Bool
is_match m t name s =
    if s.st_shndx == 0 || s.st_value == 0
    then false
    else if s.st_name == 0 || leb t.strsz s.st_name
    then false
    else if leb (t.strsz - s.st_name) (length name)
    then false
    else same (m.bytes (t.strtab + s.st_name) (length name + 1)) (name ++ 0 ∷ [])

-- The loop over the symbols, `n` of them from index `i` on.
unfoldable pub symbol_loop : Memory → Tables → Bytes → (n i : ℕ) → Option Sym
symbol_loop m t name zero i = none
symbol_loop m t name (suc n) i =
    let rest = symbol_loop m t name n (i + 1) in
    let s = m.sym (t.symtab + i * 24) in if is_match m t name s then some s else rest

-- How many symbols lie behind `symtab`: up to the end of its mapping or up to the string table.
unfoldable pub max_symbols : (symtab_end : ℕ) → Tables → ℕ
max_symbols symtab_end t =
    let all = (symtab_end - t.symtab) / 24 in
    let distance = (t.strtab - t.symtab) / 24 in
    if ltb t.symtab t.strtab && ltb distance all then distance else all

-- The part of `runtimeLookup` behind the dynamic entries: the symbol, less the base.
unfoldable pub search_tables : Memory → List MapEntry → Tables → Bytes → Option Sym
search_tables m maps t name =
    let symtab_end = map_end maps t.symtab in
    let strtab_end = map_end maps t.strtab in
    let n = max_symbols symtab_end t in
    let size = strtab_end - t.strtab in
    let cut = record t { strsz = if ltb size t.strsz then size else t.strsz } in
    let found = symbol_loop m cut name (n - 1) 1 in
    if t.symtab == 0 || (t.strtab == 0 || t.strsz == 0)
    then none
    else if symtab_end == 0 || strtab_end == 0
    then none
    else if n == 0 || cut.strsz == 0
    then none
    else found
