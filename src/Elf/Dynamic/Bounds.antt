-- ===== src/Elf/Dynamic/Bounds.antt =====
-- loader/src/utils/elf_util.cpp: the symbol that `runtimeLookup` finds lies in the mapped table.
use zygisk_next_next.Base.{
  ℕ, zero, suc, ◌+◌, ◌-◌, ◌*◌, ◌/◌, ◌≤◌, ◌<◌, ◌≡◌, inl, inr, true, List, Bytes, ltb, if◌then◌else◌,
  some, Bool-cases, arith,
}
use zygisk_next_next.Elf.Maps.{MapEntry}
use zygisk_next_next.Elf.Dynamic.{
  map_end, Sym, Memory, Tables, is_match, symbol_loop, max_symbols, search_tables,
}

-- The symbol is number `j` of the table, and passes the tests.
pub record IsSymbol (m : Memory) (t : Tables) (name : Bytes) (s : Sym) (j : ℕ) : Type 0 where
  pub read : s ≡ m.sym (t.symtab + j * 24)
  pub matches : is_match m t name s ≡ true

symbol_loop-IsSymbol :
    (m : Memory) (t : Tables) (name : Bytes) (n i : ℕ) (s : Sym)
    → symbol_loop m t name n i ≡ some s
    → (j : ℕ) × (i ≤ j) × (j < i + n) × IsSymbol m t name s j
unfolding symbol_loop
symbol_loop-IsSymbol m t name zero i s h = cc h
symbol_loop-IsSymbol m t name (suc n) i s h =
    elim (Bool-cases (is_match m t name (m.sym (t.symtab + i * 24)))) [
      | inl e ↦
          let first = rw e at h in
          let same_sym : s ≡ m.sym (t.symtab + i * 24) = cc first in
          (i, omega arith, omega arith, record { read = same_sym; matches = rw same_sym e })
      | inr e ↦
          let (j, low, high, found) = symbol_loop-IsSymbol m t name n (i + 1) s (rw e at h) in
          (j, omega (arith, low), omega (arith, high), found)
    ]

-- The table with the size of the strings cut at the end of their mapping.
abbrev pub cut_at : ℕ → Tables → Tables
cut_at strtab_end t =
    let size = strtab_end - t.strtab in
    record t { strsz = if ltb size t.strsz then size else t.strsz }

max_symbols-le : (e : ℕ) (t : Tables) → max_symbols e t ≤ (e - t.symtab) / 24
unfolding max_symbols
max_symbols-le e t = ground arith

-- A symbol that the search in the tables finds is one of the table but the first, lies whole before the
-- end of the table's mapping, and passes the tests for its name against the part of the string table
-- that is mapped.
pub search_tables-Found :
    (m : Memory) (maps : List MapEntry) (t : Tables) (name : Bytes) (s : Sym)
    → search_tables m maps t name ≡ some s
    → (j : ℕ) × (1 ≤ j)
      × (t.symtab + j * 24 + 24 ≤ map_end maps t.symtab)
      × IsSymbol m (cut_at (map_end maps t.strtab) t) name s j
unfolding search_tables
search_tables-Found m maps t name s h =
    let e = map_end maps t.symtab in
    let cut = cut_at (map_end maps t.strtab) t in
    let loop : symbol_loop m cut name (max_symbols e t - 1) 1 ≡ some s = ground (arith, h) in
    let (j, low, high, found) = symbol_loop-IsSymbol m cut name (max_symbols e t - 1) 1 s loop in
    (j, low, omega (arith, high, low, max_symbols-le e t), found)
