-- ===== src/Elf/Image/Unpacked.antt =====
-- loader/src/utils/elf_util.cpp: the loop of `ensureParsed` over the sections of the unpacked
-- .gnu_debugdata reads what is readable.
use zygisk_next_next.Base.{
  ℕ, zero, suc, ◌+◌, ◌*◌, ◌≤◌, ◌≡◌, refl, Bool, true, false, not, List, Bytes, length, ◌==◌,
  if◌then◌else◌, some, arith,
}
use zygisk_next_next.Elf.Image.{
  Data, Ehdr, read_shdr, section_table_in_file, SymbolInfo, sht_symtab,
}
use zygisk_next_next.Elf.Image.Symbols.{read_table, table_symbols, debug_loop, unpacked_symbols}
use zygisk_next_next.Elf.Image.Reads.{
  Reads, bind-Reads, if-Reads, read_shdr-Reads, read_table-Reads, ends_with_nul, IsReadable,
  HasTable, table_in_file, table_symbols-Reads,
}

debug_loop-Reads :
    (d : Data) (h : Ehdr) (bias n offset : ℕ) (symbols : List SymbolInfo)
    → IsReadable d
    → HasTable h d
    → offset + n * 64 ≤ d.size
    → Reads (debug_loop d h bias n offset symbols)
unfolding debug_loop
debug_loop-Reads d h bias zero offset symbols ok table room = tt
debug_loop-Reads d h bias (suc n) offset symbols ok table room =
    let m = ok.in_memory in
    bind-Reads (read_shdr d offset) _ (read_shdr-Reads d offset (omega arith)) (λ sh _.
      bind-Reads
        (if not (sh.sh_type == sht_symtab) then some symbols else table_symbols d h bias sh symbols)
        _
        (if-Reads (not (sh.sh_type == sht_symtab)) (some symbols)
          (table_symbols d h bias sh symbols) (λ _. tt)
          (λ _. table_symbols-Reads d h bias sh symbols ok table))
        (λ next _. debug_loop-Reads d h bias n (offset + 64) next ok table (omega arith)))

pub unpacked_symbols-Reads :
    (bias : ℕ) (out : Bytes) (symbols : List SymbolInfo)
    → 0x3e ≤ length out
    → ends_with_nul out ≡ true
    → Reads (unpacked_symbols bias (record { bytes = out; size = length out }) symbols)
unfolding unpacked_symbols
unpacked_symbols-Reads bias out symbols long ends =
    let d : Data = record { bytes = out; size = length out } in
    let ok : IsReadable d = record { in_memory = omega arith; ends = ends } in
    bind-Reads (read_table d) _ (read_table-Reads d long) (λ h _.
      if-Reads (not (section_table_in_file h (length out))) (some symbols) _ (λ _. tt)
        (λ e.
          let table = table_in_file h d (not_false (section_table_in_file h (length out)) e) in
          debug_loop-Reads d h bias h.e_shnum h.e_shoff symbols ok table table))
  where
    not_false : (b : Bool) → not b ≡ false → b ≡ true
    not_false true e = refl
    not_false false e = cc e
