-- ===== src/Elf/Image/Sections.antt =====
-- loader/src/utils/elf_util.cpp: the loops of `ensureParsed` over the sections read what is readable.
use zygisk_next_next.Base.{
  ℕ, zero, suc, ◌+◌, ◌*◌, ◌≤◌, ◌<◌, ◌≡◌, ◌≢◌, refl, inl, inr, Bool, true, false, ◌||◌, ◌&&◌, List,
  Bytes, codes, length, take, drop, All, leb, ◌==◌, if◌then◌else◌, Option, none, some, ◌>>=◌,
  Bool-cases, arith,
}
use zygisk_next_next.Elf.Image.{
  Data, Ehdr, Shdr, read_shdr, is_elf, section_in_file, SymbolInfo, sht_progbits, sht_symtab,
  sht_dynsym,
}
use zygisk_next_next.Elf.Image.Symbols.{
  table_symbols, Parsed, parse_gnu_debug_data, unpack_from, Names, is_debug_section, visit_section,
  section_loop,
}
use zygisk_next_next.Elf.Image.Reads.{
  Reads, if-Reads, read_shdr-Reads, IsReadable, drop_nul, strcmp-Reads, HasTable,
  table_symbols-Reads,
}

-- The names of the sections lie in the file.
abbrev pub NamesInside : Data → Option Names → Type 0
NamesInside d none = Unit
NamesInside d (some n) = n.offset + n.size ≤ d.size

debug_name : All (λ k. k ≢ 0) (codes ".gnu_debugdata")
debug_name =
    let differ : (k : ℕ) → 0 < k → k ≢ 0 = λ k h e. omega arith in
    (
      differ _ (omega arith),
      (
        differ _ (omega arith),
        (
          differ _ (omega arith),
          (
            differ _ (omega arith),
            (
              differ _ (omega arith),
              (
                differ _ (omega arith),
                (
                  differ _ (omega arith),
                  (
                    differ _ (omega arith),
                    (
                      differ _ (omega arith),
                      (
                        differ _ (omega arith),
                        (
                          differ _ (omega arith),
                          (
                            differ _ (omega arith),
                            (differ _ (omega arith), (differ _ (omega arith), tt)),
                          ),
                        ),
                      ),
                    ),
                  ),
                ),
              ),
            ),
          ),
        ),
      ),
    )

is_debug_section-Reads :
    (d : Data) (names : Option Names) (sh : Shdr)
    → IsReadable d
    → NamesInside d names
    → Reads (is_debug_section d names sh)
unfolding is_debug_section
is_debug_section-Reads d none sh ok inside = tt
is_debug_section-Reads d (some n) sh ok inside =
    if-Reads (leb n.size sh.sh_name) (some false) _ (λ _. tt)
      (λ e.
        let at = n.offset + sh.sh_name in
        let below : at < length d.bytes = ground (arith, e, inside, ok.in_memory) in
        strcmp-Reads (drop at d.bytes) (codes ".gnu_debugdata") (drop_nul at d.bytes below ok.ends)
          debug_name)

-- The predicate `Good` holds of what unpacks to an ELF file.
module _ (decompress : Bytes → Option Bytes) (Good : Bytes → Type 0)
    (sane : (content out : Bytes)
      → decompress content ≡ some out
      → is_elf (record { bytes = out; size = length out }) ≡ true
      → Good out) where
  abbrev pub IsUnpacked : Option Bytes → Type 0
  IsUnpacked none = Unit
  IsUnpacked (some out) = Good out

  unpack_from-IsUnpacked :
      (content : Bytes) (off : ℕ) → IsUnpacked (unpack_from decompress content off)
  unfolding unpack_from
  unpack_from-IsUnpacked content off = elim (Bool-cases (leb (length content) off)) [
    | inl e ↦ rw e tt
    | inr e ↦ rw e (go (decompress (drop off content)) refl)
  ]
    where
      go :
          (o : Option Bytes)
          → decompress (drop off content) ≡ o
          → IsUnpacked
              (o >>= λ b. if is_elf (record { bytes = b; size = length b }) then some b else none)
      go none e = tt
      go (some out) e = elim (Bool-cases (is_elf (record { bytes = out; size = length out }))) [
        | inr f ↦ rw f tt
        | inl f ↦ rw f (sane (drop off content) out e f)
      ]

  parse-IsUnpacked :
      (content : Bytes) (old : Option Bytes)
      → IsUnpacked old
      → IsUnpacked (parse_gnu_debug_data decompress content old)
  unfolding parse_gnu_debug_data
  parse-IsUnpacked content old h =
      go (unpack_from decompress content 4) (unpack_from decompress content 0)
        (unpack_from-IsUnpacked content 4) (unpack_from-IsUnpacked content 0)
    where
      go :
          (a b : Option Bytes)
          → IsUnpacked a
          → IsUnpacked b
          → IsUnpacked (elim a [ some o ↦ some o | none ↦ elim b [ some o ↦ some o | none ↦ old ] ])
      go (some o) b ha hb = ha
      go none (some o) ha hb = hb
      go none none ha hb = h

  -- A step that reads what is readable, and a result that is sane.
  abbrev pub Fine : Option Parsed → Type 0
  Fine none = ⊥
  Fine (some p) = IsUnpacked p.debugdata

  bind-Fine :
      {A : Type 0} (o : Option A) (f : A → Option Parsed)
      → Reads o
      → ((a : A) → Fine (f a))
      → Fine (o >>= f)
  bind-Fine none f h k = h
  bind-Fine (some a) f h k = k a

  then-Fine :
      (o : Option Parsed) (f : Parsed → Option Parsed)
      → Fine o
      → ((p : Parsed) → IsUnpacked p.debugdata → Fine (f p))
      → Fine (o >>= f)
  then-Fine none f h k = h
  then-Fine (some p) f h k = k p h

  visit_section-Fine :
      (d : Data) (h : Ehdr) (names : Option Names) (bias : ℕ) (sh : Shdr) (p : Parsed)
      → IsReadable d
      → HasTable h d
      → NamesInside d names
      → IsUnpacked p.debugdata
      → Fine (visit_section decompress d h names bias sh p)
  unfolding visit_section
  visit_section-Fine d h names bias sh p ok table inside old =
      elim (Bool-cases (sh.sh_type == sht_symtab || sh.sh_type == sht_dynsym)) [
        | inl e ↦ rw e (
            go_table (table_symbols d h bias sh p.symbols)
              (table_symbols-Reads d h bias sh p.symbols ok table))
        | inr e ↦ elim (Bool-cases (sh.sh_type == sht_progbits)) [
          | inr f ↦ rw (e, f) old
          | inl f ↦
              rw (e, f)
                (go_debug (is_debug_section d names sh)
                  (is_debug_section-Reads d names sh ok inside))
        ]
      ]
    where
      content : Bytes
      content = take sh.sh_size (drop sh.sh_offset d.bytes)

      go_table :
          (o : Option (List SymbolInfo))
          → Reads o
          → Fine (o >>= λ s. some (record p { symbols = s }))
      go_table none r = r
      go_table (some s) r = old

      go_debug :
          (o : Option Bool)
          → Reads o
          → Fine (
              o >>= λ b. some (
                if b && section_in_file sh d.size
                then record p { debugdata = parse_gnu_debug_data decompress content p.debugdata }
                else p))
      go_debug none r = r
      go_debug (some b) r = elim (Bool-cases (b && section_in_file sh d.size)) [
        | inl e ↦ rw e (parse-IsUnpacked content p.debugdata old)
        | inr e ↦ rw e old
      ]

  pub section_loop-Fine :
      (d : Data) (h : Ehdr) (names : Option Names) (bias n offset : ℕ) (p : Parsed)
      → IsReadable d
      → HasTable h d
      → NamesInside d names
      → offset + n * 64 ≤ d.size
      → IsUnpacked p.debugdata
      → Fine (section_loop decompress d h names bias n offset p)
  unfolding section_loop
  section_loop-Fine d h names bias zero offset p ok table inside room old = old
  section_loop-Fine d h names bias (suc n) offset p ok table inside room old =
      let m = ok.in_memory in
      bind-Fine (read_shdr d offset) _ (read_shdr-Reads d offset (omega arith)) (λ sh.
        then-Fine (visit_section decompress d h names bias sh p) _
          (visit_section-Fine d h names bias sh p ok table inside old)
          (λ next fine.
            section_loop-Fine d h names bias n (offset + 64) next ok table inside (omega arith)
              fine))
