-- ===== src/Elf/Image/Safe.antt =====
-- loader/src/utils/elf_util.cpp: which bytes `ensureParsed` of an image that is open reads, of the file's
-- mapping and of the unpacked .gnu_debugdata.
use zygisk_next_next.Base.{
  ℕ, ◌+◌, ◌*◌, ◌≤◌, ◌<◌, ◌≡◌, ◌≢◌, refl, ◌⊎◌, inl, inr, true, false, not, ◌&&◌, List, [], Bytes,
  length, same, subst, ltb, ◌==◌, if◌then◌else◌, Option, none, some, ◌>>=◌, Bool-cases, arith,
}
use zygisk_next_next.Elf.Image.{
  Data, read, Ehdr, Shdr, ehdr_size, read_ehdr, read_shdr, is_elf, section_in_file,
  section_table_in_file, SymbolInfo,
}
use zygisk_next_next.Elf.Image.Symbols.{
  read_table, Parsed, Names, section_loop, unpacked_symbols, debug_symbols, unique, section_names,
  ensure_parsed,
}
use zygisk_next_next.Elf.Image.Open.{
  World, Image, open_path, open_elf, open_sized, open_image, symbols_of, elf_magic,
}
use zygisk_next_next.Elf.Image.Reads.{
  Reads, bind-Reads, read_shdr-Reads, ends_with_nul, IsReadable, in_file, HasTable, table_in_file,
}
use zygisk_next_next.Elf.Image.Unpacked.{unpacked_symbols-Reads}
use zygisk_next_next.Elf.Image.Sections.{NamesInside, IsUnpacked, Fine, section_loop-Fine}

-- The names of the sections, which are read, lie in the file.
abbrev IsNamed : Data → Option (Option Names) → Type 0
IsNamed d none = ⊥
IsNamed d (some n) = NamesInside d n

section_names-IsNamed :
    (d : Data) (h : Ehdr) → IsReadable d → HasTable h d → IsNamed d (section_names d h)
unfolding section_names
section_names-IsNamed d h ok table =
    elim (Bool-cases (not (h.e_shstrndx == 0) && ltb h.e_shstrndx h.e_shnum)) [
      | inr e ↦ rw e tt
      | inl e ↦
          let m = ok.in_memory in
          let below : h.e_shoff + h.e_shstrndx * 64 + 64 ≤ length d.bytes =
            ground (arith, e, table, m) in
          rw e (go (read_shdr d (h.e_shoff + h.e_shstrndx * 64)) (read_shdr-Reads d _ below))
    ]
  where
    go :
        (o : Option Shdr)
        → Reads o
        → IsNamed d (
            o >>= λ sh. some (
              if section_in_file sh d.size
              then some (record { offset = sh.sh_offset; size = sh.sh_size })
              else none))
    go none r = r
    go (some sh) r = elim (Bool-cases (section_in_file sh d.size)) [
      | inl e ↦ rw e (in_file sh d e)
      | inr e ↦ rw e tt
    ]

-- The bytes have the fields that are read of an ELF header, and end by a NUL.
abbrev IsLong : Bytes → Type 0
IsLong out = (0x3e ≤ length out) × (ends_with_nul out ≡ true)

module _ (decompress : Bytes → Option Bytes)
    (sane : (content out : Bytes)
      → decompress content ≡ some out
      → is_elf (record { bytes = out; size = length out }) ≡ true
      → IsLong out) where
  debug_symbols-Reads :
      (bias : ℕ) (o : Option Bytes) (symbols : List SymbolInfo)
      → IsUnpacked decompress IsLong sane o
      → Reads (debug_symbols bias o symbols)
  unfolding debug_symbols
  debug_symbols-Reads bias none symbols h = tt
  debug_symbols-Reads bias (some out) symbols (long, ends) =
      unpacked_symbols-Reads bias out symbols long ends

  ensure_parsed-Reads :
      (d : Data) (h : Ehdr) (bias : ℕ)
      → IsReadable d
      → HasTable h d
      → Reads (ensure_parsed decompress d h bias)
  unfolding ensure_parsed
  ensure_parsed-Reads d h bias ok table =
      go_names (section_names d h) (section_names-IsNamed d h ok table)
    where
      first : Parsed
      first = record { symbols = []; debugdata = none }

      go_loop :
          (o : Option Parsed)
          → Fine decompress IsLong sane o
          → Reads (o >>= λ p. debug_symbols bias p.debugdata p.symbols >>= λ s. some (unique [] s))
      go_loop none r = r
      go_loop (some p) r =
          bind-Reads (debug_symbols bias p.debugdata p.symbols) _
            (debug_symbols-Reads bias p.debugdata p.symbols r) (λ s _. tt)

      go_names :
          (o : Option (Option Names))
          → IsNamed d o
          → Reads (
              o >>= λ names.
              section_loop decompress d h names bias h.e_shnum h.e_shoff first >>= λ p.
              debug_symbols bias p.debugdata p.symbols >>= λ s. some (unique [] s))
      go_names none r = r
      go_names (some names) r =
          go_loop (section_loop decompress d h names bias h.e_shnum h.e_shoff first) (
            section_loop-Fine decompress IsLong sane d h names bias h.e_shnum h.e_shoff first ok
              table r table tt)

-- What an image that opens is like: its section table lies in the file, and its base is 0 for a file of
-- fixed addresses, and else not 0 and the address of an ELF header.
abbrev pub IsSound : World → Image → Type 0
IsSound w i =
    HasTable i.ehdr i.content
    × (((i.is_dyn ≡ false) × (i.base ≡ 0))
        ⊎ ((i.is_dyn ≡ true) × (i.base ≢ 0) × (same (w.magic i.base) elf_magic ≡ true)))

abbrev Sound : World → Option Image → Type 0
Sound w none = Unit
Sound w (some i) = IsSound w i

bind-Sound :
    {A : Type 0} (w : World) (o : Option A) (f : A → Option Image)
    → ((a : A) → Sound w (f a))
    → Sound w (o >>= f)
bind-Sound w none f h = tt
bind-Sound w (some a) f h = h a

open_elf-Sound :
    (w : World) (path : Bytes) (base : ℕ) (d : Data) (h : Ehdr) → Sound w (open_elf w path base d h)
unfolding open_elf
open_elf-Sound w path base d h = elim (Bool-cases (section_table_in_file h d.size)) [
  | inr e ↦ rw e tt
  | inl e ↦ elim (Bool-cases (h.e_type == 3)) [
    | inr f ↦ rw (e, f) (table_in_file h d e, inl (refl, refl))
    | inl f ↦ elim (Bool-cases (base == 0)) [
      | inl z ↦ rw (e, f, z) tt
      | inr z ↦ elim (Bool-cases (same (w.magic base) elf_magic)) [
        | inr m ↦ rw (e, f, z, m) tt
        | inl m ↦ rw (e, f, z, m) (table_in_file h d e, inr (refl, (λ q. ground (arith, q, z)), m))
      ]
    ]
  ]
]

open_image-Sound : (w : World) (path : Bytes) (base : ℕ) → Sound w (open_image w path base)
unfolding open_image open_sized
open_image-Sound w path base =
    bind-Sound w (open_path w path) _
      (λ (path', f). bind-Sound w f.st_size _ (λ size. go path' f.mapped size))
  where
    go : (p : Bytes) (m : Option Bytes) (size : ℕ) → Sound w (open_sized w p base size m)
    go p m size = elim (Bool-cases (ltb size ehdr_size)) [
      | inl e ↦ rw e tt
      | inr e ↦ rw e (
          bind-Sound w m _ (λ bytes.
            bind-Sound w
              (if is_elf (record { bytes = bytes; size = size })
                then some (record { bytes = bytes; size = size })
                else none)
              _ (λ d. bind-Sound w (read_ehdr d) _ (λ h. open_elf-Sound w p _ d h))))
    ]

-- An image that opens is sound, and parsing its symbols reads no byte outside the file's mapping and the
-- unpacked .gnu_debugdata, if the mapping ends by a NUL, as one that does not fill its last page does, and
-- each .gnu_debugdata that unpacks to an ELF file has 62 bytes or more and ends by a NUL.
pub open_image-safe :
    (decompress : Bytes → Option Bytes)
    (sane : (content out : Bytes)
      → decompress content ≡ some out
      → is_elf (record { bytes = out; size = length out }) ≡ true
      → (0x3e ≤ length out) × (ends_with_nul out ≡ true))
    (w : World) (path : Bytes) (base : ℕ) (i : Image)
    → open_image w path base ≡ some i
    → IsReadable i.content
    → IsSound w i × (¬ (symbols_of decompress i ≡ none))
unfolding symbols_of
open_image-safe decompress sane w path base i e ok =
    let sound : IsSound w i = subst (Sound w) e (open_image-Sound w path base) in
    let bias = if i.is_dyn then i.base else 0 in
    (
      sound,
      λ z. subst Reads z (ensure_parsed-Reads decompress sane i.content i.ehdr bias ok sound.0),
    )

short-read : (d : Data) (n offset : ℕ) → length d.bytes < offset + n → read d n offset ≡ none
unfolding read
short-read d n offset h = ground (arith, h)

unpacked_symbols-short :
    (bias : ℕ) (out : Bytes) (symbols : List SymbolInfo)
    → length out < 0x3e
    → unpacked_symbols bias (record { bytes = out; size = length out }) symbols ≡ none
unfolding unpacked_symbols read_table
unpacked_symbols-short bias out symbols h =
    let d : Data = record { bytes = out; size = length out } in
    rw (short-read d 2 0x3c (omega arith)) refl

-- What `isElf` accepts of what a .gnu_debugdata unpacks to.
abbrev pub IsAccepted : (Bytes → Option Bytes) → Bytes → Type 0
IsAccepted decompress out =
    (is_elf (record { bytes = out; size = length out }) ≡ true)
    × (content : Bytes) × (decompress content ≡ some out)

-- In an image that opens, with a mapping that ends by a NUL, what the first loop of `ensureParsed` leaves
-- in `debugdata_` was unpacked by `decompress` and accepted by `isElf`, which asks for five bytes only; if
-- it has fewer than 62, parsing the symbols reads behind its end.
pub symbols_of-short :
    (decompress : Bytes → Option Bytes) (w : World) (path : Bytes) (base : ℕ) (i : Image)
    (names : Option Names) (p : Parsed) (out : Bytes)
    → open_image w path base ≡ some i
    → IsReadable i.content
    → section_names i.content i.ehdr ≡ some names
    → section_loop decompress i.content i.ehdr names
        (if i.is_dyn then i.base else 0)
        i.ehdr.e_shnum
        i.ehdr.e_shoff
        (record { symbols = []; debugdata = none })
      ≡ some p
    → p.debugdata ≡ some out
    → length out < 0x3e
    → IsAccepted decompress out × (symbols_of decompress i ≡ none)
unfolding symbols_of ensure_parsed debug_symbols
symbols_of-short decompress w path base i names p out opened ok named looped unpacked short =
    let table : HasTable i.ehdr i.content =
      (subst (Sound w) opened (open_image-Sound w path base)).0 in
    let bias = if i.is_dyn then i.base else 0 in
    let inside : NamesInside i.content names =
      subst (IsNamed i.content) named (section_names-IsNamed i.content i.ehdr ok table) in
    let fine =
      section_loop-Fine decompress (IsAccepted decompress) accepts i.content i.ehdr names bias
        i.ehdr.e_shnum i.ehdr.e_shoff (record { symbols = []; debugdata = none }) ok table inside
        table tt in
    let unpacked' = subst (Fine decompress (IsAccepted decompress) accepts) looped fine in
    (
      subst (IsUnpacked decompress (IsAccepted decompress) accepts) unpacked unpacked',
      rw (named, looped, unpacked, unpacked_symbols-short bias out p.symbols short) refl,
    )
  where
    accepts :
        (content out : Bytes)
        → decompress content ≡ some out
        → is_elf (record { bytes = out; size = length out }) ≡ true
        → IsAccepted decompress out
    accepts content out e f = (f, content, e)
