-- ===== src/Elf/Image/Reads.antt =====
-- loader/src/utils/elf_util.cpp: parsing the symbols reads no byte outside the file's mapping or the
-- unpacked .gnu_debugdata.
use zygisk_next_next.Base.{
  ℕ, zero, suc, ◌+◌, ◌*◌, ◌/◌, ◌≤◌, ◌<◌, ◌≡◌, ◌≢◌, refl, Bool, true, false, not, ◌||◌, List, [],
  ◌∷◌, Bytes, length, drop, All, leb, le→leb, ◌==◌, if◌then◌else◌, Option, none, some, ◌>>=◌, arith,
}
use zygisk_next_next.Elf.Dynamic.{Sym}
use zygisk_next_next.Elf.Image.{
  Data, read, Ehdr, Shdr, read_shdr, read_sym, section_in_file, section_table_in_file, c_string,
  strcmp, SymbolInfo,
}
use zygisk_next_next.Elf.Image.Symbols.{
  read_table, symbol_of, parse_symbols, linked_symbols, table_symbols,
}

both_true : (a b : Bool) → (not a || not b) ≡ false → (a ≡ true) × (b ≡ true)
both_true true true e = (refl, refl)
both_true true false e = cc e
both_true false b e = cc e

-- The code reads only what is readable.
abbrev pub Reads {ℓ} : {A : Type ℓ} → Option A → Type 0
Reads none = ⊥
Reads (some a) = Unit

pub bind-Reads :
    {A B : Type 0} (o : Option A) (f : A → Option B)
    → Reads o
    → ((a : A) → o ≡ some a → Reads (f a))
    → Reads (o >>= f)
bind-Reads none f h k = h
bind-Reads (some a) f h k = k a refl

pub if-Reads :
    {A : Type 0} (b : Bool) (x y : Option A)
    → ((b ≡ true) → Reads x)
    → ((b ≡ false) → Reads y)
    → Reads (if b then x else y)
if-Reads true x y hx hy = hx refl
if-Reads false x y hx hy = hy refl

read-Reads : (d : Data) (n offset : ℕ) → offset + n ≤ length d.bytes → Reads (read d n offset)
unfolding read
read-Reads d n offset h = rw (le→leb (offset + n) (length d.bytes) h) tt

pub read_shdr-Reads :
    (d : Data) (offset : ℕ) → offset + 64 ≤ length d.bytes → Reads (read_shdr d offset)
unfolding read_shdr
read_shdr-Reads d o h = bind-Reads (read d 4 o) _ (read-Reads d 4 o (omega arith)) (λ a e.
    bind-Reads (read d 4 (o + 4)) _ (read-Reads d 4 (o + 4) (omega arith)) (λ a e.
      bind-Reads (read d 8 (o + 24)) _ (read-Reads d 8 (o + 24) (omega arith)) (λ a e.
        bind-Reads (read d 8 (o + 32)) _ (read-Reads d 8 (o + 32) (omega arith)) (λ a e.
          bind-Reads (read d 4 (o + 40)) _ (read-Reads d 4 (o + 40) (omega arith)) (λ a e.
            bind-Reads (read d 8 (o + 56)) _ (read-Reads d 8 (o + 56) (omega arith))
              (λ a e. tt))))))

read_sym-Reads : (d : Data) (offset : ℕ) → offset + 24 ≤ length d.bytes → Reads (read_sym d offset)
unfolding read_sym
read_sym-Reads d o h = bind-Reads (read d 4 o) _ (read-Reads d 4 o (omega arith)) (λ a e.
    bind-Reads (read d 2 (o + 6)) _ (read-Reads d 2 (o + 6) (omega arith)) (λ a e.
      bind-Reads (read d 8 (o + 8)) _ (read-Reads d 8 (o + 8) (omega arith)) (λ a e.
        bind-Reads (read d 8 (o + 16)) _ (read-Reads d 8 (o + 16) (omega arith)) (λ a e. tt))))

pub read_table-Reads : (d : Data) → 0x3e ≤ length d.bytes → Reads (read_table d)
unfolding read_table
read_table-Reads d h =
    bind-Reads (read d 2 0x3c) _ (read-Reads d 2 0x3c (omega arith))
      (λ a e. bind-Reads (read d 8 0x28) _ (read-Reads d 8 0x28 (omega arith)) (λ a e. tt))

-- The last byte is 0.
unfoldable pub ends_with_nul : Bytes → Bool
ends_with_nul [] = false
ends_with_nul (c ∷ []) = c == 0
ends_with_nul (c ∷ d ∷ s) = ends_with_nul (d ∷ s)

-- The file's bytes are readable, and the readable bytes end by a NUL.
pub record IsReadable (d : Data) : Type 0 where
  pub in_memory : d.size ≤ length d.bytes
  pub ends : ends_with_nul d.bytes ≡ true

pub drop_nul :
    (n : ℕ) (s : Bytes) → n < length s → ends_with_nul s ≡ true → ends_with_nul (drop n s) ≡ true
unfolding ends_with_nul
drop_nul zero s h e = e
drop_nul (suc n) [] h e = absurd (omega arith)
drop_nul (suc n) (c ∷ []) h e = absurd (omega arith)
drop_nul (suc n) (c ∷ d ∷ s) h e = drop_nul n (d ∷ s) (omega arith) e

c_string-Reads : (s : Bytes) → ends_with_nul s ≡ true → Reads (c_string s)
unfolding c_string ends_with_nul
c_string-Reads [] e = cc e
c_string-Reads (c ∷ []) e = rw e tt
c_string-Reads (c ∷ d ∷ s) e =
    if-Reads (c == 0) (some []) _ (λ _. tt)
      (λ _. bind-Reads (c_string (d ∷ s)) _ (c_string-Reads (d ∷ s) e) (λ r _. tt))

pub strcmp-Reads : (s t : Bytes) → ends_with_nul s ≡ true → All (λ k. k ≢ 0) t → Reads (strcmp s t)
unfolding strcmp ends_with_nul
strcmp-Reads [] t e h = cc e
strcmp-Reads (c ∷ s) [] e h = tt
strcmp-Reads (c ∷ []) (k ∷ t) e (nz, h) =
    let differ : (c == k) ≡ false = ground (arith, e, nz) in rw differ tt
strcmp-Reads (c ∷ d ∷ s) (k ∷ t) e (nz, h) =
    if-Reads (c == k) _ (some false) (λ _. strcmp-Reads (d ∷ s) t e h) (λ _. tt)

-- A section that lies in the file.
abbrev IsInside : Shdr → Data → Type 0
IsInside sh d = sh.sh_offset + sh.sh_size ≤ d.size

pub in_file : (sh : Shdr) (d : Data) → section_in_file sh d.size ≡ true → IsInside sh d
unfolding section_in_file
in_file sh d e = ground (arith, e)

symbol_of-Reads :
    (d : Data) (str_sh : Shdr) (bias : ℕ) (s : Sym)
    → IsReadable d
    → IsInside str_sh d
    → Reads (symbol_of d str_sh bias s)
unfolding symbol_of
symbol_of-Reads d str_sh bias s h inside =
    let at = str_sh.sh_offset + s.st_name in
    if-Reads (s.st_shndx == 0) (some []) _ (λ _. tt)
      (λ _.
        if-Reads (s.st_name == 0) (some []) _ (λ _. tt)
          (λ _.
            if-Reads (leb str_sh.sh_size s.st_name) (some []) _ (λ _. tt)
              (λ e.
                let below : at < length d.bytes = ground (arith, e, inside, h.in_memory) in
                bind-Reads (c_string (drop at d.bytes)) _
                  (c_string-Reads (drop at d.bytes) (drop_nul at d.bytes below h.ends))
                  (λ n _. tt))))

parse_symbols-Reads :
    (d : Data) (str_sh : Shdr) (bias count offset : ℕ)
    → IsReadable d
    → IsInside str_sh d
    → offset + count * 24 ≤ d.size
    → Reads (parse_symbols d str_sh bias count offset)
unfolding parse_symbols
parse_symbols-Reads d str_sh bias zero offset h inside room = tt
parse_symbols-Reads d str_sh bias (suc count) offset h inside room =
    let m = h.in_memory in
    bind-Reads (read_sym d offset) _ (read_sym-Reads d offset (omega arith)) (λ s _.
      bind-Reads (symbol_of d str_sh bias s) _ (symbol_of-Reads d str_sh bias s h inside) (λ f _.
        bind-Reads (parse_symbols d str_sh bias count (offset + 24)) _
          (parse_symbols-Reads d str_sh bias count (offset + 24) h inside (omega arith))
          (λ r _. tt)))

linked_symbols-Reads :
    (d : Data) (bias : ℕ) (sh str_sh : Shdr) (symbols : List SymbolInfo)
    → IsReadable d
    → Reads (linked_symbols d bias sh str_sh symbols)
unfolding linked_symbols
linked_symbols-Reads d bias sh str_sh symbols h =
    if-Reads (not (section_in_file sh d.size) || not (section_in_file str_sh d.size)) (some symbols)
      _ (λ _. tt)
      (λ e.
        if-Reads (not (sh.sh_entsize == 24)) (some symbols) _ (λ _. tt)
          (λ f.
            let both = both_true (section_in_file sh d.size) (section_in_file str_sh d.size) e in
            let inside = in_file sh d both.0 in
            let size : sh.sh_entsize ≡ 24 = ground (arith, f) in
            let room : sh.sh_offset + (sh.sh_size / sh.sh_entsize) * 24 ≤ d.size =
              rw size (omega (arith, inside)) in
            bind-Reads (parse_symbols d str_sh bias (sh.sh_size / sh.sh_entsize) sh.sh_offset) _
              (parse_symbols-Reads d str_sh bias (sh.sh_size / sh.sh_entsize) sh.sh_offset h
                (in_file str_sh d both.1) room)
              (λ r _. tt)))

-- The table of the sections lies in the file.
abbrev pub HasTable : Ehdr → Data → Type 0
HasTable h d = h.e_shoff + h.e_shnum * 64 ≤ d.size

pub table_in_file : (h : Ehdr) (d : Data) → section_table_in_file h d.size ≡ true → HasTable h d
unfolding section_table_in_file
table_in_file h d e = ground (arith, e)

pub table_symbols-Reads :
    (d : Data) (h : Ehdr) (bias : ℕ) (sh : Shdr) (symbols : List SymbolInfo)
    → IsReadable d
    → HasTable h d
    → Reads (table_symbols d h bias sh symbols)
unfolding table_symbols
table_symbols-Reads d h bias sh symbols ok table =
    if-Reads (leb h.e_shnum sh.sh_link) (some symbols) _ (λ _. tt)
      (λ e.
        let m = ok.in_memory in
        let below : h.e_shoff + sh.sh_link * 64 + 64 ≤ length d.bytes =
          ground (arith, e, table, m) in
        bind-Reads (read_shdr d (h.e_shoff + sh.sh_link * 64)) _ (read_shdr-Reads d _ below)
          (λ str_sh _. linked_symbols-Reads d bias sh str_sh symbols ok))
