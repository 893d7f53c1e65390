-- ===== src/Elf/Image/Unique.antt =====
-- loader/src/utils/elf_util.cpp: the loop at the end of `ensureParsed` keeps each symbol once, and no
-- search in `lookup` notices.
use zygisk_next_next.Base.{
  ℕ, ◌≡◌, refl, sym, ap, ap₂, ◌∙◌, Bool, true, false, ◌||◌, List, [], ◌∷◌, ◌++◌, Bytes, All, same,
  same_iff, take, length, if◌then◌else◌, inl, inr, Bool-cases,
}
use zygisk_next_next.Text.{Lacks, split-injective, to_string}
use zygisk_next_next.Elf.Image.{SymbolInfo}
use zygisk_next_next.Elf.Image.Symbols.{symbol_key, member, unique}
use zygisk_next_next.Elf.Image.Open.{is_named, find_symbol}

-- No two of the symbols have both the same name and the same address.
abbrev pub Distinct : List SymbolInfo → Type 0
Distinct [] = Unit
Distinct (s ∷ symbols) =
    All (λ t. ¬ ((t.name ≡ s.name) × (t.addr ≡ s.addr))) symbols × Distinct symbols

-- A name ends where its C string ends.
abbrev pub IsText : SymbolInfo → Type 0
IsText s = Lacks 0 s.name

or_false : (a b : Bool) → (a || b) ≡ false → (a ≡ false) × (b ≡ false)
or_false false false e = (refl, refl)
or_false false true e = cc e
or_false true b e = cc e

unique-fresh :
    (seen : List Bytes) (l : List SymbolInfo)
    → All (λ t. member (symbol_key t) seen ≡ false) (unique seen l)
unfolding unique
unique-fresh seen [] = tt
unique-fresh seen (s ∷ l) = elim (Bool-cases (member (symbol_key s) seen)) [
  | inl e ↦ rw e (unique-fresh seen l)
  | inr e ↦ rw e (e, older (unique (symbol_key s ∷ seen) l) (unique-fresh (symbol_key s ∷ seen) l))
]
  where
    older :
        (u : List SymbolInfo)
        → All (λ t. member (symbol_key t) (symbol_key s ∷ seen) ≡ false) u
        → All (λ t. member (symbol_key t) seen ≡ false) u
    older [] h = tt
    older (t ∷ u) (h, hs) = ((or_false (same (symbol_key s) (symbol_key t)) _ h).1, older u hs)

key_eq : (t s : SymbolInfo) → t.name ≡ s.name → t.addr ≡ s.addr → symbol_key t ≡ symbol_key s
unfolding symbol_key
key_eq t s n a = ap₂ (λ (x : Bytes) (y : ℕ). x ++ 0 ∷ to_string y) n a

or_right : (a b : Bool) → a ≡ false → (a || b) ≡ b
or_right true b e = cc e
or_right false b e = refl

unique-Distinct : (seen : List Bytes) (l : List SymbolInfo) → Distinct (unique seen l)
unfolding unique
unique-Distinct seen [] = tt
unique-Distinct seen (s ∷ l) = elim (Bool-cases (member (symbol_key s) seen)) [
  | inl e ↦ rw e (unique-Distinct seen l)
  | inr e ↦ rw e (
    others (unique (symbol_key s ∷ seen) l) (unique-fresh (symbol_key s ∷ seen) l),
    unique-Distinct (symbol_key s ∷ seen) l,
  )
]
  where
    others :
        (u : List SymbolInfo)
        → All (λ t. member (symbol_key t) (symbol_key s ∷ seen) ≡ false) u
        → All (λ t. ¬ ((t.name ≡ s.name) × (t.addr ≡ s.addr))) u
    others [] h = tt
    others (t ∷ u) (h, hs) = (
      λ p. cc (
        (or_false (same (symbol_key s) (symbol_key t)) _ h).0,
        (same_iff (symbol_key s) (symbol_key t)).1 (sym (key_eq t s p.0 p.1)),
      ),
      others u hs,
    )

key_name : (s t : SymbolInfo) → IsText s → IsText t → symbol_key s ≡ symbol_key t → s.name ≡ t.name
unfolding symbol_key
key_name s t hs ht e =
    (split-injective 0 s.name t.name (to_string s.addr) (to_string t.addr) hs ht e).0

module _ (name : Bytes) (prefix : Bool) where
  named-eq : (s t : SymbolInfo) → s.name ≡ t.name → is_named name prefix s ≡ is_named name prefix t
  unfolding is_named
  named-eq s t e = ap (λ n. if prefix then same (take (length name) n) name else same n name) e

  -- No symbol with one of the keys is what is searched.
  abbrev Skipped : List Bytes → Type 0
  Skipped =
      All (λ k. (t : SymbolInfo) → IsText t → symbol_key t ≡ k → is_named name prefix t ≡ false)

  member-Skipped :
      (s : SymbolInfo) (seen : List Bytes)
      → IsText s
      → member (symbol_key s) seen ≡ true
      → Skipped seen
      → is_named name prefix s ≡ false
  member-Skipped s [] h e k = cc e
  member-Skipped s (x ∷ seen) h e (k, ks) = elim (Bool-cases (same x (symbol_key s))) [
    | inl f ↦ k s h (sym ((same_iff x (symbol_key s)).0 f))
    | inr f ↦ member-Skipped s seen h (sym (or_right (same x (symbol_key s)) _ f) ∙ e) ks
  ]

  find-unique :
      (seen : List Bytes) (l : List SymbolInfo)
      → All IsText l
      → Skipped seen
      → find_symbol name prefix (unique seen l) ≡ find_symbol name prefix l
  unfolding unique find_symbol
  find-unique seen [] h k = refl
  find-unique seen (s ∷ l) (h, hs) k = elim (Bool-cases (member (symbol_key s) seen)) [
    | inl e ↦ rw (e, member-Skipped s seen h e k) (find-unique seen l hs k)
    | inr e ↦ elim (Bool-cases (is_named name prefix s)) [
      | inl f ↦ rw (e, f) refl
      | inr f ↦
          let skip = λ (t : SymbolInfo) (ht : IsText t) (q : symbol_key t ≡ symbol_key s).
            named-eq t s (key_name t s ht h q) ∙ f in
          rw (e, f) (find-unique (symbol_key s ∷ seen) l hs (skip, k))
    ]
  ]

-- The symbols that are kept have no two with the same name and address, and a search by name or by prefix
-- finds among them what it finds among all the symbols, whose names have no NUL.
pub unique_lem :
    (name : Bytes) (prefix : Bool) (l : List SymbolInfo)
    → All IsText l
    → Distinct (unique [] l) × (find_symbol name prefix (unique [] l) ≡ find_symbol name prefix l)
unique_lem name prefix l h = (unique-Distinct [] l, find-unique name prefix [] l h tt)
