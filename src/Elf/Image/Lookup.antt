-- ===== src/Elf/Image/Lookup.antt =====
-- loader/src/api/symbols.cpp and `ElfImage::lookup`: which symbol a search returns.
use zygisk_next_next.Base.{
  ℕ, ◌≡◌, ◌≢◌, refl, ap, ◌↔◌, ◌⊎◌, inl, inr, Bool, true, false, List, [], ◌∷◌, ◌++◌, Bytes, All,
  length, take, same_iff, ◌==◌, Option, none, some, ◌>>=◌, Bool-cases, arith,
}
use zygisk_next_next.Elf.Maps.{MapEntry}
use zygisk_next_next.Elf.Dynamic.{Memory}
use zygisk_next_next.Elf.Image.{SymbolInfo}
use zygisk_next_next.Elf.Image.Open.{
  Image, RuntimeHeader, symbols_of, is_named, find_symbol, lookup, elf_symbol, runtime_lookup,
  runtime_or, symbol_lookup,
}

-- The symbol has the name, or begins with it.
abbrev pub Named : (name : Bytes) → (prefix : Bool) → SymbolInfo → Type 0
Named name false s = s.name ≡ name
Named name true s = (rest : Bytes) × (s.name ≡ name ++ rest)

take-prefix :
    (name s : Bytes) → (take (length name) s ≡ name) ↔ ((rest : Bytes) × (s ≡ name ++ rest))
take-prefix [] s = (λ h. (s, refl), λ (rest, h). refl)
take-prefix (c ∷ name) [] = (λ h. cc h, λ (rest, h). cc h)
take-prefix (c ∷ name) (d ∷ s) = (
  λ h.
      (let (rest, e) = (take-prefix name s).0 (cc h) in
        let head : d ≡ c = cc h in (rest, cc (head, e))),
  λ (rest, h).
      (let e = (take-prefix name s).1 (rest, cc h) in let head : d ≡ c = cc h in cc (head, e)),
)

is_named-Named :
    (name : Bytes) (prefix : Bool) (s : SymbolInfo)
    → (is_named name prefix s ≡ true) ↔ Named name prefix s
unfolding is_named
is_named-Named name false s = same_iff s.name name
is_named-Named name true s =
    let t = same_iff (take (length name) s.name) name in
    let p = take-prefix name s.name in (λ h. p.0 (t.0 h), λ h. t.1 (p.1 h))

-- The first of the symbols with the name, or none if there is none.
abbrev pub IsFirst : (name : Bytes) → (prefix : Bool) → List SymbolInfo → Option SymbolInfo → Type 0
IsFirst name prefix l none = All (λ t. ¬ Named name prefix t) l
IsFirst name prefix l (some s) =
    (earlier : List SymbolInfo) × (later : List SymbolInfo) × (l ≡ earlier ++ s ∷ later)
    × All (λ t. ¬ Named name prefix t) earlier
    × Named name prefix s

skip-IsFirst :
    (name : Bytes) (prefix : Bool) (s : SymbolInfo) (l : List SymbolInfo) (o : Option SymbolInfo)
    → (¬ Named name prefix s)
    → IsFirst name prefix l o
    → IsFirst name prefix (s ∷ l) o
skip-IsFirst name prefix s l none n h = (n, h)
skip-IsFirst name prefix s l (some t) n (earlier, later, e, others, named) =
    (s ∷ earlier, later, ap (λ (r : List SymbolInfo). s ∷ r) e, (n, others), named)

find-IsFirst :
    (name : Bytes) (prefix : Bool) (l : List SymbolInfo)
    → IsFirst name prefix l (find_symbol name prefix l)
unfolding find_symbol
find-IsFirst name prefix [] = tt
find-IsFirst name prefix (s ∷ l) = elim (Bool-cases (is_named name prefix s)) [
  | inl e ↦ rw (e, IsFirst) ([], l, refl, tt, (is_named-Named name prefix s).0 e)
  | inr e ↦ rw e (
      skip-IsFirst name prefix s l (find_symbol name prefix l)
        (λ h. cc (e, (is_named-Named name prefix s).1 h)) (find-IsFirst name prefix l))
]

-- The loaded library's own table has no address for the name.
abbrev pub NotLoaded : Option (ℕ × ℕ) → Type 0
NotLoaded runtime = (runtime ≡ none) ⊎ ((size : ℕ) × (runtime ≡ some (0, size)))

-- What `symbolLookup` returns: what the loaded library's own table gave for a whole name, if that is an
-- address; else, and for a prefix, the first symbol of the file with the name.
abbrev pub IsLookup :
    (runtime : Option (ℕ × ℕ))
    → (name : Bytes) → (prefix : Bool) → List SymbolInfo
    → Option (ℕ × ℕ)
    → Type 0
IsLookup runtime name prefix l r =
    ((address : ℕ) × (size : ℕ) × (prefix ≡ false)
      × (runtime ≡ some (address, size))
      × (address ≢ 0)
      × (r ≡ some (address, size)))
    ⊎ ((o : Option SymbolInfo) × ((prefix ≡ true) ⊎ NotLoaded runtime)
        × IsFirst name prefix l o
        × (r ≡ (o >>= λ s. some (s.addr, s.size))))

found_in : (name : Bytes) → (prefix : Bool) → List SymbolInfo → Option (ℕ × ℕ)
found_in name prefix l = find_symbol name prefix l >>= λ s. some (s.addr, s.size)

runtime_or-IsLookup :
    (runtime : Option (ℕ × ℕ)) (name : Bytes) (prefix : Bool) (l : List SymbolInfo)
    → (r : Option (ℕ × ℕ)) × (runtime_or prefix runtime (some (found_in name prefix l)) ≡ some r)
      × IsLookup runtime name prefix l r
unfolding runtime_or found_in
runtime_or-IsLookup runtime name true l = (
  found_in name true l,
  refl,
  inr (find_symbol name true l, inl refl, find-IsFirst name true l, refl),
)
runtime_or-IsLookup none name false l = (
  found_in name false l,
  refl,
  inr (find_symbol name false l, inr (inl refl), find-IsFirst name false l, refl),
)
runtime_or-IsLookup (some (address, size)) name false l = elim (Bool-cases (address == 0)) [
  | inl z ↦ (
    found_in name false l,
    rw z refl,
    inr (
      find_symbol name false l,
      inr (inr (size, ap (λ (a : ℕ). some (a, size)) (ground (arith, z)))),
      find-IsFirst name false l,
      refl,
    ),
  )
  | inr z ↦ (
    some (address, size),
    rw z refl,
    inl (address, size, refl, refl, (λ q. ground (arith, q, z)), refl),
  )
]

-- `symbolLookup` of an image whose symbols can be parsed returns for a whole name what `runtimeLookup`
-- reads in the loaded library's own dynamic symbol table, if that has an address for it; if it has none,
-- and for a prefix in any case, the address and size of the first symbol of the file with that name or
-- that prefix, or a null pointer if there is none.
pub symbol_lookup-IsLookup :
    (decompress : Bytes → Option Bytes) (m : Memory) (header : ℕ → RuntimeHeader)
    (maps : List MapEntry) (i : Image) (name : Bytes) (prefix : Bool) (l : List SymbolInfo)
    → symbols_of decompress i ≡ some l
    → (r : Option (ℕ × ℕ)) × (symbol_lookup decompress m header maps i name prefix ≡ some r)
      × IsLookup (runtime_lookup m header maps i.base name) name prefix l r
unfolding symbol_lookup elf_symbol lookup found_in
symbol_lookup-IsLookup decompress m header maps i name prefix l e =
    rw e (runtime_or-IsLookup (runtime_lookup m header maps i.base name) name prefix l)
