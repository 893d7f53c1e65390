-- ===== src/Hook/Plt/Mapping.antt =====
-- loader/src/hook/plt.cpp: which mapping a PLT hook is for.
use zygisk_next_next.Base.{
  ℕ, ◌-◌, ◌≤◌, ◌≡◌, ◌≢◌, ap, refl, ◌⊎◌, inl, inr, true, false, List, [], ◌∷◌, Bytes, All, ltb, ◌==◌,
  Option, none, some, Bool-cases, arith,
}
use zygisk_next_next.Elf.Maps.{MapEntry}
use zygisk_next_next.Elf.Maps.Base.{First, here, there}
use zygisk_next_next.Hook.Engine.{BackendInits, Engines, lsplt, ensure_plt_engine_ready}
use zygisk_next_next.Hook.Plt.{
  covers, find_mapping, is_readable, is_part, first_loop, keep, or_else, first_mapping_of_file,
  PltBackends, is_no_path, engine_plt_hook, hook_entry, plt_hook,
}

-- A file's mapping that holds the address, or whose load address it is.
abbrev pub IsHit : ℕ → MapEntry → Type 0
IsHit base m = (m.inode ≢ 0) × (covers base m ≡ true)

-- What `findMapping` finds: the first such mapping, or none where there is none.
abbrev pub IsFound : ℕ → List MapEntry → Option MapEntry → Type 0
IsFound base maps (some m) = First (IsHit base) maps m
IsFound base maps none = All (λ m. ¬ IsHit base m) maps

IsFound-skip :
    (base : ℕ) (maps : List MapEntry) (m : MapEntry) (found : Option MapEntry)
    → ¬ IsHit base m
    → IsFound base maps found
    → IsFound base (m ∷ maps) found
IsFound-skip base maps m none no_hit f = (no_hit, f)
IsFound-skip base maps m (some x) no_hit f = there no_hit f

-- `findMapping` finds the first mapping of a file that holds the address or that was loaded at it, and
-- none only where there is no such mapping.
pub find_mapping-IsFound :
    (maps : List MapEntry) (base : ℕ) → IsFound base maps (find_mapping maps base)
unfolding find_mapping
find_mapping-IsFound [] base = tt
find_mapping-IsFound (m ∷ maps) base =
    let rest = find_mapping-IsFound maps base in
    elim (Bool-cases (m.inode == 0)) [
      | inl e ↦ rw e (IsFound-skip base maps m _ (λ h. h.0 (ground (arith, e))) rest)
      | inr e ↦ elim (Bool-cases (covers base m)) [
        | inr c ↦ rw (e, c) (IsFound-skip base maps m _ (λ h. cc (h.1, c)) rest)
        | inl c ↦ rw (e, c) (here (ground (arith, e), c))
      ]
    ]

-- Some mapping of the list has the property.
abbrev pub Some {ℓ} : {A : Type ℓ} → (A → Type 0) → List A → Type 0
Some P [] = ⊥
Some P (x ∷ xs) = P x ⊎ Some P xs

-- A readable mapping of the file's start, at the load address of `hit`.
abbrev pub IsHead : MapEntry → ℕ → MapEntry → Type 0
IsHead hit load_base m = (is_part hit load_base m ≡ true) × (m.offset ≡ 0)

-- A mapping that the loop may keep.
abbrev pub IsPart : MapEntry → ℕ → Option MapEntry → Type 0
IsPart hit load_base none = Unit
IsPart hit load_base (some m) = is_part hit load_base m ≡ true

keep-IsPart :
    (hit : MapEntry) (l : ℕ) (kept : Option MapEntry) (m : MapEntry)
    → IsPart hit l kept
    → is_part hit l m ≡ true
    → IsPart hit l (keep kept m)
keep-IsPart hit l none m h e = e
keep-IsPart hit l (some r) m h e = h

first_loop-IsPart :
    (maps : List MapEntry) (hit : MapEntry) (l : ℕ) (kept : Option MapEntry)
    → IsPart hit l kept
    → IsPart hit l (first_loop maps hit l kept)
unfolding first_loop
first_loop-IsPart [] hit l kept h = h
first_loop-IsPart (m ∷ maps) hit l kept h = elim (Bool-cases (is_part hit l m)) [
  | inr e ↦ rw e (first_loop-IsPart maps hit l kept h)
  | inl e ↦ elim (Bool-cases (m.offset == 0)) [
    | inl z ↦ rw (e, z) e
    | inr z ↦ rw (e, z) (first_loop-IsPart maps hit l (keep kept m) (keep-IsPart hit l kept m h e))
  ]
]

-- The loop ends at the first head, whatever it has kept.
first_loop-IsHead :
    (maps : List MapEntry) (hit : MapEntry) (l : ℕ) (kept : Option MapEntry)
    → Some (IsHead hit l) maps
    → (m : MapEntry) × IsHead hit l m × (first_loop maps hit l kept ≡ some m)
unfolding first_loop
first_loop-IsHead [] hit l kept h = elim h [ ]
first_loop-IsHead (m ∷ maps) hit l kept h = elim (Bool-cases (is_part hit l m)) [
  | inr e ↦ rw e (first_loop-IsHead maps hit l kept (later (λ p. cc (p.0, e)) h))
  | inl e ↦ elim (Bool-cases (m.offset == 0)) [
    | inl z ↦ rw (e, z) (m, (e, ground (arith, z)), refl)
    | inr z ↦
        rw (e, z)
          (first_loop-IsHead maps hit l (keep kept m) (later (λ p. ground (arith, p.1, z)) h))
  ]
]
  where
    later : ¬ IsHead hit l m → IsHead hit l m ⊎ Some (IsHead hit l) maps → Some (IsHead hit l) maps
    later no_head (inl p) = absurd (no_head p)
    later no_head (inr s) = s

-- What `firstMappingOfFile` returns, unless it falls back to the hit itself, is a readable mapping of
-- the same file at the same load address.
pub first_mapping-IsPart :
    (maps : List MapEntry) (hit : MapEntry)
    → hit.offset ≤ hit.start
    → let entry = first_mapping_of_file maps hit in
      (entry ≡ hit) ⊎ (is_part hit (hit.start - hit.offset) entry ≡ true)
unfolding first_mapping_of_file
first_mapping-IsPart maps hit h =
    let no_wrap : ltb hit.start hit.offset ≡ false = ground arith in
    rw no_wrap (
      part (first_loop maps hit (hit.start - hit.offset) none)
        (first_loop-IsPart maps hit (hit.start - hit.offset) none tt))
  where
    part :
        (o : Option MapEntry)
        → IsPart hit (hit.start - hit.offset) o
        → (or_else o hit ≡ hit) ⊎ (is_part hit (hit.start - hit.offset) (or_else o hit) ≡ true)
    part none p = inl refl
    part (some m) p = inr p

-- Where the start of the file that was hit is mapped readable at the hit's load address,
-- `firstMappingOfFile` returns such a mapping: it has offset 0 and starts at the load address.
pub first_mapping-head :
    (maps : List MapEntry) (hit : MapEntry)
    → hit.offset ≤ hit.start
    → Some (IsHead hit (hit.start - hit.offset)) maps
    → let entry = first_mapping_of_file maps hit in
      (entry.dev ≡ hit.dev)
      × (entry.inode ≡ hit.inode)
      × (entry.offset ≡ 0)
      × (entry.start ≡ hit.start - hit.offset)
      × (is_readable entry ≡ true)
unfolding first_mapping_of_file
first_mapping-head maps hit h heads =
    let no_wrap : ltb hit.start hit.offset ≡ false = ground arith in
    let (m, head, e) = first_loop-IsHead maps hit (hit.start - hit.offset) none heads in
    rw (no_wrap, e) (ground (arith, head))

first_mapping-same_file :
    (maps : List MapEntry) (hit : MapEntry)
    → let entry = first_mapping_of_file maps hit in
      (entry.dev ≡ hit.dev) × (entry.inode ≡ hit.inode)
first_mapping-same_file maps hit = elim (Bool-cases (ltb hit.start hit.offset)) [
  | inl below ↦ unfold first_mapping_of_file in rw below (refl, refl)
  | inr e ↦ elim (first_mapping-IsPart maps hit (ground (arith, e))) [
    | inl same ↦ (ap (λ (m : MapEntry). m.dev) same, ap (λ (m : MapEntry). m.inode) same)
    | inr part ↦ ground (arith, part)
  ]
]

module _ {W : Type 0} (backends : PltBackends W) (b : BackendInits) where
  -- With the engine lsplt, a PLT hook is made for the device and inode of the mapping that `findMapping`
  -- finds, provided that the file's first mapping has a path; the engine stays in use.
  pub plt_hook-lsplt :
      (maps : List MapEntry) (base : ℕ) (symbol : Bytes) (replacement original : ℕ) (g : Engines)
      (w : W) (hit : MapEntry)
      → base ≢ 0
      → replacement ≢ 0
      → g.plt ≡ lsplt
      → find_mapping maps base ≡ some hit
      → is_no_path (first_mapping_of_file maps hit).path ≡ false
      → plt_hook backends b maps base (some symbol) replacement original (g, w) ≡ (
          let (done, w') = backends.lsplt_hook hit.dev hit.inode symbol replacement original w in
          (done, g, w'))
  unfolding plt_hook hook_entry ensure_plt_engine_ready engine_plt_hook
  plt_hook-lsplt maps base symbol replacement original g w hit hb hr e found path =
      let kb : (base == 0) ≡ false = ground arith in
      let kr : (replacement == 0) ≡ false = ground arith in
      let f = first_mapping-same_file maps hit in rw (kb, kr, found, e, path, f.0, f.1) refl
