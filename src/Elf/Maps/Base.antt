-- ===== src/Elf/Maps/Base.antt =====
-- loader/src/utils/elf_util.cpp: what `findLibraryBaseInMaps` finds.
use zygisk_next_next.Base.{
  ℕ, ◌-◌, ◌≤◌, ◌≡◌, refl, ◌⊎◌, inl, inr, true, false, List, [], ◌∷◌, Bytes, leb, All, arith,
  Bool-cases,
}
use zygisk_next_next.Elf.Maps.{
  MapEntry, map_matches_name, count_matches, is_file_copy, base_loop, find_library_base_in_maps,
}

-- An entry that `findLibraryBaseInMaps` may take the address from.
pub record IsCandidate (matches : ℕ) (name : Bytes) (whole_size : ℕ) (m : MapEntry) : Type 0 where
  pub named : map_matches_name m name ≡ true
  pub loaded : is_file_copy matches whole_size m ≡ false
  pub above : m.offset ≤ m.start

-- The list's first entry with the property.
pub data First {ℓ} {A : Type ℓ} (P : A → Type 0) : List A → A → Type ℓ where
  here : {x : A} {xs : List A} → P x → First P (x ∷ xs) x
  there : {x y : A} {xs : List A} → ¬ P x → First P xs y → First P (x ∷ xs) y

-- What a search of the mappings with a base as its result finds.
unfoldable pub Finds : ℕ → Bytes → ℕ → List MapEntry → ℕ → Type 0
Finds n name w maps base =
    ((m : MapEntry) × First (IsCandidate n name w) maps m × (base ≡ m.start - m.offset))
    ⊎ All (λ m. ¬ IsCandidate n name w m) maps × (base ≡ 0)

Finds-skip :
    (n : ℕ) (name : Bytes) (w : ℕ) (maps : List MapEntry) (base : ℕ) (m : MapEntry)
    → ¬ IsCandidate n name w m
    → Finds n name w maps base
    → Finds n name w (m ∷ maps) base
unfolding Finds
Finds-skip n name w maps base m no_fit (inl (x, found, e)) = inl (x, there no_fit found, e)
Finds-skip n name w maps base m no_fit (inr (none_fit, e)) = inr ((no_fit, none_fit), e)

base_loop-Finds :
    (n : ℕ) (maps : List MapEntry) (name : Bytes) (w : ℕ)
    → Finds n name w maps (base_loop n maps name w)
unfolding base_loop Finds
base_loop-Finds n [] name w = inr (tt, refl)
base_loop-Finds n (m ∷ maps) name w =
    let rest = base_loop-Finds n maps name w in
    elim (Bool-cases (map_matches_name m name)) [
      | inr e ↦ rw e (Finds-skip n name w maps _ m (λ c. cc (e, c.named)) rest)
      | inl e ↦ elim (Bool-cases (is_file_copy n w m)) [
        | inl f ↦ rw (e, f) (Finds-skip n name w maps _ m (λ c. cc (f, c.loaded)) rest)
        | inr f ↦ elim (Bool-cases (leb m.offset m.start)) [
          | inl g ↦
              rw (e, f, g)
                (inl (m, here (record { named = e; loaded = f; above = ground (arith, g) }), refl))
          | inr g ↦
              rw (e, f, g) (Finds-skip n name w maps _ m (λ c. ground (arith, g, c.above)) rest)
        ]
      ]
    ]

-- `findLibraryBaseInMaps` on any mappings: the load address is the start less the offset of the first
-- mapping that has the name, is no reader's copy of the whole file, and starts no lower than its offset;
-- and 0 only stands for "not found" or for such a mapping that starts at its own offset.
pub find_library_base-Finds :
    (maps : List MapEntry) (name : Bytes) (w : ℕ)
    → Finds (count_matches maps name) name w maps (find_library_base_in_maps maps name w)
unfolding find_library_base_in_maps
find_library_base-Finds maps name w = base_loop-Finds (count_matches maps name) maps name w
