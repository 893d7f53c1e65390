-- ===== src/Hook/Backend/And64/RoundTrip.antt =====
-- loader/src/hook/backend/and64inlinehook.cpp: a hook that fails and a hook that is undone leave the code
-- as it was, and no trampoline.
use zygisk_next_next.Base.{
  ℕ, zero, suc, ◌+◌, ◌-◌, ◌≤◌, ◌<◌, ◌≡◌, refl, ap, subst, ◌∙◌, ◌⊎◌, inl, inr, true, ◌&&◌, List, ◌∷◌,
  length, get_or, ltb, leb, ==_refl, Option, none, some, Bool-cases, Option-cases, arith,
}
use zygisk_next_next.Hook.Backend.And64.{
  patch_bytes, trampoline_bytes, Memory, load, store, HookRecord, State, HookFunction, Answers,
  make_patch_writable, find_record, erase_record, unmap, hook_with, and64inlinehook_hook,
  unhook_record, and64inlinehook_unhook,
}

length-load : (m : Memory) (a n : ℕ) → length (load m a n) ≡ n
unfolding load
length-load m a zero = refl
length-load m a (suc n) = ap suc (length-load m (a + 1) n)

get_or-load : (m : Memory) (a n i : ℕ) → i < n → get_or (load m a n) i 0 ≡ m (a + i)
unfolding load
get_or-load m a zero i h = absurd (omega arith)
get_or-load m a (suc n) zero h = let e : a ≡ a + 0 = omega arith in ap m e
get_or-load m a (suc n) (suc i) h =
    let e : a + 1 + i ≡ a + suc i = omega arith in get_or-load m (a + 1) n i (omega arith) ∙ ap m e

-- The bytes of the patch, and of a trampoline.
abbrev pub InPatch : (target x : ℕ) → Type 0
InPatch target x = (target ≤ x) × (x < target + patch_bytes)

abbrev pub InTrampoline : (t x : ℕ) → Type 0
InTrampoline t x = (t ≤ x) × (x < t + trampoline_bytes)

store-load :
    (m m' : Memory) (target x : ℕ)
    → InPatch target x ⊎ (m' x ≡ m x)
    → store m' target (load m target patch_bytes) x ≡ m x
unfolding store
store-load m m' target x h =
    elim (Bool-cases (leb target x && ltb x (target + length (load m target patch_bytes)))) [
      | inl e ↦
          let l = length-load m target 20 in
          let low : target ≤ x = ground (arith, e) in
          let high : x < target + 20 = ground (arith, e, l) in
          let at : target + (x - target) ≡ x = omega arith in
          rw e (get_or-load m target 20 (x - target) (omega arith) ∙ ap m at)
      | inr e ↦ rw e (elim h [
        | inr k ↦ k
        | inl (low, high) ↦ absurd (ground (arith, e, low, high, length-load m target 20))
      ])
    ]

unmap_head : (t : ℕ) (ts : List ℕ) → unmap t (t ∷ ts) ≡ ts
unfolding unmap
unmap_head t ts = rw (==_refl t) refl

find_head :
    (k : ℕ) (r : HookRecord) (l : List (ℕ × HookRecord)) → find_record k ((k, r) ∷ l) ≡ some r
unfolding find_record
find_head k r l = rw (==_refl k) refl

erase_head : (k : ℕ) (r : HookRecord) (l : List (ℕ × HookRecord)) → erase_record k ((k, r) ∷ l) ≡ l
unfolding erase_record
erase_head k r l = rw (==_refl k) refl

module _ (hook_function : HookFunction)
    (touches : (target replacement t : ℕ) (m : Memory) (x : ℕ)
      → InPatch target x
        ⊎ (InTrampoline t x ⊎ ((hook_function target replacement t m).1 x ≡ m x))) where
  -- How a call ends: it fails and all is as before, but for a trampoline that is unmapped again, or it
  -- keeps the bytes of the patch and changes no code besides them.
  abbrev pub IsHooked : Option ℕ → (target : ℕ) → State → Option ℕ × State → Type 0
  IsHooked mmap target s (none, s') =
      (s'.records ≡ s.records)
      × (s'.mapped ≡ s.mapped)
      × ((x : ℕ) → (s'.memory x ≡ s.memory x) ⊎ ((t : ℕ) × (mmap ≡ some t) × InTrampoline t x))
  IsHooked mmap target s (some t, s') =
      (s'.records
        ≡ (target, record { backup = load s.memory target patch_bytes; trampoline = t })
          ∷ s.records)
      × (s'.mapped ≡ t ∷ s.mapped)
      × ((x : ℕ) → InPatch target x ⊎ (InTrampoline t x ⊎ (s'.memory x ≡ s.memory x)))

  hook_with-IsHooked :
      (a : Answers) (target replacement t : ℕ) (s : State)
      → IsHooked (some t) target s (hook_with hook_function a target replacement t s)
  unfolding hook_with
  hook_with-IsHooked a target replacement t s =
      let m = (hook_function target replacement t s.memory).1 in
      elim (Bool-cases (make_patch_writable a target)) [
        | inr e ↦ rw e (refl, unmap_head t s.mapped, λ x. inl refl)
        | inl e ↦ elim (Bool-cases (hook_function target replacement t s.memory).0) [
          | inl f ↦ rw (e, f) (refl, refl, λ x. touches target replacement t s.memory x)
          | inr f ↦
              rw (e, f)
                (
                  refl,
                  unmap_head t s.mapped,
                  λ x. elim (touches target replacement t s.memory x) [
                    | inl p ↦ inl (store-load s.memory m target x (inl p))
                    | inr (inl p) ↦ inr (t, refl, p)
                    | inr (inr p) ↦ inl (store-load s.memory m target x (inr p))
                  ],
                )
        ]
      ]

  -- A hook that fails leaves the records, the mapped trampolines and the memory as they were, but for what
  -- was a trampoline meanwhile; one that succeeds keeps the patch's bytes in its record and changes no
  -- code besides them. The library is asked to write to the patch and the trampoline only.
  pub and64inlinehook_hook-IsHooked :
      (a : Answers) (target replacement : ℕ) (s : State)
      → IsHooked a.mmap target s (and64inlinehook_hook hook_function a target replacement s)
  unfolding and64inlinehook_hook
  and64inlinehook_hook-IsHooked a target replacement s =
      elim (Option-cases (find_record target s.records)) [
        | inr (r, e) ↦ rw (e, IsHooked, and64inlinehook_hook) (refl, refl, λ x. inl refl)
        | inl e ↦ rw (e, IsHooked, and64inlinehook_hook) (go a.mmap)
      ]
    where
      go :
          (o : Option ℕ)
          → IsHooked o target s (elim o [
            | none ↦ (none, s)
            | some t ↦ hook_with hook_function a target replacement t s
          ])
      go none = (refl, refl, λ x. inl refl)
      go (some t) = hook_with-IsHooked a target replacement t s

  -- To unhook what was just hooked, with the target writable, restores the records, the mapped trampolines
  -- and every byte outside the trampoline. The library is asked to write to the patch and the trampoline
  -- only.
  pub unhook-hook :
      (a b : Answers) (target replacement t : ℕ) (s s1 : State)
      → and64inlinehook_hook hook_function a target replacement s ≡ (some t, s1)
      → make_patch_writable b target ≡ true
      → ((and64inlinehook_unhook b target s1).0 ≡ true)
        × ((and64inlinehook_unhook b target s1).1.records ≡ s.records)
        × ((and64inlinehook_unhook b target s1).1.mapped ≡ s.mapped)
        × ((x : ℕ)
            → InTrampoline t x ⊎ ((and64inlinehook_unhook b target s1).1.memory x ≡ s.memory x))
  unfolding and64inlinehook_unhook unhook_record
  unhook-hook a b target replacement t s s1 e w =
      let (recorded, mapped, kept) : IsHooked a.mmap target s (some t, s1) =
        subst (IsHooked a.mmap target s) e (and64inlinehook_hook-IsHooked a target replacement s) in
      let r : HookRecord = record { backup = load s.memory target patch_bytes; trampoline = t } in
      let found : find_record target s1.records ≡ some r =
        rw recorded (find_head target r s.records) in
      rw (found, and64inlinehook_unhook, w, unhook_record)
        (
          refl,
          ap (erase_record target) recorded ∙ erase_head target r s.records,
          ap (unmap t) mapped ∙ unmap_head t s.mapped,
          λ x. elim (kept x) [
            | inl p ↦ inr (store-load s.memory s1.memory target x (inl p))
            | inr (inl p) ↦ inl p
            | inr (inr p) ↦ inr (store-load s.memory s1.memory target x (inr p))
          ],
        )
