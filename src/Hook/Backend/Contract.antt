-- ===== src/Hook/Backend/Contract.antt =====
-- loader/src/hook/backend: what every PLT engine promises of the slots that it replaces.
use zygisk_next_next.Base.{ℕ, ◌≡◌, ◌≢◌, ◌⊎◌, inl, inr, Option, none, some}

-- `Record` of lsplt.cpp, and what the other engines keep of a hook.
pub record Hooked : Type 0 where
  pub replacement : ℕ
  pub original : ℕ

-- The value `v` of a slot that held `i` before any hook.
abbrev pub Tracked : ℕ → Option Hooked → ℕ → Type 0
Tracked i none v = v ≡ i
Tracked i (some r) v = (v ≡ r.replacement) × (r.original ≡ i) × (r.original ≢ 0)

module _ {Site : Type 0} where
  -- Each slot holds what it held at first, or the replacement that its record names, and then the record
  -- has what it held at first.
  abbrev pub Tracks : (initial : Site → ℕ) → (Site → Option Hooked) → (Site → ℕ) → Type 0
  Tracks initial hooks slot = (y : Site) → Tracked (initial y) (hooks y) (slot y)

  -- Everywhere but at `x`, hooks and slots are the same.
  abbrev pub IsLocal :
      (x : Site) (hooks hooks' : Site → Option Hooked) (slot slot' : Site → ℕ) → Type 0
  IsLocal x hooks hooks' slot slot' =
      (y : Site) → (y ≡ x) ⊎ ((hooks' y ≡ hooks y) × (slot' y ≡ slot y))

  pub Tracks-local :
      (initial : Site → ℕ) (x : Site) (hooks hooks' : Site → Option Hooked) (slot slot' : Site → ℕ)
      → Tracks initial hooks slot
      → Tracked (initial x) (hooks' x) (slot' x)
      → IsLocal x hooks hooks' slot slot'
      → Tracks initial hooks' slot'
  Tracks-local initial x hooks hooks' slot slot' h at_x elsewhere y = elim (elsewhere y) [
    | inl e ↦ rw e at_x
    | inr (e, f) ↦ rw (e, f) (h y)
  ]

  -- What a hook promises: on failure no slot changes; on success the caller gets what the slot held at
  -- first, the slot holds the replacement, which was asked for a slot without a hook or to undo one, and
  -- no other slot changes.
  abbrev pub IsHookStep :
      (initial : Site → ℕ) (x : Site) (replacement : ℕ)
      → Option ℕ
      → (slot slot' : Site → ℕ) → Type 0
  IsHookStep initial x replacement none slot slot' = (y : Site) → slot' y ≡ slot y
  IsHookStep initial x replacement (some original) slot slot' =
      (original ≡ initial x)
      × (slot' x ≡ replacement)
      × ((slot x ≡ initial x) ⊎ (replacement ≡ initial x))
      × ((y : Site) → (y ≡ x) ⊎ (slot' y ≡ slot y))

  -- What a library that replaces the slot of `x` says of it: it gives the address that was there, or 0
  -- where it changed nothing.
  abbrev pub IsReplaced : (x : Site) (new backup : ℕ) (slot slot' : Site → ℕ) → Type 0
  IsReplaced x new backup slot slot' =
      ((backup ≡ 0) × ((y : Site) → slot' y ≡ slot y))
      ⊎ ((backup ≡ slot x)
          × (backup ≢ 0)
          × (slot' x ≡ new)
          × ((y : Site) → (y ≡ x) ⊎ (slot' y ≡ slot y)))
