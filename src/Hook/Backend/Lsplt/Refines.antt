-- ===== src/Hook/Backend/Lsplt/Refines.antt =====
-- loader/src/hook/backend/lsplt.cpp: `lspltHook` keeps the promise of a PLT engine.
use zygisk_next_next.Base.{
  ℕ, ◌≡◌, ◌≢◌, refl, subst, if◌then◌else◌, ◌∙◌, ◌⊎◌, inl, inr, Bool-cases, same_iff, same, not,
  false, Option, none, some, ◌==◌, ==_iff, arith,
}
use zygisk_next_next.Hook.Backend.Table.{
  Table, put, remove, Site, record_key, record_key-injective, put_self, put_ne, remove_self,
  remove_ne,
}
use zygisk_next_next.Hook.Backend.Contract.{
  Hooked, Tracked, Tracks, IsLocal, Tracks-local, IsHookStep, IsReplaced,
}
use zygisk_next_next.Hook.Backend.Lsplt.{
  Library, State, original_of, commit, restore, install, lsplt_hook,
}

-- The hook that the table has for a site.
abbrev pub hooks : Table Hooked → Site → Option Hooked
hooks t y = t (record_key y)

site-cases : (x y : Site) → (y ≡ x) ⊎ (record_key y ≢ record_key x)
site-cases x y = elim (Bool-cases (same (record_key y) (record_key x))) [
  | inl e ↦ inl (record_key-injective y x ((same_iff (record_key y) (record_key x)).0 e))
  | inr e ↦ inr (λ h. cc (e, (same_iff (record_key y) (record_key x)).1 h))
]

pub nonzero : (n : ℕ) → n ≢ 0 → (n == 0) ≡ false
nonzero n h = ground arith

module _ {L : Type 0} (lib : Library L) (slot : L → Site → ℕ) (initial : Site → ℕ)
    (replaces : (x : Site) (callback : ℕ) (l : L)
      → let (backup, committed, l') = commit lib x callback l in
        IsReplaced x callback backup (slot l) (slot l')) where
  -- What a call of `lspltHook` does and keeps.
  abbrev Refines : Site → ℕ → State L → Option ℕ × State L → Type 0
  Refines x replacement g (result, g') =
      IsHookStep initial x replacement result (slot g.lib) (slot g'.lib)
      × Tracks initial (hooks g'.records) (slot g'.lib)

  failed-Refines :
      (x : Site) (replacement : ℕ) (g : State L) (l : L)
      → ((y : Site) → slot l y ≡ slot g.lib y)
      → Tracks initial (hooks g.records) (slot g.lib)
      → Refines x replacement g (none, record g { lib = l })
  failed-Refines x replacement g l kept h = (kept, λ y. rw (kept y) (h y))

  -- A commit that replaced the slot, and a table that changes for the site alone.
  done-Refines :
      (x : Site) (new original : ℕ) (g : State L) (l : L) (t : Table Hooked)
      → original ≡ initial x
      → slot l x ≡ new
      → (slot g.lib x ≡ initial x) ⊎ (new ≡ initial x)
      → ((y : Site) → (y ≡ x) ⊎ (slot l y ≡ slot g.lib y))
      → ((y : Site) → (y ≡ x) ⊎ (hooks t y ≡ hooks g.records y))
      → Tracked (initial x) (hooks t x) (slot l x)
      → Tracks initial (hooks g.records) (slot g.lib)
      → Refines x new g (some original, record { lib = l; records = t })
  done-Refines x new original g l t first at_x asked others same_hooks tracked h = (
    (first, at_x, asked, others),
    Tracks-local initial x (hooks g.records) (hooks t) (slot g.lib) (slot l) h tracked local,
  )
    where
      local : IsLocal x (hooks g.records) (hooks t) (slot g.lib) (slot l)
      local y = elim (same_hooks y) [
        | inl e ↦ inl e
        | inr e ↦ elim (others y) [ inl f ↦ inl f | inr f ↦ inr (e, f) ]
      ]

  put-local :
      (x : Site) (r : Hooked) (t : Table Hooked) (y : Site)
      → (y ≡ x) ⊎ (hooks (put (record_key x) r t) y ≡ hooks t y)
  put-local x r t y = elim (site-cases x y) [
    | inl e ↦ inl e
    | inr e ↦ inr (put_ne (record_key x) (record_key y) r t e)
  ]

  remove-local :
      (x : Site) (t : Table Hooked) (y : Site)
      → (y ≡ x) ⊎ (hooks (remove (record_key x) t) y ≡ hooks t y)
  remove-local x t y = elim (site-cases x y) [
    | inl e ↦ inl e
    | inr e ↦ inr (remove_ne (record_key x) (record_key y) t e)
  ]

  install-Refines :
      (x : Site) (replacement : ℕ) (g : State L)
      → slot g.lib x ≡ initial x
      → Tracks initial (hooks g.records) (slot g.lib)
      → Refines x replacement g (install lib x replacement g)
  unfolding install
  install-Refines x replacement g free h =
      let (backup, committed, l) = commit lib x replacement g.lib in
      elim (replaces x replacement g.lib) [
        | inl (e, kept) ↦ rw ((==_iff backup 0).1 e) (failed-Refines x replacement g l kept h)
        | inr (e, nz, new, others) ↦
            let r : Hooked = record { replacement = replacement; original = backup } in
            let there : hooks (put (record_key x) r g.records) x ≡ some r =
              put_self (record_key x) r g.records in
            rw (nonzero backup nz) (
              done-Refines x replacement backup g l (put (record_key x) r g.records) (e ∙ free) new
                (inl free) others (put-local x r g.records) (rw there (new, e ∙ free, nz)) h)
      ]

  restore-Refines :
      (x : Site) (previous : ℕ) (g : State L)
      → previous ≡ initial x
      → Tracks initial (hooks g.records) (slot g.lib)
      → Refines x previous g (restore lib x previous g)
  unfolding restore
  restore-Refines x previous g p h =
      let (backup, committed, l) = commit lib x previous g.lib in
      elim (replaces x previous g.lib) [
        | inl (e, kept) ↦ rw ((==_iff backup 0).1 e) (failed-Refines x previous g l kept h)
        | inr (e, nz, new, others) ↦ rw (nonzero backup nz) (
            done-Refines x previous previous g l (remove (record_key x) g.records) p new (inr p)
              others (remove-local x g.records)
              (rw (remove_self (record_key x) g.records) (new ∙ p)) h)
      ]

  -- `lspltHook` keeps the promise of a PLT engine, one call after the other: if each hook's record has
  -- what the slot held at first, then on success the caller gets that value, the slot holds the
  -- replacement and no other slot changes, on failure no slot changes, and the records are right again.
  -- A site that is hooked is only given back what it held at first. LSPlt is asked to say which address
  -- it replaced, or that it replaced none.
  pub lsplt_hook-Refines :
      (x : Site) (replacement : ℕ) (g : State L)
      → Tracks initial (hooks g.records) (slot g.lib)
      → IsHookStep initial x replacement
          (lsplt_hook lib x replacement g).0
          (slot g.lib)
          (slot (lsplt_hook lib x replacement g).1.lib)
        × Tracks initial
            (hooks (lsplt_hook lib x replacement g).1.records)
            (slot (lsplt_hook lib x replacement g).1.lib)
  unfolding lsplt_hook
  lsplt_hook-Refines x replacement g h = go (g.records (record_key x)) refl
    where
      go :
          (o : Option Hooked)
          → g.records (record_key x) ≡ o
          → Refines x replacement g (
              if original_of o == 0
              then install lib x replacement g
              else if not (replacement == original_of o)
              then (none, g)
              else restore lib x (original_of o) g)
      go none e =
          install-Refines x replacement g
            (subst (λ o. Tracked (initial x) o (slot g.lib x)) e (h x)) h
      go (some r) e =
          let tracked : Tracked (initial x) (some r) (slot g.lib x) =
            subst (λ o. Tracked (initial x) o (slot g.lib x)) e (h x) in
          rw (nonzero r.original tracked.2) (elim (Bool-cases (replacement == r.original)) [
            | inr f ↦ rw f (failed-Refines x replacement g g.lib (λ y. refl) h)
            | inl f ↦
                let q : replacement ≡ r.original = (==_iff replacement r.original).0 f in
                rw (f, q) (restore-Refines x r.original g tracked.1 h)
          ])
