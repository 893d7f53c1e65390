-- ===== src/Hook/Backend/Lsplt/Race.antt =====
-- loader/src/hook/backend/lsplt.cpp: two threads that hook the same site. `lspltHook` looks for a record
-- under the lock and lets it go before it installs, so both may find none and install in turn.
use zygisk_next_next.Base.{
  ℕ, ◌≡◌, ◌≢◌, refl, subst, ◌∙◌, inl, inr, false, ◌==◌, ==_iff, Option, none, some, arith,
}
use zygisk_next_next.Hook.Backend.Table.{Site, record_key, put_self}
use zygisk_next_next.Hook.Backend.Contract.{IsReplaced}
use zygisk_next_next.Hook.Backend.Lsplt.{Library, State, commit, install, lsplt_hook}
use zygisk_next_next.Hook.Backend.Lsplt.Refines.{hooks, nonzero}

module _ {L : Type 0} (lib : Library L) (slot : L → Site → ℕ)
    (replaces : (x : Site) (callback : ℕ) (l : L)
      → let (backup, committed, l') = commit lib x callback l in
        IsReplaced x callback backup (slot l) (slot l')) where
  -- An installation that succeeds returns and records what the slot held.
  abbrev IsInstalled : Site → ℕ → State L → Option ℕ × State L → Type 0
  IsInstalled x new g (none, g') = Unit
  IsInstalled x new g (some backup, g') =
      (backup ≡ slot g.lib x)
      × (slot g'.lib x ≡ new)
      × (hooks g'.records x ≡ some (record { replacement = new; original = backup }))

  install-IsInstalled :
      (x : Site) (new : ℕ) (g : State L) → IsInstalled x new g (install lib x new g)
  unfolding install
  install-IsInstalled x new g =
      let (backup, committed, l) = commit lib x new g.lib in
      elim (replaces x new g.lib) [
        | inl (e, kept) ↦ rw ((==_iff backup 0).1 e) tt
        | inr (e, nz, at_x, others) ↦ rw (nonzero backup nz) (
          e,
          at_x,
          put_self (record_key x) (record { replacement = new; original = backup }) g.records,
        )
      ]

  refuses :
      (x : Site) (a first second : ℕ) (g : State L)
      → hooks g.records x ≡ some (record { replacement = second; original = first })
      → a ≢ first
      → first ≢ 0
      → lsplt_hook lib x a g ≡ (none, g)
  unfolding lsplt_hook
  refuses x a first second g e differ set =
      let other : (a == first) ≡ false = ground (arith, differ) in
      rw (e, nonzero first set, other) refl

  -- When two threads both found no record and both install, the second gets the first one's replacement
  -- as the original, and so does the one record that is left; the first caller, who passes the original
  -- that it was given to undo its hook, is refused. The first replacement is no null pointer and not the
  -- original itself. LSPlt is asked to say which address it replaced, or that it replaced none.
  pub install-race :
      (x : Site) (first second a b : ℕ) (g g1 g2 : State L)
      → install lib x first g ≡ (some a, g1)
      → install lib x second g1 ≡ (some b, g2)
      → a ≢ first
      → first ≢ 0
      → (a ≡ slot g.lib x)
        × (b ≡ first)
        × (hooks g2.records x ≡ some (record { replacement = second; original = first }))
        × (lsplt_hook lib x a g2 ≡ (none, g2))
  install-race x first second a b g g1 g2 e f differ set =
      let (at_a, now, kept) : IsInstalled x first g (some a, g1) =
        subst (IsInstalled x first g) e (install-IsInstalled x first g) in
      let (at_b, later, left) : IsInstalled x second g1 (some b, g2) =
        subst (IsInstalled x second g1) f (install-IsInstalled x second g1) in
      let same : b ≡ first = at_b ∙ now in
      let record_left : hooks g2.records x
          ≡ some (record { replacement = second; original = first }) =
        subst (λ o. hooks g2.records x ≡ some (record { replacement = second; original = o })) same
          left in
      (at_a, same, record_left, refuses x a first second g2 record_left differ set)
