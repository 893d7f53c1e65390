-- ===== src/Hook/Backend/Bytehook/Tidy.antt =====
-- loader/src/hook/backend/bytehook.cpp: the three tables of ByteHook's hooks stay in step.
use zygisk_next_next.Base.{
  ℕ, ◌≡◌, ◌≢◌, refl, ◌⊎◌, inl, inr, Bool, true, ◌==◌, Bytes, same, Option, none, some, Bool-cases,
  Option-cases, arith,
}
use zygisk_next_next.Hook.Backend.Table.{put, remove}
use zygisk_next_next.Hook.Backend.Plti.{path_key}
use zygisk_next_next.Hook.Backend.Bytehook.{
  Library, State, original_of, bytehook_init, unhook_stub, install_stub, with_stub, bytehook_hook,
}

-- A hook has its stub and its original, or neither, the original is no null pointer, and no hook is being
-- installed.
abbrev pub IsTidy : {L : Type 0} → State L → Bytes → Type 0
IsTidy g k =
    (g.pending k ≡ none)
    × (((g.stubs k ≡ none) × (g.originals k ≡ none))
        ⊎ ((stub : ℕ) × (original : ℕ) × (g.stubs k ≡ some stub)
            × (g.originals k ≡ some original)
            × (stub ≢ 0)
            × (original ≢ 0)))

module _ {L : Type 0} (lib : Library L) where
  bytehook_init-IsTidy : (g : State L) (k : Bytes) → IsTidy g k → IsTidy (bytehook_init lib g).1 k
  unfolding bytehook_init
  bytehook_init-IsTidy g k h = elim (Option-cases g.started) [
    | inl e ↦ rw (e, bytehook_init) h
    | inr (ok, e) ↦ rw (e, bytehook_init) h
  ]

  unhook_stub-IsTidy :
      (key : Bytes) (replacement stub : ℕ) (g : State L) (k : Bytes)
      → IsTidy g k
      → IsTidy (unhook_stub lib key replacement stub g).1 k
  unfolding unhook_stub remove
  unhook_stub-IsTidy key replacement stub g k (p, h) =
      elim (Bool-cases (replacement == original_of (g.originals key))) [
        | inr e ↦ rw e (p, h)
        | inl e ↦ elim (Bool-cases (lib.unhook stub g.lib).0) [
          | inr f ↦ rw (e, f) (p, h)
          | inl f ↦ elim (Bool-cases (same k key)) [
            | inl q ↦ rw (e, f, q) (p, inl (refl, refl))
            | inr q ↦ rw (e, f, q) (p, h)
          ]
        ]
      ]

  install_stub-IsTidy :
      (path symbol : Bytes) (replacement : ℕ) (g : State L) (k : Bytes)
      → IsTidy g k
      → IsTidy
          (install_stub lib path symbol replacement
            (record g { pending = put (path_key path symbol) true g.pending })).1
          k
  unfolding install_stub remove put
  install_stub-IsTidy path symbol replacement g k (p, h) =
      let (stub, backup, l) = lib.hook_single path symbol replacement g.lib in
      elim (Bool-cases (same k (path_key path symbol))) [
        | inr q ↦ elim (Bool-cases (stub == 0)) [
          | inl e ↦ rw (e, q) (p, h)
          | inr e ↦ elim (Bool-cases (backup == 0)) [
            | inl f ↦ rw (e, f, q) (p, h)
            | inr f ↦ rw (e, f, q) (p, h)
          ]
        ]
        | inl q ↦ elim (Bool-cases (stub == 0)) [
          | inl e ↦ rw (e, q) (refl, h)
          | inr e ↦ elim (Bool-cases (backup == 0)) [
            | inl f ↦ rw (e, f, q) (refl, h)
            | inr f ↦
                rw (e, f, q)
                  (
                    refl,
                    inr (
                      stub,
                      backup,
                      refl,
                      refl,
                      (λ z. ground (arith, z, e)),
                      (λ z. ground (arith, z, f)),
                    ),
                  )
          ]
        ]
      ]

  with_stub-IsTidy :
      (path symbol : Bytes) (replacement : ℕ) (s : Option ℕ) (b : Option Bool) (g : State L)
      (k : Bytes)
      → IsTidy g k
      → IsTidy (with_stub lib path symbol replacement s b g).1 k
  unfolding with_stub
  with_stub-IsTidy path symbol replacement (some stub) b g k h =
      unhook_stub-IsTidy (path_key path symbol) replacement stub g k h
  with_stub-IsTidy path symbol replacement none (some p) g k h = h
  with_stub-IsTidy path symbol replacement none none g k h =
      install_stub-IsTidy path symbol replacement g k h

  -- `bytehookHook` leaves no hook half recorded and none pending, on every path: a key for which the
  -- tables have a stub and an original, neither of them null, or nothing, has that again.
  pub bytehook_hook-IsTidy :
      (path symbol : Bytes) (replacement : ℕ) (g : State L) (k : Bytes)
      → IsTidy g k
      → IsTidy (bytehook_hook lib path symbol replacement g).1 k
  unfolding bytehook_hook
  bytehook_hook-IsTidy path symbol replacement g k h =
      let (ready, g') = bytehook_init lib g in
      let key = path_key path symbol in
      elim (Bool-cases ready) [
        | inr e ↦ rw e (bytehook_init-IsTidy g k h)
        | inl e ↦ rw e (
            with_stub-IsTidy path symbol replacement (g'.stubs key) (g'.pending key) g' k
              (bytehook_init-IsTidy g k h))
      ]
