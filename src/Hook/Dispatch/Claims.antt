-- ===== src/Hook/Dispatch/Claims.antt =====
-- loader/src/api/hook.cpp: the addresses that `inlineHook` and `inlineUnhook` hold claimed.
use zygisk_next_next.Base.{
  ℕ, ◌≡◌, refl, true, false, not, ◌||◌, ◌&&◌, List, [], ◌∷◌, ◌==◌, arith, Bool-cases, inl, inr,
}
use zygisk_next_next.Hook.Engine.{Arch, BackendInits}
use zygisk_next_next.Hook.Dispatch.{
  InlineBackends, HookState, Status, success, failed, contains, erase, hook_inline, unhook_inline,
  inline_hook, inline_unhook,
}

pub contains-erase :
    (q t : ℕ) (xs : List ℕ) → contains q (erase t xs) ≡ (not (q == t) && contains q xs)
unfolding contains erase
contains-erase q t [] = ground arith
contains-erase q t (x ∷ xs) = ground (arith, contains-erase q t xs)

-- Taking back a claim that was new leaves the set as it was.
pub erase_claim :
    (q t : ℕ) (xs : List ℕ) → contains t xs ≡ false → contains q (erase t (t ∷ xs)) ≡ contains q xs
unfolding contains
erase_claim q t xs new = elim (Bool-cases (q == t)) [
  | inl e ↦
      let same : q ≡ t = ground arith in
      rw (contains-erase q t (t ∷ xs)) (rw (same, new) (ground (arith, new)))
  | inr e ↦ rw (contains-erase q t (t ∷ xs)) (ground arith)
]

module _ {W : Type 0} (backends : InlineBackends W) (arch : Arch) (b : BackendInits) where
  hook_inline-hooked :
      (t r o : ℕ) (s : HookState W) → (hook_inline backends arch b t r o s).1.hooked ≡ s.hooked
  unfolding hook_inline
  hook_inline-hooked t r o s = ground arith

  unhook_inline-hooked :
      (t : ℕ) (s : HookState W) → (unhook_inline backends arch b t s).1.hooked ≡ s.hooked
  unfolding unhook_inline
  unhook_inline-hooked t s = ground arith

  -- An address that is claimed is refused, with no call of a library and no change of state.
  pub inline_hook-claimed :
      (t addr o : ℕ) (s : HookState W)
      → contains t s.hooked ≡ true
      → inline_hook backends arch b t addr o s ≡ (failed, s)
  unfolding inline_hook
  inline_hook-claimed t addr o s h = ground arith

  -- How the claims change: by a success they gain the address, which was free; by a failure nothing.
  abbrev pub Claimed : ℕ → HookState W → Status × HookState W → Type 0
  Claimed t s (success, s') =
      (contains t s.hooked ≡ false)
      × ((q : ℕ) → contains q s'.hooked ≡ (q == t || contains q s.hooked))
  Claimed t s (failed, s') = (q : ℕ) → contains q s'.hooked ≡ contains q s.hooked

  -- Whatever the library answers, `inlineHook` succeeds only for an address that was free, which is
  -- then claimed, and after a failure exactly the same addresses are claimed as before.
  pub inline_hook-Claimed :
      (t addr o : ℕ) (s : HookState W) → Claimed t s (inline_hook backends arch b t addr o s)
  unfolding inline_hook
  inline_hook-Claimed t addr o s = elim (Bool-cases (t == 0 || addr == 0)) [
    | inl e ↦ rw e (λ q. refl)
    | inr e ↦ elim (Bool-cases (contains t s.hooked)) [
      | inl c ↦ rw (e, c) (λ q. refl)
      | inr c ↦
          let claimed : HookState W = record s { hooked = t ∷ s.hooked } in
          let kept = hook_inline-hooked t addr o claimed in
          elim (Bool-cases (hook_inline backends arch b t addr o claimed).0) [
            | inl d ↦ rw (e, c, d) (c, λ q. rw kept (unfold contains in refl))
            | inr d ↦ rw (e, c, d) (λ q. rw kept (erase_claim q t s.hooked c))
          ]
    ]
  ]

  -- By a success the claims lose the address, which was claimed; by a failure nothing.
  abbrev pub Released : ℕ → HookState W → Status × HookState W → Type 0
  Released t s (success, s') =
      (contains t s.hooked ≡ true)
      × ((q : ℕ) → contains q s'.hooked ≡ (not (q == t) && contains q s.hooked))
  Released t s (failed, s') = (q : ℕ) → contains q s'.hooked ≡ contains q s.hooked

  -- `inlineUnhook` succeeds only for an address that was claimed, which is then free again, and after
  -- a failure exactly the same addresses are claimed as before.
  pub inline_unhook-Released :
      (t : ℕ) (s : HookState W) → Released t s (inline_unhook backends arch b t s)
  unfolding inline_unhook
  inline_unhook-Released t s = elim (Bool-cases (t == 0)) [
    | inl e ↦ rw e (λ q. refl)
    | inr e ↦ elim (Bool-cases (contains t s.hooked)) [
      | inr c ↦ rw (e, c) (λ q. refl)
      | inl c ↦
          let kept = unhook_inline-hooked t s in
          elim (Bool-cases (unhook_inline backends arch b t s).0) [
            | inl d ↦ rw (e, c, d) (c, λ q. rw kept (contains-erase q t s.hooked))
            | inr d ↦ rw (e, c, d) (λ q. rw kept refl)
          ]
    ]
  ]
