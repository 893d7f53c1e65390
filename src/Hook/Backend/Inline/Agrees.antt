-- ===== src/Hook/Backend/Inline/Agrees.antt =====
-- loader/src/hook/backend/frida-gum.cpp: `g_hooked` agrees with what Gum has replaced.
use zygisk_next_next.Base.{
  ℕ, ◌≡◌, refl, sym, ap, ◌∙◌, inl, inr, Bool, false, not, ◌||◌, ◌&&◌, List, ◌∷◌, ◌==◌, Option, none,
  some, Bool-cases, Option-cases,
}
use zygisk_next_next.Hook.Dispatch.{contains}
use zygisk_next_next.Hook.Dispatch.Claims.{contains-erase, erase_claim}
use zygisk_next_next.Hook.Backend.Inline.{
  Gum, GumState, frida_gum_init, replaced, frida_gum_hook, frida_gum_unhook,
}

-- What Gum says: a target is replaced after `replace` if it was, or if it is the one and that succeeds;
-- after `revert` the target no longer is.
abbrev pub IsReplace : (target : ℕ) → Option ℕ → (is_replaced is_replaced' : ℕ → Bool) → Type 0
IsReplace target none r r' = (k : ℕ) → r' k ≡ r k
IsReplace target (some original) r r' = (k : ℕ) → r' k ≡ (k == target || r k)

contains-cons : (k t : ℕ) (xs : List ℕ) → contains k (t ∷ xs) ≡ (k == t || contains k xs)
unfolding contains
contains-cons k t xs = refl

module _ {L : Type 0} (gum : Gum L) (is_replaced : L → ℕ → Bool)
    (obtains : (l : L) (k : ℕ) → is_replaced (gum.obtain l).1 k ≡ is_replaced l k)
    (replaces : (i target replacement : ℕ) (l : L)
      → let (original, l') = gum.replace i target replacement l in
        IsReplace target original (is_replaced l) (is_replaced l'))
    (reverts : (i target : ℕ) (l : L) (k : ℕ)
      → is_replaced (gum.revert i target l) k ≡ (not (k == target) && is_replaced l k)) where
  abbrev pub Agrees : GumState L → Type 0
  Agrees g = (k : ℕ) → contains k g.hooked ≡ is_replaced g.lib k

  init-Agrees : (g : GumState L) → Agrees g → Agrees (frida_gum_init gum g).1
  unfolding frida_gum_init
  init-Agrees g h = elim (Option-cases g.interceptor) [
    | inl e ↦ rw (e, Agrees, frida_gum_init) (λ k. h k ∙ sym (obtains g.lib k))
    | inr (i, e) ↦ rw (e, Agrees, frida_gum_init) h
  ]

  replaced-Agrees :
      (target : ℕ) (o : Option ℕ) (g : GumState L) (l : L)
      → contains target g.hooked ≡ false
      → IsReplace target o (is_replaced g.lib) (is_replaced l)
      → Agrees g
      → Agrees (replaced gum target o (record g { lib = l; hooked = target ∷ g.hooked })).1
  unfolding replaced
  replaced-Agrees target none g l new r h k = erase_claim k target g.hooked new ∙ (h k ∙ sym (r k))
  replaced-Agrees target (some o) g l new r h k =
      contains-cons k target g.hooked ∙ (ap (λ b. k == target || b) (h k) ∙ sym (r k))

  hook-Agrees :
      (target replacement : ℕ) (g : GumState L)
      → Agrees g
      → Agrees (frida_gum_hook gum target replacement g).1
  unfolding frida_gum_hook
  hook-Agrees target replacement g h =
      let (i, g') = frida_gum_init gum g in
      let (o, l) = gum.replace i target replacement g'.lib in
      elim (Bool-cases (i == 0)) [
        | inl e ↦ rw e (init-Agrees g h)
        | inr e ↦ elim (Bool-cases (contains target g'.hooked)) [
          | inl f ↦ rw (e, f) (init-Agrees g h)
          | inr f ↦
              rw (e, f)
                (replaced-Agrees target o g' l f (replaces i target replacement g'.lib)
                  (init-Agrees g h))
        ]
      ]

  unhook-Agrees :
      (target : ℕ) (g : GumState L) → Agrees g → Agrees (frida_gum_unhook gum target g).1
  unfolding frida_gum_unhook
  unhook-Agrees target g h =
      let (i, g') = frida_gum_init gum g in
      let h' = init-Agrees g h in
      elim (Bool-cases (i == 0)) [
        | inl e ↦ rw e h'
        | inr e ↦ elim (Bool-cases (contains target g'.hooked)) [
          | inr f ↦ rw (e, f) h'
          | inl f ↦
              rw (e, f)
                (λ k.
                  contains-erase k target g'.hooked
                  ∙ (ap (λ b. not (k == target) && b) (h' k) ∙ sym (reverts i target g'.lib k)))
        ]
      ]

  -- After `fridaGumHook` and after `fridaGumUnhook`, whatever they return, `g_hooked` has again exactly
  -- the targets that Gum has replaced. Gum is asked to replace the target exactly if it says so, and to
  -- revert it.
  pub frida_gum-Agrees :
      (target replacement : ℕ) (g : GumState L)
      → Agrees g
      → Agrees (frida_gum_hook gum target replacement g).1
        × Agrees (frida_gum_unhook gum target g).1
  frida_gum-Agrees target replacement g h =
      (hook-Agrees target replacement g h, unhook-Agrees target g h)
