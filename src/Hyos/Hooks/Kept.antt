-- ===== src/Hyos/Hooks/Kept.antt =====
-- loader/src/hyos/hooks.cpp: what `installHooks` leaves alone.
use zygisk_next_next.Base.{
  ℕ, ◌≢◌, ◌==◌, Bool-cases, ◌≡◌, ◌∙◌, ap, sym, refl, ◌⊎◌, List, inl, inr, arith,
}
use zygisk_next_next.Elf.Maps.{MapEntry}
use zygisk_next_next.Hyos.State.{SpawnerImage, State}
use zygisk_next_next.Hyos.Hooks.{
  Installer, find_spawner_image, install_fork, install_setcontext, inline_setcontext,
  inline_setname, warn, install_hooks,
}

-- From `s` to `t` no stored original and no known spawner is replaced, and what the delivery to apps
-- depends on is unchanged.
pub record Kept (s t : State) : Type 0 where
  pub fork : (s.orig_fork ≡ 0) ⊎ (t.orig_fork ≡ s.orig_fork)
  pub setcontext : (s.orig_setcontext ≡ 0) ⊎ (t.orig_setcontext ≡ s.orig_setcontext)
  pub setname : (s.orig_setname ≡ 0) ⊎ (t.orig_setname ≡ s.orig_setname)
  pub spawner : (s.spawner.inode ≡ 0) ⊎ (t.spawner ≡ s.spawner)
  pub modules : t.modules ≡ s.modules
  pub module_count : t.module_count ≡ s.module_count
  pub in_child : t.in_child ≡ s.in_child
  pub fired : t.fired ≡ s.fired
  pub captured_name : t.captured_name ≡ s.captured_name
  pub name_state : t.name_state ≡ s.name_state

Kept-refl : (s : State) → Kept s s
Kept-refl s = record {
  fork = inr refl;
  setcontext = inr refl;
  setname = inr refl;
  spawner = inr refl;
  modules = refl;
  module_count = refl;
  in_child = refl;
  fired = refl;
  captured_name = refl;
  name_state = refl;
}

Kept-trans : (s t u : State) → Kept s t → Kept t u → Kept s u
Kept-trans s t u a b = record {
  fork = ground (arith, a.fork, b.fork);
  setcontext = ground (arith, a.setcontext, b.setcontext);
  setname = ground (arith, a.setname, b.setname);
  spawner = elim a.spawner [
    | inl z ↦ inl z
    | inr e ↦ elim b.spawner [
      | inl z ↦ inl (ap (λ (i : SpawnerImage). i.inode) (sym e) ∙ z)
      | inr e' ↦ inr (e' ∙ e)
    ]
  ];
  modules = b.modules ∙ a.modules;
  module_count = b.module_count ∙ a.module_count;
  in_child = b.in_child ∙ a.in_child;
  fired = b.fired ∙ a.fired;
  captured_name = b.captured_name ∙ a.captured_name;
  name_state = b.name_state ∙ a.name_state;
}

find-Kept : (maps : List MapEntry) (s : State) → Kept s (find_spawner_image maps s)
unfolding find_spawner_image
find-Kept maps s = ground (arith, Kept-refl s)

warn-Kept : (s : State) → Kept s (warn s)
unfolding warn
warn-Kept s = ground (arith, Kept-refl s)

stays : {a b : ℕ} → a ≢ 0 → (a ≡ 0) ⊎ (b ≡ a) → b ≢ 0
stays h (inl z) e = h z
stays h (inr same) e = h (sym same ∙ e)

module _ {W : Type 0} (installer : Installer W) where
  install_fork-Kept : (s : State) (w : W) → Kept s (install_fork installer (s, w)).0
  unfolding install_fork
  install_fork-Kept s w = ground (arith, Kept-refl s)

  inline_setcontext-Kept : (s : State) (w : W) → Kept s (inline_setcontext installer (s, w)).0
  unfolding inline_setcontext
  inline_setcontext-Kept s w = ground (arith, Kept-refl s)

  inline_setname-Kept : (s : State) (w : W) → Kept s (inline_setname installer (s, w)).0
  unfolding inline_setname
  inline_setname-Kept s w = ground (arith, Kept-refl s)

  install_setcontext-Kept : (s : State) (w : W) → Kept s (install_setcontext installer (s, w)).0
  unfolding install_setcontext
  install_setcontext-Kept s w = ground (arith, Kept-refl s)

  pub install_hooks-Kept :
      (maps : List MapEntry) (s : State) (w : W) → Kept s (install_hooks installer maps (s, w)).0
  unfolding install_hooks
  install_hooks-Kept maps s w =
      let s1 = find_spawner_image maps s in
      let (s2, w2) = install_fork installer (s1, w) in
      let (s3, w3) = install_setcontext installer (s2, w2) in
      let (s4, w4) = inline_setcontext installer (s3, w3) in
      let (s5, w5) = inline_setname installer (s4, w4) in
      Kept-trans s s1 (warn s5) (find-Kept maps s) (
        Kept-trans s1 s2 (warn s5) (install_fork-Kept s1 w) (
          Kept-trans s2 s3 (warn s5) (install_setcontext-Kept s2 w2) (
            Kept-trans s3 s4 (warn s5) (inline_setcontext-Kept s3 w3)
              (Kept-trans s4 s5 (warn s5) (inline_setname-Kept s4 w4) (warn-Kept s5)))))

  install_fork-silent :
      (s : State) (w : W) → s.orig_fork ≢ 0 → (install_fork installer (s, w)).1 ≡ w
  unfolding install_fork
  install_fork-silent s w h = ground (arith, h)

  install_setcontext-silent :
      (s : State) (w : W) → s.orig_setcontext ≢ 0 → (install_setcontext installer (s, w)).1 ≡ w
  unfolding install_setcontext
  install_setcontext-silent s w h = ground (arith, h)

  inline_setcontext-silent :
      (s : State) (w : W) → s.orig_setcontext ≢ 0 → (inline_setcontext installer (s, w)).1 ≡ w
  unfolding inline_setcontext
  inline_setcontext-silent s w h = ground (arith, h)

  inline_setname-silent :
      (s : State) (w : W) → s.orig_setname ≢ 0 → (inline_setname installer (s, w)).1 ≡ w
  unfolding inline_setname
  inline_setname-silent s w h = ground (arith, h)

  -- With all three originals stored, no function that hooks or looks a symbol up is called.
  install_hooks-silent :
      (maps : List MapEntry) (s : State) (w : W)
      → s.orig_fork ≢ 0
      → s.orig_setcontext ≢ 0
      → s.orig_setname ≢ 0
      → (install_hooks installer maps (s, w)).1 ≡ w
  unfolding install_hooks
  install_hooks-silent maps s w hf hc hn =
      let s1 = find_spawner_image maps s in
      let (s2, w2) = install_fork installer (s1, w) in
      let (s3, w3) = install_setcontext installer (s2, w2) in
      let (s4, w4) = inline_setcontext installer (s3, w3) in
      let k1 = find-Kept maps s in
      let k2 = Kept-trans s s1 s2 k1 (install_fork-Kept s1 w) in
      let k3 = Kept-trans s s2 s3 k2 (install_setcontext-Kept s2 w2) in
      let k4 = Kept-trans s s3 s4 k3 (inline_setcontext-Kept s3 w3) in
      inline_setname-silent s4 w4 (stays hn k4.setname)
      ∙ inline_setcontext-silent s3 w3 (stays hc k3.setcontext)
      ∙ install_setcontext-silent s2 w2 (stays hc k2.setcontext)
      ∙ install_fork-silent s1 w (stays hf k1.fork)

  -- What `installHooks` does from `s` and `w` to `r`.
  pub record Installed (s : State) (w : W) (r : State × W) : Type 0 where
    pub kept : Kept s r.0
    pub silent : (s.orig_fork ≡ 0) ⊎ (s.orig_setcontext ≡ 0) ⊎ (s.orig_setname ≡ 0) ⊎ (r.1 ≡ w)

  -- However the functions that hook answer, `installHooks` replaces no original that is stored and no
  -- spawner that was found, and changes neither the modules nor the child's flags nor the captured name;
  -- and unless an original is missing it calls none of those functions.
  pub install_hooks-Installed :
      (maps : List MapEntry) (s : State) (w : W)
      → Installed s w (install_hooks installer maps (s, w))
  install_hooks-Installed maps s w = record {
    kept = install_hooks-Kept maps s w;
    silent = elim (Bool-cases (s.orig_fork == 0)) [
      | inl f ↦ inl (ground (arith, f))
      | inr f ↦ elim (Bool-cases (s.orig_setcontext == 0)) [
        | inl c ↦ inr (inl (ground (arith, c)))
        | inr c ↦ elim (Bool-cases (s.orig_setname == 0)) [
          | inl n ↦ inr (inr (inl (ground (arith, n))))
          | inr n ↦ inr (
              inr (
                inr (
                  install_hooks-silent maps s w (λ e. ground (arith, e, f))
                    (λ e. ground (arith, e, c)) (λ e. ground (arith, e, n)))))
        ]
      ]
    ];
  }
