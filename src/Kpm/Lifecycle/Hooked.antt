-- ===== src/Kpm/Lifecycle/Hooked.antt =====
-- kpm/src/znn.c: the module's flags against the hooks that are really installed.
use zygisk_next_next.Base.{
  ◌≡◌, ◌≢◌, ◌∙◌, refl, Bool, true, false, ℤ, pos, is_zero, arith, Bool-cases, inl, inr, ◌⊎◌,
}
use zygisk_next_next.Kpm.Ring.{Znn}
use zygisk_next_next.Kpm.Lifecycle.{
  Syscall, execve, execveat, prctl, KernelPatch, Lookups, fresh, unhook_channel, unhook_execveat,
  unhook_execve, unhook_all, resolve, hook_channel, init, exit,
}

-- What KernelPatch promises of its hooks: a call that returns 0 installs its hook, one that fails
-- changes nothing, and removing a hook removes that one.
pub record Promises {W : Type 0} (p : KernelPatch W) (installed : Syscall → W → Bool) : Type 0 where
  pub hook_ok :
      (c : Syscall) (w : W) → is_zero (p.hook c w).0 ≡ true → installed c (p.hook c w).1 ≡ true
  pub hook_failed :
      (c d : Syscall) (w : W)
      → is_zero (p.hook c w).0 ≡ false
      → installed d (p.hook c w).1 ≡ installed d w
  pub hook_other : (c d : Syscall) (w : W) → c ≢ d → installed d (p.hook c w).1 ≡ installed d w
  pub unhook_self : (c : Syscall) (w : W) → installed c (p.unhook c w) ≡ false
  pub unhook_other : (c d : Syscall) (w : W) → c ≢ d → installed d (p.unhook c w) ≡ installed d w

module _ {W : Type 0} (p : KernelPatch W) (installed : Syscall → W → Bool) where
  -- The three flags say which hooks are installed.
  pub record Matches (s : Znn) (w : W) : Type 0 where
    pub on_execve : installed execve w ≡ s.execve_hooked
    pub on_execveat : installed execveat w ≡ s.execveat_hooked
    pub on_channel : installed prctl w ≡ s.channel_hooked

  pub record Unhooked (w : W) : Type 0 where
    pub no_execve : installed execve w ≡ false
    pub no_execveat : installed execveat w ≡ false
    pub no_channel : installed prctl w ≡ false

  -- The statement of `init-Matches`, where `w` is KernelPatch's state before: what the three calls that
  -- install a hook answer, each after the calls before it, decides the result.
  pub record Started (w : W) (r : ℤ × Znn × W) : Type 0 where
    pub matched : Matches r.1 r.2
    pub outcome :
        let on_execve = p.hook execve w in
        let on_execveat = p.hook execveat on_execve.1 in
        let on_prctl = p.hook prctl on_execveat.1 in
        (is_zero on_execve.0 ≡ false) × (r.0 ≡ on_execve.0) × Unhooked r.2
        ⊎ (is_zero on_execve.0 ≡ true)
          × (is_zero on_execveat.0 ≡ false)
          × (r.0 ≡ on_execveat.0)
          × Unhooked r.2
        ⊎ (is_zero on_execve.0 ≡ true)
          × (is_zero on_execveat.0 ≡ true)
          × (r.0 ≡ pos 0)
          × (installed execve r.2 ≡ true)
          × (installed execveat r.2 ≡ true)
          × (installed prctl r.2 ≡ is_zero on_prctl.0)

  module _ (ok : Promises p installed) where
    unhook_channel-Matches :
        (s : Znn) (w : W)
        → Matches s w
        → let (s', w') = unhook_channel p (s, w) in Matches s' w' × (s'.channel_hooked ≡ false)
    unfolding unhook_channel
    unhook_channel-Matches s w v = grind (arith, ok.unhook_self, ok.unhook_other)

    unhook_execveat-Matches :
        (s : Znn) (w : W)
        → Matches s w
        → let (s', w') = unhook_execveat p (s, w) in
          Matches s' w' × (s'.execveat_hooked ≡ false) × (s'.channel_hooked ≡ s.channel_hooked)
    unfolding unhook_execveat
    unhook_execveat-Matches s w v = grind (arith, ok.unhook_self, ok.unhook_other)

    unhook_execve-Matches :
        (s : Znn) (w : W)
        → Matches s w
        → let (s', w') = unhook_execve p (s, w) in
          Matches s' w'
          × (s'.execve_hooked ≡ false)
          × (s'.channel_hooked ≡ s.channel_hooked)
          × (s'.execveat_hooked ≡ s.execveat_hooked)
    unfolding unhook_execve
    unhook_execve-Matches s w v = grind (arith, ok.unhook_self, ok.unhook_other)

    unhook_all-Unhooked :
        (s : Znn) (w : W)
        → Matches s w
        → let (s', w') = unhook_all p (s, w) in Matches s' w' × Unhooked w'
    unfolding unhook_all
    unhook_all-Unhooked s w v =
        let a = unhook_channel-Matches s w v in
        let sw1 = unhook_channel p (s, w) in
        let b = unhook_execveat-Matches sw1.0 sw1.1 a.0 in
        let sw2 = unhook_execveat p sw1 in
        let c = unhook_execve-Matches sw2.0 sw2.1 b.0 in ground (arith, a, b, c)

    -- However the module was loaded, `znn_exit` leaves none of its hooks installed, and returns 0.
    pub exit-Unhooked :
        (s : Znn) (w : W)
        → Matches s w
        → let (error, s', w') = exit p s w in (error ≡ pos 0) × Matches s' w' × Unhooked w'
    unfolding exit
    exit-Unhooked s w v = (refl, (unhook_all-Unhooked s w v).0, (unhook_all-Unhooked s w v).1)

    resolve-flags :
        (l : Lookups) (s : Znn)
        → let s' = resolve p l s in
          (s'.execve_hooked ≡ s.execve_hooked)
          × (s'.execveat_hooked ≡ s.execveat_hooked)
          × (s'.channel_hooked ≡ s.channel_hooked)
          × (s'.ring_written ≡ s.ring_written)
    unfolding resolve
    resolve-flags l s = ground arith

    hook_channel-Matches :
        (s : Znn) (w : W)
        → Matches s w
        → s.channel_hooked ≡ false
        → let (s', w') = hook_channel p (s, w) in
          Matches s' w'
          × (s'.execve_hooked ≡ s.execve_hooked)
          × (s'.execveat_hooked ≡ s.execveat_hooked)
          × (s'.channel_hooked ≡ is_zero (p.hook prctl w).0)
    unfolding hook_channel
    hook_channel-Matches s w v off = grind (arith, ok.hook_ok, ok.hook_failed, ok.hook_other)

    -- After one successful hook the flag may be set.
    execve-Matches :
        (s : Znn) (w : W)
        → Matches s w
        → is_zero (p.hook execve w).0 ≡ true
        → Matches (record s { execve_hooked = true }) (p.hook execve w).1
    execve-Matches s w v e = grind (arith, ok.hook_ok, ok.hook_other)

    execveat-Matches :
        (s : Znn) (w : W)
        → Matches s w
        → is_zero (p.hook execveat w).0 ≡ true
        → Matches (record s { execveat_hooked = true }) (p.hook execveat w).1
    execveat-Matches s w v e = grind (arith, ok.hook_ok, ok.hook_other)

    failed-Matches :
        (c : Syscall) (s : Znn) (w : W)
        → Matches s w
        → is_zero (p.hook c w).0 ≡ false
        → Matches s (p.hook c w).1
    failed-Matches c s w v e = record {
      on_execve = grind (arith, ok.hook_failed);
      on_execveat = grind (arith, ok.hook_failed);
      on_channel = grind (arith, ok.hook_failed);
    }

    resolve-Matches : (l : Lookups) (s : Znn) (w : W) → Matches s w → Matches (resolve p l s) w
    resolve-Matches l s w v = ground (arith, resolve-flags l s)

    init-Started :
        (l : Lookups) (s0 : Znn) (w : W)
        → Matches s0 w
        → s0.channel_hooked ≡ false
        → Started w (init p l s0 w)
    unfolding init
    init-Started l s0 w v off = elim (Bool-cases (is_zero (p.hook execve w).0)) [
      | inr e ↦
          let u = unhook_all-Unhooked s w1 (failed-Matches execve s w start e) in
          rw e (record { matched = u.0; outcome = inl (e, refl, u.1) })
      | inl e ↦ elim (Bool-cases (is_zero (p.hook execveat w1).0)) [
        | inr e' ↦
            let u =
              unhook_all-Unhooked s1 w2
                (failed-Matches execveat s1 w1 (execve-Matches s w start e) e') in
            rw (e, e') (record { matched = u.0; outcome = inr (inl (e, e', refl, u.1)) })
        | inl e' ↦
            let both = execveat-Matches s1 w1 (execve-Matches s w start e) e' in
            let c = hook_channel-Matches s2 w2 both ((resolve-flags l s0).2 ∙ off) in
            rw (e, e')
              (record {
                matched = c.0;
                outcome = inr (
                    inr (
                      e,
                      e',
                      refl,
                      c.0.on_execve ∙ c.1,
                      c.0.on_execveat ∙ c.2,
                      c.0.on_channel ∙ c.3,
                    ));
              })
      ]
    ]
      where
        s : Znn
        s = resolve p l s0

        w1 : W
        w1 = (p.hook execve w).1

        s1 : Znn
        s1 = record s { execve_hooked = true }

        w2 : W
        w2 = (p.hook execveat w1).1

        s2 : Znn
        s2 = record s1 { execveat_hooked = true }

        start : Matches s w
        start = resolve-Matches l s0 w v

    -- `znn_init` with no hook installed keeps flags and hooks together, as KernelPatch keeps its promises.
    -- It returns the error of the first of the two exec hooks that fails, with no hook left; if both
    -- succeed it returns 0 with both installed, and the channel's hook too unless that fails.
    pub init-Matches : (l : Lookups) (w : W) → Unhooked w → Started w (init p l fresh w)
    init-Matches l w none_yet =
        init-Started l fresh w (unfold fresh in ground arith) (unfold fresh in refl)
