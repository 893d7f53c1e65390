-- ===== src/Hyos/Events/Once.antt =====
-- loader/src/hyos: how often apps' callbacks are called.
use zygisk_next_next.Base.{
  ℕ, ◌≡◌, ◌∙◌, ap, refl, true, false, List, [], ◌∷◌, ◌++◌, append-nil, map, filter, Bytes, take,
  All, Option, none, some, ℤ, is_zero, inl, inr, ◌⊎◌, arith,
}
use zygisk_next_next.Elf.Maps.{MapEntry}
use zygisk_next_next.Hyos.State.{HyosModule, State}
use zygisk_next_next.Hyos.Hooks.{Installer, at_fork_prepare}
use zygisk_next_next.Hyos.Modules.{registered, has_callback, call_of, calls_of_lem}
use zygisk_next_next.Hyos.Hooks.Kept.{install_hooks-Kept}
use zygisk_next_next.Hyos.Runtime.{
  Call, add_module, app_args, calls_of, deliver_app_specialized, setcontext_hook, setname_hook,
  register_module, fork_hook,
}
use zygisk_next_next.Hyos.Events.{
  Event, prepare, child, setcontext, setname, fork, register, handle, handle_all,
}

-- The event does not stand for a new process.
abbrev pub IsSameProcess : Event → Type 0
IsSameProcess child = ⊥
IsSameProcess (fork maps answer) = is_zero answer ≡ false
IsSameProcess _ = Unit

-- No callback will be called any more in this process.
abbrev pub IsSilent : State → Type 0
IsSilent s = (s.fired ≡ true) ⊎ (s.in_child ≡ false)

add_module-flags :
    (m : HyosModule) (s : State)
    → ((add_module m s).fired ≡ s.fired) × ((add_module m s).in_child ≡ s.in_child)
unfolding add_module
add_module-flags m s = ground arith

setname-flags :
    (answer : ℤ) (self thread : ℕ) (name : Option Bytes) (s : State)
    → let (ret, s') = setname_hook answer self thread name s in
      (s'.fired ≡ s.fired) × (s'.in_child ≡ s.in_child)
unfolding setname_hook
setname-flags answer self thread name s = ground arith

prepare-flags :
    (s : State)
    → ((at_fork_prepare s).fired ≡ s.fired) × ((at_fork_prepare s).in_child ≡ s.in_child)
unfolding at_fork_prepare
prepare-flags s = ground arith

-- The process's name and the arguments as `deliverAppSpecialized` takes them, once.
deliver_cases :
    (thread_name pkg_name se_info : Option Bytes) (s : State)
    → let (calls, s') = deliver_app_specialized thread_name pkg_name se_info s in
      (calls ≡ []) × (s' ≡ s)
      ⊎ (s.fired ≡ false)
        × (s.in_child ≡ true)
        × (s'.fired ≡ true)
        × (calls
            ≡ calls_of (app_args s thread_name pkg_name se_info) (take s.module_count s.modules))
unfolding deliver_app_specialized
deliver_cases thread_name pkg_name se_info s = ground arith

-- The event is a `setcontext` that succeeds in a forked child `s` that has not delivered, and `calls` has
-- one call for each registered module with a callback, in their order, all with the same arguments.
pub record Delivery (e : Event) (s : State) (calls : List Call) : Type 0 where
  pub answer : ℤ
  pub thread_name : Option Bytes
  pub pkg_name : Option Bytes
  pub se_info : Option Bytes
  pub is_setcontext : e ≡ setcontext answer thread_name pkg_name se_info
  pub succeeded : is_zero answer ≡ true
  pub was_child : s.in_child ≡ true
  pub was_pending : s.fired ≡ false
  pub all_called :
      calls
      ≡ map (call_of (app_args s thread_name pkg_name se_info)) (filter has_callback (registered s))

module _ {W : Type 0} (installer : Installer W) where
  register-flags :
      (maps : List MapEntry) (m : Option HyosModule) (s : State) (w : W)
      → let (status, s', w') = register_module installer maps m (s, w) in
        (s'.fired ≡ s.fired) × (s'.in_child ≡ s.in_child)
  unfolding register_module
  register-flags maps none s w = (refl, refl)
  register-flags maps (some m) s w =
      let a = add_module-flags m s in
      let k = install_hooks-Kept installer maps (add_module m s) w in
      let fired = k.fired in let in_child = k.in_child in ground (arith, fired, in_child, a)

  fork-flags :
      (maps : List MapEntry) (answer : ℤ) (s : State) (w : W)
      → is_zero answer ≡ false
      → let (res, s', w') = fork_hook installer maps answer (s, w) in
        (s'.fired ≡ s.fired) × (s'.in_child ≡ s.in_child)
  unfolding fork_hook
  fork-flags maps answer s w h =
      let k = install_hooks-Kept installer maps (record s { reinstall = false }) w in
      let fired = k.fired in let in_child = k.in_child in ground (arith, fired, in_child)

  setcontext_cases :
      (answer : ℤ) (thread_name pkg_name se_info : Option Bytes) (s : State)
      → let (ret, calls, s') = setcontext_hook answer thread_name pkg_name se_info s in
        (calls ≡ []) × (s' ≡ s)
        ⊎ (is_zero answer ≡ true)
          × (s.fired ≡ false)
          × (s.in_child ≡ true)
          × (s'.fired ≡ true)
          × (calls
              ≡ calls_of (app_args s thread_name pkg_name se_info) (take s.module_count s.modules))
  unfolding setcontext_hook
  setcontext_cases answer thread_name pkg_name se_info s =
      ground (arith, deliver_cases thread_name pkg_name se_info s)

  -- The state after a sequence of events.
  abbrev pub after_all : List Event → State × W → State × W
  after_all [] sw = sw
  after_all (e ∷ es) sw = let (calls, s', w') = handle installer e sw in after_all es (s', w')

  -- The callbacks of one delivery among the events: of the modules that the earlier events left.
  pub record Delivered (es : List Event) (s : State) (w : W) (calls : List Call) : Type 0 where
    pub earlier : List Event
    pub event : Event
    pub later : List Event
    pub happened : es ≡ earlier ++ event ∷ later
    pub delivery : Delivery event (after_all earlier (s, w)).0 calls

  handle_cases :
      (e : Event) (s : State) (w : W)
      → IsSameProcess e
      → let (calls, s', w') = handle installer e (s, w) in
        (calls ≡ []) × (s'.fired ≡ s.fired) × (s'.in_child ≡ s.in_child)
        ⊎ (s.fired ≡ false) × (s.in_child ≡ true) × (s'.fired ≡ true) × Delivery e s calls
  unfolding handle
  handle_cases prepare s w h = inl (refl, (prepare-flags s).0, (prepare-flags s).1)
  handle_cases child s w h = absurd h
  handle_cases (setcontext answer t p i) s w h = elim (setcontext_cases answer t p i s) [
    | inl quiet ↦
        inl (quiet.0, ap (λ (s : State). s.fired) quiet.1, ap (λ (s : State). s.in_child) quiet.1)
    | inr (zero, pending, in_child, fired, calls) ↦ inr (
      pending,
      in_child,
      fired,
      record {
        answer = answer;
        thread_name = t;
        pkg_name = p;
        se_info = i;
        is_setcontext = refl;
        succeeded = zero;
        was_child = in_child;
        was_pending = pending;
        all_called = calls ∙ calls_of_lem (app_args s t p i) (registered s);
      },
    )
  ]
  handle_cases (setname answer self thread name) s w h =
      let f = setname-flags answer self thread name s in inl (refl, f.0, f.1)
  handle_cases (fork maps answer) s w h =
      let f = fork-flags maps answer s w h in inl (refl, f.0, f.1)
  handle_cases (register maps m) s w h = let f = register-flags maps m s w in inl (refl, f.0, f.1)

  -- A process that is no child of a fork, or has delivered, calls no callback again.
  pub handle_all-silent :
      (es : List Event) (s : State) (w : W)
      → All IsSameProcess es
      → IsSilent s
      → handle_all installer es (s, w) ≡ []
  unfolding handle_all
  handle_all-silent [] s w h silent = refl
  handle_all-silent (e ∷ es) s w h silent =
      let (calls, s', w') = handle installer e (s, w) in
      elim (handle_cases e s w h.0) [
        | inl (quiet, fired, in_child) ↦
            let silent' : IsSilent s' = elim silent [
              | inl f ↦ inl (fired ∙ f)
              | inr c ↦ inr (in_child ∙ c)
            ] in
            rw quiet (handle_all-silent es s' w' h.1 silent')
        | inr (pending, in_child, fired, d) ↦
            absurd (elim silent [ inl f ↦ cc (f, pending) | inr c ↦ cc (c, in_child) ])
      ]

  Delivered-later :
      (e : Event) (es : List Event) (s : State) (w : W) (calls : List Call)
      → let (quiet, s', w') = handle installer e (s, w) in
        Delivered es s' w' calls → Delivered (e ∷ es) s w calls
  Delivered-later e es s w calls d = record {
    earlier = e ∷ d.earlier;
    event = d.event;
    later = d.later;
    happened = ap (λ (l : List Event). e ∷ l) d.happened;
    delivery = d.delivery;
  }

  -- Whatever happens in one process, how it interleaves and how the functions that hook answer, the
  -- callbacks are called at most once: not at all, or by one of its events, a `setcontext` that succeeds
  -- in a forked child that has not delivered; then there is one call for each module with a callback that
  -- is registered after the events before it, in their order, all with the same arguments.
  pub handle_all-once :
      (es : List Event) (s : State) (w : W)
      → All IsSameProcess es
      → let calls = handle_all installer es (s, w) in (calls ≡ []) ⊎ Delivered es s w calls
  unfolding handle_all
  handle_all-once [] s w h = inl refl
  handle_all-once (e ∷ es) s w h =
      let (calls, s', w') = handle installer e (s, w) in
      elim (handle_cases e s w h.0) [
        | inl (quiet, fired, in_child) ↦ rw quiet (elim (handle_all-once es s' w' h.1) [
          | inl none_called ↦ inl none_called
          | inr d ↦ inr (Delivered-later e es s w (handle_all installer es (s', w')) d)
        ])
        | inr (pending, in_child, fired, d) ↦
            let rest : handle_all installer es (s', w') ≡ [] =
              handle_all-silent es s' w' h.1 (inl fired) in
            rw (rest, append-nil)
              (inr (record { earlier = []; event = e; later = es; happened = refl; delivery = d }))
      ]
