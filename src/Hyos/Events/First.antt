-- ===== src/Hyos/Events/First.antt =====
-- loader/src/hyos: the one delivery in the process of an app.
use zygisk_next_next.Base.{
  ℕ, zero, suc, ◌≡◌, ◌≢◌, ◌∙◌, ap, ap₂, refl, true, false, List, [], ◌∷◌, ◌++◌, append-nil, map,
  Bytes, take, All, Option, some, ℤ, pos, is_zero, inl, arith, ◌==◌, ==_refl,
}
use zygisk_next_next.Elf.Maps.{MapEntry}
use zygisk_next_next.Hyos.State.{HyosModule, State, ready}
use zygisk_next_next.Hyos.Modules.{registered, call_of, calls_of-All}
use zygisk_next_next.Hyos.Hooks.{Installer, at_fork_child, at_fork_prepare}
use zygisk_next_next.Hyos.Runtime.{
  AppArgs, text_or, app_args, process_name_of, calls_of, deliver_app_specialized, setcontext_hook,
  setname_hook, fork_hook,
}
use zygisk_next_next.Hyos.Events.{
  Event, prepare, child, setcontext, setname, fork, register, handle, handle_all,
}
use zygisk_next_next.Hyos.Events.Once.{IsSameProcess, handle_all-silent}

-- The event is none that delivers or registers, and stays in the process.
abbrev pub IsQuiet : Event → Type 0
IsQuiet child = ⊥
IsQuiet (setcontext answer t p i) = is_zero answer ≡ false
IsQuiet (fork maps answer) = is_zero answer ≡ false
IsQuiet (register maps m) = ⊥
IsQuiet _ = Unit

take_twice : (n : ℕ) (s : Bytes) → take n (take n s) ≡ take n s
take_twice zero s = refl
take_twice (suc n) [] = refl
take_twice (suc n) (c ∷ s) = ap (λ (t : Bytes). c ∷ t) (take_twice n s)

-- A forked child of `s0` that has the name and has not delivered.
record Waits (s0 : State) (name : Bytes) (s : State) : Type 0 where
  in_child : s.in_child ≡ true
  fired : s.fired ≡ false
  has_name : s.name_state ≡ ready
  captured_name : s.captured_name ≡ take 255 name
  modules : s.modules ≡ s0.modules
  module_count : s.module_count ≡ s0.module_count
  orig_setcontext : s.orig_setcontext ≡ s0.orig_setcontext

setname-Waits :
    (answer : ℤ) (self thread : ℕ) (given : Option Bytes) (s0 : State) (name : Bytes) (s : State)
    → Waits s0 name s
    → (setname_hook answer self thread given s).1 ≡ s
unfolding setname_hook
setname-Waits answer self thread given s0 name s v = ground (arith, v.has_name)

prepare-Waits : (s0 : State) (name : Bytes) (s : State) → Waits s0 name s → at_fork_prepare s ≡ s
unfolding at_fork_prepare
prepare-Waits s0 name s v = ground (arith, v.in_child)

setcontext-fails :
    (answer : ℤ) (thread_name pkg_name se_info : Option Bytes) (s : State)
    → is_zero answer ≡ false
    → let (ret, calls, s') = setcontext_hook answer thread_name pkg_name se_info s in
      (calls ≡ []) × (s' ≡ s)
unfolding setcontext_hook
setcontext-fails answer t p i s h = ground (arith, h)

named-Waits :
    (s : State) (self c : ℕ) (name : Bytes)
    → s.orig_setname ≢ 0
    → Waits s (c ∷ name) (setname_hook (pos 0) self self (some (c ∷ name)) (at_fork_child s)).1
unfolding setname_hook at_fork_child
named-Waits s self c name h =
    let e : (s.orig_setname == 0) ≡ false = ground (arith, h) in
    rw (e, ==_refl self)
      (record {
        in_child = refl;
        fired = refl;
        has_name = refl;
        captured_name = refl;
        modules = refl;
        module_count = refl;
        orig_setcontext = refl;
      })

waiting-name :
    (thread_name : Option Bytes) (s0 : State) (name : Bytes) (s : State)
    → Waits s0 name s
    → process_name_of s thread_name ≡ take 255 name
unfolding process_name_of
waiting-name t s0 name s v = rw (v.has_name, v.captured_name) (take_twice 255 name)

-- What a waiting child tells, for the arguments of its `setcontext`.
abbrev pub args_of : (name : Bytes) → (pkg_name se_info : Option Bytes) → AppArgs
args_of name pkg_name se_info = record {
  process_name = take 255 name;
  package_name = take 255 (text_or pkg_name []);
  se_info = take 63 (text_or se_info []);
}

app_args-Waits :
    (t p i : Option Bytes) (s0 : State) (name : Bytes) (s : State)
    → Waits s0 name s
    → app_args s t p i ≡ args_of name p i
unfolding app_args
app_args-Waits t p i s0 name s v =
    ap
      (λ (n : Bytes). record {
        process_name = n;
        package_name = take 255 (text_or p []);
        se_info = take 63 (text_or i []);
      })
      (waiting-name t s0 name s v)

delivers_of :
    (t p i : Option Bytes) (s0 : State) (name : Bytes) (s : State)
    → s0.orig_setcontext ≢ 0
    → s0.module_count ≢ 0
    → Waits s0 name s
    → let (ret, calls, s') = setcontext_hook (pos 0) t p i s in
      (calls ≡ calls_of (app_args s t p i) (registered s)) × (s'.fired ≡ true)
unfolding setcontext_hook deliver_app_specialized
delivers_of t p i s0 name s hc hm v =
    let in_child = v.in_child in
    let fired = v.fired in
    let module_count = v.module_count in let orig_setcontext = v.orig_setcontext in ground arith

delivery_lem :
    (t p i : Option Bytes) (s0 : State) (name : Bytes) (s : State)
    → s0.orig_setcontext ≢ 0
    → s0.module_count ≢ 0
    → All (λ m. m.on_app_specialized ≢ 0) (registered s0)
    → Waits s0 name s
    → let (ret, calls, s') = setcontext_hook (pos 0) t p i s in
      (calls ≡ map (call_of (args_of name p i)) (registered s0)) × (s'.fired ≡ true)
delivery_lem t p i s0 name s hc hm cbs v =
    let d = delivers_of t p i s0 name s hc hm v in
    let same : registered s ≡ registered s0 =
      ap₂ (λ (n : ℕ) (ms : List HyosModule). take n ms) v.module_count v.modules in
    (
      d.0
          ∙ ap₂ calls_of (app_args-Waits t p i s0 name s v) same
          ∙ calls_of-All (args_of name p i) (registered s0) cbs,
      d.1,
    )

module _ {W : Type 0} (installer : Installer W) where
  fork-Waits :
      (maps : List MapEntry) (answer : ℤ) (s0 : State) (name : Bytes) (s : State) (w : W)
      → is_zero answer ≡ false
      → Waits s0 name s
      → Waits s0 name (fork_hook installer maps answer (s, w)).1
  unfolding fork_hook
  fork-Waits maps answer s0 name s w h v =
      let in_child = v.in_child in
      let fired = v.fired in
      let has_name = v.has_name in
      let captured_name = v.captured_name in
      let modules = v.modules in
      let module_count = v.module_count in
      let orig_setcontext = v.orig_setcontext in ground (arith, h)

  quiet-Waits :
      (e : Event) (s0 : State) (name : Bytes) (s : State) (w : W)
      → IsQuiet e
      → Waits s0 name s
      → let (calls, s', w') = handle installer e (s, w) in (calls ≡ []) × Waits s0 name s'
  unfolding handle
  quiet-Waits prepare s0 name s w h v = (refl, rw (prepare-Waits s0 name s v) v)
  quiet-Waits child s0 name s w h v = absurd h
  quiet-Waits (setcontext answer t p i) s0 name s w h v =
      let e = setcontext-fails answer t p i s h in (e.0, rw e.1 v)
  quiet-Waits (setname answer self thread given) s0 name s w h v =
      (refl, rw (setname-Waits answer self thread given s0 name s v) v)
  quiet-Waits (fork maps answer) s0 name s w h v = (refl, fork-Waits maps answer s0 name s w h v)
  quiet-Waits (register maps m) s0 name s w h v = absurd h

  waiting_lem :
      (es later : List Event) (t p i : Option Bytes) (s0 : State) (name : Bytes) (s : State) (w : W)
      → s0.orig_setcontext ≢ 0
      → s0.module_count ≢ 0
      → All (λ m. m.on_app_specialized ≢ 0) (registered s0)
      → All IsQuiet es
      → All IsSameProcess later
      → Waits s0 name s
      → handle_all installer (es ++ setcontext (pos 0) t p i ∷ later) (s, w)
        ≡ map (call_of (args_of name p i)) (registered s0)
  unfolding handle_all handle
  waiting_lem [] later t p i s0 name s w hc hm cbs quiet after v =
      let d = delivery_lem t p i s0 name s hc hm cbs v in
      rw
        (
          d.0,
          handle_all-silent installer later (setcontext_hook (pos 0) t p i s).2 w after (inl d.1),
          append-nil,
        )
        refl
  waiting_lem (e ∷ es) later t p i s0 name s w hc hm cbs quiet after v =
      let (calls, s', w') = handle installer e (s, w) in
      let q = quiet-Waits e s0 name s w quiet.0 v in
      rw q.0 (waiting_lem es later t p i s0 name s' w' hc hm cbs quiet.1 after q.1)

  -- In a child of a fork whose thread first gives itself a name, the first `setcontext` that succeeds calls
  -- the callback of every registered module, in order, with that name, cut at 255 bytes, whatever names
  -- are given, contexts fail and forks happen before it; and nothing later in this process calls one
  -- again. Beforehand the originals of `setcontext` and of the naming are stored, and at least one module
  -- is registered, each with a callback.
  pub handle_all-first :
      (s : State) (w : W) (self c : ℕ) (name : Bytes) (es later : List Event)
      (thread_name pkg_name se_info : Option Bytes)
      → s.orig_setname ≢ 0
      → s.orig_setcontext ≢ 0
      → s.module_count ≢ 0
      → All (λ m. m.on_app_specialized ≢ 0) (registered s)
      → All IsQuiet es
      → All IsSameProcess later
      → handle_all installer
          (child ∷ setname (pos 0) self self (some (c ∷ name)) ∷ es
            ++ setcontext (pos 0) thread_name pkg_name se_info ∷ later)
          (s, w)
        ≡ map (call_of (args_of (c ∷ name) pkg_name se_info)) (registered s)
  unfolding handle_all handle
  handle_all-first s w self c name es later t p i hn hc hm cbs quiet after =
      let named = (setname_hook (pos 0) self self (some (c ∷ name)) (at_fork_child s)).1 in
      waiting_lem es later t p i s (c ∷ name) named w hc hm cbs quiet after
        (named-Waits s self c name hn)
