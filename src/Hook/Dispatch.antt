-- ===== src/Hook/Dispatch.antt =====
-- loader/src/hook/inline.cpp and loader/src/api/hook.cpp: inline hooks. The libraries behind
-- hook/backend/ are a parameter: `W` is their state with the code that they patch and the word that
-- `original` points to.
pub mod Claims
pub mod Race
use native.Mathlib.Decide.{ℕ_discrete}
use zygisk_next_next.Base.{ℕ, Bool, true, false, not, ◌||◌, List, [], ◌∷◌, ◌==◌, if◌then◌else◌}
use zygisk_next_next.Hook.Engine.{
  Arch, InlineEngine, dobby, shadow_hook, and64_inline_hook, frida_gum, rv64_hook, Engines,
  BackendInits, ensure_inline_engine_ready,
}

-- The functions of hook/backend.h that inline hooks use: `target`, `replacement` and `original`, and
-- whether they hooked.
pub record InlineBackends (W : Type 0) : Type 0 where
  pub dobby_hook : ℕ → ℕ → ℕ → W → Bool × W
  pub dobby_unhook : ℕ → W → Bool × W
  pub shadowhook_hook : ℕ → ℕ → ℕ → W → Bool × W
  pub shadowhook_unhook : ℕ → W → Bool × W
  pub and64inlinehook_hook : ℕ → ℕ → ℕ → W → Bool × W
  pub and64inlinehook_unhook : ℕ → W → Bool × W
  pub frida_gum_hook : ℕ → ℕ → ℕ → W → Bool × W
  pub frida_gum_unhook : ℕ → W → Bool × W
  pub rv64hook_hook : ℕ → ℕ → ℕ → W → Bool × W
  pub rv64hook_unhook : ℕ → W → Bool × W

-- The engines in use, the libraries' state, and `g_hooked` of api/hook.cpp.
pub record HookState (W : Type 0) : Type 0 where
  pub engines : Engines
  pub world : W
  pub hooked : List ℕ

-- ZN_SUCCESS and ZN_FAILED
pub data Status : Type 0 where
  success failed : Status

-- `g_hooked.find(t) != g_hooked.end()`
unfoldable pub contains : ℕ → List ℕ → Bool
contains t [] = false
contains t (x ∷ xs) = t == x || contains t xs

-- `g_hooked.erase(t)`
unfoldable pub erase : ℕ → List ℕ → List ℕ
erase t [] = []
erase t (x ∷ xs) = if t == x then erase t xs else x ∷ erase t xs

module _ {W : Type 0} (backends : InlineBackends W) where
  -- The `switch` of `hook::inlineHook`.
  unfoldable pub engine_hook : InlineEngine → ℕ → ℕ → ℕ → W → Bool × W
  engine_hook dobby = backends.dobby_hook
  engine_hook shadow_hook = backends.shadowhook_hook
  engine_hook and64_inline_hook = backends.and64inlinehook_hook
  engine_hook frida_gum = backends.frida_gum_hook
  engine_hook rv64_hook = backends.rv64hook_hook
  engine_hook InlineEngine.disable = λ target replacement original w. (false, w)

  -- The `switch` of `hook::inlineUnhook`.
  unfoldable pub engine_unhook : InlineEngine → ℕ → W → Bool × W
  engine_unhook dobby = backends.dobby_unhook
  engine_unhook shadow_hook = backends.shadowhook_unhook
  engine_unhook and64_inline_hook = backends.and64inlinehook_unhook
  engine_unhook frida_gum = backends.frida_gum_unhook
  engine_unhook rv64_hook = backends.rv64hook_unhook
  engine_unhook InlineEngine.disable = λ target w. (false, w)

  module _ (arch : Arch) (b : BackendInits) where
    -- `hook::inlineHook`; an address is a number, 0 for a null pointer.
    unfoldable pub hook_inline :
        (target replacement original : ℕ) → HookState W → Bool × HookState W
    hook_inline target replacement original s =
        let g = ensure_inline_engine_ready arch b s.engines in
        let (done, w) = engine_hook g.inline target replacement original s.world in
        if target == 0 || replacement == 0
        then (false, s)
        else (done, record s { engines = g; world = w })

    -- `hook::inlineUnhook`
    unfoldable pub unhook_inline : (target : ℕ) → HookState W → Bool × HookState W
    unhook_inline target s =
        let g = ensure_inline_engine_ready arch b s.engines in
        let (done, w) = engine_unhook g.inline target s.world in
        if target == 0 then (false, s) else (done, record s { engines = g; world = w })

    -- `api::inlineHook`, less the log lines about the target's mapping.
    unfoldable pub inline_hook : (target addr original : ℕ) → HookState W → Status × HookState W
    inline_hook target addr original s =
        let claimed = record s { hooked = target ∷ s.hooked } in
        let (done, s') = hook_inline target addr original claimed in
        if target == 0 || addr == 0
        then (failed, s)
        else if contains target s.hooked
        then (failed, s)
        else if not done
        then (failed, record s' { hooked = erase target s'.hooked })
        else (success, s')

    -- `api::inlineUnhook`
    unfoldable pub inline_unhook : (target : ℕ) → HookState W → Status × HookState W
    inline_unhook target s =
        let (done, s') = unhook_inline target s in
        if target == 0
        then (failed, s)
        else if not (contains target s.hooked)
        then (failed, s)
        else if not done
        then (failed, s')
        else (success, record s' { hooked = erase target s'.hooked })
