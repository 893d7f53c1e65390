-- ===== src/Hook/Backend/Inline.antt =====
-- loader/src/hook/backend: dobby.cpp, rv64hook.cpp, frida-gum.cpp and shadowhook.cpp, on the processors
-- that have them. The hooking libraries are parameters.
pub mod Agrees
use zygisk_next_next.Base.{
  ℕ, Bool, true, false, not, List, [], ◌∷◌, ◌==◌, if◌then◌else◌, Option, none, some,
}
use zygisk_next_next.Hook.Dispatch.{contains, erase}

-- `DobbyHook` and `DobbyDestroy`, or `rv64hook::InlineHook` and `InlineUnhook` with the memory writable:
-- what is stored in `*original`, none for an error, and whether it succeeds.
pub record Plain (L : Type 0) : Type 0 where
  pub hook : (target replacement : ℕ) → L → Option ℕ × L
  pub unhook : (target : ℕ) → L → Bool × L

module _ {L : Type 0} (lib : Plain L) where
  unfoldable pub dobby_hook : (target replacement : ℕ) → L → Option ℕ × L
  dobby_hook target replacement l = lib.hook target replacement l

  unfoldable pub dobby_unhook : (target : ℕ) → L → Bool × L
  dobby_unhook target l = lib.unhook target l

  unfoldable pub rv64hook_hook : (target replacement : ℕ) → L → Option ℕ × L
  rv64hook_hook target replacement l = lib.hook target replacement l

  unfoldable pub rv64hook_unhook : (target : ℕ) → L → Bool × L
  rv64hook_unhook target l = lib.unhook target l

-- `gum_interceptor_obtain` behind `gum_init_embedded`, 0 for a null pointer; `gum_interceptor_replace`,
-- which answers none but for GUM_REPLACE_OK, and then what it stores in `*original`; and
-- `gum_interceptor_revert`.
pub record Gum (L : Type 0) : Type 0 where
  pub obtain : L → ℕ × L
  pub replace : (interceptor target replacement : ℕ) → L → Option ℕ × L
  pub revert : (interceptor target : ℕ) → L → L

-- The library, `g_init_once` with `g_interceptor`, and `g_hooked` of frida-gum.cpp
pub record GumState (L : Type 0) : Type 0 where
  pub lib : L
  pub interceptor : Option ℕ
  pub hooked : List ℕ

module _ {L : Type 0} (gum : Gum L) where
  -- `fridaGumInit`: the interceptor, 0 for false.
  unfoldable pub frida_gum_init : GumState L → ℕ × GumState L
  frida_gum_init g = elim g.interceptor [
    | some i ↦ (i, g)
    | none ↦ let (i, l) = gum.obtain g.lib in (i, record g { lib = l; interceptor = some i })
  ]

  -- `fridaGumHook` behind `gum_interceptor_replace`
  unfoldable pub replaced : (target : ℕ) → Option ℕ → GumState L → Option ℕ × GumState L
  replaced target none g = (none, record g { hooked = erase target g.hooked })
  replaced target (some original) g = (some original, g)

  -- `fridaGumHook`: what `*original` is given on success, none for false.
  unfoldable pub frida_gum_hook : (target replacement : ℕ) → GumState L → Option ℕ × GumState L
  frida_gum_hook target replacement g =
      let (i, g') = frida_gum_init g in
      let (original, l) = gum.replace i target replacement g'.lib in
      if i == 0
      then (none, g')
      else if contains target g'.hooked
      then (none, g')
      else replaced target original (record g' { lib = l; hooked = target ∷ g'.hooked })

  -- `fridaGumUnhook`
  unfoldable pub frida_gum_unhook : (target : ℕ) → GumState L → Bool × GumState L
  frida_gum_unhook target g =
      let (i, g') = frida_gum_init g in
      if i == 0
      then (false, g')
      else if not (contains target g'.hooked)
      then (false, g')
      else (true, record g' { lib = gum.revert i target g'.lib; hooked = erase target g'.hooked })

-- `shadowhook_init`, whether it returns 0; `shadowhook_hook_func_addr`, the stub, 0 for a null pointer, and
-- what is stored in `*original`; `shadowhook_unhook`, whether it returns 0.
pub record ShadowHook (L : Type 0) : Type 0 where
  pub init : L → Bool × L
  pub hook_func_addr : (target replacement : ℕ) → L → ℕ × ℕ × L
  pub unhook : (stub : ℕ) → L → Bool × L

-- The library, `g_init_once` with `g_init_result`, and `g_stubs` of shadowhook.cpp
pub record ShadowState (L : Type 0) : Type 0 where
  pub lib : L
  pub started : Option Bool
  pub stubs : ℕ → Option ℕ

unfoldable pub put_stub : (target stub : ℕ) → (ℕ → Option ℕ) → ℕ → Option ℕ
put_stub target stub stubs k = if k == target then some stub else stubs k

unfoldable pub remove_stub : (target : ℕ) → (ℕ → Option ℕ) → ℕ → Option ℕ
remove_stub target stubs k = if k == target then none else stubs k

-- The stub of a target, null where there is none.
abbrev pub stub_or_null : Option ℕ → ℕ
stub_or_null none = 0
stub_or_null (some stub) = stub

module _ {L : Type 0} (lib : ShadowHook L) where
  -- `shadowhookInit`
  unfoldable pub shadowhook_init : ShadowState L → Bool × ShadowState L
  shadowhook_init g = elim g.started [
    | some ok ↦ (ok, g)
    | none ↦ let (ok, l) = lib.init g.lib in (ok, record g { lib = l; started = some ok })
  ]

  -- `shadowhookHook`: what `*original` is given on success, none for false.
  unfoldable pub shadowhook_hook :
      (target replacement : ℕ) → ShadowState L → Option ℕ × ShadowState L
  shadowhook_hook target replacement g =
      let (ready, g') = shadowhook_init g in
      let (stub, original, l) = lib.hook_func_addr target replacement g'.lib in
      if not ready
      then (none, g')
      else if stub == 0
      then (none, record g' { lib = l })
      else (some original, record g' { lib = l; stubs = put_stub target stub g'.stubs })

  -- `shadowhookUnhook`
  unfoldable pub shadowhook_unhook : (target : ℕ) → ShadowState L → Bool × ShadowState L
  shadowhook_unhook target g =
      let (ready, g') = shadowhook_init g in
      let stub = stub_or_null (g'.stubs target) in
      let (done, l) = lib.unhook stub g'.lib in
      if not ready
      then (false, g')
      else if stub == 0
      then (false, g')
      else if not done
      then (false, record g' { lib = l })
      else (true, record g' { lib = l; stubs = remove_stub target g'.stubs })
