-- ===== src/Hyos/Runtime.antt =====
-- loader/src/hyos/runtime.cpp and the hook functions of loader/src/hyos/hooks.cpp.
use zygisk_next_next.Base.{
  ℕ, ◌+◌, ◌-◌, Bool, true, false, not, ◌||◌, ◌&&◌, List, [], ◌∷◌, Bytes, codes, take, set, ltb, leb,
  ◌==◌, if◌then◌else◌, Option, none, some, ℤ, pos, negsuc, is_neg, is_zero,
}
use zygisk_next_next.Elf.Maps.{MapEntry}
use zygisk_next_next.Hyos.State.{
  max_modules, api_version, HyosModule, NameState, empty, ready, State,
}
use zygisk_next_next.Hyos.Hooks.{Installer, install_hooks, at_fork_child}

-- ZN_SUCCESS and ZN_FAILED
pub data Status : Type 0 where
  success failed : Status

-- `ZnHyosAppSpecializeArgs`
pub record AppArgs : Type 0 where
  pub process_name : Bytes
  pub package_name : Bytes
  pub se_info : Bytes

-- A callback that is called: its address and what it is given.
pub record Call : Type 0 where
  pub callback : ℕ
  pub args : AppArgs

-- `strlcpy(buffer, text, size)`
abbrev pub strlcpy : ℕ → Bytes → Bytes
strlcpy size text = take (size - 1) text

abbrev pub text_or : Option Bytes → Bytes → Bytes
text_or none d = d
text_or (some t) d = t

-- The name from `prctl(PR_GET_NAME)`, none for an error, or the fallback for an error or no name.
unfoldable pub thread_name_or : Option Bytes → Bytes
thread_name_or (some (c ∷ name)) = c ∷ name
thread_name_or _ = strlcpy 256 (codes "hyos_app")

unfoldable pub process_name_of : State → Option Bytes → Bytes
process_name_of s thread_name = elim s.name_state [
  | ready ↦ strlcpy 256 s.captured_name
  | _ ↦ thread_name_or thread_name
]

unfoldable pub app_args : State → (thread_name pkg_name se_info : Option Bytes) → AppArgs
app_args s thread_name pkg_name se_info = record {
  process_name = process_name_of s thread_name;
  package_name = strlcpy 256 (text_or pkg_name []);
  se_info = strlcpy 64 (text_or se_info []);
}

-- The loop over the modules.
unfoldable pub calls_of : AppArgs → List HyosModule → List Call
calls_of args [] = []
calls_of args (m ∷ modules) =
    let rest = calls_of args modules in
    if m.on_app_specialized == 0
    then rest
    else record { callback = m.on_app_specialized; args = args } ∷ rest

-- `deliverAppSpecialized`
unfoldable pub deliver_app_specialized :
    (thread_name pkg_name se_info : Option Bytes) → State → List Call × State
deliver_app_specialized thread_name pkg_name se_info s =
    if not s.in_child || s.module_count == 0 then ([], s) else if s.fired then ([], s) else (
      calls_of (app_args s thread_name pkg_name se_info) (take s.module_count s.modules),
      record s { fired = true },
    )

-- `m->target_api_version > ZYGISK_NEXT_HYOS_API_VERSION`
abbrev pub is_newer : ℤ → Bool
is_newer (pos v) = ltb api_version v
is_newer (negsuc v) = false

-- `setcontextHook`, where the original returns `answer`.
unfoldable pub setcontext_hook :
    (answer : ℤ) → (thread_name pkg_name se_info : Option Bytes) → State → ℤ × List Call × State
setcontext_hook answer thread_name pkg_name se_info s =
    let ret = if s.orig_setcontext == 0 then negsuc 0 else answer in
    let (calls, s') = deliver_app_specialized thread_name pkg_name se_info s in
    if is_zero ret then (ret, calls, s') else (ret, [], s)

-- `expected = kNameEmpty; compare_exchange_strong(...)`
abbrev pub is_empty : NameState → Bool
is_empty empty = true
is_empty _ = false

abbrev pub is_some_text : Option Bytes → Bool
is_some_text none = false
is_some_text (some []) = false
is_some_text (some (c ∷ s)) = true

-- `setnameHook`, where the original returns `answer`; a thread is a number.
unfoldable pub setname_hook : (answer : ℤ) → (self thread : ℕ) → Option Bytes → State → ℤ × State
setname_hook answer self thread name s =
    let ret = if s.orig_setname == 0 then negsuc 0 else answer in
    if is_zero ret
      && (s.in_child
          && (not s.fired && (thread == self && (is_some_text name && is_empty s.name_state))))
    then (ret, record s { captured_name = strlcpy 256 (text_or name []); name_state = ready })
    else (ret, s)

-- The store of the module and the call of `pthread_atfork` in `registerModule`.
unfoldable pub add_module : HyosModule → State → State
add_module m s =
    let s1 = record s {
      modules = set s.modules s.module_count m;
      module_count = s.module_count + 1;
    } in
    if s1.in_child then s1 else record s1 { atfork_calls = s1.atfork_calls + 1 }

module _ {W : Type 0} (installer : Installer W) where
  -- `registerModule`, none for a null pointer
  unfoldable pub register_module :
      List MapEntry → Option HyosModule → State × W → Status × State × W
  register_module maps none (s, w) = (failed, s, w)
  register_module maps (some m) (s, w) =
      let (s', w') = install_hooks installer maps (add_module m s, w) in
      if m.on_app_specialized == 0
      then (failed, s, w)
      else if is_newer m.target_api_version
      then (failed, s, w)
      else if leb max_modules s.module_count
      then (failed, s, w)
      else (success, s', w')

  -- `forkHook`, where the original returns `answer`.
  unfoldable pub fork_hook : List MapEntry → (answer : ℤ) → State × W → ℤ × State × W
  fork_hook maps answer (s, w) =
      let res = if s.orig_fork == 0 then negsuc 0 else answer in
      let s1 = record s { reinstall = false } in
      let (s2, w') = install_hooks installer maps (s1, w) in
      if is_zero res
      then (res, at_fork_child s, w)
      else if is_neg res || not s.reinstall
      then (res, s, w)
      else if s1.in_child
      then (res, s1, w)
      else (res, s2, w')
