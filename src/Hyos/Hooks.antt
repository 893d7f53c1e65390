-- ===== src/Hyos/Hooks.antt =====
-- loader/src/hyos/hooks.cpp: installing the hooks, and what happens around a fork. The functions that
-- hook and the dynamic linker are a parameter: `W` is their state.

pub mod Kept
use zygisk_next_next.Base.{
  ℕ, Bool, true, false, not, ◌||◌, ◌&&◌, List, [], ◌∷◌, Bytes, codes, ltb, ◌==◌, if◌then◌else◌,
  Option, none, some,
}
use zygisk_next_next.Elf.Maps.{MapEntry}
use zygisk_next_next.Hyos.State.{SpawnerImage, State, empty}

-- `path.find(text) != std::string::npos`
unfoldable pub starts_with : Bytes → Bytes → Bool
starts_with [] s = true
starts_with (c ∷ text) [] = false
starts_with (c ∷ text) (d ∷ s) = c == d && starts_with text s

unfoldable pub has_text : Bytes → Bytes → Bool
has_text text [] = starts_with text []
has_text text (c ∷ s) = starts_with text (c ∷ s) || has_text text s

-- The loop of `findSpawnerImage`.
unfoldable pub spawner_of : List MapEntry → SpawnerImage → SpawnerImage
spawner_of [] old = old
spawner_of (m ∷ maps) old =
    if not (m.offset == 0) || m.inode == 0
    then spawner_of maps old
    else if not (has_text (codes "hyos_spawner") m.path)
    then spawner_of maps old
    else record { dev = m.dev; inode = m.inode; base = m.start }

-- `findSpawnerImage`
unfoldable pub find_spawner_image : List MapEntry → State → State
find_spawner_image maps s =
    if not (s.spawner.inode == 0) then s else record s { spawner = spawner_of maps s.spawner }

-- `hook::pltHook` with the backup that it stores when it succeeds; `dlsym` with RTLD_DEFAULT, and
-- `dlopen` with `dlsym` in what it opens, 0 for not found; and `api::inlineHook` with the word behind
-- `original`, before and after. The hook functions are named by what they hook.
pub record Installer (W : Type 0) : Type 0 where
  pub plt_hook : ℕ → Bytes → W → Option ℕ × W
  pub default_symbol : Bytes → ℕ
  pub open_symbol : Bytes → Bytes → W → ℕ × W
  pub inline_hook : ℕ → Bytes → ℕ → W → ℕ × W

-- The last `if` of `installHooks`.
unfoldable pub warn : State → State
warn s = if s.orig_setcontext == 0 && not s.warned then record s { warned = true } else s

module _ {W : Type 0} (installer : Installer W) where
  -- `installHooks`, one step for each `if`
  unfoldable pub install_fork : State × W → State × W
  install_fork (s, w) =
      if s.spawner.inode == 0 || s.plt_fork_tried
      then (s, w)
      else if not (s.orig_fork == 0)
      then (record s { plt_fork_tried = true }, w)
      else (let (backup, w') = installer.plt_hook s.spawner.base (codes "fork") w in
          elim backup [
            | none ↦ (s, w')
            | some b ↦ (record s { orig_fork = b; plt_fork_tried = true }, w')
          ])

  unfoldable pub install_setcontext : State × W → State × W
  install_setcontext (s, w) =
      if s.spawner.inode == 0 || s.plt_ctx_tried
      then (s, w)
      else if not (s.orig_setcontext == 0)
      then (record s { plt_ctx_tried = true }, w)
      else (let (backup, w') =
            installer.plt_hook s.spawner.base (codes "selinux_android_setcontext") w in
          elim backup [
            | none ↦ (s, w')
            | some b ↦ (record s { orig_setcontext = b; plt_ctx_tried = true }, w')
          ])

  -- The address of a symbol, looked for in the library where it is not loaded.
  unfoldable pub symbol_of : (library symbol : Bytes) → W → ℕ × W
  symbol_of library symbol w =
      let fn = installer.default_symbol symbol in
      if fn == 0 then installer.open_symbol library symbol w else (fn, w)

  unfoldable pub inline_setcontext : State × W → State × W
  inline_setcontext (s, w) =
      let (fn, w1) = symbol_of (codes "libselinux.so") (codes "selinux_android_setcontext") w in
      let (word, w2) =
        installer.inline_hook fn (codes "selinux_android_setcontext") s.orig_setcontext w1 in
      if not (s.orig_setcontext == 0)
      then (s, w)
      else if fn == 0
      then (s, w1)
      else (record s { orig_setcontext = word }, w2)

  unfoldable pub inline_setname : State × W → State × W
  inline_setname (s, w) =
      let (fn, w1) = symbol_of (codes "libc.so") (codes "pthread_setname_np") w in
      let (word, w2) = installer.inline_hook fn (codes "pthread_setname_np") s.orig_setname w1 in
      if not (s.orig_setname == 0)
      then (s, w)
      else if fn == 0
      then (s, w1)
      else (record s { orig_setname = word }, w2)

  -- `installHooks`, with the mappings that `parseMaps` returns.
  unfoldable pub install_hooks : List MapEntry → State × W → State × W
  install_hooks maps (s, w) =
      let (s', w') =
        inline_setname
          (inline_setcontext (install_setcontext (install_fork (find_spawner_image maps s, w)))) in
      (warn s', w')

-- `atForkChild`
unfoldable pub at_fork_child : State → State
at_fork_child s = record s {
  in_child = true;
  fired = false;
  captured_name = [];
  name_state = empty;
  reinstall = false;
}

-- `atForkPrepare`
unfoldable pub at_fork_prepare : State → State
at_fork_prepare s =
    if (not s.in_child && ltb 0 s.module_count) && (s.orig_setcontext == 0 || s.orig_setname == 0)
    then record s { reinstall = true }
    else s
