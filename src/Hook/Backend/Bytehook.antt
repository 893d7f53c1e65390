-- ===== src/Hook/Backend/Bytehook.antt =====
-- loader/src/hook/backend/bytehook.cpp: hooks by ByteHook, which is a parameter, on the processors that
-- have it.
pub mod Tidy
use zygisk_next_next.Base.{
  ℕ, Bool, true, false, not, ◌==◌, Bytes, if◌then◌else◌, Option, none, some,
}
use zygisk_next_next.Hook.Backend.Table.{Table, put, remove}
use zygisk_next_next.Hook.Backend.Plti.{path_key}

-- ByteHook over its state: what `bytehookInit` starts once, which answers whether `bytehook_init` returns
-- 0; `bytehook_hook_single`, which answers the stub and what the callback leaves in `backup`, each 0 for
-- a null pointer; and `bytehook_unhook`, whether it returns 0.
pub record Library (L : Type 0) : Type 0 where
  pub start : L → Bool × L
  pub hook_single : Bytes → Bytes → ℕ → L → ℕ × ℕ × L
  pub unhook : (stub : ℕ) → L → Bool × L

-- The library, what the one start answered, `g_stubs`, `g_originals` and `g_pending`
pub record State (L : Type 0) : Type 0 where
  pub lib : L
  pub started : Option Bool
  pub stubs : Table ℕ
  pub originals : Table ℕ
  pub pending : Table Bool

-- `g_originals[key]`, null where there is none
abbrev pub original_of : Option ℕ → ℕ
original_of none = 0
original_of (some o) = o

module _ {L : Type 0} (lib : Library L) where
  -- `bytehookInit`
  unfoldable pub bytehook_init : State L → Bool × State L
  bytehook_init g = elim g.started [
    | some ok ↦ (ok, g)
    | none ↦ let (ok, l) = lib.start g.lib in (ok, record g { lib = l; started = some ok })
  ]

  -- The branch of `bytehookHook` for a key with a stub.
  unfoldable pub unhook_stub : (key : Bytes) → (replacement stub : ℕ) → State L → Option ℕ × State L
  unhook_stub key replacement stub g =
      let original = original_of (g.originals key) in
      let (done, l) = lib.unhook stub g.lib in
      if not (replacement == original)
      then (none, g)
      else if not done
      then (none, record g { lib = l })
      else (
        some original,
        record g { lib = l; originals = remove key g.originals; stubs = remove key g.stubs },
      )

  -- `bytehookHook` behind `g_pending.insert`: the hook is made and the key is no longer pending.
  unfoldable pub install_stub :
      (path symbol : Bytes) → (replacement : ℕ) → State L → Option ℕ × State L
  install_stub path symbol replacement g =
      let key = path_key path symbol in
      let (stub, backup, l) = lib.hook_single path symbol replacement g.lib in
      let (done, l') = lib.unhook stub l in
      if stub == 0
      then (none, record g { lib = l; pending = remove key g.pending })
      else if backup == 0
      then (none, record g { lib = l'; pending = remove key g.pending })
      else (
        some backup,
        record g {
          lib = l;
          pending = remove key g.pending;
          stubs = put key stub g.stubs;
          originals = put key backup g.originals;
        },
      )

  unfoldable pub with_stub :
      (path symbol : Bytes)
      → (replacement : ℕ) → (stub : Option ℕ) → (pending : Option Bool) → State L
      → Option ℕ × State L
  with_stub path symbol replacement (some stub) pending g =
      unhook_stub (path_key path symbol) replacement stub g
  with_stub path symbol replacement none (some p) g = (none, g)
  with_stub path symbol replacement none none g =
      install_stub path symbol replacement
        (record g { pending = put (path_key path symbol) true g.pending })

  -- `bytehookHook`: what `*original` is given on success, none for false.
  unfoldable pub bytehook_hook :
      (path symbol : Bytes) → (replacement : ℕ) → State L → Option ℕ × State L
  bytehook_hook path symbol replacement g =
      let key = path_key path symbol in
      let (ready, g') = bytehook_init g in
      if not ready
      then (none, g')
      else with_stub path symbol replacement (g'.stubs key) (g'.pending key) g'
