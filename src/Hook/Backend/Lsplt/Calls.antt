-- ===== src/Hook/Backend/Lsplt/Calls.antt =====
-- loader/src/api/hook.cpp down to loader/src/hook/backend/lsplt.cpp: what a module that calls `pltHook`
-- gets with the engine lsplt.
use zygisk_next_next.Base.{
  ℕ, ◌≡◌, ◌≢◌, refl, ◌⊎◌, Bool, true, false, Bytes, ◌==◌, if◌then◌else◌, List, Option, none, some,
  arith,
}
use zygisk_next_next.Elf.Maps.{MapEntry}
use zygisk_next_next.Hook.Engine.{Engines, PltEngine, BackendInits}
use zygisk_next_next.Hook.Dispatch.{Status, success, failed}
use zygisk_next_next.Hook.Plt.{
  PltBackends, find_mapping, first_mapping_of_file, is_no_path, api_plt_hook,
}
use zygisk_next_next.Hook.Plt.Mapping.{plt_hook-lsplt}
use zygisk_next_next.Hook.Backend.Table.{Site}
use zygisk_next_next.Hook.Backend.Contract.{Tracks, IsHookStep, IsReplaced}
use zygisk_next_next.Hook.Backend.Lsplt.{Library, State, commit, lsplt_hook}
use zygisk_next_next.Hook.Backend.Lsplt.Refines.{hooks, lsplt_hook-Refines}

-- The words that callers pass for `original`, by their address.
abbrev pub Words : Type 0
Words = ℕ → ℕ

-- `if (original) *original = value`
unfoldable pub write_original : (original value : ℕ) → Words → Words
write_original original value m =
    if original == 0 then m else λ a. if a == original then value else m a

module _ {L : Type 0} (lib : Library L) where
  -- The end of `lspltHook`: what it returns, with what it stores.
  unfoldable pub returned : (original : ℕ) → Option ℕ × State L → Words → Bool × (State L × Words)
  returned original (none, g) m = (false, (g, m))
  returned original (some value, g) m = (true, (g, write_original original value m))

  -- The backends with `lspltHook` as it is modelled here.
  abbrev pub with_lsplt : PltBackends (State L × Words) → PltBackends (State L × Words)
  with_lsplt backends = record backends {
    lsplt_hook = λ dev inode symbol replacement original (g, m).
        returned original
          (lsplt_hook lib (record { dev = dev; inode = inode; symbol = symbol }) replacement g) m;
  }

module _ {L : Type 0} (lib : Library L) (slot : L → Site → ℕ) (initial : Site → ℕ)
    (replaces : (x : Site) (callback : ℕ) (l : L)
      → let (backup, committed, l') = commit lib x callback l in
        IsReplaced x callback backup (slot l) (slot l'))
    (backends : PltBackends (State L × Words)) (b : BackendInits) where
  -- What a call does: on failure no slot and no word changes; on success the slot holds the replacement, no
  -- other slot changes, and `*original` is what the slot held at first.
  abbrev pub IsCall :
      (x : Site) (replacement original : ℕ) → Status → (w w' : State L × Words) → Type 0
  IsCall x replacement original failed (g, m) (g', m') =
      ((y : Site) → slot g'.lib y ≡ slot g.lib y) × (m' ≡ m)
  IsCall x replacement original success (g, m) (g', m') =
      (slot g'.lib x ≡ replacement)
      × ((y : Site) → (y ≡ x) ⊎ (slot g'.lib y ≡ slot g.lib y))
      × (m' ≡ write_original original (initial x) m)

  returned-IsCall :
      (x : Site) (replacement original : ℕ) (r : Option ℕ × State L) (g : State L) (m : Words)
      → IsHookStep initial x replacement r.0 (slot g.lib) (slot r.1.lib)
      → Tracks initial (hooks r.1.records) (slot r.1.lib)
      → let (done, w') = returned lib original r m in
        IsCall x replacement original (if done then success else failed) (g, m) w'
        × Tracks initial (hooks w'.0.records) (slot w'.0.lib)
  unfolding returned
  returned-IsCall x replacement original (none, g') g m step tracks = ((step, refl), tracks)
  returned-IsCall x replacement original (some value, g') g m (first, at_x, asked, others) tracks =
      ((at_x, others, rw first refl), tracks)

  -- A module that asks for a PLT hook at an address in a mapped file, with the engine lsplt in use, gets
  -- it for that file's device and inode: on success the symbol's slot holds the hook, no other slot
  -- changes, and `*original`, if it is wanted, is what the slot held before any hook; on failure no slot
  -- and no word changes. The records are right again. LSPlt is asked to say which address it replaced, or
  -- that it replaced none.
  pub api_plt_hook-IsCall :
      (maps : List MapEntry) (base : ℕ) (symbol : Bytes) (replacement original : ℕ) (e : Engines)
      (w : State L × Words) (hit : MapEntry)
      → base ≢ 0
      → replacement ≢ 0
      → e.plt ≡ PltEngine.lsplt
      → find_mapping maps base ≡ some hit
      → is_no_path (first_mapping_of_file maps hit).path ≡ false
      → Tracks initial (hooks w.0.records) (slot w.0.lib)
      → let (status, e', w') =
          api_plt_hook
            (with_lsplt lib backends)
            b
            maps
            base
            (some symbol)
            replacement
            original
            (e, w) in
        IsCall
          (record { dev = hit.dev; inode = hit.inode; symbol = symbol })
          replacement
          original
          status
          w
          w'
        × Tracks initial (hooks w'.0.records) (slot w'.0.lib)
  unfolding api_plt_hook
  api_plt_hook-IsCall maps base symbol replacement original e (g, m) hit hb hr engine found path
        tracks =
      let x : Site = record { dev = hit.dev; inode = hit.inode; symbol = symbol } in
      let kb : (base == 0) ≡ false = ground (arith, hb) in
      let kr : (replacement == 0) ≡ false = ground (arith, hr) in
      let (step, tracks') = lsplt_hook-Refines lib slot initial replaces x replacement g tracks in
      rw
        (
          plt_hook-lsplt (with_lsplt lib backends) b maps base symbol replacement original e (g, m)
              hit hb hr engine found path,
          kb,
          kr,
        )
        (returned-IsCall x replacement original (lsplt_hook lib x replacement g) g m step tracks')
