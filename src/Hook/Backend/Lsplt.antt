-- ===== src/Hook/Backend/Lsplt.antt =====
-- loader/src/hook/backend/lsplt.cpp: hooks by LSPlt, which is a parameter. The calls are made one after
-- the other.
pub mod Refines
pub mod Race
pub mod Calls
pub mod Tests
use zygisk_next_next.Base.{ℕ, Bool, not, Bytes, ◌==◌, if◌then◌else◌, Option, none, some}
use zygisk_next_next.Hook.Backend.Table.{Table, put, remove, Site, record_key}
use zygisk_next_next.Hook.Backend.Contract.{Hooked}

-- LSPlt over its state and the process's memory: `RegisterHook`, and `CommitHook`, which answers what it
-- stores through the pointer of that hook, 0 for nothing, and whether it succeeds.
pub record Library (L : Type 0) : Type 0 where
  pub register_hook : Site → (callback : ℕ) → L → L
  pub commit_hook : L → ℕ × Bool × L

-- The library, and `g_records`.
pub record State (L : Type 0) : Type 0 where
  pub lib : L
  pub records : Table Hooked

abbrev pub original_of : Option Hooked → ℕ
original_of none = 0
original_of (some r) = r.original

module _ {L : Type 0} (lib : Library L) where
  -- `RegisterHook`, then `CommitHook`
  unfoldable pub commit : Site → (callback : ℕ) → L → ℕ × Bool × L
  commit x callback l = lib.commit_hook (lib.register_hook x callback l)

  -- The branch of `lspltHook` for a site that is hooked.
  unfoldable pub restore : Site → (previous : ℕ) → State L → Option ℕ × State L
  restore x previous g =
      let (backup, committed, l) = commit x previous g.lib in
      if backup == 0
      then (none, record g { lib = l })
      else (some previous, record { lib = l; records = remove (record_key x) g.records })

  -- The rest of `lspltHook`.
  unfoldable pub install : Site → (replacement : ℕ) → State L → Option ℕ × State L
  install x replacement g =
      let (backup, committed, l) = commit x replacement g.lib in
      if backup == 0 then (none, record g { lib = l }) else (
        some backup,
        record {
          lib = l;
          records =
              put (record_key x) (record { replacement = replacement; original = backup })
                g.records;
        },
      )

  -- `lspltHook`: what `*original` is given on success, none for false.
  unfoldable pub lsplt_hook : Site → (replacement : ℕ) → State L → Option ℕ × State L
  lsplt_hook x replacement g =
      let previous = original_of (g.records (record_key x)) in
      if previous == 0
      then install x replacement g
      else if not (replacement == previous)
      then (none, g)
      else restore x previous g
