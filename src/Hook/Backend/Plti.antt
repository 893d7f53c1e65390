-- ===== src/Hook/Backend/Plti.antt =====
-- loader/src/hook/backend/plti.cpp: hooks by PLTI, which is a parameter.
use zygisk_next_next.Base.{
  ℕ, Bool, true, false, not, ◌||◌, ◌∷◌, ◌++◌, Bytes, ◌==◌, length, if◌then◌else◌, Option, none,
  some,
}
use zygisk_next_next.Hook.Backend.Table.{Table, put, remove}

-- `Record`
pub record Record : Type 0 where
  pub path : Bytes
  pub symbol : Bytes
  pub replacement : ℕ
  pub original : ℕ

-- `recordKey`, and `hookKey` of bytehook.cpp
unfoldable pub path_key : (path symbol : Bytes) → Bytes
path_key path symbol = path ++ 1 ∷ symbol

-- PLTI over its context: `plti_init`, `plti_add_manual_lib`, and for a path, a symbol and an address
-- `plti_add_hook` and `plti_remove_hook`, which answer false, or what they leave in `*original`.
pub record Library (L : Type 0) : Type 0 where
  pub init : L → Bool × L
  pub add_manual_lib : Bytes → ℕ → L → Bool × L
  pub add_hook : Bytes → Bytes → ℕ → L → Option ℕ × L
  pub remove_hook : Bytes → Bytes → ℕ → L → Option ℕ × L

-- `g_context`, `g_initialized` and `g_records`
pub record State (L : Type 0) : Type 0 where
  pub lib : L
  pub initialized : Bool
  pub records : Table Record

module _ {L : Type 0} (lib : Library L) where
  -- `ensureContextLocked`
  unfoldable pub ensure_context : State L → Bool × State L
  ensure_context g =
      let (done, l) = lib.init g.lib in
      if g.initialized
      then (true, g)
      else if not done
      then (false, record g { lib = l })
      else (true, record g { lib = l; initialized = true })

  -- The branch of `pltiHook` for a record.
  unfoldable pub remove_record :
      (path symbol : Bytes) → (replacement : ℕ) → Record → State L → Option ℕ × State L
  remove_record path symbol replacement rec g =
      let (restored, l) = lib.remove_hook path symbol rec.original g.lib in
      if not (replacement == rec.original) then (none, g) else elim restored [
        | none ↦ (none, record g { lib = l })
        | some restore ↦
            (some restore, record g { lib = l; records = remove (path_key path symbol) g.records })
      ]

  -- `pltiHook` behind `plti_add_hook`, which answered with `backup`.
  unfoldable pub keep_hook :
      (path symbol : Bytes) → (replacement : ℕ) → (backup : Option ℕ) → State L → Option ℕ × State L
  keep_hook path symbol replacement none g = (none, g)
  keep_hook path symbol replacement (some backup) g =
      let rec : Record = record {
        path = path;
        symbol = symbol;
        replacement = replacement;
        original = backup;
      } in
      if backup == 0
      then (none, g)
      else (some backup, record g { records = put (path_key path symbol) rec g.records })

  -- The branch of `pltiHook` for a library without the record.
  unfoldable pub add_record :
      (path : Bytes)
      → (base : ℕ) → (symbol : Bytes) → (replacement : ℕ) → State L
      → Option ℕ × State L
  add_record path base symbol replacement g =
      let (added, l) = lib.add_manual_lib path base g.lib in
      let (backup, l') = lib.add_hook path symbol replacement l in
      if not added
      then (none, record g { lib = l })
      else keep_hook path symbol replacement backup (record g { lib = l' })

  unfoldable pub with_record :
      (path : Bytes)
      → (base : ℕ) → (symbol : Bytes) → (replacement : ℕ) → Option Record
      → State L
      → Option ℕ × State L
  with_record path base symbol replacement none g = add_record path base symbol replacement g
  with_record path base symbol replacement (some rec) g =
      remove_record path symbol replacement rec g

  -- `pltiHook` for a symbol that is not null: what `*original` is given on success, none for false.
  unfoldable pub plti_hook :
      (path : Bytes)
      → (base : ℕ) → (symbol : Bytes) → (replacement : ℕ) → State L
      → Option ℕ × State L
  plti_hook path base symbol replacement g =
      let (ready, g') = ensure_context g in
      if length path == 0 || replacement == 0
      then (none, g)
      else if not ready
      then (none, g')
      else with_record path base symbol replacement (g'.records (path_key path symbol)) g'
