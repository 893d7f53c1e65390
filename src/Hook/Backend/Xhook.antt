-- ===== src/Hook/Backend/Xhook.antt =====
-- loader/src/hook/backend/xhook.cpp: hooks by xHook, which is a parameter, on the processors that have
-- it.
pub mod Anchor
use zygisk_next_next.Base.{
  ℕ, Bool, true, false, not, ◌&&◌, ◌||◌, List, [], ◌∷◌, ◌++◌, Bytes, codes, length, same, ltb, ◌==◌,
  if◌then◌else◌, Option, none, some,
}
use zygisk_next_next.Hook.Backend.Plti.{path_key, Record}

-- The characters that the `switch` of `anchorRegex` names.
unfoldable pub is_special : ℕ → Bool
is_special c =
    (c == b'.'
      || (c == b'\\' || (c == b'+' || (c == b'*' || (c == b'?' || (c == b'^' || c == b'$'))))))
    || (c == b'|'
        || (c == b'(' || (c == b')' || (c == b'[' || (c == b']' || (c == b'{' || c == b'}'))))))

-- The loop of `anchorRegex`.
unfoldable pub escape : Bytes → Bytes
escape [] = []
escape (c ∷ path) = let rest = c ∷ escape path in if is_special c then b'\\' ∷ rest else rest

-- `anchorRegex`
unfoldable pub anchor_regex : Bytes → Bytes
anchor_regex path = b'^' ∷ (escape path ++ b'$' ∷ [])

-- xHook over its state and memory: `xhook_clear`, `xhook_register` for a regular expression, a symbol and
-- an address, and `xhook_refresh`, which answer whether they return 0. The record whose `original` is
-- registered is given by its key; `refresh` answers what it stores there.
pub record Library (L : Type 0) : Type 0 where
  pub clear : L → L
  pub register : Bytes → Bytes → ℕ → (key : Bytes) → L → Bool × L
  pub refresh : L → Bool × (Bytes → Option ℕ) × L

-- The library and `g_records`, in the order of the keys.
pub record State (L : Type 0) : Type 0 where
  pub lib : L
  pub records : List (Bytes × Record)

-- `std::string`'s order
unfoldable pub before : Bytes → Bytes → Bool
before a [] = false
before [] (d ∷ b) = true
before (c ∷ a) (d ∷ b) =
    let rest = before a b in if ltb c d then true else if c == d then rest else false

unfoldable pub find_record : Bytes → List (Bytes × Record) → Option Record
find_record key [] = none
find_record key ((k, r) ∷ records) =
    let rest = find_record key records in if same k key then some r else rest

-- `emplace` of a key that is not there
unfoldable pub emplace : Bytes → Record → List (Bytes × Record) → List (Bytes × Record)
emplace key rec [] = (key, rec) ∷ []
emplace key rec ((k, r) ∷ records) =
    let rest = emplace key rec records in
    if before key k then (key, rec) ∷ (k, r) ∷ records else (k, r) ∷ rest

unfoldable pub erase_record : Bytes → List (Bytes × Record) → List (Bytes × Record)
erase_record key [] = []
erase_record key ((k, r) ∷ records) =
    let rest = erase_record key records in if same k key then records else (k, r) ∷ rest

-- `rec.replacement = replacement`
unfoldable pub set_replacement : Bytes → ℕ → List (Bytes × Record) → List (Bytes × Record)
set_replacement key replacement [] = []
set_replacement key replacement ((k, r) ∷ records) =
    let rest = set_replacement key replacement records in
    if same k key then (k, record r { replacement = replacement }) ∷ records else (k, r) ∷ rest

abbrev pub stored_or : Option ℕ → ℕ → ℕ
stored_or none o = o
stored_or (some n) o = n

-- The records with what `xhook_refresh` stored.
unfoldable pub store_originals : (Bytes → Option ℕ) → List (Bytes × Record) → List (Bytes × Record)
store_originals stored [] = []
store_originals stored ((k, r) ∷ records) =
    (k, record r { original = stored_or (stored k) r.original }) ∷ store_originals stored records

module _ {L : Type 0} (lib : Library L) where
  -- The loop of `commitLocked`.
  unfoldable pub register_loop : List (Bytes × Record) → L → Bool × L
  register_loop [] l = (true, l)
  register_loop ((k, rec) ∷ records) l =
      let (done, l') = lib.register (anchor_regex rec.path) rec.symbol rec.replacement k l in
      let rest = register_loop records l' in if not done then (false, l') else rest

  -- `commitLocked`
  unfoldable pub commit : State L → Bool × State L
  commit g =
      let (registered, l) = register_loop g.records (lib.clear g.lib) in
      let (done, stored, l') = lib.refresh l in
      if not registered
      then (false, record g { lib = l })
      else (done, record { lib = l'; records = store_originals stored g.records })

  -- The branch of `xhookHook` for a record.
  unfoldable pub unhook : (key : Bytes) → (replacement : ℕ) → Record → State L → Option ℕ × State L
  unhook key replacement rec g =
      let (done, g') = commit (record g { records = set_replacement key rec.original g.records }) in
      if not (replacement == rec.original)
      then (none, g)
      else if not done
      then (none, record g' { records = set_replacement key rec.replacement g'.records })
      else (some rec.original, record g' { records = erase_record key g'.records })

  abbrev pub original_of : Option Record → ℕ
  original_of none = 0
  original_of (some r) = r.original

  -- The rest of `xhookHook`.
  unfoldable pub install : (path symbol : Bytes) → (replacement : ℕ) → State L → Option ℕ × State L
  install path symbol replacement g =
      let key = path_key path symbol in
      let rec : Record = record {
        path = path;
        symbol = symbol;
        replacement = replacement;
        original = 0;
      } in
      let (done, g') = commit (record g { records = emplace key rec g.records }) in
      let original = original_of (find_record key g'.records) in
      let (again, g'') = commit (record g' { records = erase_record key g'.records }) in
      if not done || original == 0 then (none, g'') else (some original, g')

  unfoldable pub with_record :
      (path symbol : Bytes) → (replacement : ℕ) → Option Record → State L → Option ℕ × State L
  with_record path symbol replacement none g = install path symbol replacement g
  with_record path symbol replacement (some rec) g = unhook (path_key path symbol) replacement rec g

  -- `xhookHook` for a symbol that is not null: what `*original` is given on success, none for false.
  unfoldable pub xhook_hook :
      (path symbol : Bytes) → (replacement : ℕ) → State L → Option ℕ × State L
  xhook_hook path symbol replacement g =
      let result =
        with_record path symbol replacement (find_record (path_key path symbol) g.records) g in
      if length path == 0 || replacement == 0 then (none, g) else result
