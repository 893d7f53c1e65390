-- ===== src/Hook/Plt.antt =====
-- loader/src/hook/plt.cpp and `pltHook` of loader/src/api/hook.cpp: PLT hooks. The functions of
-- hook/backend.h are a parameter, `W` their state; `plt_hook` takes what `parseMaps` returns.

pub mod Mapping
use zygisk_next_next.Base.{
  ℕ, ◌-◌, ◌%◌, Bool, true, false, not, ◌||◌, ◌&&◌, List, [], ◌∷◌, Bytes, ltb, leb, ◌==◌,
  if◌then◌else◌, Option, none, some,
}
use zygisk_next_next.Elf.Maps.{MapEntry}
use zygisk_next_next.Hook.Engine.{
  PltEngine, lsplt, byte_hook, x_hook, plti, Engines, BackendInits, ensure_plt_engine_ready,
}
use zygisk_next_next.Hook.Dispatch.{Status, success, failed}

-- The two tests of `findMapping` on a mapping with an inode.
abbrev pub covers : ℕ → MapEntry → Bool
covers base m =
    (leb m.start base && ltb base m.end) || (leb m.offset m.start && base == m.start - m.offset)

-- `findMapping`
unfoldable pub find_mapping : List MapEntry → ℕ → Option MapEntry
find_mapping [] base = none
find_mapping (m ∷ maps) base =
    let rest = find_mapping maps base in
    if m.inode == 0 then rest else if covers base m then some m else rest

-- `m.perms & PROT_READ`
abbrev pub is_readable : MapEntry → Bool
is_readable m = not (m.perms % 2 == 0)

-- The first three tests in the loop of `firstMappingOfFile`: a readable mapping of the same file at the
-- same load address.
abbrev pub is_part : MapEntry → ℕ → MapEntry → Bool
is_part hit load_base m =
    (m.dev == hit.dev && m.inode == hit.inode)
    && ((leb m.offset m.start && m.start - m.offset == load_base) && is_readable m)

-- `if (!first_readable) first_readable = &m;`
abbrev pub keep : Option MapEntry → MapEntry → Option MapEntry
keep none m = some m
keep (some r) m = some r

-- The loop of `firstMappingOfFile`; `first_readable` starts as a null pointer.
unfoldable pub first_loop : List MapEntry → MapEntry → ℕ → Option MapEntry → Option MapEntry
first_loop [] hit load_base first_readable = first_readable
first_loop (m ∷ maps) hit load_base first_readable =
    let skip = first_loop maps hit load_base first_readable in
    let kept = first_loop maps hit load_base (keep first_readable m) in
    if not (is_part hit load_base m) then skip else if m.offset == 0 then some m else kept

abbrev pub or_else {ℓ} : {A : Type ℓ} → Option A → A → A
or_else none d = d
or_else (some a) d = a

-- `firstMappingOfFile`
unfoldable pub first_mapping_of_file : List MapEntry → MapEntry → MapEntry
first_mapping_of_file maps hit =
    if ltb hit.start hit.offset
    then hit
    else or_else (first_loop maps hit (hit.start - hit.offset) none) hit

-- The functions of hook/backend.h that PLT hooks use, each with `symbol`, `replacement` and `original`.
pub record PltBackends (W : Type 0) : Type 0 where
  pub lsplt_hook : (dev inode : ℕ) → Bytes → ℕ → ℕ → W → Bool × W
  pub bytehook_hook : (caller_path : Bytes) → Bytes → ℕ → ℕ → W → Bool × W
  pub xhook_hook : (caller_path : Bytes) → Bytes → ℕ → ℕ → W → Bool × W
  pub plti_hook : (caller_path : Bytes) → (caller_base : ℕ) → Bytes → ℕ → ℕ → W → Bool × W

abbrev pub is_no_path : Bytes → Bool
is_no_path [] = true
is_no_path (c ∷ s) = false

module _ {W : Type 0} (backends : PltBackends W) (b : BackendInits) where
  -- The `switch` of `hook::pltHook`.
  unfoldable pub engine_plt_hook : PltEngine → MapEntry → Bytes → ℕ → ℕ → W → Bool × W
  engine_plt_hook lsplt entry = backends.lsplt_hook entry.dev entry.inode
  engine_plt_hook byte_hook entry = backends.bytehook_hook entry.path
  engine_plt_hook x_hook entry = backends.xhook_hook entry.path
  engine_plt_hook plti entry = backends.plti_hook entry.path entry.start
  engine_plt_hook PltEngine.disable entry = λ symbol replacement original w. (false, w)

  -- The part of `hook::pltHook` behind `findMapping`.
  unfoldable pub hook_entry :
      List MapEntry → Option MapEntry → Bytes → (replacement original : ℕ) → Engines → W → Bool × W
  hook_entry maps none symbol replacement original g w = (false, w)
  hook_entry maps (some hit) symbol replacement original g w =
      let entry = first_mapping_of_file maps hit in
      if is_no_path entry.path
      then (false, w)
      else engine_plt_hook g.plt entry symbol replacement original w

  -- `hook::pltHook`; no symbol is a null pointer.
  unfoldable pub plt_hook :
      List MapEntry
      → (base : ℕ) → Option Bytes
      → (replacement original : ℕ) → Engines × W
      → Bool × Engines × W
  plt_hook maps base none replacement original (g, w) = (false, g, w)
  plt_hook maps base (some symbol) replacement original (g, w) =
      let g' = ensure_plt_engine_ready b g in
      let (done, w') = hook_entry maps (find_mapping maps base) symbol replacement original g' w in
      if base == 0 || replacement == 0 then (false, g, w) else (done, g', w')

  -- `api::pltHook`
  unfoldable pub api_plt_hook :
      List MapEntry
      → (base : ℕ) → Option Bytes
      → (hook original : ℕ) → Engines × W
      → Status × Engines × W
  api_plt_hook maps base none hook original (g, w) = (failed, g, w)
  api_plt_hook maps base (some symbol) hook original (g, w) =
      let (done, g', w') = plt_hook maps base (some symbol) hook original (g, w) in
      if base == 0 || hook == 0
      then (failed, g, w)
      else ((if done then success else failed), g', w')
