-- ===== src/Loader/Api.antt =====
-- loader/src/api/table.cpp and loader/src/api/runtime.cpp: the functions that a module is given, by the
-- version of the API that it declares.
use zygisk_next_next.Base.{
  ℕ, zero, suc, ◌≡◌, refl, Bool, leb, le→leb, if◌then◌else◌, ℤ, pos, negsuc, arith,
}

-- The functions of loader/src/api/api.h that a table can point to.
pub data Function : Type 0 where
  plt_hook inline_hook inline_unhook new_symbol_resolver free_symbol_resolver get_base_address
        symbol_lookup for_each_symbols connect_companion get_runtime :
      Function
  new_symbol_resolver_unavailable free_symbol_resolver_unavailable get_base_address_unavailable
        symbol_lookup_unavailable for_each_symbols_unavailable connect_companion_unavailable
        get_runtime_unavailable :
      Function

-- `ZygiskNextAPI`
pub record ZygiskNextApi : Type 0 where
  pub plt_hook : Function
  pub inline_hook : Function
  pub inline_unhook : Function
  pub new_symbol_resolver : Function
  pub free_symbol_resolver : Function
  pub get_base_address : Function
  pub symbol_lookup : Function
  pub for_each_symbols : Function
  pub connect_companion : Function
  pub get_runtime : Function

-- `kApiV1`
unfoldable pub api_v1 : ZygiskNextApi
api_v1 = record {
  plt_hook = Function.plt_hook;
  inline_hook = Function.inline_hook;
  inline_unhook = Function.inline_unhook;
  new_symbol_resolver = Function.new_symbol_resolver_unavailable;
  free_symbol_resolver = Function.free_symbol_resolver_unavailable;
  get_base_address = Function.get_base_address_unavailable;
  symbol_lookup = Function.symbol_lookup_unavailable;
  for_each_symbols = Function.for_each_symbols_unavailable;
  connect_companion = Function.connect_companion_unavailable;
  get_runtime = Function.get_runtime_unavailable;
}

-- `kApiV2`
unfoldable pub api_v2 : ZygiskNextApi
api_v2 = record {
  plt_hook = Function.plt_hook;
  inline_hook = Function.inline_hook;
  inline_unhook = Function.inline_unhook;
  new_symbol_resolver = Function.new_symbol_resolver;
  free_symbol_resolver = Function.free_symbol_resolver;
  get_base_address = Function.get_base_address;
  symbol_lookup = Function.symbol_lookup;
  for_each_symbols = Function.for_each_symbols;
  connect_companion = Function.connect_companion_unavailable;
  get_runtime = Function.get_runtime_unavailable;
}

-- `kApiV3`
unfoldable pub api_v3 : ZygiskNextApi
api_v3 = record {
  plt_hook = Function.plt_hook;
  inline_hook = Function.inline_hook;
  inline_unhook = Function.inline_unhook;
  new_symbol_resolver = Function.new_symbol_resolver;
  free_symbol_resolver = Function.free_symbol_resolver;
  get_base_address = Function.get_base_address;
  symbol_lookup = Function.symbol_lookup;
  for_each_symbols = Function.for_each_symbols;
  connect_companion = Function.connect_companion;
  get_runtime = Function.get_runtime_unavailable;
}

-- `kApiV4`
unfoldable pub api_v4 : ZygiskNextApi
api_v4 = record {
  plt_hook = Function.plt_hook;
  inline_hook = Function.inline_hook;
  inline_unhook = Function.inline_unhook;
  new_symbol_resolver = Function.new_symbol_resolver;
  free_symbol_resolver = Function.free_symbol_resolver;
  get_base_address = Function.get_base_address;
  symbol_lookup = Function.symbol_lookup;
  for_each_symbols = Function.for_each_symbols;
  connect_companion = Function.connect_companion;
  get_runtime = Function.get_runtime;
}

-- `apiForVersion`
unfoldable pub api_for_version : (target_api_version : ℤ) → ZygiskNextApi
api_for_version (negsuc n) = api_v4
api_for_version (pos zero) = api_v4
api_for_version (pos (suc zero)) = api_v1
api_for_version (pos (suc (suc zero))) = api_v2
api_for_version (pos (suc (suc (suc zero)))) = api_v3
api_for_version (pos (suc (suc (suc (suc n))))) = api_v4

-- What a call through `getRuntime` of a table returns: the address of the runtime, or a null pointer.
unfoldable pub call_get_runtime : Function → (active : Bool) → (runtime : ℕ) → ℕ
call_get_runtime Function.get_runtime active runtime = if active then runtime else 0
call_get_runtime _ active runtime = 0

-- A module that declares the version 1, 2, 3 or more gets the hooks; the symbol resolver from version 2 on,
-- the companion from 3 on and the runtime from 4 on, and before that the stubs.
pub api_for_version_lem :
    (n : ℕ)
    → let v = suc n in
      let since : ℕ → Function → Function → Function = λ s f g. if leb s v then f else g in
      api_for_version (pos v) ≡ record {
        plt_hook = Function.plt_hook;
        inline_hook = Function.inline_hook;
        inline_unhook = Function.inline_unhook;
        new_symbol_resolver =
            since 2 Function.new_symbol_resolver Function.new_symbol_resolver_unavailable;
        free_symbol_resolver =
            since 2 Function.free_symbol_resolver Function.free_symbol_resolver_unavailable;
        get_base_address = since 2 Function.get_base_address Function.get_base_address_unavailable;
        symbol_lookup = since 2 Function.symbol_lookup Function.symbol_lookup_unavailable;
        for_each_symbols = since 2 Function.for_each_symbols Function.for_each_symbols_unavailable;
        connect_companion =
            since 3 Function.connect_companion Function.connect_companion_unavailable;
        get_runtime = since 4 Function.get_runtime Function.get_runtime_unavailable;
      }
unfolding api_for_version api_v1 api_v2 api_v3 api_v4
api_for_version_lem zero = refl
api_for_version_lem (suc zero) = refl
api_for_version_lem (suc (suc zero)) = refl
api_for_version_lem (suc (suc (suc n))) =
    let v = suc (suc (suc (suc n))) in
    rw (le→leb 2 v (omega arith), le→leb 3 v (omega arith), le→leb 4 v (omega arith)) refl
