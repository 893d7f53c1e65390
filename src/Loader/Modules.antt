-- ===== src/Loader/Modules.antt =====
-- loader/src/module/loader.cpp and loader/src/utils/dlext.cpp: how a module of the boot plan is loaded.
use zygisk_next_next.Base.{
  ℕ, suc, Bool, true, false, not, ◌&&◌, List, [], ◌∷◌, Bytes, codes, replicate, leb, ◌==◌,
  if◌then◌else◌, Option, none, some, ℤ, pos, negsuc,
}
use zygisk_next_next.Boot.Plan.{PlanModule, Plan}
use zygisk_next_next.Companion.Channel.{Effect, closed, bind_channel, channel_name}
use zygisk_next_next.Companion.Connect.{ModuleHandle}
use zygisk_next_next.Loader.Api.{ZygiskNextApi, api_for_version}

-- `ZygiskNextModule`, what a library exports as `zn_module`; `has_callback` says whether
-- `onModuleLoaded` is not null.
pub record ZygiskNextModule : Type 0 where
  pub target_api_version : ℤ
  pub has_callback : Bool

-- ZYGISK_NEXT_API_VERSION
abbrev pub api_version_max : ℕ
api_version_max = 4

-- `android_dlextinfo`
pub record ExtInfo : Type 0 where
  pub flags : ℕ
  pub library_fd : ℕ

-- ANDROID_DLEXT_USE_LIBRARY_FD, RTLD_NOW
abbrev pub use_library_fd : ℕ
use_library_fd = 0x10

abbrev pub rtld_now : ℕ
rtld_now = 2

-- What the process answers while one module is loaded: `resolveLibrarySymbol`, `dlsym` in all libraries,
-- the function at an address called as `android_dlopen_ext`, `dlsym` of `zn_module` in the library, and
-- the system calls of `bindChannel` for a name. Addresses are 0 for a null pointer.
pub record Answers : Type 0 where
  pub resolve_library_symbol : Bytes → Bytes → ℕ
  pub dlsym_default : Bytes → ℕ
  pub dlopen_ext : (function : ℕ) → Bytes → (flags : ℕ) → ExtInfo → ℕ
  pub zn_module : (lib : ℕ) → Option ZygiskNextModule
  pub channel_socket : Option ℕ
  pub channel_bound : Bytes → Bool
  pub channel_listening : Bool

-- The loop of `resolveDlopenExt` over the names of the linker.
unfoldable pub linker_loop : (Bytes → Bytes → ℕ) → List Bytes → ℕ
linker_loop resolve [] = 0
linker_loop resolve (linker ∷ linkers) =
    let rest = linker_loop resolve linkers in
    let address = resolve linker (codes "__loader_android_dlopen_ext") in
    if not (address == 0) then address else rest

-- `resolveDlopenExt`
unfoldable pub resolve_dlopen_ext : Answers → ℕ
resolve_dlopen_ext a =
    let address = linker_loop a.resolve_library_symbol (codes "linker64" ∷ codes "linker" ∷ []) in
    if not (address == 0) then address else a.dlsym_default (codes "android_dlopen_ext")

-- `dlopenFd`
unfoldable pub dlopen_fd : Answers → (fd : ℕ) → (name : Bytes) → (flags : ℕ) → ℕ
dlopen_fd a fd name flags =
    let function = resolve_dlopen_ext a in
    if function == 0
    then 0
    else a.dlopen_ext function name flags (record { flags = use_library_fd; library_fd = fd })

-- `openCompanionChannel`
unfoldable pub open_companion_channel : Answers → Plan → PlanModule → Option ℕ × List Effect
open_companion_channel a plan m =
    bind_channel a.channel_socket (a.channel_bound (channel_name plan.nonce m.index))
      a.channel_listening

-- `new ModuleHandle()` with the path of the library
abbrev pub new_handle : Bytes → ModuleHandle
new_handle path = record {
  lib_path = path;
  has_companion = false;
  companion_nonce = 0;
  companion_index = 0;
  companion_token = replicate 16 0;
  companion_listen_fd = none;
  companion_channel = none;
}

-- The handle of a module, and what its channel opens and closes.
unfoldable pub make_handle : Answers → Plan → PlanModule → ModuleHandle × List Effect
make_handle a plan entry =
    let (fd, effects) = open_companion_channel a plan entry in
    if entry.companion
    then (
      record (new_handle entry.path) {
        has_companion = true;
        companion_nonce = plan.nonce;
        companion_index = entry.index;
        companion_token = plan.token;
        companion_listen_fd = fd;
      },
      effects,
    )
    else (new_handle entry.path, [])

-- The version is not below 1 and not above ZYGISK_NEXT_API_VERSION.
unfoldable pub is_supported : ℤ → Bool
is_supported (negsuc n) = false
is_supported (pos n) = leb 1 n && leb n api_version_max

-- What a call of `loadEntry` does: the descriptors that it opens and closes, then the call of
-- `onModuleLoaded`, if there is one.
pub record Loaded : Type 0 where
  pub effects : List Effect
  pub call : Option (ModuleHandle × ZygiskNextApi)

-- `loadEntry` behind `close`: the handle is built and the module is called, for a library that exports
-- what is asked of it.
unfoldable pub call_module : Answers → Plan → PlanModule → Option ZygiskNextModule → Loaded
call_module a plan entry none = record { effects = closed entry.fd ∷ []; call = none }
call_module a plan entry (some m) =
    let (handle, effects) = make_handle a plan entry in
    if not m.has_callback
    then record { effects = closed entry.fd ∷ []; call = none }
    else if not (is_supported m.target_api_version)
    then record { effects = closed entry.fd ∷ []; call = none }
    else record {
      effects = closed entry.fd ∷ effects;
      call = some (handle, api_for_version m.target_api_version);
    }

-- `loadEntry`
unfoldable pub load_entry : Answers → Plan → PlanModule → Loaded
load_entry a plan entry =
    let lib = dlopen_fd a entry.fd entry.path rtld_now in
    if lib == 0
    then record { effects = closed entry.fd ∷ []; call = none }
    else call_module a plan entry (a.zn_module lib)

-- The loop of `loadAll` from its entry number `i` on; each entry has answers of its own.
unfoldable pub load_entries : (ℕ → Answers) → Plan → (i : ℕ) → List PlanModule → List Loaded
load_entries answers plan i [] = []
load_entries answers plan i (entry ∷ entries) =
    load_entry (answers i) plan entry ∷ load_entries answers plan (suc i) entries

-- `loadAll`
unfoldable pub load_all : (ℕ → Answers) → Plan → List Loaded
load_all answers plan = load_entries answers plan 0 plan.modules
