-- ===== src/Hook/Engine.antt =====
-- loader/src/hook/engine.cpp, engine.h and loader/src/config/hooks.cpp: which engine hooks. The
-- processor that the loader is built for, which the `#if`s test, is an argument.
pub mod Names
pub mod Selected
use zygisk_next_next.Base.{
  ℕ, Bool, true, false, Bytes, codes, same, c_str, if◌then◌else◌, Option, none, some, ◌>>=◌, not,
}

-- `__aarch64__`, `__arm__`, `__riscv`, or an x86 processor.
pub data Arch : Type 0 where
  arm64 arm32 riscv x86 : Arch

pub data InlineEngine : Type 0 where
  dobby shadow_hook and64_inline_hook frida_gum rv64_hook disable : InlineEngine

pub data PltEngine : Type 0 where
  lsplt byte_hook x_hook plti disable : PltEngine

unfoldable pub inline_engine_name : InlineEngine → Bytes
inline_engine_name dobby = codes "dobby"
inline_engine_name shadow_hook = codes "shadowhook"
inline_engine_name and64_inline_hook = codes "and64inlinehook"
inline_engine_name frida_gum = codes "frida-gum"
inline_engine_name rv64_hook = codes "rv64hook"
inline_engine_name InlineEngine.disable = codes "disable"

unfoldable pub plt_engine_name : PltEngine → Bytes
plt_engine_name lsplt = codes "lsplt"
plt_engine_name byte_hook = codes "bytehook"
plt_engine_name x_hook = codes "xhook"
plt_engine_name plti = codes "plti"
plt_engine_name PltEngine.disable = codes "disable"

-- `#ifndef __riscv`
abbrev pub not_riscv : Arch → Bool
not_riscv riscv = false
not_riscv _ = true

-- `#if defined(__aarch64__) || defined(__arm__)`
abbrev pub is_arm : Arch → Bool
is_arm arm64 = true
is_arm arm32 = true
is_arm _ = false

-- `#if defined(__aarch64__)`
abbrev pub is_arm64 : Arch → Bool
is_arm64 arm64 = true
is_arm64 _ = false

unfoldable pub inline_engine_supported : Arch → InlineEngine → Bool
inline_engine_supported arch dobby = not_riscv arch
inline_engine_supported arch shadow_hook = is_arm arch
inline_engine_supported arch and64_inline_hook = is_arm64 arch
inline_engine_supported arch frida_gum = not_riscv arch
inline_engine_supported arch rv64_hook = not (not_riscv arch)
inline_engine_supported arch InlineEngine.disable = true

unfoldable pub plt_engine_supported : Arch → PltEngine → Bool
plt_engine_supported arch lsplt = true
plt_engine_supported arch byte_hook = not_riscv arch
plt_engine_supported arch x_hook = not_riscv arch
plt_engine_supported arch plti = true
plt_engine_supported arch PltEngine.disable = true

unfoldable pub default_inline_engine : Arch → InlineEngine
default_inline_engine riscv = rv64_hook
default_inline_engine _ = dobby

unfoldable pub default_plt_engine : PltEngine
default_plt_engine = lsplt

-- The `strcmp` ladder of `parseInlineEngine`.
unfoldable pub inline_engine_named : Bytes → Option InlineEngine
inline_engine_named name =
    if same name (codes "dobby")
    then some dobby
    else if same name (codes "shadowhook")
    then some shadow_hook
    else if same name (codes "and64inlinehook")
    then some and64_inline_hook
    else if same name (codes "frida-gum")
    then some frida_gum
    else if same name (codes "rv64hook")
    then some rv64_hook
    else if same name (codes "disable")
    then some InlineEngine.disable
    else none

-- `parseInlineEngine`: what `*out` is given, or none for false. No name is a null pointer.
unfoldable pub parse_inline_engine : Arch → Option Bytes → Option InlineEngine
parse_inline_engine arch name = do
  n ← name
  e ← inline_engine_named n
  if inline_engine_supported arch e then some e else none

-- The `strcmp` ladder of `parsePltEngine`.
unfoldable pub plt_engine_named : Bytes → Option PltEngine
plt_engine_named name =
    if same name (codes "lsplt")
    then some lsplt
    else if same name (codes "bytehook")
    then some byte_hook
    else if same name (codes "xhook")
    then some x_hook
    else if same name (codes "plti")
    then some plti
    else if same name (codes "disable")
    then some PltEngine.disable
    else none

unfoldable pub parse_plt_engine : Arch → Option Bytes → Option PltEngine
parse_plt_engine arch name = do
  n ← name
  e ← plt_engine_named n
  if plt_engine_supported arch e then some e else none

-- `g_inline_engine` and `g_plt_engine`.
pub record Engines : Type 0 where
  pub inline : InlineEngine
  pub plt : PltEngine

unfoldable pub initial_engines : Arch → Engines
initial_engines arch = record { inline = default_inline_engine arch; plt = default_plt_engine }

unfoldable pub set_inline_engine : Arch → InlineEngine → Engines → Engines
set_inline_engine arch e g = if inline_engine_supported arch e then record g { inline = e } else g

unfoldable pub set_plt_engine : Arch → PltEngine → Engines → Engines
set_plt_engine arch e g = if plt_engine_supported arch e then record g { plt = e } else g

-- What `shadowhookInit`, `fridaGumInit` and `bytehookInit` return in this process.
pub record BackendInits : Type 0 where
  pub shadowhook_init : Bool
  pub frida_gum_init : Bool
  pub bytehook_init : Bool

-- `ensureInlineEngineReady`
unfoldable pub ensure_inline_engine_ready : Arch → BackendInits → Engines → Engines
ensure_inline_engine_ready arch b g =
    let ready : Bool = elim g.inline [
      | shadow_hook ↦ b.shadowhook_init
      | frida_gum ↦ b.frida_gum_init
      | _ ↦ true
    ] in
    if ready then g else record g { inline = default_inline_engine arch }

-- `g_plt_engine != PltEngine::kByteHook`
abbrev pub not_byte_hook : PltEngine → Bool
not_byte_hook byte_hook = false
not_byte_hook _ = true

-- `ensurePltEngineReady`
unfoldable pub ensure_plt_engine_ready : BackendInits → Engines → Engines
ensure_plt_engine_ready b g =
    if not_byte_hook g.plt then g else if b.bytehook_init then g else record g { plt = lsplt }

-- `config::resolveHookEngines`
unfoldable pub resolve_hook_engines : Arch → (inline_name plt_name : Bytes) → Engines → Engines
resolve_hook_engines arch inline_name plt_name g =
    let inline_engine : InlineEngine = elim (parse_inline_engine arch (some (c_str inline_name))) [
      | none ↦ default_inline_engine arch
      | some e ↦ e
    ] in
    let plt_engine : PltEngine = elim (parse_plt_engine arch (some (c_str plt_name))) [
      | none ↦ default_plt_engine
      | some e ↦ e
    ] in
    set_plt_engine arch plt_engine (set_inline_engine arch inline_engine g)
