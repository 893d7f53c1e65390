-- ===== src/Hook/Engine/Selected.antt =====
-- loader/src/hook/engine.cpp and loader/src/config/hooks.cpp: the engine in use is always one that the
-- processor has, and one whose library has started.
use zygisk_next_next.Base.{
  ◌≡◌, refl, true, false, Bytes, c_str, Option, none, some, arith, Bool-cases, inl, inr,
}
use zygisk_next_next.Hook.Engine.Names.{parse_inline_engine_iff, parse_plt_engine_iff}
use zygisk_next_next.Hook.Engine.{
  Arch, riscv, InlineEngine, dobby, shadow_hook, frida_gum, PltEngine, inline_engine_supported,
  plt_engine_supported, parse_inline_engine, parse_plt_engine, default_inline_engine,
  default_plt_engine, Engines, initial_engines, set_inline_engine, set_plt_engine, BackendInits,
  ensure_inline_engine_ready, ensure_plt_engine_ready, resolve_hook_engines,
}

-- Both engines in use are ones that the processor has.
pub record IsSupported (arch : Arch) (g : Engines) : Type 0 where
  pub inline_ok : inline_engine_supported arch g.inline ≡ true
  pub plt_ok : plt_engine_supported arch g.plt ≡ true

pub default-supported :
    (arch : Arch) → inline_engine_supported arch (default_inline_engine arch) ≡ true
unfolding inline_engine_supported default_inline_engine
default-supported riscv = refl
default-supported _ = refl

-- The engines that a process starts with are supported.
pub initial-IsSupported : (arch : Arch) → IsSupported arch (initial_engines arch)
unfolding initial_engines plt_engine_supported default_plt_engine
initial-IsSupported arch = record { inline_ok = default-supported arch; plt_ok = refl }

set_inline_engine-IsSupported :
    (arch : Arch) (e : InlineEngine) (g : Engines)
    → IsSupported arch g
    → IsSupported arch (set_inline_engine arch e g)
unfolding set_inline_engine
set_inline_engine-IsSupported arch e g h = ground arith

set_plt_engine-IsSupported :
    (arch : Arch) (e : PltEngine) (g : Engines)
    → IsSupported arch g
    → IsSupported arch (set_plt_engine arch e g)
unfolding set_plt_engine
set_plt_engine-IsSupported arch e g h = ground arith

pub ensure_inline-IsSupported :
    (arch : Arch) (b : BackendInits) (g : Engines)
    → IsSupported arch g
    → IsSupported arch (ensure_inline_engine_ready arch b g)
unfolding ensure_inline_engine_ready
ensure_inline-IsSupported arch b g h = ground (arith, default-supported arch)

-- `ensurePltEngineReady` leaves both engines supported by the processor.
pub ensure_plt-IsSupported :
    (arch : Arch) (b : BackendInits) (g : Engines)
    → IsSupported arch g
    → IsSupported arch (ensure_plt_engine_ready b g)
unfolding ensure_plt_engine_ready plt_engine_supported
ensure_plt-IsSupported arch b g h = ground arith

-- The library behind an engine, where it needs a start, has started.
abbrev pub IsStarted : BackendInits → InlineEngine → Type 0
IsStarted b shadow_hook = b.shadowhook_init ≡ true
IsStarted b frida_gum = b.frida_gum_init ≡ true
IsStarted b _ = Unit {0}

default-IsStarted : (arch : Arch) (b : BackendInits) → IsStarted b (default_inline_engine arch)
unfolding default_inline_engine
default-IsStarted riscv b = tt
default-IsStarted _ b = tt

ensure_cases :
    (arch : Arch) (b : BackendInits) (e : InlineEngine) (p : PltEngine)
    → IsStarted b (ensure_inline_engine_ready arch b (record { inline = e; plt = p })).inline
unfolding ensure_inline_engine_ready
ensure_cases arch b dobby p = tt
ensure_cases arch b shadow_hook p = elim (Bool-cases b.shadowhook_init) [
  | inl e ↦ rw e refl
  | inr e ↦ rw e (default-IsStarted arch (record b { shadowhook_init = false }))
]
ensure_cases arch b frida_gum p = elim (Bool-cases b.frida_gum_init) [
  | inl e ↦ rw e refl
  | inr e ↦ rw e (default-IsStarted arch (record b { frida_gum_init = false }))
]
ensure_cases arch b _ p = tt

-- After `ensureInlineEngineReady` both engines are supported and the library of the inline engine has
-- started; the PLT engine is as before.
pub ensure_inline_lem :
    (arch : Arch) (b : BackendInits) (g : Engines)
    → IsSupported arch g
    → let g' = ensure_inline_engine_ready arch b g in
      IsSupported arch g' × IsStarted b g'.inline × (g'.plt ≡ g.plt)
ensure_inline_lem arch b g h = (
  ensure_inline-IsSupported arch b g h,
  ensure_cases arch b g.inline g.plt,
  (unfold ensure_inline_engine_ready in ground arith),
)

keep_cases :
    (arch : Arch) (b : BackendInits) (e : InlineEngine) (p : PltEngine)
    → IsStarted b e
    → ensure_inline_engine_ready arch b (record { inline = e; plt = p })
      ≡ record { inline = e; plt = p }
unfolding ensure_inline_engine_ready
keep_cases arch b dobby p h = refl
keep_cases arch b shadow_hook p h = rw h
keep_cases arch b frida_gum p h = rw h
keep_cases arch b _ p h = refl

-- An engine that has started is kept, so a second call changes nothing.
pub ensure_inline-twice :
    (arch : Arch) (b : BackendInits) (g : Engines)
    → let g' = ensure_inline_engine_ready arch b g in ensure_inline_engine_ready arch b g' ≡ g'
ensure_inline-twice arch b g =
    let g' = ensure_inline_engine_ready arch b g in
    keep_cases arch b g'.inline g'.plt (ensure_cases arch b g.inline g.plt)

-- The engine that an option names, or the default.
abbrev pub chosen {ℓ} : {A : Type ℓ} → Option A → A → A
chosen none d = d
chosen (some e) d = e

chosen_inline-supported :
    (arch : Arch) (n : Bytes)
    → inline_engine_supported arch
        (chosen (parse_inline_engine arch (some n)) (default_inline_engine arch))
      ≡ true
chosen_inline-supported arch n = go (parse_inline_engine arch (some n)) refl
  where
    go :
        (o : Option InlineEngine)
        → parse_inline_engine arch (some n) ≡ o
        → inline_engine_supported arch (chosen o (default_inline_engine arch)) ≡ true
    go none e = default-supported arch
    go (some k) e = ((parse_inline_engine_iff arch n k).0 e).1

chosen_plt-supported :
    (arch : Arch) (n : Bytes)
    → plt_engine_supported arch (chosen (parse_plt_engine arch (some n)) default_plt_engine) ≡ true
chosen_plt-supported arch n = go (parse_plt_engine arch (some n)) refl
  where
    go :
        (o : Option PltEngine)
        → parse_plt_engine arch (some n) ≡ o
        → plt_engine_supported arch (chosen o default_plt_engine) ≡ true
    go none e = unfold default_plt_engine plt_engine_supported in refl
    go (some k) e = ((parse_plt_engine_iff arch n k).0 e).1

-- Whatever was in use, after `resolveHookEngines` each engine in use is the one that its option names,
-- or the default where the option names none that the processor has.
pub resolve_lem :
    (arch : Arch) (inline_name plt_name : Bytes) (g : Engines)
    → resolve_hook_engines arch inline_name plt_name g ≡ record {
      inline =
          chosen (parse_inline_engine arch (some (c_str inline_name))) (default_inline_engine arch);
      plt = chosen (parse_plt_engine arch (some (c_str plt_name))) default_plt_engine;
    }
unfolding resolve_hook_engines set_inline_engine set_plt_engine
resolve_lem arch inline_name plt_name g = ground (
  arith,
  chosen_inline-supported arch (c_str inline_name),
  chosen_plt-supported arch (c_str plt_name),
)
