-- ===== src/Loader/Entry.antt =====
-- loader/src/entry.cpp: `znn_loader_init`, which the injector calls in the process.
use zygisk_next_next.Base.{
  ℕ, suc, ◌≡◌, refl, ◌++◌, Bool, true, false, ◌||◌, List, [], Bytes, codes, c_str, same, leb,
  if◌then◌else◌, pos, Option, none, some, ap, ◌∙◌, ◌&&◌,
}
use zygisk_next_next.Boot.Plan.{Plan, Outcome, fault, rejected, accepted, parse_plan}
use zygisk_next_next.Boot.Plan.Encode.{encode}
use zygisk_next_next.Boot.Plan.Entries.{IsPlan}
use zygisk_next_next.Boot.Plan.RoundTrip.{parse-encode}
use zygisk_next_next.Hook.Engine.{
  Arch, Engines, parse_inline_engine, parse_plt_engine, default_inline_engine, default_plt_engine,
  resolve_hook_engines,
}
use zygisk_next_next.Hook.Engine.Selected.{chosen, resolve_lem}
use zygisk_next_next.Debugdata.{Backend, resolve_debug_data_backend, parse_backend, parsed_or}
use zygisk_next_next.Hyos.State.{State}
use zygisk_next_next.Loader.Api.{Function, api_for_version_lem, api_for_version, call_get_runtime}
use zygisk_next_next.Loader.Process.{exe_name}
use zygisk_next_next.Loader.Modules.{Answers, Loaded, load_all}

-- The static variables that the entry sets.
pub record Process : Type 0 where
  pub engines : Engines
  pub debugdata : Backend
  pub hyos : State

-- `setActive`
unfoldable pub set_active : Bool → State → State
set_active value s = record s { active = value }

-- `znn_loader_init` behind `parsePlan`; `link` is the target of /proc/self/exe.
unfoldable pub run_plan :
    Arch → (link : Option Bytes) → (ℕ → Answers) → Plan → Process → Process × List Loaded
run_plan arch link answers plan g = (
  record {
    engines = resolve_hook_engines arch plan.inline_engine plan.plt_engine g.engines;
    debugdata = resolve_debug_data_backend plan.debugdata g.debugdata;
    hyos = if same (exe_name link) (codes "hyos_spawner") then set_active true g.hyos else g.hyos;
  },
  load_all answers plan,
)

-- `znn_loader_init` with what `parsePlan` answers
unfoldable pub on_plan :
    Arch
    → (link : Option Bytes) → (ℕ → Answers)
    → Process
    → Outcome Plan
    → Outcome (Process × List Loaded)
on_plan arch link answers g fault = fault
on_plan arch link answers g rejected = accepted (g, [])
on_plan arch link answers g (accepted plan) = accepted (run_plan arch link answers plan g)

-- `znn_loader_init`: the process behind it and what loading did, or a fault of the parser. The argument
-- `raw` is the bytes from the plan on, none for a null pointer.
unfoldable pub loader_init :
    Arch
    → (link : Option Bytes) → (ℕ → Answers)
    → (raw : Option Bytes) → Process
    → Outcome (Process × List Loaded)
loader_init arch link answers raw g = on_plan arch link answers g (parse_plan raw)

debug_data_lem :
    (name : Bytes) (in_use : Backend)
    → resolve_debug_data_backend name in_use ≡ chosen (parse_backend (c_str name)) in_use
unfolding resolve_debug_data_backend
debug_data_lem name in_use = go (parse_backend (c_str name))
  where
    go : (o : Option Backend) → parsed_or o in_use ≡ chosen o in_use
    go none = refl
    go (some b) = refl

active_lem :
    (b : Bool) (s : State)
    → (if b then set_active true s else s) ≡ record s { active = b || s.active }
unfolding set_active
active_lem true s = refl
active_lem false s = refl

on_plan-accepted :
    (arch : Arch) (link : Option Bytes) (answers : ℕ → Answers) (p : Plan) (g : Process)
    → on_plan arch link answers g (accepted p)
      ≡ accepted (
        record {
          engines = record {
            inline =
                chosen
                  (parse_inline_engine arch (some (c_str p.inline_engine)))
                  (default_inline_engine arch);
            plt = chosen (parse_plt_engine arch (some (c_str p.plt_engine))) default_plt_engine;
          };
          debugdata = chosen (parse_backend (c_str p.debugdata)) g.debugdata;
          hyos = record g.hyos {
            active = same (exe_name link) (codes "hyos_spawner") || g.hyos.active;
          };
        },
        load_all answers p,
      )
unfolding on_plan run_plan
on_plan-accepted arch link answers p g =
    rw
      (
        resolve_lem arch p.inline_engine p.plt_engine g.engines,
        debug_data_lem p.debugdata g.debugdata,
        active_lem (same (exe_name link) (codes "hyos_spawner")) g.hyos,
      )
      refl

-- The entry on what the injector encoded: each option of the plan takes effect where it names something
-- that there is, the runtime becomes active in the HYOS spawner and is as before elsewhere, and the
-- modules are loaded from the plan itself.
pub loader_init-encode :
    (arch : Arch) (link : Option Bytes) (answers : ℕ → Answers) (p : Plan) (raw extra : Bytes)
    (g : Process)
    → IsPlan p
    → encode p ≡ some raw
    → loader_init arch link answers (some (raw ++ extra)) g
      ≡ accepted (
        record {
          engines = record {
            inline =
                chosen
                  (parse_inline_engine arch (some (c_str p.inline_engine)))
                  (default_inline_engine arch);
            plt = chosen (parse_plt_engine arch (some (c_str p.plt_engine))) default_plt_engine;
          };
          debugdata = chosen (parse_backend (c_str p.debugdata)) g.debugdata;
          hyos = record g.hyos {
            active = same (exe_name link) (codes "hyos_spawner") || g.hyos.active;
          };
        },
        load_all answers p,
      )
unfolding loader_init
loader_init-encode arch link answers p raw extra g ok e =
    ap (on_plan arch link answers g) (parse-encode p raw extra ok e)
    ∙ on_plan-accepted arch link answers p g

-- A module that declares the version `v` gets the runtime exactly in a process where it is active, and
-- only from version 4 on.
pub get_runtime-gated :
    (n : ℕ) (active : Bool) (runtime : ℕ)
    → let table = api_for_version (pos (suc n)) in
      call_get_runtime table.get_runtime active runtime
      ≡ (if leb 4 (suc n) && active then runtime else 0)
unfolding call_get_runtime
get_runtime-gated n active runtime = rw (api_for_version_lem n) (go (leb 4 (suc n)))
  where
    go :
        (b : Bool)
        → call_get_runtime
            (if b then Function.get_runtime else Function.get_runtime_unavailable)
            active
            runtime
          ≡ (if b && active then runtime else 0)
    go true = refl
    go false = refl
