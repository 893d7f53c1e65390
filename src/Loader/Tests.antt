-- ===== src/Loader/Tests.antt =====
-- loader/src/entry.cpp and module/loader.cpp: the theorems at work on the plan of Boot/Tests.antt.
use zygisk_next_next.Base.{
  ℕ, ◌+◌, ◌≡◌, ◌++◌, ◌||◌, true, false, [], ◌∷◌, Bytes, codes, c_str, same, some, pos, Option,
}
use zygisk_next_next.Boot.Plan.{PlanModule, accepted}
use zygisk_next_next.Boot.Tests.{two_modules, two_modules-IsPlan, encoded, encode-two_modules}
use zygisk_next_next.Hook.Engine.{
  arm64, initial_engines, parse_inline_engine, parse_plt_engine, default_inline_engine,
  default_plt_engine,
}
use zygisk_next_next.Hook.Engine.Selected.{chosen}
use zygisk_next_next.Debugdata.{Backend, parse_backend}
use zygisk_next_next.Hyos.State.{initial_state}
use zygisk_next_next.Companion.Balance.{opens, closes}
use zygisk_next_next.Loader.Process.{exe_name}
use zygisk_next_next.Loader.Modules.{Answers, load_entry, load_all}
use zygisk_next_next.Loader.Balance.{files, all_effects, owned, load_all-Balanced}
use zygisk_next_next.Loader.Served.{exported, IsServed, load_entry-IsServed}
use zygisk_next_next.Loader.Entry.{Process, loader_init, loader_init-encode}

-- A process whose linker opens every library; each declares version 3.
abbrev answers : ℕ → Answers
answers i = record {
  resolve_library_symbol = λ library symbol. 0;
  dlsym_default = λ symbol. 0x7000;
  dlopen_ext = λ function name flags info. 0x9000 + info.library_fd;
  zn_module = λ lib. some (record { target_api_version = pos 3; has_callback = true });
  channel_socket = some (40 + i);
  channel_bound = λ name. true;
  channel_listening = true;
}

abbrev process : Process
process = record { engines = initial_engines arm64; debugdata = Backend.xz; hyos = initial_state }

abbrev link : Option Bytes
link = some (codes "/system/bin/hyos_spawner (deleted)")

loader_init-encode_example :
    loader_init arm64 link answers (some (encoded ++ 9 ∷ [])) process
    ≡ accepted (
      record {
        engines = record {
          inline =
              chosen
                (parse_inline_engine arm64 (some (c_str two_modules.inline_engine)))
                (default_inline_engine arm64);
          plt =
              chosen
                (parse_plt_engine arm64 (some (c_str two_modules.plt_engine)))
                default_plt_engine;
        };
        debugdata = chosen (parse_backend (c_str two_modules.debugdata)) Backend.xz;
        hyos = record initial_state {
          active = same (exe_name link) (codes "hyos_spawner") || false;
        };
      },
      load_all answers two_modules,
    )
loader_init-encode_example =
    loader_init-encode arm64 link answers two_modules encoded (9 ∷ []) process two_modules-IsPlan
      encode-two_modules

load_all-Balanced_example :
    let ls = load_all answers two_modules in
    files 12 two_modules.modules + opens 12 (all_effects ls)
    ≡ closes 12 (all_effects ls) + owned 12 ls
load_all-Balanced_example = load_all-Balanced answers two_modules 12

abbrev entry : PlanModule
entry = record { fd = 12; companion = true; index = 0; path = codes "/m/a.so" }

load_entry-IsServed_example :
    IsServed
      (answers 0)
      two_modules
      entry
      (exported (answers 0) entry)
      (load_entry (answers 0) two_modules entry)
load_entry-IsServed_example = load_entry-IsServed (answers 0) two_modules entry
