-- ===== src/Hyos/Tests.antt =====
-- loader/src/hyos: the theorems about the runtime at work.
use zygisk_next_next.Base.{
  arith, Bytes, ℕ, ◌+◌, ◌≡◌, refl, true, List, [], ◌∷◌, codes, none, some, pos, negsuc, map, ◌++◌,
  ◌⊎◌, arith, replicate,
}
use zygisk_next_next.Elf.Maps.{MapEntry}
use zygisk_next_next.Hyos.Capture.{
  idle, copying, delivering, reading, finished, System, update, Step, Reach, start, told-IsWhole,
}
use zygisk_next_next.Hyos.State.{NameState}
use zygisk_next_next.Hyos.State.{HyosModule, State, initial_state, no_module}
use zygisk_next_next.Hyos.Hooks.{Installer, install_hooks, at_fork_child}
use zygisk_next_next.Hyos.Hooks.Kept.{Installed, install_hooks-Installed}
use zygisk_next_next.Hyos.Runtime.{register_module}
use zygisk_next_next.Hyos.Events.{Event, prepare, child, setcontext, setname, fork, handle_all}
use zygisk_next_next.Hyos.Events.Once.{handle_all-once, Delivered}
use zygisk_next_next.Hyos.Events.First.{args_of, handle_all-first}
use zygisk_next_next.Hyos.Modules.{
  IsTable, registered, Registered, call_of, register_module-Registered,
}

-- Functions that always hook and count what they hooked.
abbrev installer : Installer ℕ
installer = record {
  plt_hook = λ base symbol w. (some (base + 8), w + 1);
  default_symbol = λ symbol. 500;
  open_symbol = λ library symbol w. (600, w);
  inline_hook = λ target symbol old w. (target + 1, w + 1);
}

abbrev spawner_maps : List MapEntry
spawner_maps =
    record {
      start = 4096;
      end = 8192;
      offset = 0;
      dev = 1;
      inode = 30;
      perms = 5;
      is_private = true;
      path = codes "/bin/hyos_spawner";
    }
    ∷ []

abbrev a_module : HyosModule
a_module = record { target_api_version = pos 1; on_app_specialized = 77 }

-- A process that has hooked `fork` and the two others, with one module.
abbrev hooked_state : State
hooked_state = record initial_state {
  modules = a_module ∷ replicate 3 no_module;
  module_count = 1;
  orig_fork = 10;
  orig_setcontext = 11;
  orig_setname = 12;
}

install_hooks-Installed_example :
    Installed installer hooked_state 0 (install_hooks installer spawner_maps (hooked_state, 0))
install_hooks-Installed_example = install_hooks-Installed installer spawner_maps hooked_state 0

initial-IsTable : IsTable hooked_state
initial-IsTable = record { slots = refl; counted = omega arith }

register_module-Registered_example :
    Registered installer a_module
      (hooked_state, 0)
      (register_module installer spawner_maps (some a_module) (hooked_state, 0))
register_module-Registered_example =
    register_module-Registered installer spawner_maps a_module hooked_state 0 initial-IsTable

-- What an app's process sees: a name, the context twice, and a fork of its own.
abbrev app_events : List Event
app_events =
    setname (pos 0) 5 5 (some (codes "app"))
    ∷ setcontext (pos 0) none (some (codes "p")) none
    ∷ prepare
    ∷ fork spawner_maps (pos 400)
    ∷ setcontext (pos 0) none (some (codes "q")) none
    ∷ []

handle_all-once_example :
    let calls = handle_all installer app_events (at_fork_child hooked_state, 0) in
    (calls ≡ []) ⊎ Delivered installer app_events (at_fork_child hooked_state) 0 calls
handle_all-once_example =
    handle_all-once installer app_events (at_fork_child hooked_state) 0
      (tt, (tt, (tt, (refl, (tt, tt)))))

-- A child names itself, fails once to take its context, is named again and takes it, and forks then.
handle_all-first_example :
    handle_all installer
      (child
          ∷ setname (pos 0) 5 5 (some (codes "app"))
          ∷ (setcontext (negsuc 0) none (some (codes "p")) none
              ∷ setname (pos 0) 5 5 (some (codes "other"))
              ∷ [])
        ++ setcontext (pos 0) none (some (codes "p")) none ∷ fork spawner_maps (pos 400) ∷ [])
      (hooked_state, 0)
    ≡ map (call_of (args_of (codes "app") (some (codes "p")) none)) (registered hooked_state)
handle_all-first_example =
    handle_all-first installer hooked_state 0 5 b'a' (codes "pp")
      (setcontext (negsuc 0) none (some (codes "p")) none
        ∷ setname (pos 0) 5 5 (some (codes "other"))
        ∷ [])
      (fork spawner_maps (pos 400) ∷ []) none (some (codes "p")) none (omega arith) (omega arith)
      (omega arith) (omega arith, tt) (refl, (tt, tt)) (refl, tt)

-- Thread 0 captures its name, of one byte, and thread 1 delivers it.
abbrev thread_name : ℕ → Bytes
thread_name i = 5 ∷ []

abbrev claimed : System
claimed = record start { name_state = NameState.writing; phase = update (λ i. idle) 0 (copying 0) }

abbrev copied : System
copied = record claimed { captured = 5 ∷ []; phase = update claimed.phase 0 (copying 1) }

abbrev published : System
published = record copied { name_state = NameState.ready; phase = update copied.phase 0 finished }

abbrev fired_system : System
fired_system = record published { fired = true; phase = update published.phase 1 delivering }

abbrev seen : System
seen = record fired_system { phase = update fired_system.phase 1 reading }

abbrev told_system : System
told_system = record seen { phase = update seen.phase 1 finished; told = some (some (5 ∷ [])) }

told_system-Reach : Reach thread_name start told_system
told_system-Reach =
    let r1 : Reach thread_name start claimed = Reach.next Reach.here (Step.claim 0 refl refl) in
    let r2 : Reach thread_name start copied = Reach.next r1 (Step.copy 0 0 refl (omega arith)) in
    let r3 : Reach thread_name start published = Reach.next r2 (Step.publish 0 1 refl refl) in
    let r4 : Reach thread_name start fired_system = Reach.next r3 (Step.fire 1 refl refl) in
    let r5 : Reach thread_name start seen = Reach.next r4 (Step.see_ready 1 refl refl) in
    Reach.next r5 (Step.tell 1 refl)

told-IsWhole_example : (i : ℕ) × (5 ∷ [] ≡ thread_name i)
told-IsWhole_example = told-IsWhole thread_name told_system (5 ∷ []) told_system-Reach refl
