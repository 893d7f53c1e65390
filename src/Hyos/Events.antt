-- ===== src/Hyos/Events.antt =====
-- loader/src/hyos: what happens in one process, as a sequence of events.
pub mod Once
pub mod First
use zygisk_next_next.Base.{ℕ, Bool, true, false, List, [], ◌∷◌, ◌++◌, Bytes, Option, none, some, ℤ}
use zygisk_next_next.Elf.Maps.{MapEntry}
use zygisk_next_next.Hyos.State.{HyosModule, State}
use zygisk_next_next.Hyos.Hooks.{Installer, at_fork_child, at_fork_prepare}
use zygisk_next_next.Hyos.Runtime.{Call, setcontext_hook, setname_hook, register_module, fork_hook}

-- A call that reaches the runtime. `setcontext`, `setname` and `fork` carry what the original returns,
-- `register` and `fork` the mappings of that moment.
pub data Event : Type 0 where
  prepare child : Event
  setcontext : (answer : ℤ) → (thread_name pkg_name se_info : Option Bytes) → Event
  setname : (answer : ℤ) → (self thread : ℕ) → Option Bytes → Event
  fork : List MapEntry → (answer : ℤ) → Event
  register : List MapEntry → Option HyosModule → Event

module _ {W : Type 0} (installer : Installer W) where
  -- The callbacks that an event calls, and the states after it.
  unfoldable pub handle : Event → State × W → List Call × State × W
  handle prepare (s, w) = ([], at_fork_prepare s, w)
  handle child (s, w) = ([], at_fork_child s, w)
  handle (setcontext answer thread_name pkg_name se_info) (s, w) =
      let (ret, calls, s') = setcontext_hook answer thread_name pkg_name se_info s in (calls, s', w)
  handle (setname answer self thread name) (s, w) =
      let (ret, s') = setname_hook answer self thread name s in ([], s', w)
  handle (fork maps answer) (s, w) =
      let (res, s', w') = fork_hook installer maps answer (s, w) in ([], s', w')
  handle (register maps m) (s, w) =
      let (status, s', w') = register_module installer maps m (s, w) in ([], s', w')

  -- All callbacks that a sequence of events calls.
  unfoldable pub handle_all : List Event → State × W → List Call
  handle_all [] sw = []
  handle_all (e ∷ es) sw = let (calls, s', w') = handle e sw in calls ++ handle_all es (s', w')
