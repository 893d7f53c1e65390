-- ===== src/Hyos/State.antt =====
-- loader/src/hyos/state.h: the runtime's state, which a forked child inherits.
use zygisk_next_next.Base.{ℕ, Bool, false, List, [], Bytes, ℤ, pos, replicate}

-- kMaxModules
abbrev pub max_modules : ℕ
max_modules = 4

-- ZYGISK_NEXT_HYOS_API_VERSION
abbrev pub api_version : ℕ
api_version = 1

-- `ZygiskNextHyosModule`; `on_app_specialized` is the callback's address, 0 for none.
pub record HyosModule : Type 0 where
  pub target_api_version : ℤ
  pub on_app_specialized : ℕ

abbrev pub no_module : HyosModule
no_module = record { target_api_version = pos 0; on_app_specialized = 0 }

-- kNameEmpty, kNameWriting, kNameReady
pub data NameState : Type 0 where
  empty writing ready : NameState

-- `SpawnerImage`
pub record SpawnerImage : Type 0 where
  pub dev : ℕ
  pub inode : ℕ
  pub base : ℕ

-- `State`, with `g_reinstall` of hooks.cpp and how often `pthread_atfork` was called. A function is its
-- address, 0 for a null pointer.
pub record State : Type 0 where
  pub active : Bool
  pub modules : List HyosModule
  pub module_count : ℕ
  pub in_child : Bool
  pub fired : Bool
  pub warned : Bool
  pub plt_fork_tried : Bool
  pub plt_ctx_tried : Bool
  pub orig_fork : ℕ
  pub orig_setcontext : ℕ
  pub orig_setname : ℕ
  pub spawner : SpawnerImage
  pub captured_name : Bytes
  pub name_state : NameState
  pub reinstall : Bool
  pub atfork_calls : ℕ

-- `g_state` before anything happens.
abbrev pub initial_state : State
initial_state = record {
  active = false;
  modules = replicate max_modules no_module;
  module_count = 0;
  in_child = false;
  fired = false;
  warned = false;
  plt_fork_tried = false;
  plt_ctx_tried = false;
  orig_fork = 0;
  orig_setcontext = 0;
  orig_setname = 0;
  spawner = record { dev = 0; inode = 0; base = 0 };
  captured_name = [];
  name_state = empty;
  reinstall = false;
  atfork_calls = 0;
}
