-- ===== src/Hook/Tests.antt =====
-- loader/src/hook/: the theorems about the engines and the inline hooks at work.
use zygisk_next_next.Base.{
  ℕ, ◌≡◌, refl, Bool, true, false, List, [], ◌∷◌, codes, ◌==◌, if◌then◌else◌, some,
}
use zygisk_next_next.Hook.Engine.{arm64, shadow_hook, byte_hook, Engines, BackendInits}
use zygisk_next_next.Hook.Dispatch.{InlineBackends, HookState, contains, inline_hook}
use zygisk_next_next.Hook.Dispatch.Claims.{Claimed, inline_hook-Claimed}
use zygisk_next_next.Hook.Dispatch.Race.{
  calling, claimed, owner, System, update, Reach, Step, start, one_owner,
}
use zygisk_next_next.Elf.Maps.{MapEntry}
use zygisk_next_next.Hook.Plt.{find_mapping, first_loop, first_mapping_of_file, is_no_path}

-- Libraries that do not start, and engines that need them.
abbrev pub no_start : BackendInits
no_start = record { shadowhook_init = false; frida_gum_init = false; bytehook_init = false }

abbrev asking : Engines
asking = record { inline = shadow_hook; plt = byte_hook }

-- Libraries whose state is the list of the addresses that they patched; they refuse 7.
abbrev patch_even : ℕ → ℕ → ℕ → List ℕ → Bool × List ℕ
patch_even target replacement original w = if target == 7 then (false, w) else (true, target ∷ w)

abbrev patches : InlineBackends (List ℕ)
patches = record {
  dobby_hook = patch_even;
  dobby_unhook = λ target w. (contains target w, w);
  shadowhook_hook = patch_even;
  shadowhook_unhook = λ target w. (contains target w, w);
  and64inlinehook_hook = patch_even;
  and64inlinehook_unhook = λ target w. (contains target w, w);
  frida_gum_hook = patch_even;
  frida_gum_unhook = λ target w. (contains target w, w);
  rv64hook_hook = patch_even;
  rv64hook_unhook = λ target w. (contains target w, w);
}

abbrev one_hook : HookState (List ℕ)
one_hook = record { engines = asking; world = 4096 ∷ []; hooked = 4096 ∷ [] }

inline_hook-Claimed_example :
    Claimed patches arm64 no_start 7 one_hook (inline_hook patches arm64 no_start 7 8192 0 one_hook)
inline_hook-Claimed_example = inline_hook-Claimed patches arm64 no_start 7 8192 0 one_hook

-- Thread 3 hooks the address 5 alone.
abbrev five : ℕ → ℕ
five i = 5

abbrev won : System
won = record { hooked = 5 ∷ []; phase = update (update (λ i. calling) 3 claimed) 3 owner }

won-Reach : Reach five (start five) won
unfolding contains
won-Reach = Reach.next (Reach.next Reach.here (Step.take 3 refl refl)) (Step.succeed 3 refl)

one_owner_example : ◌≡◌ {A = ℕ} 3 3
one_owner_example = one_owner five won 3 3 won-Reach refl refl refl

-- A library with two mappings, and a copy of its first page that a reader made.
abbrev pub lib_maps : List MapEntry
lib_maps =
    record {
      start = 0x3000;
      end = 0x4000;
      offset = 0;
      dev = 1;
      inode = 40;
      perms = 1;
      is_private = true;
      path = codes "/l/liba.so";
    }
    ∷ record {
      start = 0x7000;
      end = 0x8000;
      offset = 0;
      dev = 1;
      inode = 40;
      perms = 1;
      is_private = true;
      path = codes "/l/liba.so";
    }
    ∷ record {
      start = 0x9000;
      end = 0xa000;
      offset = 0x2000;
      dev = 1;
      inode = 40;
      perms = 5;
      is_private = true;
      path = codes "/l/liba.so";
    }
    ∷ []

abbrev pub code_map : MapEntry
code_map = record {
  start = 0x9000;
  end = 0xa000;
  offset = 0x2000;
  dev = 1;
  inode = 40;
  perms = 5;
  is_private = true;
  path = codes "/l/liba.so";
}

pub code_found : find_mapping lib_maps 0x9010 ≡ some code_map
unfolding find_mapping
code_found = refl

pub has_path : is_no_path (first_mapping_of_file lib_maps code_map).path ≡ false
unfolding first_mapping_of_file first_loop
has_path = refl
