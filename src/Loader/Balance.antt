-- ===== src/Loader/Balance.antt =====
-- loader/src/module/loader.cpp: the descriptors that loading closes, and the modules that are called.
use zygisk_next_next.Base.{
  ℕ, suc, ◌+◌, ◌≡◌, refl, inl, inr, Bool, List, [], ◌∷◌, ◌++◌, ◌==◌, if◌then◌else◌, Option, none,
  some, Bool-cases, arith,
}
use zygisk_next_next.Boot.Plan.{PlanModule, Plan}
use zygisk_next_next.Companion.Channel.{Effect, bind_channel, channel_name}
use zygisk_next_next.Companion.Connect.{ModuleHandle}
use zygisk_next_next.Companion.Balance.{opens, closes, opens-append, closes-append, holds, held}
use zygisk_next_next.Loader.Api.{ZygiskNextApi}
use zygisk_next_next.Loader.Modules.{
  ZygiskNextModule, Answers, rtld_now, dlopen_fd, open_companion_channel, make_handle, Loaded,
  call_module, load_entry, load_entries, load_all,
}

-- All that was opened and closed, in order.
abbrev pub all_effects : List Loaded → List Effect
all_effects [] = []
all_effects (l ∷ ls) = l.effects ++ all_effects ls

-- How often the handles that modules were called with hold the descriptor.
abbrev pub call_holds : ℕ → Option (ModuleHandle × ZygiskNextApi) → ℕ
call_holds q none = 0
call_holds q (some (handle, api)) = held q handle

abbrev pub owned : ℕ → List Loaded → ℕ
owned q [] = 0
owned q (l ∷ ls) = call_holds q l.call + owned q ls

-- How often the plan names the descriptor.
abbrev pub files : ℕ → List PlanModule → ℕ
files q [] = 0
files q (m ∷ ms) = (if q == m.fd then 1 else 0) + files q ms

bind-Balanced :
    (s : Option ℕ) (bound listening : Bool) (q : ℕ)
    → let (fd, es) = bind_channel s bound listening in opens q es ≡ closes q es + holds q fd
unfolding bind_channel
bind-Balanced s bound listening q = ground arith

make_handle-Balanced :
    (a : Answers) (plan : Plan) (m : PlanModule) (q : ℕ)
    → let (h, es) = make_handle a plan m in opens q es ≡ closes q es + held q h
unfolding make_handle open_companion_channel
make_handle-Balanced a plan m q =
    let name = channel_name plan.nonce m.index in
    elim (Bool-cases m.companion) [
      | inl e ↦ rw e (
          omega
            (arith, bind-Balanced a.channel_socket (a.channel_bound name) a.channel_listening q))
      | inr e ↦ rw e refl
    ]

call_module-Balanced :
    (a : Answers) (plan : Plan) (m : PlanModule) (o : Option ZygiskNextModule) (q : ℕ)
    → let l = call_module a plan m o in
      (if q == m.fd then 1 else 0) + opens q l.effects ≡ closes q l.effects + call_holds q l.call
unfolding call_module
call_module-Balanced a plan m none q = omega arith
call_module-Balanced a plan m (some z) q = ground (arith, make_handle-Balanced a plan m q)

load_entry-Balanced :
    (a : Answers) (plan : Plan) (m : PlanModule) (q : ℕ)
    → let l = load_entry a plan m in
      (if q == m.fd then 1 else 0) + opens q l.effects ≡ closes q l.effects + call_holds q l.call
unfolding load_entry
load_entry-Balanced a plan m q =
    let lib = dlopen_fd a m.fd m.path rtld_now in
    elim (Bool-cases (lib == 0)) [
      | inl e ↦ rw e (omega arith)
      | inr e ↦ rw e (call_module-Balanced a plan m (a.zn_module lib) q)
    ]

load_entries-Balanced :
    (answers : ℕ → Answers) (plan : Plan) (i : ℕ) (ms : List PlanModule) (q : ℕ)
    → let ls = load_entries answers plan i ms in
      files q ms + opens q (all_effects ls) ≡ closes q (all_effects ls) + owned q ls
unfolding load_entries
load_entries-Balanced answers plan i [] q = refl
load_entries-Balanced answers plan i (m ∷ ms) q =
    let l = load_entry (answers i) plan m in
    let ls = load_entries answers plan (suc i) ms in
    omega (
      arith,
      load_entry-Balanced (answers i) plan m q,
      load_entries-Balanced answers plan (suc i) ms q,
      opens-append q l.effects (all_effects ls),
      closes-append q l.effects (all_effects ls),
    )

-- `loadAll` leaks no descriptor and closes none twice: whatever the linker and the system calls answer,
-- each descriptor of the plan and each that was opened is closed, or is held by the handle of a module
-- that was called, exactly as often as the plan names it or it was opened.
pub load_all-Balanced :
    (answers : ℕ → Answers) (plan : Plan) (q : ℕ)
    → let ls = load_all answers plan in
      files q plan.modules + opens q (all_effects ls) ≡ closes q (all_effects ls) + owned q ls
unfolding load_all
load_all-Balanced answers plan q = load_entries-Balanced answers plan 0 plan.modules q
