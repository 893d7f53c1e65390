-- ===== src/Loader/Served.antt =====
-- loader/src/module/loader.cpp: which modules are called, and with what.
use zygisk_next_next.Base.{
  ◌≤◌, ◌≡◌, refl, ◌↔◌, ◌⊎◌, inl, inr, replicate, true, false, ◌==◌, if◌then◌else◌, Option, none,
  some, ℤ, pos, negsuc, Bool-cases, arith,
}
use zygisk_next_next.Boot.Plan.{PlanModule, Plan}
use zygisk_next_next.Companion.Connect.{ModuleHandle}
use zygisk_next_next.Loader.Api.{api_for_version}
use zygisk_next_next.Loader.Modules.{
  ZygiskNextModule, Answers, rtld_now, dlopen_fd, open_companion_channel, make_handle, is_supported,
  Loaded, call_module, load_entry,
}

-- What the library exports, none where it cannot be opened.
abbrev pub exported : Answers → PlanModule → Option ZygiskNextModule
exported a m =
    let lib = dlopen_fd a m.fd m.path rtld_now in if lib == 0 then none else a.zn_module lib

-- The versions of the API that there are.
abbrev pub IsVersion : ℤ → Type 0
IsVersion (negsuc n) = ⊥
IsVersion (pos n) = (1 ≤ n) × (n ≤ 4)

supported_iff : (v : ℤ) → (is_supported v ≡ true) ↔ IsVersion v
unfolding is_supported
supported_iff (negsuc n) = (λ h. cc h, λ h. absurd h)
supported_iff (pos n) = ground arith

-- What the handle of a module holds: its path, and for one with a companion the plan's nonce and token,
-- its index and the socket that listens under the name of its channel.
abbrev pub IsHandle : Answers → Plan → PlanModule → ModuleHandle → Type 0
IsHandle a plan m h =
    (h.lib_path ≡ m.path)
    × (h.has_companion ≡ m.companion)
    × (h.companion_nonce ≡ (if m.companion then plan.nonce else 0))
    × (h.companion_index ≡ (if m.companion then m.index else 0))
    × (h.companion_token ≡ (if m.companion then plan.token else replicate 16 0))
    × (h.companion_listen_fd ≡ (if m.companion then (open_companion_channel a plan m).0 else none))
    × (h.companion_channel ≡ none)

make_handle-IsHandle :
    (a : Answers) (plan : Plan) (m : PlanModule) → IsHandle a plan m (make_handle a plan m).0
unfolding make_handle
make_handle-IsHandle a plan m = elim (Bool-cases m.companion) [
  | inl e ↦ rw e (refl, refl, refl, refl, refl, refl, refl)
  | inr e ↦ rw e (refl, refl, refl, refl, refl, refl, refl)
]

-- How a module's entry ends: it is called with its handle and the table of the version that it declares,
-- or it is not called, since it cannot be opened, exports no callback or declares no version that there is.
abbrev pub IsServed : Answers → Plan → PlanModule → Option ZygiskNextModule → Loaded → Type 0
IsServed a plan m none l = l.call ≡ none
IsServed a plan m (some z) l =
    ((h : ModuleHandle) × (l.call ≡ some (h, api_for_version z.target_api_version))
      × (z.has_callback ≡ true)
      × IsVersion z.target_api_version
      × IsHandle a plan m h)
    ⊎ ((l.call ≡ none) × ((z.has_callback ≡ false) ⊎ ¬ IsVersion z.target_api_version))

call_module-IsServed :
    (a : Answers) (plan : Plan) (m : PlanModule) (o : Option ZygiskNextModule)
    → IsServed a plan m o (call_module a plan m o)
unfolding call_module
call_module-IsServed a plan m none = refl
call_module-IsServed a plan m (some z) =
    let (h, es) = make_handle a plan m in
    elim (Bool-cases z.has_callback) [
      | inr e ↦ inr (rw e (refl, inl refl))
      | inl e ↦ elim (Bool-cases (is_supported z.target_api_version)) [
        | inr f ↦ inr (rw (e, f) refl, inr (λ v. cc (f, (supported_iff z.target_api_version).1 v)))
        | inl f ↦ inl (
          h,
          rw (e, f) refl,
          e,
          (supported_iff z.target_api_version).0 f,
          make_handle-IsHandle a plan m,
        )
      ]
    ]

-- Of an entry of the plan the module is called exactly if its library opens, exports a callback and
-- declares a version from 1 to 4; then with the table of that version, and with a handle that holds
-- what the plan says of it.
pub load_entry-IsServed :
    (a : Answers) (plan : Plan) (m : PlanModule)
    → IsServed a plan m (exported a m) (load_entry a plan m)
unfolding load_entry
load_entry-IsServed a plan m = elim (Bool-cases (dlopen_fd a m.fd m.path rtld_now == 0)) [
  | inl e ↦ rw e refl
  | inr e ↦ rw e (call_module-IsServed a plan m (a.zn_module (dlopen_fd a m.fd m.path rtld_now)))
]
