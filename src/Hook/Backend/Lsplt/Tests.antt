-- ===== src/Hook/Backend/Lsplt/Tests.antt =====
-- loader/src/hook/backend/lsplt.cpp: the theorems about LSPlt's hooks at work.
use zygisk_next_next.Base.{
  ℕ, ◌≡◌, refl, inl, inr, Bool, true, false, codes, same, same_refl, same_iff, ◌==◌, if◌then◌else◌,
  Option, none, some, Bool-cases, arith,
}
use zygisk_next_next.Text.{to_string}
use zygisk_next_next.Hook.Engine.{Engines, dobby, lsplt}
use zygisk_next_next.Hook.Plt.{PltBackends, api_plt_hook}
use zygisk_next_next.Hook.Tests.{lib_maps, code_map, no_start, code_found, has_path}
use zygisk_next_next.Hook.Backend.Lsplt.Calls.{Words, with_lsplt, IsCall, api_plt_hook-IsCall}
use zygisk_next_next.Hook.Backend.Table.{Site, record_key, record_key-injective}
use zygisk_next_next.Hook.Backend.Contract.{Tracks, IsHookStep, IsReplaced}
use zygisk_next_next.Hook.Backend.Lsplt
use zygisk_next_next.Hook.Backend.Lsplt.{lsplt_hook, commit, install}
use zygisk_next_next.Hook.Backend.Lsplt.Race.{install-race}
use zygisk_next_next.Kpm.Format.{collect_digits}
use zygisk_next_next.Hook.Backend.Lsplt.Refines.{hooks, lsplt_hook-Refines}

-- An LSPlt over the slots of a process and the hook that was registered last.
abbrev Slots : Type 0
Slots = (Site → ℕ) × Option (Site × ℕ)

abbrev replace_slot : Site → ℕ → (Site → ℕ) → Site → ℕ
replace_slot x callback slots y = if same (record_key y) (record_key x) then callback else slots y

abbrev commit_slots : (Site → ℕ) → Option (Site × ℕ) → ℕ × Bool × Slots
commit_slots slots none = (0, true, (slots, none))
commit_slots slots (some (x, callback)) =
    if slots x == 0
    then (0, true, (slots, none))
    else (slots x, true, (replace_slot x callback slots, none))

abbrev plt : Lsplt.Library Slots
plt = record {
  register_hook = λ x callback (slots, last). (slots, some (x, callback));
  commit_hook = λ (slots, last). commit_slots slots last;
}

plt-IsReplaced :
    (x : Site) (callback : ℕ) (l : Slots)
    → let (backup, committed, l') = commit plt x callback l in IsReplaced x callback backup l.0 l'.0
unfolding commit
plt-IsReplaced x callback (slots, last) = elim (Bool-cases (slots x == 0)) [
  | inl e ↦ rw e (inl (refl, λ y. refl))
  | inr e ↦ rw e (
      inr (
        refl,
        (λ z. ground (arith, z, e)),
        rw (same_refl (record_key x)) refl,
        λ y. elim (Bool-cases (same (record_key y) (record_key x))) [
          | inl f ↦ inl (record_key-injective y x ((same_iff (record_key y) (record_key x)).0 f))
          | inr f ↦ inr (rw f refl)
        ],
      ))
]

abbrev no_hooks : Lsplt.State Slots
no_hooks = record { lib = (λ x. 7, none); records = λ key. none }

abbrev site : Site
site = record { dev = 64768; inode = 12; symbol = codes "fork" }

lsplt_hook-Refines_example :
    let (result, g) = lsplt_hook plt site 9 no_hooks in
    IsHookStep (λ x. 7) site 9 result (λ x. 7) g.lib.0 × Tracks (λ x. 7) (hooks g.records) g.lib.0
lsplt_hook-Refines_example =
    lsplt_hook-Refines plt (λ l. l.0) (λ x. 7) plt-IsReplaced site 9 no_hooks (λ y. refl)

-- Backends that hook nothing, but for LSPlt; and a word at 0x20 for the original.
abbrev backends : PltBackends (Lsplt.State Slots × Words)
backends = record {
  lsplt_hook = λ dev inode symbol replacement original w. (false, w);
  bytehook_hook = λ path symbol replacement original w. (false, w);
  xhook_hook = λ path symbol replacement original w. (false, w);
  plti_hook = λ path base symbol replacement original w. (false, w);
}

abbrev engines : Engines
engines = record { inline = dobby; plt = lsplt }

api_plt_hook-IsCall_example :
    let (status, e, w) =
      api_plt_hook
        (with_lsplt plt backends)
        no_start
        lib_maps
        0x9010
        (some (codes "open"))
        9
        0x20
        (engines, (no_hooks, (λ a. 0))) in
    IsCall plt
      (λ l. l.0)
      (λ x. 7)
      plt-IsReplaced
      backends
      no_start
      (record { dev = 1; inode = 40; symbol = codes "open" })
      9
      0x20
      status
      (no_hooks, (λ a. 0))
      w
    × Tracks (λ x. 7) (hooks w.0.records) w.0.lib.0
api_plt_hook-IsCall_example =
    api_plt_hook-IsCall plt (λ l. l.0) (λ x. 7) plt-IsReplaced backends no_start lib_maps 0x9010
      (codes "open") 9 0x20 engines (no_hooks, (λ a. 0)) code_map (omega arith) (omega arith) refl
      code_found has_path (λ y. refl)

-- Two threads that hook the same site with 9 and 11, and undo the first hook by the original 7.
abbrev after_first : Lsplt.State Slots
after_first = (install plt site 9 no_hooks).1

abbrev after_second : Lsplt.State Slots
after_second = (install plt site 11 after_first).1

first-installs : install plt site 9 no_hooks ≡ (some 7, after_first)
unfolding install commit
first-installs = refl

second-installs : install plt site 11 after_first ≡ (some 9, after_second)
unfolding install commit record_key to_string collect_digits same
second-installs = refl

install-race_example :
    (◌≡◌ {A = ℕ} 7 7)
    × (◌≡◌ {A = ℕ} 9 9)
    × (hooks after_second.records site ≡ some (record { replacement = 11; original = 9 }))
    × (lsplt_hook plt site 7 after_second ≡ (none, after_second))
install-race_example =
    install-race plt (λ l. l.0) plt-IsReplaced site 9 11 7 9 no_hooks after_first after_second
      first-installs second-installs (λ e. omega arith) (λ e. omega arith)
