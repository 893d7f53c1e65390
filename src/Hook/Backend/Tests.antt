-- ===== src/Hook/Backend/Tests.antt =====
-- loader/src/hook/backend: the theorems about the engines' tables at work.
use zygisk_next_next.Base.{
  ℕ, ◌≡◌, refl, ◌⊎◌, inl, inr, true, [], codes, ◌==◌, if◌then◌else◌, none, some, pos, Bool-cases,
  arith,
}
use zygisk_next_next.Hook.Backend.And64
use zygisk_next_next.Hook.Backend.And64.{
  and64inlinehook_hook, and64inlinehook_unhook, make_patch_writable, hook_with, find_record,
  patch_bytes,
}
use zygisk_next_next.Hook.Backend.And64.RoundTrip.{
  InPatch, InTrampoline, IsHooked, and64inlinehook_hook-IsHooked, unhook-hook,
}
use zygisk_next_next.Hook.Backend.Bytehook
use zygisk_next_next.Hook.Backend.Bytehook.{bytehook_hook}
use zygisk_next_next.Hook.Backend.Bytehook.Tidy.{IsTidy, bytehook_hook-IsTidy}
use zygisk_next_next.Hook.Backend.Xhook.{anchor_regex}
use zygisk_next_next.Hook.Backend.Xhook.Anchor.{anchored_text, anchor_regex-text}

-- Memory of zeros, and a hook function that writes a 1 at the target.
abbrev code : And64.State
code = record { memory = λ x. 0; mapped = []; records = [] }

abbrev write_one : And64.HookFunction
write_one target replacement t m = (true, λ x. if x == target then 1 else m x)

write_one-touches :
    (target replacement t : ℕ) (m : And64.Memory) (x : ℕ)
    → InPatch target x ⊎ (InTrampoline t x ⊎ ((write_one target replacement t m).1 x ≡ m x))
write_one-touches target replacement t m x = elim (Bool-cases (x == target)) [
  | inl e ↦ inl (ground (arith, e), ground (arith, e))
  | inr e ↦ inr (inr (rw e refl))
]

abbrev permissive : And64.Answers
permissive = record { page_size = pos 4096; mprotect = λ begin size. true; mmap = some 0x8000 }

and64inlinehook_hook-IsHooked_example :
    IsHooked write_one write_one-touches
      (some 0x8000)
      0x100
      code
      (and64inlinehook_hook write_one permissive 0x100 0x500 code)
and64inlinehook_hook-IsHooked_example =
    and64inlinehook_hook-IsHooked write_one write_one-touches permissive 0x100 0x500 code

abbrev hooked : And64.State
hooked = (and64inlinehook_hook write_one permissive 0x100 0x500 code).1

hooks-code : and64inlinehook_hook write_one permissive 0x100 0x500 code ≡ (some 0x8000, hooked)
unfolding and64inlinehook_hook hook_with find_record make_patch_writable
hooks-code = refl

permissive-writable : make_patch_writable permissive 0x100 ≡ true
unfolding make_patch_writable
permissive-writable = refl

unhook-hook_example :
    ((and64inlinehook_unhook permissive 0x100 hooked).0 ≡ true)
    × ((and64inlinehook_unhook permissive 0x100 hooked).1.records ≡ [])
    × ((and64inlinehook_unhook permissive 0x100 hooked).1.mapped ≡ [])
    × ((x : ℕ)
        → InTrampoline 0x8000 x ⊎ ((and64inlinehook_unhook permissive 0x100 hooked).1.memory x ≡ 0))
unhook-hook_example =
    unhook-hook write_one write_one-touches permissive permissive 0x100 0x500 0x8000 code hooked
      hooks-code permissive-writable

-- A ByteHook that gives the stub 3 and the original 7.
abbrev byte_lib : Bytehook.Library Unit
byte_lib = record {
  start = λ l. (true, l);
  hook_single = λ path symbol replacement l. (3, 7, l);
  unhook = λ stub l. (true, l);
}

abbrev no_stubs : Bytehook.State Unit
no_stubs = record {
  lib = tt;
  started = none;
  stubs = λ key. none;
  originals = λ key. none;
  pending = λ key. none;
}

bytehook_hook-IsTidy_example :
    IsTidy (bytehook_hook byte_lib (codes "/a.so") (codes "fork") 9 no_stubs).1 (codes "x")
bytehook_hook-IsTidy_example =
    bytehook_hook-IsTidy byte_lib (codes "/a.so") (codes "fork") 9 no_stubs (codes "x")
      (refl, inl (refl, refl))

anchor_regex-text_example : anchored_text (anchor_regex (codes "/a+b.so")) ≡ some (codes "/a+b.so")
anchor_regex-text_example = anchor_regex-text (codes "/a+b.so")
