-- ===== src/Hook/Backend/And64.antt =====
-- loader/src/hook/backend/and64inlinehook.cpp: inline hooks by And64InlineHook, which is a parameter. A
-- byte of memory is a number, by its address.
pub mod RoundTrip
use zygisk_next_next.Base.{
  ℕ, zero, suc, ◌+◌, ◌-◌, ◌*◌, ◌%◌, Bool, true, false, not, ◌&&◌, List, [], ◌∷◌, Bytes, length,
  get_or, ltb, leb, ◌==◌, if◌then◌else◌, Option, none, some, ℤ, pos, negsuc,
}

-- kPatchBytes, kTrampolineBytes
abbrev pub patch_bytes : ℕ
patch_bytes = 20

abbrev pub trampoline_bytes : ℕ
trampoline_bytes = 4096

abbrev pub Memory : Type 0
Memory = ℕ → ℕ

-- `memcpy` from memory, and to it
unfoldable pub load : Memory → (address n : ℕ) → Bytes
load m a zero = []
load m a (suc n) = m a ∷ load m (a + 1) n

unfoldable pub store : Memory → (address : ℕ) → Bytes → Memory
store m a bytes x = if leb a x && ltb x (a + length bytes) then get_or bytes (x - a) 0 else m x

-- `HookRecord`
pub record HookRecord : Type 0 where
  pub backup : Bytes
  pub trampoline : ℕ

-- The memory, the trampolines that are mapped, and `g_records`.
pub record State : Type 0 where
  pub memory : Memory
  pub mapped : List ℕ
  pub records : List (ℕ × HookRecord)

-- `A64HookFunctionV` for a target, a replacement and a trampoline: whether it succeeds.
abbrev pub HookFunction : Type 0
HookFunction = ℕ → ℕ → ℕ → Memory → Bool × Memory

-- What the system calls answer: `sysconf`, `mprotect` for an address and a length, and `mmap`, none for
-- MAP_FAILED.
pub record Answers : Type 0 where
  pub page_size : ℤ
  pub mprotect : ℕ → ℕ → Bool
  pub mmap : Option ℕ

-- `x & ~align_mask` for a page size, which is a power of two
abbrev pub align_down : ℕ → ℕ → ℕ
align_down page x = x - x % page

-- `makePatchWritable`
unfoldable pub make_patch_writable : Answers → (target : ℕ) → Bool
make_patch_writable a target = elim a.page_size [
  | negsuc n ↦ false
  | pos page ↦
      let begin = align_down page target in
      let end = align_down page (target + patch_bytes + (page - 1)) in
      if page == 0 then false else a.mprotect begin (end - begin)
]

unfoldable pub find_record : ℕ → List (ℕ × HookRecord) → Option HookRecord
find_record key [] = none
find_record key ((k, r) ∷ records) =
    let rest = find_record key records in if k == key then some r else rest

unfoldable pub erase_record : ℕ → List (ℕ × HookRecord) → List (ℕ × HookRecord)
erase_record key [] = []
erase_record key ((k, r) ∷ records) =
    let rest = erase_record key records in if k == key then records else (k, r) ∷ rest

-- `munmap`
unfoldable pub unmap : ℕ → List ℕ → List ℕ
unmap t [] = []
unmap t (x ∷ xs) = let rest = unmap t xs in if x == t then xs else x ∷ rest

module _ (hook_function : HookFunction) where
  -- `and64inlinehookHook` with a trampoline
  unfoldable pub hook_with :
      Answers → (target replacement trampoline : ℕ) → State → Option ℕ × State
  hook_with a target replacement t s =
      let mapped = t ∷ s.mapped in
      let backup = load s.memory target patch_bytes in
      let (hooked, m) = hook_function target replacement t s.memory in
      if not (make_patch_writable a target)
      then (none, record s { mapped = unmap t mapped })
      else if not hooked
      then (none, record s { memory = store m target backup; mapped = unmap t mapped })
      else (
        some t,
        record {
          memory = m;
          mapped = mapped;
          records = (target, record { backup = backup; trampoline = t }) ∷ s.records;
        },
      )

  -- `and64inlinehookHook`: what `*original` is given on success, none for false.
  unfoldable pub and64inlinehook_hook :
      Answers → (target replacement : ℕ) → State → Option ℕ × State
  and64inlinehook_hook a target replacement s = elim (find_record target s.records) [
    | some r ↦ (none, s)
    | none ↦ elim a.mmap [ none ↦ (none, s) | some t ↦ hook_with a target replacement t s ]
  ]

-- `and64inlinehookUnhook` of a target with a record
unfoldable pub unhook_record : Answers → (target : ℕ) → HookRecord → State → Bool × State
unhook_record a target r s = if not (make_patch_writable a target) then (false, s) else (
  true,
  record {
    memory = store s.memory target r.backup;
    mapped = unmap r.trampoline s.mapped;
    records = erase_record target s.records;
  },
)

-- `and64inlinehookUnhook`
unfoldable pub and64inlinehook_unhook : Answers → (target : ℕ) → State → Bool × State
and64inlinehook_unhook a target s = elim (find_record target s.records) [
  | none ↦ (false, s)
  | some r ↦ unhook_record a target r s
]
