-- ===== src/Boot/Plan/Encode.antt =====
-- injector/src/plan.rs: the encoder that builds the boot plan which the loader parses.
use zygisk_next_next.Base.{
  ℕ, ◌+◌, ◌*◌, ◌/◌, ◌%◌, ◌^◌, Bool, false, ◌||◌, List, [], ◌∷◌, ◌++◌, Bytes, length, ltb, leb,
  if◌then◌else◌, Option, none, some,
}
use zygisk_next_next.Boot.Plan.{
  plan_magic, plan_version, plan_max_modules, plan_max_bytes, min_plan_bytes, plan_module_size,
  StringRef, PlanModule, Plan,
}

-- `push_u32`, as the bytes that it appends.
unfoldable pub u32_bytes : ℕ → Bytes
u32_bytes v =
    (v % 0x100) ∷ (v / 0x100 % 0x100) ∷ (v / 0x10000 % 0x100) ∷ (v / 0x1000000 % 0x100) ∷ []

-- `push_string`: the reference and the blob with the string and its NUL.
unfoldable pub push_string : Bytes → Bytes → StringRef × Bytes
push_string blob value = (
  record { offset = length blob % 2 ^ 32; size = length value % 2 ^ 32 },
  blob ++ (value ++ 0 ∷ []),
)

unfoldable pub ref_bytes : StringRef → Bytes
ref_bytes r = u32_bytes r.offset ++ u32_bytes r.size

-- The closure over the modules that pushes each path.
unfoldable pub push_paths : Bytes → List PlanModule → List StringRef × Bytes
push_paths blob [] = ([], blob)
push_paths blob (m ∷ ms) =
    let (r, blob') = push_string blob m.path in
    let (rs, blob'') = push_paths blob' ms in (r ∷ rs, blob'')

unfoldable pub module_bytes : PlanModule → StringRef → Bytes
module_bytes m path =
    u32_bytes m.fd
    ++ (u32_bytes (if m.companion then 1 else 0) ++ (u32_bytes m.index ++ ref_bytes path))

-- The loop over the modules zipped with their paths.
unfoldable pub entry_bytes : List PlanModule → List StringRef → Bytes
entry_bytes [] rs = []
entry_bytes (m ∷ ms) [] = []
entry_bytes (m ∷ ms) (r ∷ rs) = module_bytes m r ++ entry_bytes ms rs

unfoldable pub any_bad_index : List PlanModule → Bool
any_bad_index [] = false
any_bad_index (m ∷ ms) = leb plan_max_modules m.index || any_bad_index ms

unfoldable pub header_bytes : Plan → (size : ℕ) → StringRef → StringRef → StringRef → Bytes
header_bytes p size inline plt debug =
    u32_bytes plan_magic
    ++ (u32_bytes plan_version
        ++ (u32_bytes size
            ++ (u32_bytes (length p.modules)
                ++ (u32_bytes p.nonce
                    ++ (p.token ++ (ref_bytes inline ++ (ref_bytes plt ++ ref_bytes debug)))))))

-- `Plan::encode`
unfoldable pub encode : Plan → Option Bytes
encode p =
    let (inline, b1) = push_string [] p.inline_engine in
    let (plt, b2) = push_string b1 p.plt_engine in
    let (debug, b3) = push_string b2 p.debugdata in
    let (paths, blob) = push_paths b3 p.modules in
    let size = min_plan_bytes + plan_module_size * length p.modules + length blob in
    if ltb plan_max_modules (length p.modules)
    then none
    else if any_bad_index p.modules
    then none
    else if ltb plan_max_bytes size
    then none
    else some (header_bytes p size inline plt debug ++ (entry_bytes p.modules paths ++ blob))
