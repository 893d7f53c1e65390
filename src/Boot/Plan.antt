-- ===== src/Boot/Plan.antt =====
-- loader/src/module/plan.cpp and ipc/plan.h: `parsePlan`. The bytes behind `raw` are a list; a read
-- past them is `none`, a fault. Words are little-endian, as on every processor that Android runs on.
pub mod Reads
pub mod Encode
pub mod Fields
pub mod Entries
pub mod Layout
pub mod RoundTrip
use zygisk_next_next.Base.{
  ℕ, zero, suc, ◌+◌, ◌-◌, ◌*◌, ◌%◌, ◌^◌, Bool, true, false, not, ◌||◌, ◌&&◌, List, [], ◌∷◌, ◌++◌,
  Bytes, length, get_elem?, take, drop, ltb, leb, ◌==◌, if◌then◌else◌, Option, none, some,
}

abbrev pub plan_magic : ℕ
plan_magic = 0x5A4E4E31

abbrev pub plan_version : ℕ
plan_version = 3

abbrev pub plan_max_modules : ℕ
plan_max_modules = 32

abbrev pub plan_max_bytes : ℕ
plan_max_bytes = 32 * 1024

-- `sizeof(Plan)` and `sizeof(PlanModule)` of ipc/plan.h
abbrev pub min_plan_bytes : ℕ
min_plan_bytes = 60

abbrev pub plan_module_size : ℕ
plan_module_size = 20

-- `ipc::PlanString`
pub record StringRef : Type 0 where
  pub offset : ℕ
  pub size : ℕ

-- `ipc::PlanModule`, a record of the raw plan; `fd` is the bit pattern of the `int32_t`.
pub record RawModule : Type 0 where
  pub fd : ℕ
  pub flags : ℕ
  pub index : ℕ
  pub path : StringRef

-- `ipc::Plan`, the header.
pub record Header : Type 0 where
  pub magic : ℕ
  pub version : ℕ
  pub size : ℕ
  pub module_count : ℕ
  pub nonce : ℕ
  pub token : Bytes
  pub inline_engine : StringRef
  pub plt_engine : StringRef
  pub debugdata : StringRef

-- `module::PlanModule`; `fd` is not negative in a plan that is accepted.
pub record PlanModule : Type 0 where
  pub fd : ℕ
  pub companion : Bool
  pub index : ℕ
  pub path : Bytes

-- `module::Plan`
pub record Plan : Type 0 where
  pub modules : List PlanModule
  pub inline_engine : Bytes
  pub plt_engine : Bytes
  pub debugdata : Bytes
  pub nonce : ℕ
  pub token : Bytes

-- How a call of the parser ends: by a read past the readable bytes, with false, or with true.
pub data Outcome {ℓ} (A : Type ℓ) : Type ℓ where
  fault : Outcome A
  rejected : Outcome A
  accepted : A → Outcome A

infixl 5 ◌>>=◌ ◌>>◌
abbrev pub ◌>>=◌ {ℓ κ} : {A : Type ℓ} {B : Type κ} → Outcome A → (A → Outcome B) → Outcome B
fault >>= f = fault
rejected >>= f = rejected
accepted a >>= f = f a

abbrev pub ◌>>◌ {ℓ} : {B : Type ℓ} → Outcome (Unit {0}) → Outcome B → Outcome B
m >> k = m >>= λ _. k

-- `if (bad) return false;`
abbrev pub reject_if : Bool → Outcome (Unit {0})
reject_if true = rejected
reject_if false = accepted tt

-- A 32-bit field of a raw structure, and the bytes behind it.
unfoldable pub u32 : Bytes → Outcome (ℕ × Bytes)
u32 (a ∷ b ∷ c ∷ d ∷ rest) = accepted (a + 0x100 * b + 0x10000 * c + 0x1000000 * d, rest)
u32 _ = fault

-- The field `token`.
unfoldable pub token_field : Bytes → Outcome (Bytes × Bytes)
token_field r = if ltb (length r) 16 then fault else accepted (take 16 r, drop 16 r)

unfoldable pub ref_field : Bytes → Outcome (StringRef × Bytes)
ref_field r = do
  (offset, r) ← u32 r
  (size, r) ← u32 r
  accepted (record { offset = offset; size = size }, r)

-- `memcpy(&header, raw, sizeof(header))`
unfoldable pub read_header : Bytes → Outcome Header
read_header r = do
  (magic, r) ← u32 r
  (version, r) ← u32 r
  (size, r) ← u32 r
  (module_count, r) ← u32 r
  (nonce, r) ← u32 r
  (token, r) ← token_field r
  (inline_engine, r) ← ref_field r
  (plt_engine, r) ← ref_field r
  (debugdata, r) ← ref_field r
  accepted (record {
    magic = magic;
    version = version;
    size = size;
    module_count = module_count;
    nonce = nonce;
    token = token;
    inline_engine = inline_engine;
    plt_engine = plt_engine;
    debugdata = debugdata;
  })

-- `mods[i]`, and the entries behind it.
unfoldable pub read_module : Bytes → Outcome (RawModule × Bytes)
read_module r = do
  (fd, r) ← u32 r
  (flags, r) ← u32 r
  (index, r) ← u32 r
  (path, r) ← ref_field r
  accepted (record { fd = fd; flags = flags; index = index; path = path }, r)

-- `blob[end]`
unfoldable pub byte_at : Bytes → ℕ → Outcome ℕ
byte_at blob i = elim (get_elem? blob i) [ none ↦ fault | some c ↦ accepted c ]

-- `blobString` behind its test for no length; the string that `out` is given.
unfoldable pub bounded_string : Bytes → ℕ → StringRef → Outcome Bytes
bounded_string blob blob_size ref = do
  reject_if (ltb blob_size ref.offset || ltb (blob_size - ref.offset) ref.size)
  reject_if (leb blob_size (ref.offset + ref.size))
  c ← byte_at blob (ref.offset + ref.size)
  reject_if (not (c == 0))
  accepted (take ref.size (drop ref.offset blob))

-- `blobString`
unfoldable pub blob_string : Bytes → ℕ → StringRef → Outcome Bytes
blob_string blob blob_size ref =
    if ref.size == 0 then accepted [] else bounded_string blob blob_size ref

-- The body of the loop over the modules.
unfoldable pub accept_module : Bytes → ℕ → RawModule → Outcome PlanModule
accept_module blob blob_size raw = do
  reject_if (leb (2 ^ 31) raw.fd)
  reject_if (leb plan_max_modules raw.index)
  path ← blob_string blob blob_size raw.path
  accepted
      (record { fd = raw.fd; companion = not (raw.flags % 2 == 0); index = raw.index; path = path })

-- The loop over the modules, with `n` left, at the entry `r`.
unfoldable pub parse_modules : (n : ℕ) → Bytes → Bytes → ℕ → Outcome (List PlanModule)
parse_modules zero r blob blob_size = accepted []
parse_modules (suc n) r blob blob_size = do
  (raw, r) ← read_module r
  m ← accept_module blob blob_size raw
  ms ← parse_modules n r blob blob_size
  accepted (m ∷ ms)

-- The checks of the header.
unfoldable pub check_header : Header → Outcome (Unit {0})
check_header h = do
  reject_if (not (h.magic == plan_magic))
  reject_if (not (h.version == plan_version))
  reject_if (ltb h.size min_plan_bytes || ltb plan_max_bytes h.size)
  reject_if (ltb plan_max_modules h.module_count)
  reject_if (ltb h.size (min_plan_bytes + h.module_count * plan_module_size))

-- What `parsePlan` does with a header that it accepts.
unfoldable pub parse_body : Bytes → Header → Outcome Plan
parse_body raw h = do
  let records = h.module_count * plan_module_size
  let blob = drop (min_plan_bytes + records) raw
  let blob_size = h.size - min_plan_bytes - records
  inline_engine ← blob_string blob blob_size h.inline_engine
  plt_engine ← blob_string blob blob_size h.plt_engine
  debugdata ← blob_string blob blob_size h.debugdata
  modules ← parse_modules h.module_count (drop min_plan_bytes raw) blob blob_size
  accepted (record {
    modules = modules;
    inline_engine = inline_engine;
    plt_engine = plt_engine;
    debugdata = debugdata;
    nonce = h.nonce;
    token = h.token;
  })

-- `parsePlan`; no bytes are a null pointer.
unfoldable pub parse_plan : Option Bytes → Outcome Plan
parse_plan none = rejected
parse_plan (some raw) = do h ← read_header raw; check_header h; parse_body raw h
