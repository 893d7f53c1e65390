-- ===== src/Boot/Plan/Entries.antt =====
-- loader/src/module/plan.cpp against injector/src/plan.rs: the header and the entries of the modules
-- are read back as they are written.
use zygisk_next_next.Base.{
  ℕ, ◌+◌, ◌^◌, ◌≤◌, ◌<◌, ◌≡◌, refl, ap₂, Bool, false, List, [], ◌∷◌, ◌++◌, append_assoc, append-nil,
  Bytes, length, length-append, leb, if◌then◌else◌, All, arith,
}
use zygisk_next_next.Boot.Plan.{
  plan_magic, plan_version, plan_max_modules, StringRef, PlanModule, Plan, accepted, u32,
  read_header, read_module, blob_string, accept_module, parse_modules,
}
use zygisk_next_next.Boot.Plan.Encode.{
  u32_bytes, push_string, push_paths, module_bytes, entry_bytes, any_bad_index, header_bytes,
}
use zygisk_next_next.Boot.Plan.Fields.{
  Fits, u32-u32_bytes, ref_field-ref_bytes, token_field-token, blob_string-at,
}

-- The reference to a string that is pushed behind `before` bytes.
abbrev pub ref_at : ℕ → Bytes → StringRef
ref_at before value = record { offset = before; size = length value }

-- The paths with their NULs, and the references to them, from offset `n` on.
abbrev pub path_text : List PlanModule → Bytes
path_text [] = []
path_text (m ∷ ms) = (m.path ++ 0 ∷ []) ++ path_text ms

abbrev pub path_refs : ℕ → List PlanModule → List StringRef
path_refs n [] = []
path_refs n (m ∷ ms) = ref_at n m.path ∷ path_refs (n + length m.path + 1) ms

pub push_string-eq :
    (blob value : Bytes)
    → length blob + length value < 2 ^ 32
    → push_string blob value ≡ (ref_at (length blob) value, blob ++ (value ++ 0 ∷ []))
unfolding push_string
push_string-eq blob value h =
    ap₂ (λ (o s : ℕ). (record { offset = o; size = s }, blob ++ (value ++ 0 ∷ []))) (omega arith)
      (omega arith)

pub push_paths-eq :
    (ms : List PlanModule) (blob : Bytes)
    → length blob + length (path_text ms) < 2 ^ 32
    → push_paths blob ms ≡ (path_refs (length blob) ms, blob ++ path_text ms)
unfolding push_paths
push_paths-eq [] blob h = rw append-nil
push_paths-eq (m ∷ ms) blob h =
    let text : Bytes = m.path ++ 0 ∷ [] in
    let size : length text ≡ length m.path + 1 = length-append m.path (0 ∷ []) in
    let total = length-append text (path_text ms) in
    let joined = length-append blob text in
    let next : length (blob ++ text) ≡ length blob + length m.path + 1 =
      omega (arith, size, joined) in
    rw (
      push_string-eq blob m.path (omega (arith, size, total)),
      push_paths-eq ms (blob ++ text) (omega (arith, size, total, joined)),
      next,
      append_assoc,
    )

-- What the fields of a plan can hold: `fd` an open descriptor, `nonce` a `u32`, 16 bytes of token.
pub record IsModule (m : PlanModule) : Type 0 where
  pub fd_open : m.fd < 2 ^ 31

pub record IsPlan (p : Plan) : Type 0 where
  pub nonce_fits : p.nonce < 2 ^ 32
  pub token_size : length p.token ≡ 16
  pub modules_open : All IsModule p.modules

u32-flag :
    (b : Bool) (t : Bytes)
    → u32 (u32_bytes (if b then 1 else 0) ++ t) ≡ accepted (if b then 1 else 0, t)
u32-flag b t = u32-u32_bytes (if b then 1 else 0) t (ground arith)

read_module-bytes :
    (m : PlanModule) (r : StringRef) (rest : Bytes)
    → m.fd < 2 ^ 32
    → m.index < 2 ^ 32
    → Fits r
    → read_module (module_bytes m r ++ rest)
      ≡ accepted (
        record { fd = m.fd; flags = if m.companion then 1 else 0; index = m.index; path = r },
        rest,
      )
unfolding read_module module_bytes
read_module-bytes m r rest hf hi hr =
    let f1 = λ (t : Bytes). u32-u32_bytes m.fd t hf in
    let f3 = λ (t : Bytes). u32-u32_bytes m.index t hi in
    let f4 = λ (t : Bytes). ref_field-ref_bytes r t hr in simp (append_assoc, f1, u32-flag, f3, f4)

pub read_header-bytes :
    (p : Plan) (size : ℕ) (i t d : StringRef) (rest : Bytes)
    → size < 2 ^ 32
    → length p.modules < 2 ^ 32
    → IsPlan p
    → Fits i
    → Fits t
    → Fits d
    → read_header (header_bytes p size i t d ++ rest)
      ≡ accepted (record {
        magic = plan_magic;
        version = plan_version;
        size = size;
        module_count = length p.modules;
        nonce = p.nonce;
        token = p.token;
        inline_engine = i;
        plt_engine = t;
        debugdata = d;
      })
unfolding read_header header_bytes
read_header-bytes p size i t d rest hs hm h hi ht hd =
    let f1 = λ (r : Bytes). u32-u32_bytes plan_magic r (omega arith) in
    let f2 = λ (r : Bytes). u32-u32_bytes plan_version r (omega arith) in
    let f3 = λ (r : Bytes). u32-u32_bytes size r hs in
    let f4 = λ (r : Bytes). u32-u32_bytes (length p.modules) r hm in
    let f5 = λ (r : Bytes). u32-u32_bytes p.nonce r h.nonce_fits in
    let f6 = λ (r : Bytes). token_field-token p.token r h.token_size in
    let f7 = λ (r : Bytes). ref_field-ref_bytes i r hi in
    let f8 = λ (r : Bytes). ref_field-ref_bytes t r ht in
    let f9 = λ (r : Bytes). ref_field-ref_bytes d r hd in
    simp (append_assoc, f1, f2, f3, f4, f5, f6, f7, f8, f9)

accept-written :
    (m : PlanModule) (blob : Bytes) (blob_size n : ℕ)
    → m.fd < 2 ^ 31
    → m.index < 32
    → blob_string blob blob_size (ref_at n m.path) ≡ accepted m.path
    → accept_module blob blob_size (record {
      fd = m.fd;
      flags = if m.companion then 1 else 0;
      index = m.index;
      path = ref_at n m.path;
    })
      ≡ accepted m
unfolding accept_module
accept-written m blob blob_size n hf hi e =
    let a : leb (2 ^ 31) m.fd ≡ false = ground arith in
    let b : leb plan_max_modules m.index ≡ false = ground arith in rw (a, b, e) (ground arith)

-- The entries behind `before` bytes of blob are read back as the modules.
pub parse_modules-entries :
    (ms : List PlanModule) (before after rest : Bytes) (blob_size : ℕ)
    → length before + length (path_text ms) ≤ blob_size
    → blob_size < 2 ^ 32
    → any_bad_index ms ≡ false
    → All IsModule ms
    → parse_modules
        (length ms)
        (entry_bytes ms (path_refs (length before) ms) ++ rest)
        (before ++ (path_text ms ++ after))
        blob_size
      ≡ accepted ms
unfolding parse_modules entry_bytes any_bad_index
parse_modules-entries [] before after rest blob_size room small good open_all = refl
parse_modules-entries (m ∷ ms) before after rest blob_size room small good (ok, oks) =
    let text : Bytes = m.path ++ 0 ∷ [] in
    let size : length text ≡ length m.path + 1 = length-append m.path (0 ∷ []) in
    let total = length-append text (path_text ms) in
    let joined : length (before ++ text) ≡ length before + length m.path + 1 =
      omega (arith, size, length-append before text) in
    let fits : Fits (ref_at (length before) m.path) = omega (arith, size, total) in
    let index : m.index < 32 = ground arith in
    let good' : any_bad_index ms ≡ false = ground arith in
    let found =
      blob_string-at before m.path (path_text ms ++ after) blob_size (omega (arith, size, total)) in
    let r = λ (t : Bytes).
      read_module-bytes m (ref_at (length before) m.path) t (omega (arith, ok.fd_open))
        (omega arith) fits in
    let blob : Bytes = before ++ (path_text (m ∷ ms) ++ after) in
    let here : blob ≡ before ++ (m.path ++ 0 ∷ (path_text ms ++ after)) = simp append_assoc in
    let behind : blob ≡ (before ++ text) ++ (path_text ms ++ after) = simp append_assoc in
    let this : accept_module blob blob_size (record {
      fd = m.fd;
      flags = if m.companion then 1 else 0;
      index = m.index;
      path = ref_at (length before) m.path;
    })
        ≡ accepted m =
      accept-written m blob blob_size (length before) ok.fd_open index (rw here found) in
    let others : parse_modules (length ms)
          (entry_bytes ms (path_refs (length before + length m.path + 1) ms) ++ rest) blob blob_size
        ≡ accepted ms =
      rw (behind, ← joined)
        (parse_modules-entries ms (before ++ text) after rest blob_size
          (omega (arith, size, total, joined)) small good' oks) in
    rw (append_assoc, r, this, others)
