-- ===== src/Boot/Plan/Layout.antt =====
-- injector/src/plan.rs: an encoded plan as its parts one behind the other, and what the loader reads of
-- each.
use zygisk_next_next.Base.{
  ℕ, ◌+◌, ◌*◌, ◌≤◌, ◌≡◌, refl, ap, ◌∙◌, sym, subst, false, List, [], ◌∷◌, ◌++◌, append_assoc,
  append-nil, Bytes, length, length-append, if◌then◌else◌, some, arith,
}
use zygisk_next_next.Boot.Plan.{
  plan_magic, plan_version, min_plan_bytes, plan_module_size, StringRef, Header, PlanModule, Plan,
  accepted, blob_string, parse_modules, check_header,
}
use zygisk_next_next.Boot.Plan.Encode.{
  u32_bytes, ref_bytes, push_string, push_paths, module_bytes, entry_bytes, any_bad_index,
  header_bytes, encode,
}
use zygisk_next_next.Boot.Plan.Fields.{length-u32_bytes, length-ref_bytes, blob_string-at}
use zygisk_next_next.Boot.Plan.Entries.{
  ref_at, path_text, path_refs, push_string-eq, push_paths-eq, IsPlan, parse_modules-entries,
}

pub push_paths-blob :
    (ms : List PlanModule) (blob : Bytes) → (push_paths blob ms).1 ≡ blob ++ path_text ms
unfolding push_paths push_string
push_paths-blob [] blob = rw append-nil
push_paths-blob (m ∷ ms) blob =
    push_paths-blob ms (blob ++ (m.path ++ 0 ∷ []))
    ∙ append_assoc blob (m.path ++ 0 ∷ []) (path_text ms)

-- The parts of the encoder's result, before the strings are looked at.
module _ (p : Plan) where
  abbrev pub first : StringRef × Bytes
  first = push_string [] p.inline_engine

  abbrev pub second : StringRef × Bytes
  second = push_string first.1 p.plt_engine

  abbrev pub third : StringRef × Bytes
  third = push_string second.1 p.debugdata

  abbrev pub paths : List StringRef × Bytes
  paths = push_paths third.1 p.modules

  abbrev pub size_of : ℕ
  size_of = min_plan_bytes + plan_module_size * length p.modules + length paths.1

  pub encode-checks :
      (raw : Bytes)
      → encode p ≡ some raw
      → (length p.modules ≤ 32)
        × (any_bad_index p.modules ≡ false)
        × (size_of ≤ 32768)
        × (raw
            ≡ header_bytes p size_of first.0 second.0 third.0
              ++ (entry_bytes p.modules paths.0 ++ paths.1))
  unfolding encode
  encode-checks raw h = ground arith

  -- The blob in closed form.
  abbrev pub text : Bytes → Bytes
  text value = value ++ 0 ∷ []

  abbrev pub before_paths : Bytes
  before_paths = text p.inline_engine ++ (text p.plt_engine ++ text p.debugdata)

pub length-module_bytes : (m : PlanModule) (r : StringRef) → length (module_bytes m r) ≡ 20
unfolding module_bytes
length-module_bytes m r = omega (
  arith,
  length-append (u32_bytes m.fd)
      (u32_bytes (if m.companion then 1 else 0) ++ (u32_bytes m.index ++ ref_bytes r)),
  length-append (u32_bytes (if m.companion then 1 else 0)) (u32_bytes m.index ++ ref_bytes r),
  length-append (u32_bytes m.index) (ref_bytes r),
  length-u32_bytes m.fd,
  length-u32_bytes (if m.companion then 1 else 0),
  length-u32_bytes m.index,
  length-ref_bytes r,
)

pub length-entry_bytes :
    (ms : List PlanModule) (n : ℕ) → length (entry_bytes ms (path_refs n ms)) ≡ length ms * 20
unfolding entry_bytes
length-entry_bytes [] n = refl
length-entry_bytes (m ∷ ms) n = omega (
  arith,
  length-append (module_bytes m (ref_at n m.path))
      (entry_bytes ms (path_refs (n + length m.path + 1) ms)),
  length-module_bytes m (ref_at n m.path),
  length-entry_bytes ms (n + length m.path + 1),
)

pub length-header_bytes :
    (p : Plan) (size : ℕ) (i t d : StringRef)
    → length p.token ≡ 16
    → length (header_bytes p size i t d) ≡ 60
unfolding header_bytes
length-header_bytes p size i t d h = simp length-append (
    omega (
      arith,
      h,
      length-u32_bytes plan_magic,
      length-u32_bytes plan_version,
      length-u32_bytes size,
      length-u32_bytes (length p.modules),
      length-u32_bytes p.nonce,
      length-ref_bytes i,
      length-ref_bytes t,
      length-ref_bytes d,
    ))

-- The bytes of a plan, in closed form.
module _ (p : Plan) where
  abbrev pub a : Bytes
  a = text p p.inline_engine

  abbrev pub ab : Bytes
  ab = a ++ text p p.plt_engine

  abbrev pub abc : Bytes
  abc = ab ++ text p p.debugdata

  abbrev pub blob_of : Bytes
  blob_of = abc ++ path_text p.modules

  pub blob-size : length (paths p).1 ≡ length blob_of
  unfolding push_string
  blob-size = ap length (push_paths-blob p.modules abc)

  -- The lengths of the parts of the blob, which bound those of the strings.
  pub record Sizes : Type 0 where
    pub size_a : length a ≡ length p.inline_engine + 1
    pub size_ab : length ab ≡ length a + length p.plt_engine + 1
    pub size_abc : length abc ≡ length ab + length p.debugdata + 1
    pub size_blob : length blob_of ≡ length abc + length (path_text p.modules)

  pub sizes : Sizes
  sizes = omega (
    arith,
    length-append p.inline_engine (0 ∷ []),
    length-append p.plt_engine (0 ∷ []),
    length-append p.debugdata (0 ∷ []),
    length-append a (text p p.plt_engine),
    length-append ab (text p p.debugdata),
    length-append abc (path_text p.modules),
  )

  abbrev pub size : ℕ
  size = min_plan_bytes + plan_module_size * length p.modules + length blob_of

  pub first-eq : length blob_of ≤ 32768 → first p ≡ (ref_at 0 p.inline_engine, a)
  first-eq h = push_string-eq [] p.inline_engine (omega (arith, sizes))

  pub second-eq : length blob_of ≤ 32768 → second p ≡ (ref_at (length a) p.plt_engine, ab)
  second-eq h = rw (first-eq h) (push_string-eq a p.plt_engine (omega (arith, sizes)))

  pub third-eq : length blob_of ≤ 32768 → third p ≡ (ref_at (length ab) p.debugdata, abc)
  third-eq h = rw (second-eq h) (push_string-eq ab p.debugdata (omega (arith, sizes)))

  pub paths-eq : length blob_of ≤ 32768 → paths p ≡ (path_refs (length abc) p.modules, blob_of)
  paths-eq h = rw (third-eq h) (push_paths-eq p.modules abc (omega (arith, sizes)))

  abbrev pub header_of : Header
  header_of = record {
    magic = plan_magic;
    version = plan_version;
    size = size;
    module_count = length p.modules;
    nonce = p.nonce;
    token = p.token;
    inline_engine = ref_at 0 p.inline_engine;
    plt_engine = ref_at (length a) p.plt_engine;
    debugdata = ref_at (length ab) p.debugdata;
  }

  abbrev pub start : Bytes
  start = header_bytes p size header_of.inline_engine header_of.plt_engine header_of.debugdata

  abbrev pub entries : Bytes
  entries = entry_bytes p.modules (path_refs (length abc) p.modules)

  -- What the encoder puts together from references and a blob.
  abbrev pub assemble : StringRef → StringRef → StringRef → List StringRef × Bytes → Bytes
  assemble f g k q =
      header_bytes p (min_plan_bytes + plan_module_size * length p.modules + length q.1) f g k
      ++ (entry_bytes p.modules q.0 ++ q.1)

  pub encode-closed :
      (raw : Bytes)
      → length blob_of ≤ 32768
      → encode p ≡ some raw
      → raw ≡ start ++ (entries ++ blob_of)
  encode-closed raw h e = (encode-checks p raw e).3 ∙ λ i.
      assemble (first-eq h i).0 (second-eq h i).0 (third-eq h i).0 (paths-eq h i)

  pub check_header-passes :
      length p.modules ≤ 32 → size ≤ 32768 → check_header header_of ≡ accepted tt
  unfolding check_header
  check_header-passes few h = ground arith

  pub inline-found :
      (extra : Bytes)
      → blob_string (blob_of ++ extra) (length blob_of) (ref_at 0 p.inline_engine)
        ≡ accepted p.inline_engine
  inline-found extra =
      let after : Bytes =
        text p p.plt_engine ++ (text p p.debugdata ++ (path_text p.modules ++ extra)) in
      let e : blob_of ++ extra ≡ p.inline_engine ++ 0 ∷ after = simp append_assoc in
      rw e (blob_string-at [] p.inline_engine after (length blob_of) (omega (arith, sizes)))

  pub plt-found :
      (extra : Bytes)
      → blob_string (blob_of ++ extra) (length blob_of) (ref_at (length a) p.plt_engine)
        ≡ accepted p.plt_engine
  plt-found extra =
      let after : Bytes = text p p.debugdata ++ (path_text p.modules ++ extra) in
      let e : blob_of ++ extra ≡ a ++ (p.plt_engine ++ 0 ∷ after) = simp append_assoc in
      rw e (blob_string-at a p.plt_engine after (length blob_of) (omega (arith, sizes)))

  pub debugdata-found :
      (extra : Bytes)
      → blob_string (blob_of ++ extra) (length blob_of) (ref_at (length ab) p.debugdata)
        ≡ accepted p.debugdata
  debugdata-found extra =
      let after : Bytes = path_text p.modules ++ extra in
      let e : blob_of ++ extra ≡ ab ++ (p.debugdata ++ 0 ∷ after) = simp append_assoc in
      rw e (blob_string-at ab p.debugdata after (length blob_of) (omega (arith, sizes)))

  pub modules-found :
      (extra : Bytes)
      → IsPlan p
      → any_bad_index p.modules ≡ false
      → length blob_of ≤ 32768
      → parse_modules
          (length p.modules)
          (entries ++ (blob_of ++ extra))
          (blob_of ++ extra)
          (length blob_of)
        ≡ accepted p.modules
  modules-found extra ok good h =
      let e : blob_of ++ extra ≡ abc ++ (path_text p.modules ++ extra) =
        append_assoc abc (path_text p.modules) extra in
      subst
        (λ (b : Bytes).
          parse_modules (length p.modules) (entries ++ (blob_of ++ extra)) b (length blob_of)
          ≡ accepted p.modules)
        (sym e)
        (parse_modules-entries p.modules abc extra (blob_of ++ extra) (length blob_of)
          (omega (arith, sizes)) (omega arith) good ok.modules_open)
