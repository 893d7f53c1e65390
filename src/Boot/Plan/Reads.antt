-- ===== src/Boot/Plan/Reads.antt =====
-- loader/src/module/plan.cpp: the parser reads nothing behind the bytes that the header's size names,
-- and accepts only plausible plans.
use zygisk_next_next.Base.{
  ℕ, zero, suc, ◌+◌, ◌-◌, ◌*◌, ◌^◌, ◌≤◌, ◌<◌, ◌≡◌, refl, ap, inl, inr, Bool, true, false, not, ◌||◌,
  List, [], ◌∷◌, Bytes, length, drop, ltb, leb, ◌==◌, some, All, Bool-cases, arith,
}
use zygisk_next_next.Boot.Plan.Fields.{length-drop}
use zygisk_next_next.Boot.Plan.{
  plan_magic, plan_version, plan_max_modules, plan_max_bytes, min_plan_bytes, plan_module_size,
  StringRef, RawModule, Header, PlanModule, Plan, Outcome, fault, rejected, accepted, reject_if,
  ◌>>=◌, u32, ref_field, read_header, read_module, token_field, byte_at, bounded_string,
  blob_string, accept_module, parse_modules, check_header, parse_body, parse_plan,
}

-- The parser has not read past the readable bytes, and what it accepts has the property.
abbrev pub Ensures {ℓ} : {A : Type ℓ} → (A → Type 0) → Outcome A → Type 0
Ensures P fault = ⊥
Ensures P rejected = Unit
Ensures P (accepted a) = P a

bind_rule {ℓ κ} :
    {A : Type ℓ} {B : Type κ} (P : A → Type 0) (Q : B → Type 0) (m : Outcome A) (f : A → Outcome B)
    → Ensures P m
    → ((a : A) → P a → Ensures Q (f a))
    → Ensures Q (m >>= f)
bind_rule P Q fault f h k = absurd h
bind_rule P Q rejected f h k = tt
bind_rule P Q (accepted a) f h k = k a h

-- Behind a check that did not reject, its condition is false.
check_rule {κ} :
    {B : Type κ} (Q : B → Type 0) (b : Bool) (f : Unit {0} → Outcome B)
    → (b ≡ false → Ensures Q (f tt))
    → Ensures Q (reject_if b >>= f)
check_rule Q true f k = tt
check_rule Q false f k = k refl

abbrev Leaves {ℓ} : {A : Type ℓ} → ℕ → A × Bytes → Type 0
Leaves n v = length v.1 ≡ n

u32-Ensures : (r : Bytes) (n : ℕ) → length r ≡ 4 + n → Ensures (Leaves n) (u32 r)
unfolding u32
u32-Ensures (a ∷ b ∷ c ∷ d ∷ rest) n h = omega arith
u32-Ensures [] n h = absurd (omega arith)
u32-Ensures (a ∷ []) n h = absurd (omega arith)
u32-Ensures (a ∷ b ∷ []) n h = absurd (omega arith)
u32-Ensures (a ∷ b ∷ c ∷ []) n h = absurd (omega arith)

byte_at-Ensures :
    (blob : Bytes) (i : ℕ) → i < length blob → Ensures (λ _. Unit {0}) (byte_at blob i)
unfolding byte_at
byte_at-Ensures [] i h = absurd (omega arith)
byte_at-Ensures (c ∷ blob) zero h = tt
byte_at-Ensures (c ∷ blob) (suc i) h = byte_at-Ensures blob i (omega arith)

bounded_string-Ensures :
    (blob : Bytes) (blob_size : ℕ) (ref : StringRef)
    → blob_size ≤ length blob
    → Ensures (λ _. Unit {0}) (bounded_string blob blob_size ref)
unfolding bounded_string
bounded_string-Ensures blob blob_size ref h =
    check_rule (λ _. Unit {0}) (ltb blob_size ref.offset || ltb (blob_size - ref.offset) ref.size) _
      λ inside.
        check_rule (λ _. Unit {0}) (leb blob_size (ref.offset + ref.size)) _
          λ before_end.
            let last : ref.offset + ref.size < length blob = ground (arith, before_end) in
            bind_rule (λ _. Unit {0}) (λ _. Unit {0}) (byte_at blob (ref.offset + ref.size)) _
              (byte_at-Ensures blob (ref.offset + ref.size) last)
              λ c _. check_rule (λ _. Unit {0}) (not (c == 0)) _ λ nul. tt

blob_string-Ensures :
    (blob : Bytes) (blob_size : ℕ) (ref : StringRef)
    → blob_size ≤ length blob
    → Ensures (λ _. Unit {0}) (blob_string blob blob_size ref)
unfolding blob_string
blob_string-Ensures blob blob_size ref h = elim (Bool-cases (ref.size == 0)) [
  | inl e ↦ rw e tt
  | inr e ↦ rw e (bounded_string-Ensures blob blob_size ref h)
]

ref_field-Ensures : (r : Bytes) (n : ℕ) → length r ≡ 8 + n → Ensures (Leaves n) (ref_field r)
unfolding ref_field
ref_field-Ensures r n h =
    bind_rule (Leaves (4 + n)) _ (u32 r) _ (u32-Ensures r (4 + n) (omega arith))
      λ v e. bind_rule (Leaves n) _ (u32 v.1) _ (u32-Ensures v.1 n e) λ w f. f

read_module-Ensures : (r : Bytes) (n : ℕ) → length r ≡ 20 + n → Ensures (Leaves n) (read_module r)
unfolding read_module
read_module-Ensures r n h =
    bind_rule (Leaves (16 + n)) _ (u32 r) _ (u32-Ensures r (16 + n) (omega arith)) λ v e.
      bind_rule (Leaves (12 + n)) _ (u32 v.1) _ (u32-Ensures v.1 (12 + n) (omega arith)) λ w f.
        bind_rule (Leaves (8 + n)) _ (u32 w.1) _ (u32-Ensures w.1 (8 + n) (omega arith))
          λ x g. bind_rule (Leaves n) _ (ref_field x.1) _ (ref_field-Ensures x.1 n g) λ y k. k

-- A module of an accepted plan: a descriptor that is not negative and an index below the maximum.
pub record IsPlausible (m : PlanModule) : Type 0 where
  pub fd_open : m.fd < 2 ^ 31
  pub index_small : m.index < 32

accept_module-Ensures :
    (blob : Bytes) (blob_size : ℕ) (raw : RawModule)
    → blob_size ≤ length blob
    → Ensures IsPlausible (accept_module blob blob_size raw)
unfolding accept_module
accept_module-Ensures blob blob_size raw h = check_rule _ (leb (2 ^ 31) raw.fd) _ λ fd.
    check_rule _ (leb plan_max_modules raw.index) _ λ index.
      bind_rule (λ _. Unit {0}) _ (blob_string blob blob_size raw.path) _
        (blob_string-Ensures blob blob_size raw.path h) λ path _. ground (arith, fd, index)

abbrev Modules : ℕ → List PlanModule → Type 0
Modules n ms = (length ms ≡ n) × All IsPlausible ms

parse_modules-Ensures :
    (n : ℕ) (r blob : Bytes) (blob_size : ℕ)
    → n * 20 ≤ length r
    → blob_size ≤ length blob
    → Ensures (Modules n) (parse_modules n r blob blob_size)
unfolding parse_modules
parse_modules-Ensures zero r blob blob_size h k = (refl, tt)
parse_modules-Ensures (suc n) r blob blob_size h k =
    bind_rule (Leaves (length r - 20)) _ (read_module r) _
      (read_module-Ensures r (length r - 20) (omega arith))
      λ raw left.
        bind_rule IsPlausible _ (accept_module blob blob_size raw.0) _
          (accept_module-Ensures blob blob_size raw.0 k)
          λ m ok.
            bind_rule (Modules n) _ (parse_modules n raw.1 blob blob_size) _
              (parse_modules-Ensures n raw.1 blob blob_size (omega arith) k)
              λ ms oks. (ap suc oks.0, (ok, oks.1))

token_field-Ensures : (r : Bytes) (n : ℕ) → length r ≡ 16 + n → Ensures (Leaves n) (token_field r)
unfolding token_field
token_field-Ensures r n h =
    let enough : ltb (length r) 16 ≡ false = ground arith in
    rw enough (omega (arith, length-drop 16 r))

read_header-Ensures : (r : Bytes) → 60 ≤ length r → Ensures (λ _. Unit {0}) (read_header r)
unfolding read_header
read_header-Ensures r h =
    let n = length r - 60 in
    bind_rule (Leaves (56 + n)) _ (u32 r) _ (u32-Ensures r (56 + n) (omega arith)) λ v e.
      bind_rule (Leaves (52 + n)) _ (u32 v.1) _ (u32-Ensures v.1 (52 + n) (omega arith)) λ v e.
        bind_rule (Leaves (48 + n)) _ (u32 v.1) _ (u32-Ensures v.1 (48 + n) (omega arith)) λ v e.
          bind_rule (Leaves (44 + n)) _ (u32 v.1) _ (u32-Ensures v.1 (44 + n) (omega arith)) λ v e.
            bind_rule (Leaves (40 + n)) _ (u32 v.1) _ (u32-Ensures v.1 (40 + n) (omega arith))
              λ v e.
                bind_rule (Leaves (24 + n)) _ (token_field v.1) _
                  (token_field-Ensures v.1 (24 + n) (omega arith))
                  λ v e.
                    bind_rule (Leaves (16 + n)) _ (ref_field v.1) _
                      (ref_field-Ensures v.1 (16 + n) (omega arith))
                      λ v e.
                        bind_rule (Leaves (8 + n)) _ (ref_field v.1) _
                          (ref_field-Ensures v.1 (8 + n) (omega arith))
                          λ v e.
                            bind_rule (Leaves n) _ (ref_field v.1) _
                              (ref_field-Ensures v.1 n (omega arith)) λ v e. tt

-- What an accepted plan is like: at most 32 modules, each plausible.
pub record IsSane (p : Plan) : Type 0 where
  pub few : length p.modules ≤ 32
  pub plausible : All IsPlausible p.modules

parse_body-Ensures :
    (raw : Bytes) (h : Header)
    → h.size ≤ length raw
    → 60 + h.module_count * 20 ≤ h.size
    → h.module_count ≤ 32
    → Ensures IsSane (parse_body raw h)
unfolding parse_body
parse_body-Ensures raw h inside fits few =
    let blob = drop (min_plan_bytes + h.module_count * plan_module_size) raw in
    let size = h.size - min_plan_bytes - h.module_count * plan_module_size in
    let room : size ≤ length blob =
      omega (arith, length-drop (min_plan_bytes + h.module_count * plan_module_size) raw) in
    bind_rule (λ _. Unit {0}) _ (blob_string blob size h.inline_engine) _
      (blob_string-Ensures blob size h.inline_engine room)
      λ i _.
        bind_rule (λ _. Unit {0}) _ (blob_string blob size h.plt_engine) _
          (blob_string-Ensures blob size h.plt_engine room)
          λ t _.
            bind_rule (λ _. Unit {0}) _ (blob_string blob size h.debugdata) _
              (blob_string-Ensures blob size h.debugdata room)
              λ d _.
                bind_rule (Modules h.module_count) _
                  (parse_modules h.module_count (drop min_plan_bytes raw) blob size) _
                  (parse_modules-Ensures h.module_count (drop min_plan_bytes raw) blob size
                    (omega (arith, length-drop min_plan_bytes raw)) room)
                  λ ms ok. record { few = omega (arith, ok.0); plausible = ok.1 }

last_check : (Q : Unit {0} → Type 0) (b : Bool) → (b ≡ false → Q tt) → Ensures Q (reject_if b)
last_check Q true k = tt
last_check Q false k = k refl

abbrev Checked : Header → Type 0
Checked h = (60 + h.module_count * 20 ≤ h.size) × (h.module_count ≤ 32)

check_header-Ensures : (h : Header) → Ensures (λ _. Checked h) (check_header h)
unfolding check_header
check_header-Ensures h =
    let Q : Unit {0} → Type 0 = λ _. Checked h in
    check_rule Q (not (h.magic == plan_magic)) _ λ _.
      check_rule Q (not (h.version == plan_version)) _ λ _.
        check_rule Q (ltb h.size min_plan_bytes || ltb plan_max_bytes h.size) _ λ _.
          check_rule Q (ltb plan_max_modules h.module_count) _ λ few.
            last_check Q (ltb h.size (min_plan_bytes + h.module_count * plan_module_size))
              λ fits. ground (arith, few, fits)

-- Where the header and the bytes that its size names can be read, the parser reads no other byte. It
-- rejects the plan, or accepts one of at most 32 modules, each with a descriptor that is not negative
-- and an index below 32.
pub parse_plan-Ensures :
    (raw : Bytes)
    → 60 ≤ length raw
    → ((h : Header) → read_header raw ≡ accepted h → h.size ≤ length raw)
    → Ensures IsSane (parse_plan (some raw))
unfolding parse_plan
parse_plan-Ensures raw long inside = go (read_header raw) refl (read_header-Ensures raw long)
  where
    checked :
        (h : Header)
        → h.size ≤ length raw
        → Ensures IsSane (check_header h >>= λ _. parse_body raw h)
    checked h size =
        bind_rule (λ _. Checked h) IsSane (check_header h) _ (check_header-Ensures h)
          λ _ ok. parse_body-Ensures raw h size ok.0 ok.1

    go :
        (m : Outcome Header)
        → read_header raw ≡ m
        → Ensures (λ _. Unit {0}) m
        → Ensures IsSane (m >>= λ h. check_header h >>= λ _. parse_body raw h)
    go fault e f = absurd f
    go rejected e f = tt
    go (accepted h) e f = checked h (inside h e)
