-- ===== src/Boot/Plan/Fields.antt =====
-- loader/src/module/plan.cpp and injector/src/plan.rs: each field is read back as it is written.
use zygisk_next_next.Base.{
  ℕ, zero, suc, ◌+◌, ◌-◌, ◌^◌, ◌<◌, ◌≡◌, refl, ap, sym, false, ◌||◌, [], ◌∷◌, ◌++◌, append_assoc,
  Bytes, length, length-append, get_elem?, take, drop, ltb, leb, ◌==◌, some, arith,
}
use zygisk_next_next.Boot.Plan.{
  StringRef, accepted, u32, token_field, ref_field, byte_at, bounded_string, blob_string,
}
use zygisk_next_next.Boot.Plan.Encode.{u32_bytes, ref_bytes}

pub u32-u32_bytes :
    (v : ℕ) (rest : Bytes) → v < 2 ^ 32 → u32 (u32_bytes v ++ rest) ≡ accepted (v, rest)
unfolding u32 u32_bytes
u32-u32_bytes v rest h = ap (λ (n : ℕ). accepted (n, rest)) (omega arith)

pub length-u32_bytes : (v : ℕ) → length (u32_bytes v) ≡ 4
unfolding u32_bytes
length-u32_bytes v = refl

pub record Fits (r : StringRef) : Type 0 where
  pub offset_fits : r.offset < 2 ^ 32
  pub size_fits : r.size < 2 ^ 32

pub ref_field-ref_bytes :
    (r : StringRef) (rest : Bytes) → Fits r → ref_field (ref_bytes r ++ rest) ≡ accepted (r, rest)
unfolding ref_field ref_bytes
ref_field-ref_bytes r rest h =
    rw (append_assoc, u32-u32_bytes r.offset _ h.offset_fits, u32-u32_bytes r.size _ h.size_fits)

pub length-ref_bytes : (r : StringRef) → length (ref_bytes r) ≡ 8
unfolding ref_bytes
length-ref_bytes r = omega (
  arith,
  length-append (u32_bytes r.offset) (u32_bytes r.size),
  length-u32_bytes r.offset,
  length-u32_bytes r.size,
)

pub drop-append : (s t : Bytes) (n : ℕ) → n ≡ length s → drop n (s ++ t) ≡ t
drop-append [] t zero e = refl
drop-append [] t (suc n) e = absurd (omega arith)
drop-append (c ∷ s) t zero e = absurd (omega arith)
drop-append (c ∷ s) t (suc n) e = drop-append s t n (omega arith)

pub take-append : (s t : Bytes) (n : ℕ) → n ≡ length s → take n (s ++ t) ≡ s
take-append [] t zero e = refl
take-append [] t (suc n) e = absurd (omega arith)
take-append (c ∷ s) t zero e = absurd (omega arith)
take-append (c ∷ s) t (suc n) e = ap (λ r. c ∷ r) (take-append s t n (omega arith))

get_elem?-append : (s t : Bytes) (c n : ℕ) → n ≡ length s → get_elem? (s ++ c ∷ t) n ≡ some c
get_elem?-append [] t c zero e = refl
get_elem?-append [] t c (suc n) e = absurd (omega arith)
get_elem?-append (d ∷ s) t c zero e = absurd (omega arith)
get_elem?-append (d ∷ s) t c (suc n) e = get_elem?-append s t c n (omega arith)

pub byte_at-append : (s t : Bytes) (c n : ℕ) → n ≡ length s → byte_at (s ++ c ∷ t) n ≡ accepted c
unfolding byte_at
byte_at-append s t c n e = rw (get_elem?-append s t c n e, byte_at)

pub token_field-token :
    (t rest : Bytes) → length t ≡ 16 → token_field (t ++ rest) ≡ accepted (t, rest)
unfolding token_field
token_field-token t rest h =
    let enough : ltb (length (t ++ rest)) 16 ≡ false = ground (arith, length-append t rest) in
    rw (enough, take-append t rest 16 (sym h), drop-append t rest 16 (sym h))

-- A string with its NUL is read back from wherever it stands in the blob.
pub blob_string-at :
    (before value after : Bytes) (blob_size : ℕ)
    → length before + length value < blob_size
    → blob_string
        (before ++ (value ++ 0 ∷ after))
        blob_size
        (record { offset = length before; size = length value })
      ≡ accepted value
unfolding blob_string bounded_string
blob_string-at before [] after blob_size room = refl
blob_string-at before (c ∷ cs) after blob_size room =
    let value : Bytes = c ∷ cs in
    let a : (ltb blob_size (length before) || ltb (blob_size - length before) (length value))
        ≡ false =
      ground arith in
    let b : leb blob_size (length before + length value) ≡ false = ground arith in
    let nul : byte_at (before ++ (value ++ 0 ∷ after)) (length before + length value) ≡ accepted 0 =
      rw (← append_assoc) (
        byte_at-append (before ++ value) after 0 (length before + length value)
          (sym (length-append before value))) in
    let some_bytes : (length value == 0) ≡ false = ground arith in
    rw (
      some_bytes,
      a,
      b,
      nul,
      drop-append before (value ++ 0 ∷ after) (length before) refl,
      take-append value (0 ∷ after) (length value) refl,
    )

pub length-drop : (n : ℕ) (s : Bytes) → length (drop n s) ≡ length s - n
length-drop zero s = omega arith
length-drop (suc n) [] = omega arith
length-drop (suc n) (c ∷ s) = omega (arith, length-drop n s)
