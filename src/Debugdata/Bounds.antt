-- ===== src/Debugdata/Bounds.antt =====
-- loader/src/utils/debugdata.cpp: the loops end after at most nine rounds, and the output stays within
-- its bound.
use zygisk_next_next.Base.{
  ℕ, zero, suc, ◌*◌, ◌≤◌, ◌<◌, min, ◌≡◌, ◌∙◌, refl, sym, ap, Bool, true, false, ◌||◌, Bytes, length,
  take, drop, ltb, leb, ◌==◌, Option, none, some, Bool-cases, ◌⊎◌, inl, inr, arith,
}
use zygisk_next_next.Debugdata.{
  max_decompressed_size, initial_output_size, Backend, lzma, xz, is_xz_stream, little_endian,
  LzmaResult, lzma_error, lzma_finished, lzma_more, LzmaDecode, ends, grows, lzma_turn, lzma_loop,
  is_sized, lzma_alone, XzRet, stream_end, xz_ok, xz_failed, XzBuffer, XzDecoder, xz_ends, xz_grows,
  xz_turn, xz_loop, xz_started, xz_stream, try_backend, other, second_try, decompress,
}

-- The loop has ended.
abbrev pub Ended {ℓ} : {A : Type ℓ} → Option A → Type 0
Ended none = ⊥
Ended (some a) = Unit

-- Doubling up to the maximum reaches it within `f` rounds.
abbrev pub Reaches : ℕ → ℕ → Type 0
Reaches zero c = max_decompressed_size ≤ c
Reaches (suc f) c = Reaches f (min (c * 2) max_decompressed_size)

lzma_turn_cases :
    (sized : Bool) (c : ℕ) (r : LzmaResult)
    → ((o : Option Bytes) × (lzma_turn sized c r ≡ ends o))
      ⊎ (sized ≡ false)
        × (c < max_decompressed_size)
        × (lzma_turn sized c r ≡ grows (min (c * 2) max_decompressed_size))
unfolding lzma_turn
lzma_turn_cases sized c lzma_error = inl (none, refl)
lzma_turn_cases sized c (lzma_finished out) = inl (some out, refl)
lzma_turn_cases true c lzma_more = inl (none, refl)
lzma_turn_cases false c lzma_more = elim (Bool-cases (leb max_decompressed_size c)) [
  | inl e ↦ rw e (inl (none, refl))
  | inr e ↦ rw e (inr (refl, ground (arith, e), refl))
]

lzma_loop-Ended :
    (decode : LzmaDecode) (props payload : Bytes) (sized : Bool) (f c : ℕ)
    → (sized ≡ true) ⊎ Reaches f c
    → Ended (lzma_loop decode props payload sized (suc f) c)
unfolding lzma_loop
lzma_loop-Ended decode props payload sized zero c h =
    elim (lzma_turn_cases sized c (decode props payload c sized)) [
      | inl (o, e) ↦ rw (e, Ended) tt
      | inr (unsized, less, e) ↦
          absurd (elim h [ inl s ↦ cc (s, unsized) | inr r ↦ omega (arith, r, less) ])
    ]
lzma_loop-Ended decode props payload sized (suc f) c h =
    elim (lzma_turn_cases sized c (decode props payload c sized)) [
      | inl (o, e) ↦ rw (e, Ended) tt
      | inr (unsized, less, e) ↦
          let next : (sized ≡ true) ⊎ Reaches f (min (c * 2) max_decompressed_size) = h in
          rw (e, Ended)
            (lzma_loop-Ended decode props payload sized f (min (c * 2) max_decompressed_size) next)
    ]

xz_turn_cases :
    (n c : ℕ) (r : XzRet) (b : XzBuffer)
    → ((o : Option Bytes) × (xz_turn n c r b ≡ xz_ends o))
      ⊎ (c < max_decompressed_size)
        × (xz_turn n c r b ≡ xz_grows (min (c * 2) max_decompressed_size))
unfolding xz_turn
xz_turn_cases n c stream_end b = inl (some b.written, refl)
xz_turn_cases n c xz_failed b = inl (none, refl)
xz_turn_cases n c xz_ok b = elim (Bool-cases (b.in_pos == n)) [
  | inl e ↦ rw e (inl (none, refl))
  | inr e ↦ elim (Bool-cases (ltb (length b.written) c)) [
    | inl e' ↦ rw (e, e') (inl (none, refl))
    | inr e' ↦ elim (Bool-cases (leb max_decompressed_size c)) [
      | inl m ↦ rw (e, e', m) (inl (none, refl))
      | inr m ↦ rw (e, e', m) (inr (ground (arith, m), refl))
    ]
  ]
]

module _ {X : Type 0} (decoder : XzDecoder X) where
  xz_loop-Ended :
      (s : Bytes) (f c : ℕ) (x : X) (b : XzBuffer)
      → Reaches f c
      → Ended (xz_loop decoder s (suc f) c x b)
  unfolding xz_loop
  xz_loop-Ended s zero c x b h =
      let (r, x', b') = decoder.run s c x b in
      elim (xz_turn_cases (length s) c r b') [
        | inl (o, e) ↦ rw (e, Ended) tt
        | inr (less, e) ↦ absurd (omega (arith, h, less))
      ]
  xz_loop-Ended s (suc f) c x b h =
      let (r, x', b') = decoder.run s c x b in
      elim (xz_turn_cases (length s) c r b') [
        | inl (o, e) ↦ rw (e, Ended) tt
        | inr (less, e) ↦
            rw (e, Ended) (xz_loop-Ended s f (min (c * 2) max_decompressed_size) x' b' h)
      ]

  xz_started-Ended : (s : Bytes) (o : Option X) → Ended (xz_started decoder 9 s o)
  unfolding xz_started
  xz_started-Ended s none = tt
  xz_started-Ended s (some x) = xz_loop-Ended s 8 initial_output_size x _ (omega arith)

  module _ (decode : LzmaDecode) where
    try_backend-Ended : (b : Backend) (s : Bytes) → Ended (try_backend decoder decode 9 b s)
    unfolding try_backend lzma_alone xz_stream
    try_backend-Ended xz s = elim (Bool-cases (is_xz_stream s)) [
      | inl e ↦ rw e (xz_started-Ended s decoder.init)
      | inr e ↦ rw e tt
    ]
    try_backend-Ended lzma s =
        let n = little_endian (take 8 (drop 5 s)) in
        elim (Bool-cases (ltb (length s) 13 || is_xz_stream s)) [
          | inl e ↦ rw e tt
          | inr e ↦ elim (Bool-cases (is_sized n)) [
            | inl d ↦ elim (Bool-cases (ltb max_decompressed_size n)) [
              | inl f ↦ rw (e, d, f) tt
              | inr f ↦
                  rw (e, d, f) (lzma_loop-Ended decode (take 5 s) (drop 13 s) true 8 n (inl refl))
            ]
            | inr d ↦
                rw (e, d)
                  (lzma_loop-Ended decode (take 5 s) (drop 13 s) false 8 initial_output_size
                    (inr (omega arith)))
          ]
        ]

    -- Each decoder refuses what the other takes.
    one_format :
        (f : ℕ) (s : Bytes)
        → (try_backend decoder decode f lzma s ≡ some none)
          ⊎ (try_backend decoder decode f xz s ≡ some none)
    unfolding try_backend lzma_alone xz_stream
    one_format f s = elim (Bool-cases (is_xz_stream s)) [
      | inl e ↦ inl (ground (arith, e))
      | inr e ↦ inr (rw e refl)
    ]

    tried-Ended :
        (fallback : Backend) (s : Bytes) (first : Option (Option Bytes))
        → Ended first
        → Ended (second_try decoder decode 9 fallback s first)
    unfolding second_try
    tried-Ended fallback s none h = absurd h
    tried-Ended fallback s (some none) h = try_backend-Ended fallback s
    tried-Ended fallback s (some (some out)) h = tt

    -- Whatever the decoders answer, `decompress` ends: neither loop runs more than nine rounds, in which
    -- the output grows from 256 KiB to 64 MiB.
    pub decompress-Ended :
        (preferred : Backend) (s : Option Bytes) → Ended (decompress decoder decode 9 preferred s)
    unfolding decompress
    decompress-Ended preferred none = tt
    decompress-Ended preferred (some s) = elim (Bool-cases (length s == 0)) [
      | inl e ↦ rw e tt
      | inr e ↦
          rw e (tried-Ended (other decoder decode preferred) s _ (try_backend-Ended preferred s))
    ]

    second_try-refused :
        (b : Backend) (s : Bytes) (first : Option (Option Bytes))
        → try_backend decoder decode 9 b s ≡ some none
        → second_try decoder decode 9 b s first ≡ first
    unfolding second_try
    second_try-refused b s none e = refl
    second_try-refused b s (some none) e = e
    second_try-refused b s (some (some out)) e = refl

    swapped :
        (s : Bytes)
        → second_try decoder decode 9 xz s (try_backend decoder decode 9 lzma s)
          ≡ second_try decoder decode 9 lzma s (try_backend decoder decode 9 xz s)
    unfolding second_try
    swapped s = elim (one_format 9 s) [
      | inl e ↦
          ap (λ (o : Option (Option Bytes)). second_try decoder decode 9 xz s o) e
          ∙ sym (second_try-refused lzma s (try_backend decoder decode 9 xz s) e)
      | inr e ↦
          second_try-refused xz s (try_backend decoder decode 9 lzma s) e
          ∙ sym (ap (λ (o : Option (Option Bytes)). second_try decoder decode 9 lzma s o) e)
    ]

    -- The result does not depend on the backend that is preferred: no data is taken by both.
    pub decompress-backend :
        (s : Option Bytes) → decompress decoder decode 9 lzma s ≡ decompress decoder decode 9 xz s
    unfolding decompress
    decompress-backend none = refl
    decompress-backend (some s) = rw (swapped s) refl
