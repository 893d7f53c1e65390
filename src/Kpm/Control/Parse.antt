-- ===== src/Kpm/Control/Parse.antt =====
-- kpm/src/znn.c: what `znn_parse_read_command` accepts.
use zygisk_next_next.Base.{
  ℕ, ◌+◌, ◌-◌, ◌*◌, ◌≤◌, min, ◌≡◌, ◌≢◌, refl, ap, true, [], ◌∷◌, ◌++◌, Bytes, length, All, codes,
  Option, none, some, ◌>>=◌, arith,
}
use zygisk_next_next.Kpm.Format.Digits.{IsDigit, value}
use zygisk_next_next.Kpm.Control.{
  is_blank, skip_blanks, after_read, at_end, is_digit, next_value, digit_loop, parse_count,
  parse_read_command,
}

abbrev pub IsBlank : ℕ → Type 0
IsBlank c = is_blank c ≡ true

skip_blanks-append :
    (bs rest : Bytes) → All IsBlank bs → skip_blanks (bs ++ rest) ≡ skip_blanks rest
unfolding skip_blanks
skip_blanks-append [] rest h = refl
skip_blanks-append (b ∷ bs) rest h = ground (arith, skip_blanks-append bs rest h.1)

next_value-min : (v d : ℕ) → IsDigit d → next_value (min v 64) d ≡ min (v * 10 + (d - b'0')) 64
unfolding next_value
next_value-min v d h = ground arith

-- The running value is the true one, cut at 64.
digit_loop-min :
    (ds : Bytes) (v n : ℕ) (tail : Bytes)
    → All IsDigit ds
    → at_end tail ≡ true
    → digit_loop (min v 64) n (ds ++ tail) ≡ (min (value v ds) 64, n + length ds, tail)
unfolding digit_loop next_value
digit_loop-min [] v n [] h e = ground arith
digit_loop-min [] v n (t ∷ tail) h e = ground arith
digit_loop-min (d ∷ ds) v n tail h e =
    let digit : is_digit d ≡ true = ground (arith, h.0) in
    rw
      (
        digit,
        digit_loop,
        next_value-min v d h.0,
        digit_loop-min ds (v * 10 + (d - b'0')) (n + 1) tail h.1 e,
      )
      (ap (λ (k : ℕ). (min (value (v * 10 + (d - b'0')) ds) 64, k, tail)) (omega arith))

skip_blanks-digit :
    (ds tail : Bytes) → ds ≢ [] → All IsDigit ds → skip_blanks (ds ++ tail) ≡ ds ++ tail
unfolding skip_blanks
skip_blanks-digit [] tail ne h = absurd (ne refl)
skip_blanks-digit (d ∷ ds) tail ne h = ground (arith, h.0)

parse_count-digits :
    (between ds tail : Bytes)
    → All IsBlank between
    → between ≢ []
    → All IsDigit ds
    → ds ≢ []
    → at_end tail ≡ true
    → parse_count (between ++ (ds ++ tail)) ≡ some (min (value 0 ds) 64)
unfolding parse_count
parse_count-digits [] ds tail hb nb hd nd e = absurd (nb refl)
parse_count-digits (b ∷ bs) [] tail hb nb hd nd e = absurd (nd refl)
parse_count-digits (b ∷ bs) (d ∷ ds) tail hb nb hd nd e =
    rw
      (
        skip_blanks-append (b ∷ bs) ((d ∷ ds) ++ tail) hb,
        skip_blanks-digit (d ∷ ds) tail nd hd,
        digit_loop-min (d ∷ ds) 0 0 tail hd e,
      )
      (ground (arith, hb.0, e))

-- A count behind `read` and a blank is taken for what its digits spell, cut at the ring's capacity.
-- Blanks may stand before `read` and before the count, and anything may follow behind a blank.
pub parse-read_count :
    (before : Bytes) (between : Bytes) (ds : Bytes) (tail : Bytes)
    → All IsBlank before
    → All IsBlank between
    → between ≢ []
    → All IsDigit ds
    → ds ≢ []
    → at_end tail ≡ true
    → parse_read_command (some (before ++ (codes "read" ++ (between ++ (ds ++ tail)))))
      ≡ some (min (value 0 ds) 64)
unfolding parse_read_command
parse-read_count before between ds tail hb hc nc hd nd e =
    rw (skip_blanks-append before (codes "read" ++ (between ++ (ds ++ tail))) hb)
      (unfold after_read skip_blanks in parse_count-digits between ds tail hc nc hd nd e)

next_value-le : (v c : ℕ) → next_value v c ≤ 64
unfolding next_value
next_value-le v c = ground arith

digit_loop-le : (s : Bytes) (v n : ℕ) → v ≤ 64 → (digit_loop v n s).0 ≤ 64
unfolding digit_loop
digit_loop-le [] v n h = h
digit_loop-le (c ∷ s) v n h =
    ground (arith, digit_loop-le s (next_value v c) (n + 1), next_value-le v c)

parse_count-le : (rest : Bytes) {n : ℕ} → parse_count rest ≡ some n → n ≤ 64
unfolding parse_count
parse_count-le rest h = ground (arith, digit_loop-le (skip_blanks rest) 0 0)

-- Whatever the text, an accepted count is at most the ring's capacity.
pub parse-le : (args : Option Bytes) (n : ℕ) → parse_read_command args ≡ some n → n ≤ 64
unfolding parse_read_command
parse-le none n h = cc
parse-le (some args) n h = go (after_read (skip_blanks args)) h
  where
    go : (r : Option Bytes) → (r >>= parse_count) ≡ some n → n ≤ 64
    go none e = cc
    go (some rest) e = parse_count-le rest e
