-- ===== src/Kpm/Format/Digits.antt =====
-- kpm/src/znn_format.h: what the digit loop of `znn_append_u64` leaves in `digits[20]`.
use zygisk_next_next.Base.{
  ◌⊎◌, inl, inr, Bool-cases, ◌==◌, ℕ, zero, suc, ◌+◌, ◌-◌, ◌*◌, ◌/◌, ◌%◌, ◌^◌, ◌≤◌, ◌<◌, ◌≡◌, ◌≢◌,
  [], ◌∷◌, Bytes, length, All, arith,
}
use native.Mathlib.Nat.{pow-suc}
use zygisk_next_next.Kpm.Format.{collect_digits}

abbrev pub IsDigit : ℕ → Type 0
IsDigit c = (b'0' ≤ c) × (c ≤ b'9')

-- The number that digits spell behind `n`.
abbrev pub value : ℕ → Bytes → ℕ
value n [] = n
value n (c ∷ s) = value (n * 10 + (c - b'0')) s

-- The decimal spelling of a 64-bit number.
unfoldable pub decimal : ℕ → Bytes
decimal v = collect_digits 20 v []

tenth : (room v : ℕ) → v < 10 ^ suc room → v / 10 < 10 ^ room
tenth room v h = let e : 10 ^ suc room ≡ 10 ^ room * 10 = pow-suc 10 room in omega (arith, e)

pub value-collect :
    (room v : ℕ) (ds : Bytes) → v < 10 ^ room → value 0 (collect_digits room v ds) ≡ value v ds
unfolding collect_digits
value-collect zero v ds h = let e : 0 ≡ v = omega arith in rw (← e)
value-collect (suc room) v ds h =
    let rest = value-collect room (v / 10) ((b'0' + v % 10) ∷ ds) (tenth room v h) in
    ground (arith, rest)

length-collect : (room v : ℕ) (ds : Bytes) → length (collect_digits room v ds) ≤ room + length ds
unfolding collect_digits
length-collect zero v ds = omega arith
length-collect (suc room) v ds = ground (arith, length-collect room (v / 10) ((b'0' + v % 10) ∷ ds))

pub collect-IsDigit :
    (room v : ℕ) (ds : Bytes) → All IsDigit ds → All IsDigit (collect_digits room v ds)
unfolding collect_digits
collect-IsDigit zero v ds h = h
collect-IsDigit (suc room) v ds h =
    ground (arith, collect-IsDigit room (v / 10) ((b'0' + v % 10) ∷ ds))

-- No zero leads.
abbrev pub Leads : Bytes → Type 0
Leads [] = ⊥
Leads (c ∷ s) = c ≢ b'0'

collect-Leads :
    (room v : ℕ) (ds : Bytes) → v < 10 ^ suc room → 0 < v → Leads (collect_digits (suc room) v ds)
unfolding collect_digits
collect-Leads zero v ds h p = ground arith
collect-Leads (suc room) v ds h p =
    let t = tenth (suc room) v h in
    let rest = collect-Leads room (v / 10) ((b'0' + v % 10) ∷ ds) t in ground (arith, rest)

-- Every 64-bit number is printed by at most 20 digits, which spell it, and no zero leads unless the
-- number is zero.
pub decimal_lem :
    (v : ℕ)
    → v < 2 ^ 64
    → (value 0 (decimal v) ≡ v)
      × All IsDigit (decimal v)
      × (length (decimal v) ≤ 20)
      × ((v ≡ 0) ⊎ Leads (decimal v))
unfolding decimal
decimal_lem v h = (
  value-collect 20 v [] (omega arith),
  collect-IsDigit 20 v [] tt,
  length-collect 20 v [],
  elim (Bool-cases (v == 0)) [
    | inl e ↦ inl (ground (arith, e))
    | inr e ↦ inr (collect-Leads 19 v [] (omega arith) (ground (arith, e)))
  ],
)

length-collect_of_lt :
    (k room v : ℕ) (ds : Bytes)
    → v < 10 ^ suc k
    → length (collect_digits (suc room) v ds) ≤ suc k + length ds
unfolding collect_digits
length-collect_of_lt k zero v ds h =
    ground (arith, length-collect 0 (v / 10) ((b'0' + v % 10) ∷ ds))
length-collect_of_lt zero (suc room) v ds h = ground arith
length-collect_of_lt (suc k) (suc room) v ds h =
    let rest = length-collect_of_lt k room (v / 10) ((b'0' + v % 10) ∷ ds) (tenth (suc k) v h) in
    ground (arith, rest)

-- A number below 10^10 has at most ten digits.
pub length-decimal_of_lt : (v : ℕ) → v < 10 ^ 10 → length (decimal v) ≤ 10
unfolding decimal
length-decimal_of_lt v h = omega (arith, length-collect_of_lt 9 19 v [] h)
