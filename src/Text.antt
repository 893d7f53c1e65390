-- ===== src/Text.antt =====
-- `std::to_string` of the C++ library, and texts that are put together around a separator.
use zygisk_next_next.Base.{
  ℕ, zero, suc, ◌*◌, ◌^◌, ◌<◌, ◌≡◌, ◌≢◌, refl, sym, ap, ◌∙◌, ◌⊎◌, [], ◌∷◌, ◌++◌, Bytes, All, arith,
}
use native.Mathlib.Nat.{pow-suc}
use zygisk_next_next.Kpm.Format.{collect_digits}
use zygisk_next_next.Kpm.Format.Digits.{IsDigit, value, value-collect, collect-IsDigit}

-- `std::to_string`
unfoldable pub to_string : ℕ → Bytes
to_string v = collect_digits (suc v) v []

fits : (v : ℕ) → v < 10 ^ suc v
fits zero = omega arith
fits (suc v) =
    let e : 10 ^ suc (suc v) ≡ 10 ^ suc v * 10 = pow-suc 10 (suc v) in omega (arith, e, fits v)

pub to_string-injective : (v w : ℕ) → to_string v ≡ to_string w → v ≡ w
unfolding to_string
to_string-injective v w e =
    sym (value-collect (suc v) v [] (fits v))
    ∙ (ap (value 0) e ∙ value-collect (suc w) w [] (fits w))

pub to_string-IsDigit : (v : ℕ) → All IsDigit (to_string v)
unfolding to_string
to_string-IsDigit v = collect-IsDigit (suc v) v [] tt

-- The bytes do not contain `c`.
abbrev pub Lacks : ℕ → Bytes → Type 0
Lacks c = All (λ b. b ≢ c)

pub digits-Lacks : (c : ℕ) (s : Bytes) → (c < b'0') ⊎ (b'9' < c) → All IsDigit s → Lacks c s
digits-Lacks c [] h d = tt
digits-Lacks c (b ∷ s) h (d, ds) = (λ e. ground (arith, e), digits-Lacks c s h ds)

-- What stands before and behind the first `c` is determined.
pub split-injective :
    (c : ℕ) (a b x y : Bytes) → Lacks c a → Lacks c b → a ++ c ∷ x ≡ b ++ c ∷ y → (a ≡ b) × (x ≡ y)
split-injective c [] [] x y ha hb e = (refl, cc e)
split-injective c [] (d ∷ b) x y ha hb e = absurd (hb.0 (cc e))
split-injective c (d ∷ a) [] x y ha hb e = absurd (ha.0 (cc e))
split-injective c (d ∷ a) (d' ∷ b) x y ha hb e =
    let h : d ≡ d' = cc e in
    let (p, q) = split-injective c a b x y ha.1 hb.1 (cc e) in (cc (h, p), q)
