-- ===== src/Companion/Names.antt =====
-- loader/src/ipc/channel.cpp: the names of the sockets are those of one module of one boot plan.
use zygisk_next_next.Base.{
  ℕ, zero, suc, ◌+◌, ◌-◌, ◌*◌, ◌/◌, ◌%◌, ◌^◌, ◌<◌, ◌≡◌, ◌≢◌, sym, ap, ◌∙◌, [], ◌∷◌, ◌++◌, Bytes,
  ltb, if◌then◌else◌, inl, inr, ◌⊎◌, arith,
}
use native.Mathlib.Nat.{pow-suc}
use zygisk_next_next.Text.{Lacks, split-injective}
use zygisk_next_next.Kpm.Format.Digits.{value, decimal, decimal_lem}
use zygisk_next_next.Companion.Channel.{hex_digit, hex_digits, channel_name, direct_channel_name}

-- The number that hexadecimal digits spell behind `n`.
abbrev hex_value : ℕ → Bytes → ℕ
hex_value n [] = n
hex_value n (c ∷ s) = hex_value (n * 16 + (if ltb c b'a' then c - b'0' else c - b'a' + 10)) s

hex_digit-value :
    (d : ℕ)
    → d < 16
    → (if ltb (hex_digit d) b'a' then hex_digit d - b'0' else hex_digit d - b'a' + 10) ≡ d
hex_digit-value d h = ground arith

hex_value-digits :
    (places v : ℕ) (ds : Bytes)
    → v < 16 ^ places
    → hex_value 0 (hex_digits places v ds) ≡ hex_value v ds
unfolding hex_digits
hex_value-digits zero v ds h = let e : 0 ≡ v = omega arith in ap (λ n. hex_value n ds) e
hex_value-digits (suc places) v ds h =
    let e : 16 ^ suc places ≡ 16 ^ places * 16 = pow-suc 16 places in
    let rest = hex_value-digits places (v / 16) (hex_digit (v % 16) ∷ ds) (omega (arith, e)) in
    let whole : v / 16 * 16 + (v % 16) ≡ v = omega arith in
    rest
    ∙ ap (λ n. hex_value n ds)
        (ap (λ d. v / 16 * 16 + d) (hex_digit-value (v % 16) (omega arith)) ∙ whole)

hex_digits-Lacks : (places v : ℕ) (ds : Bytes) → Lacks b'.' ds → Lacks b'.' (hex_digits places v ds)
unfolding hex_digits
hex_digits-Lacks zero v ds h = h
hex_digits-Lacks (suc places) v ds h =
    let differs : hex_digit (v % 16) ≢ b'.' = λ e. ground (arith, e) in
    hex_digits-Lacks places (v / 16) (hex_digit (v % 16) ∷ ds) (differs, h)

-- What stands behind the names' first part.
abbrev tail : (nonce index : ℕ) → Bytes
tail nonce index = hex_digits 8 nonce [] ++ (b'.' ∷ decimal index)

tail-injective :
    (n m i j : ℕ)
    → n < 2 ^ 32
    → m < 2 ^ 32
    → i < 2 ^ 32
    → j < 2 ^ 32
    → tail n i ≡ tail m j
    → (n ≡ m) × (i ≡ j)
tail-injective n m i j hn hm hi hj e =
    let (h, d) =
      split-injective b'.' (hex_digits 8 n []) (hex_digits 8 m []) (decimal i) (decimal j)
        (hex_digits-Lacks 8 n [] tt) (hex_digits-Lacks 8 m [] tt) e in
    (
      sym (hex_value-digits 8 n [] (omega arith))
          ∙ (ap (hex_value 0) h ∙ hex_value-digits 8 m [] (omega arith)),
      sym ((decimal_lem i (omega arith)).0) ∙ (ap (value 0) d ∙ (decimal_lem j (omega arith)).0),
    )

-- The sockets of two modules, or of one in two boot plans, have different names, both those on which a
-- loader listens and those on which the helper does, for nonces and indices of 32 bits.
pub channel_name-injective :
    (n m i j : ℕ)
    → n < 2 ^ 32
    → m < 2 ^ 32
    → i < 2 ^ 32
    → j < 2 ^ 32
    → (channel_name n i ≡ channel_name m j) ⊎ (direct_channel_name n i ≡ direct_channel_name m j)
    → (n ≡ m) × (i ≡ j)
unfolding channel_name direct_channel_name
channel_name-injective n m i j hn hm hi hj (inl e) = tail-injective n m i j hn hm hi hj (cc e)
channel_name-injective n m i j hn hm hi hj (inr e) = tail-injective n m i j hn hm hi hj (cc e)
