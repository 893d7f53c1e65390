-- ===== src/Hook/Backend/Table.antt =====
-- loader/src/hook/backend: the tables of hooks, and the keys that they are kept under. A `std::map` is a
-- function from its keys.
use zygisk_next_next.Base.{
  ℕ, ◌<◌, ◌≡◌, ◌≢◌, refl, ◌⊎◌, inl, inr, ◌∷◌, ◌++◌, Bytes, same, same_iff, if◌then◌else◌, Option,
  none, some, arith,
}
use zygisk_next_next.Text.{
  to_string, to_string-injective, to_string-IsDigit, digits-Lacks, split-injective,
}

-- `std::map<std::string, V>`
abbrev pub Table : Type 0 → Type 0
Table V = Bytes → Option V

unfoldable pub put : {V : Type 0} → Bytes → V → Table V → Table V
put key v table k = if same k key then some v else table k

unfoldable pub remove : {V : Type 0} → Bytes → Table V → Table V
remove key table k = if same k key then none else table k

-- What `lspltHook` is called for.
pub record Site : Type 0 where
  pub dev : ℕ
  pub inode : ℕ
  pub symbol : Bytes

-- `recordKey` of lsplt.cpp
unfoldable pub record_key : Site → Bytes
record_key x = to_string x.dev ++ (b':' ∷ (to_string x.inode ++ (1 ∷ x.symbol)))

-- Different sites have different keys.
pub record_key-injective : (x y : Site) → record_key x ≡ record_key y → x ≡ y
unfolding record_key
record_key-injective x y e =
    let lacks = λ (c v : ℕ) (h : (c < b'0') ⊎ (b'9' < c)).
      digits-Lacks c (to_string v) h (to_string-IsDigit v) in
    let (d, rest) =
      split-injective b':' (to_string x.dev) (to_string y.dev) _ _
        (lacks b':' x.dev (inr (omega arith))) (lacks b':' y.dev (inr (omega arith))) e in
    let (i, s) =
      split-injective 1 (to_string x.inode) (to_string y.inode) _ _
        (lacks 1 x.inode (inl (omega arith))) (lacks 1 y.inode (inl (omega arith))) rest in
    cc (to_string-injective x.dev y.dev d, to_string-injective x.inode y.inode i, s)

module _ {V : Type 0} where
  pub put_self : (key : Bytes) (v : V) (t : Table V) → put key v t key ≡ some v
  unfolding put
  put_self key v t = rw ((same_iff key key).1 refl) refl

  pub put_ne : (key k : Bytes) (v : V) (t : Table V) → k ≢ key → put key v t k ≡ t k
  unfolding put
  put_ne key k v t h = ground (arith, same_iff k key)

  pub remove_self : (key : Bytes) (t : Table V) → remove key t key ≡ none
  unfolding remove
  remove_self key t = rw ((same_iff key key).1 refl) refl

  pub remove_ne : (key k : Bytes) (t : Table V) → k ≢ key → remove key t k ≡ t k
  unfolding remove
  remove_ne key k t h = ground (arith, same_iff k key)
