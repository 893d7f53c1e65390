-- ===== src/Boot/Tests.antt =====
-- loader/src/module/plan.cpp: the theorems about the boot plan at work on a plan of two modules.
use zygisk_next_next.Base.{
  ℕ, ◌≤◌, ◌≡◌, refl, ap, true, false, [], ◌∷◌, ◌++◌, Bytes, codes, concat, replicate, length, some,
  arith,
}
use zygisk_next_next.Boot.Plan.{
  Plan, Header, Outcome, fault, rejected, accepted, u32, token_field, ref_field, read_header,
  parse_plan,
}
use zygisk_next_next.Boot.Plan.Encode.{
  u32_bytes, push_string, ref_bytes, push_paths, module_bytes, entry_bytes, any_bad_index,
  header_bytes, encode,
}
use zygisk_next_next.Boot.Plan.Entries.{IsPlan}
use zygisk_next_next.Boot.Plan.RoundTrip.{parse-encode}
use zygisk_next_next.Boot.Plan.Reads.{Ensures, IsSane, parse_plan-Ensures}

abbrev pub two_modules : Plan
two_modules = record {
  modules =
      record { fd = 12; companion = true; index = 0; path = codes "/m/a.so" }
      ∷ record { fd = 13; companion = false; index = 3; path = codes "/m/b.so" }
      ∷ [];
  inline_engine = codes "dobby";
  plt_engine = codes "";
  debugdata = codes "znn";
  nonce = 77;
  token = replicate 16 5;
}

pub two_modules-IsPlan : IsPlan two_modules
two_modules-IsPlan = record {
  nonce_fits = omega arith;
  token_size = refl;
  modules_open = (record { fd_open = omega arith }, (record { fd_open = omega arith }, tt));
}

-- The bytes of a string's reference, and of the plan.
abbrev ref : ℕ → ℕ → Bytes
ref o n = (o ∷ 0 ∷ 0 ∷ 0 ∷ []) ++ (n ∷ 0 ∷ 0 ∷ 0 ∷ [])

abbrev word : ℕ → Bytes
word n = n ∷ 0 ∷ 0 ∷ 0 ∷ []

abbrev pub encoded : Bytes
encoded = concat (
    (0x31 ∷ 0x4e ∷ 0x4e ∷ 0x5a ∷ [])
    ∷ word 3
    ∷ word 127
    ∷ word 2
    ∷ word 77
    ∷ replicate 16 5
    ∷ ref 0 5
    ∷ ref 6 0
    ∷ ref 7 3
    ∷ word 12
    ∷ word 1
    ∷ word 0
    ∷ ref 11 7
    ∷ word 13
    ∷ word 0
    ∷ word 3
    ∷ ref 19 7
    ∷ codes "dobby"
    ∷ (0 ∷ 0 ∷ [])
    ∷ codes "znn"
    ∷ (0 ∷ [])
    ∷ codes "/m/a.so"
    ∷ (0 ∷ [])
    ∷ codes "/m/b.so"
    ∷ (0 ∷ [])
    ∷ [])

pub encode-two_modules : encode two_modules ≡ some encoded
unfolding encode push_string push_paths any_bad_index entry_bytes module_bytes header_bytes
    ref_bytes u32_bytes
encode-two_modules = refl

parse-encode_example : parse_plan (some (encoded ++ 9 ∷ 9 ∷ [])) ≡ accepted two_modules
parse-encode_example =
    parse-encode two_modules encoded (9 ∷ 9 ∷ []) two_modules-IsPlan encode-two_modules

abbrev size_of : Outcome Header → ℕ
size_of fault = 0
size_of rejected = 0
size_of (accepted h) = h.size

encoded_size : (h : Header) → read_header encoded ≡ accepted h → h.size ≤ length encoded
unfolding read_header u32 token_field ref_field
encoded_size h e = let same_size : 127 ≡ h.size = ap size_of e in omega (arith, same_size)

parse_plan-Ensures_example : Ensures IsSane (parse_plan (some encoded))
parse_plan-Ensures_example = parse_plan-Ensures encoded (omega arith) encoded_size
