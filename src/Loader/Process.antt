-- ===== src/Loader/Process.antt =====
-- loader/src/process/self.cpp: the name of the program that the process runs.
use zygisk_next_next.Base.{
  ℕ, zero, suc, ◌+◌, ◌-◌, ◌≤◌, ◌≡◌, refl, ap, true, false, ◌&&◌, Bool, List, [], ◌∷◌, ◌++◌, Bytes,
  codes, length, take, drop, length-append, same, same_refl, ltb, lt→ltb, if◌then◌else◌, Option,
  none, some, arith,
}
use zygisk_next_next.Elf.Maps.{has_slash, file_name}

-- PATH_MAX - 1, for which the buffer of `exePath` has room
abbrev pub link_max : ℕ
link_max = 4095

-- kDeleted: the kernel's mark behind the path of a program whose file is gone.
abbrev pub deleted : Bytes
deleted = codes " (deleted)"

abbrev pub is_deleted : Bytes → Bool
is_deleted p = ltb 10 (length p) && same (drop (length p - 10) p) deleted

-- `exePath`; the argument is the target of /proc/self/exe, none for an error of `readlink`, which cuts
-- a target that is longer than the buffer.
unfoldable pub exe_path : Option Bytes → Bytes
exe_path none = []
exe_path (some link) =
    let p = take link_max link in if is_deleted p then take (length p - 10) p else p

-- `exeName`
unfoldable pub exe_name : Option Bytes → Bytes
exe_name link = file_name (exe_path link)

module _ {ℓ} {A : Type ℓ} where
  take_all : (n : ℕ) (xs : List A) → length xs ≤ n → take n xs ≡ xs
  take_all zero [] h = refl
  take_all zero (x ∷ xs) h = absurd (omega arith)
  take_all (suc n) [] h = refl
  take_all (suc n) (x ∷ xs) h = ap (λ (r : List A). x ∷ r) (take_all n xs (omega arith))

  take-append : (xs ys : List A) → take (length xs) (xs ++ ys) ≡ xs
  take-append [] ys = refl
  take-append (x ∷ xs) ys = ap (λ (r : List A). x ∷ r) (take-append xs ys)

  drop-append : (xs ys : List A) → drop (length xs) (xs ++ ys) ≡ ys
  drop-append [] ys = refl
  drop-append (x ∷ xs) ys = drop-append xs ys

has_slash-append : (a b : Bytes) → has_slash (a ++ b'/' ∷ b) ≡ true
unfolding has_slash
has_slash-append [] b = refl
has_slash-append (c ∷ a) b = ground (arith, has_slash-append a b)

file_name_plain : (name : Bytes) → has_slash name ≡ false → file_name name ≡ name
unfolding file_name
file_name_plain [] h = refl
file_name_plain (c ∷ s) h = rw h refl

file_name-append :
    (dir name : Bytes) → has_slash name ≡ false → file_name (dir ++ b'/' ∷ name) ≡ name
unfolding file_name
file_name-append [] name h = rw (has_slash-append [] name) (file_name_plain name h)
file_name-append (c ∷ dir) name h =
    rw (has_slash-append (c ∷ dir) name) (file_name-append dir name h)

-- A program whose file was deleted keeps its name: of a path of a directory, a slash, a name without
-- one and the kernel's mark, that fits in the buffer, `exeName` gives the name.
pub exe_name-deleted :
    (dir name : Bytes)
    → has_slash name ≡ false
    → length dir + length name + 11 ≤ link_max
    → exe_name (some ((dir ++ b'/' ∷ name) ++ deleted)) ≡ name
unfolding exe_name exe_path
exe_name-deleted dir name h fits =
    let path = dir ++ b'/' ∷ name in
    let n = length-append dir (b'/' ∷ name) in
    let m = length-append path deleted in
    let whole : take link_max (path ++ deleted) ≡ path ++ deleted =
      take_all link_max (path ++ deleted) (omega (arith, n, m)) in
    let cut : length (path ++ deleted) - 10 ≡ length path = omega (arith, m) in
    let long = lt→ltb 10 (length (path ++ deleted)) (omega (arith, n, m)) in
    rw (whole, cut, long, drop-append path deleted, same_refl deleted, take-append path deleted)
      (file_name-append dir name h)
