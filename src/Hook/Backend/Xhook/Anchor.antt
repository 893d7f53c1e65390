-- ===== src/Hook/Backend/Xhook/Anchor.antt =====
-- loader/src/hook/backend/xhook.cpp: the regular expression of `anchorRegex` matches its path alone.
use zygisk_next_next.Base.{
  ℕ, ◌≡◌, refl, Bool, true, false, [], ◌∷◌, ◌++◌, Bytes, codes, ◌||◌, ◌==◌, if◌then◌else◌, Option,
  none, some, ◌>>=◌, Bool-cases, inl, inr, arith,
}
use zygisk_next_next.Hook.Backend.Xhook.{is_special, escape, anchor_regex}

abbrev pub is_one_of : Bytes → ℕ → Bool
is_one_of [] c = false
is_one_of (d ∷ chars) c = c == d || is_one_of chars c

-- The special characters of POSIX extended regular expressions outside a bracket expression.
unfoldable pub ere_special : ℕ → Bool
ere_special = is_one_of (codes "^.[$()|*+?{\\")

-- The characters that a backslash makes stand for themselves: the special ones, and the closing
-- brackets, which also stand for themselves without it.
unfoldable pub ere_quotable : ℕ → Bool
ere_quotable c = ere_special c || is_one_of (codes "]}") c

-- The text that an extended regular expression matches alone: between the anchors a character that is
-- not special stands for itself, and so does a quotable one behind a backslash; none for any other
-- expression.
abbrev pub text_behind : (escaped : Bool) → Bytes → Option Bytes
text_behind escaped [] = none
text_behind true (c ∷ s) =
    if ere_quotable c then (text_behind false s >>= λ t. some (c ∷ t)) else none
text_behind false (c ∷ s) =
    if c == b'\\'
    then text_behind true s
    else if c == b'$'
    then (elim s [ [] ↦ some [] | _ ↦ none ])
    else if ere_special c
    then none
    else (text_behind false s >>= λ t. some (c ∷ t))

abbrev pub anchored_text : Bytes → Option Bytes
anchored_text [] = none
anchored_text (c ∷ s) = if c == b'^' then text_behind false s else none

plain :
    (c : ℕ)
    → is_special c ≡ false
    → ((c == b'\\') ≡ false) × ((c == b'$') ≡ false) × (ere_special c ≡ false)
unfolding is_special ere_special
plain c e = ground (arith, e)

quoted : (c : ℕ) → is_special c ≡ true → ere_quotable c ≡ true
unfolding is_special ere_special ere_quotable
quoted c e = ground (arith, e)

text_behind-escape : (path : Bytes) → text_behind false (escape path ++ b'$' ∷ []) ≡ some path
unfolding escape
text_behind-escape [] = refl
text_behind-escape (c ∷ path) = elim (Bool-cases (is_special c)) [
  | inl e ↦ rw (e, text_behind-escape path, quoted c e) refl
  | inr e ↦
      let (slash, dollar, literal) = plain c e in
      rw (e, slash, dollar, literal, text_behind-escape path) refl
]

-- Whatever characters a path has, `anchorRegex` makes a POSIX extended regular expression of it that
-- matches that path and nothing else: no special character of the path is left without a backslash.
pub anchor_regex-text : (path : Bytes) → anchored_text (anchor_regex path) ≡ some path
unfolding anchor_regex
anchor_regex-text path = text_behind-escape path
