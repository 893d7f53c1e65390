-- ===== src/Kpm/Format/Line.antt =====
-- kpm/src/znn_format.h: the line of an exec record against its reference text.
use zygisk_next_next.Base.{
  ℕ, zero, suc, ◌+◌, ◌-◌, ◌^◌, ◌≤◌, ◌<◌, min, ◌≡◌, ◌∙◌, inl, inr, refl, true, [], ◌∷◌, ◌++◌, Bytes,
  length, length-append, take, ltb, arith, Bool-cases, append-nil, append_assoc, ℤ, pos, negsuc,
  codes, IsInt32,
}
use zygisk_next_next.Kpm.Format.{
  append_text, append_u64, append_i32, format_exec_record, line_capacity,
}
use zygisk_next_next.Kpm.Format.Digits.{decimal, decimal_lem, length-decimal_of_lt}

-- A number with its sign.
pub signed : ℤ → Bytes
signed (pos n) = decimal n
signed (negsuc n) = b'-' ∷ decimal (suc n)

-- The text of a record, whole.
pub exec_line : ℕ → ℤ → ℤ → ℤ → Bytes
exec_line seq pid tgid ppid =
    codes "seq="
    ++ (decimal seq
        ++ (codes " pid="
            ++ (signed pid
                ++ (codes " tgid="
                    ++ (signed tgid ++ (codes " ppid=" ++ (signed ppid ++ codes "\n")))))))

take-append : (n : ℕ) (s t : Bytes) → take n (s ++ t) ≡ take n s ++ take (n - length s) t
take-append zero s t = let e : 0 - length s ≡ 0 = omega arith in rw e
take-append (suc n) [] t = let e : suc n - 0 ≡ suc n = omega arith in rw e
take-append (suc n) (c ∷ s) t =
    let e : suc n - suc (length s) ≡ n - length s = omega arith in rw (e, take-append n s t)

pub length-take : (n : ℕ) (s : Bytes) → length (take n s) ≡ min n (length s)
length-take zero s = omega arith
length-take (suc n) [] = omega arith
length-take (suc n) (x ∷ s) = omega (arith, length-take n s)

take-all : (n : ℕ) (s : Bytes) → length s ≤ n → take n s ≡ s
take-all zero [] h = refl
take-all zero (c ∷ s) h = absurd (omega arith)
take-all (suc n) [] h = refl
take-all (suc n) (c ∷ s) h = rw (take-all n s (omega arith))

take-nil : (n : ℕ) → take {A = ℕ} n [] ≡ []
take-nil zero = refl
take-nil (suc n) = refl

take-step :
    (n room c : ℕ) (text : Bytes)
    → ltb n room ≡ true
    → take (room - n) (c ∷ text) ≡ c ∷ take (room - (n + 1)) text
take-step n room c text h = let e : room - n ≡ suc (room - (n + 1)) = ground arith in rw e

-- What fits of the text is appended.
append_text-take :
    (buffer : Bytes) (room : ℕ) (text : Bytes)
    → append_text buffer room text ≡ buffer ++ take (room - length buffer) text
unfolding append_text
append_text-take buffer room [] = rw (take-nil, append-nil)
append_text-take buffer room (c ∷ text) = elim (Bool-cases (ltb (length buffer) room)) [
  | inl e ↦
      rw (e, append_text)
        (append_text-take (buffer ++ c ∷ []) room text
          ∙ rw (append_assoc, length-append, ← take-step (length buffer) room c text e))
  | inr e ↦
      let full : room - length buffer ≡ 0 = ground arith in
      rw (e, append_text) (rw (full, append-nil))
]

append_text-cut : (room : ℕ) (s t : Bytes) → append_text (take room s) room t ≡ take room (s ++ t)
append_text-cut room s t =
    let e : room - length (take room s) ≡ room - length s = omega (arith, length-take room s) in
    append_text-take (take room s) room t ∙ rw (e, take-append room s t)

append_text_start : (room : ℕ) (t : Bytes) → append_text [] room t ≡ take room t
append_text_start room t =
    let e : room - 0 ≡ room = omega arith in append_text-take [] room t ∙ rw e

append_u64-cut :
    (room : ℕ) (s : Bytes) (v : ℕ) → append_u64 (take room s) room v ≡ take room (s ++ decimal v)
unfolding append_u64 decimal
append_u64-cut room s v = append_text-cut room s _

append_i32-cut :
    (room : ℕ) (s : Bytes) (v : ℤ) → append_i32 (take room s) room v ≡ take room (s ++ signed v)
unfolding append_i32 signed
append_i32-cut room s (pos n) = append_u64-cut room s n
append_i32-cut room s (negsuc n) =
    rw (append_text-cut room s _, append_u64-cut room _ (suc n), append_assoc)

-- For every capacity the formatter writes the reference line of the record, cut at the capacity.
pub format-take :
    (room seq : ℕ) (pid tgid ppid : ℤ)
    → format_exec_record room seq pid tgid ppid ≡ take room (exec_line seq pid tgid ppid)
unfolding format_exec_record exec_line
format-take room seq pid tgid ppid =
    simp (append_text_start, append_u64-cut, append_text-cut, append_i32-cut, append_assoc)

length-signed : (v : ℤ) → IsInt32 v → length (signed v) ≤ 11
unfolding signed
length-signed (pos n) h = omega (arith, length-decimal_of_lt n (omega arith))
length-signed (negsuc n) h = omega (arith, length-decimal_of_lt (suc n) (omega arith))

-- The line of a record is at most 75 bytes long.
pub length-exec_line :
    (seq : ℕ) (pid tgid ppid : ℤ)
    → seq < 2 ^ 64
    → IsInt32 pid
    → IsInt32 tgid
    → IsInt32 ppid
    → length (exec_line seq pid tgid ppid) ≤ 75
unfolding exec_line
length-exec_line seq pid tgid ppid hs hp ht hpp = omega (
  arith,
  length-append (decimal seq) (
      codes " pid="
      ++ (signed pid
          ++ (codes " tgid=" ++ (signed tgid ++ (codes " ppid=" ++ (signed ppid ++ codes "\n")))))),
  length-append (signed pid)
      (codes " tgid=" ++ (signed tgid ++ (codes " ppid=" ++ (signed ppid ++ codes "\n")))),
  length-append (signed tgid) (codes " ppid=" ++ (signed ppid ++ codes "\n")),
  length-append (signed ppid) (codes "\n"),
  (decimal_lem seq hs).2,
  length-signed pid hp,
  length-signed tgid ht,
  length-signed ppid hpp,
)

-- The 80 bytes of ZNN_LINE_CAPACITY hold every record: the formatter writes the whole line.
pub format_whole :
    (seq : ℕ) (pid tgid ppid : ℤ)
    → seq < 2 ^ 64
    → IsInt32 pid
    → IsInt32 tgid
    → IsInt32 ppid
    → format_exec_record line_capacity seq pid tgid ppid ≡ exec_line seq pid tgid ppid
format_whole seq pid tgid ppid hs hp ht hpp =
    format-take line_capacity seq pid tgid ppid
    ∙ take-all line_capacity (exec_line seq pid tgid ppid)
        (omega (arith, length-exec_line seq pid tgid ppid hs hp ht hpp))

pub exec_line-pos : (seq : ℕ) (pid tgid ppid : ℤ) → 0 < length (exec_line seq pid tgid ppid)
unfolding exec_line
exec_line-pos seq pid tgid ppid = omega arith
