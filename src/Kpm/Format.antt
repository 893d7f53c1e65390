-- ===== src/Kpm/Format.antt =====
-- kpm/src/znn_format.h: one exec record as a line of text. `buffer` with its running `length` is
-- the list of the bytes written so far, so `length` is the length of that list.
pub mod Digits
pub mod Line
use zygisk_next_next.Base.{
  ℕ, zero, suc, ◌+◌, ◌/◌, ◌%◌, true, false, [], ◌∷◌, ◌++◌, Bytes, codes, length, ltb, ◌==◌, ℤ, pos,
  negsuc,
}

-- ZNN_LINE_CAPACITY
abbrev pub line_capacity : ℕ
line_capacity = 80

-- `while (*text != '\0' && length < capacity) buffer[length++] = *text++;`
unfoldable pub append_text : Bytes → ℕ → Bytes → Bytes
append_text buffer capacity [] = buffer
append_text buffer capacity (c ∷ text) = elim (ltb (length buffer) capacity) [
  | true ↦ append_text (buffer ++ c ∷ []) capacity text
  | false ↦ buffer
]

-- The `do … while` loop that fills `digits[20]`, lowest digit first. `room` is what is left of the
-- array; the list holds `digits[count - 1]` down to `digits[0]`.
unfoldable pub collect_digits : (room : ℕ) → ℕ → Bytes → Bytes
collect_digits zero value digits = digits
collect_digits (suc room) value digits = elim (value / 10 == 0) [
  | true ↦ (b'0' + value % 10) ∷ digits
  | false ↦ collect_digits room (value / 10) ((b'0' + value % 10) ∷ digits)
]

-- The second loop copies `digits[--count]` while there is room: the loop of `append_text`.
unfoldable pub append_u64 : Bytes → ℕ → ℕ → Bytes
append_u64 buffer capacity value = append_text buffer capacity (collect_digits 20 value [])

-- `-(int64_t)value` of a negative `int32_t` is its magnitude.
unfoldable pub append_i32 : Bytes → ℕ → ℤ → Bytes
append_i32 buffer capacity (pos n) = append_u64 buffer capacity n
append_i32 buffer capacity (negsuc n) =
    append_u64 (append_text buffer capacity (b'-' ∷ [])) capacity (suc n)

-- `znn_format_exec_record`: the bytes of `buffer`, whose number is the result.
unfoldable pub format_exec_record : ℕ → ℕ → ℤ → ℤ → ℤ → Bytes
format_exec_record capacity seq pid tgid ppid =
    let l1 = append_text [] capacity (codes "seq=") in
    let l2 = append_u64 l1 capacity seq in
    let l3 = append_text l2 capacity (codes " pid=") in
    let l4 = append_i32 l3 capacity pid in
    let l5 = append_text l4 capacity (codes " tgid=") in
    let l6 = append_i32 l5 capacity tgid in
    let l7 = append_text l6 capacity (codes " ppid=") in
    let l8 = append_i32 l7 capacity ppid in append_text l8 capacity (codes "\n")
