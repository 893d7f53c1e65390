-- ===== src/Kpm/Control.antt =====
-- kpm/src/znn.c: the module's control call, which answers `read [n]` with the newest records.
pub mod Parse
pub mod Newest
use zygisk_next_next.Base.{
  ℕ, zero, suc, ◌+◌, ◌-◌, ◌*◌, ◌%◌, ◌^◌, Bool, true, false, not, ◌&&◌, ◌||◌, List, [], ◌∷◌, Bytes,
  length, get_or, ltb, leb, ◌==◌, if◌then◌else◌, Option, none, some, ◌>>=◌, ℤ, pos, negsuc,
}
use zygisk_next_next.Kpm.Format.{format_exec_record, line_capacity}
use zygisk_next_next.Kpm.Ring.{
  Kernel, Znn, ExecRecord, UserMemory, blank, ring_capacity, add64, sub64, minus_one, equals,
  available_of, Round, stop, fault, sent,
}

-- `c == ' ' || c == '\t'`
abbrev pub is_blank : ℕ → Bool
is_blank c = c == b' ' || c == b'\t'

-- `while (*args == ' ' || *args == '\t') args++;`
unfoldable pub skip_blanks : Bytes → Bytes
skip_blanks [] = []
skip_blanks (c ∷ args) = if is_blank c then skip_blanks args else c ∷ args

-- The four tests on `args[0]` to `args[3]`, then `args += 4`. The NUL fails the test that meets it.
unfoldable pub after_read : Bytes → Option Bytes
after_read (a ∷ b ∷ c ∷ d ∷ args) =
    if a == b'r' && b == b'e' && c == b'a' && d == b'd' then some args else none
after_read _ = none

-- `*args == '\0' || *args == ' ' || *args == '\t'`
abbrev pub at_end : Bytes → Bool
at_end [] = true
at_end (c ∷ args) = is_blank c

abbrev pub is_digit : ℕ → Bool
is_digit c = leb b'0' c && leb c b'9'

-- `value * 10 + digit` in `uint32_t`, then the cap at the ring's capacity.
unfoldable pub next_value : ℕ → ℕ → ℕ
next_value value c =
    let v = (value * 10 + (c - b'0')) % 2 ^ 32 in if ltb ring_capacity v then ring_capacity else v

-- The digit loop: the value, the number of digits and the rest.
unfoldable pub digit_loop : ℕ → ℕ → Bytes → ℕ × ℕ × Bytes
digit_loop value digits [] = (value, digits, [])
digit_loop value digits (c ∷ args) = elim (is_digit c) [
  | true ↦ digit_loop (next_value value c) (digits + 1) args
  | false ↦ (value, digits, c ∷ args)
]

-- The part of `znn_parse_read_command` behind `read`.
unfoldable pub parse_count : Bytes → Option ℕ
parse_count args =
    let (value, digits, rest) = digit_loop 0 0 (skip_blanks args) in
    if not (at_end args)
    then none
    else if not (at_end rest)
    then none
    else some (if digits == 0 then 0 else value)

-- `znn_parse_read_command`: the count, or none for -1. No string is a null pointer.
unfoldable pub parse_read_command : Option Bytes → Option ℕ
parse_read_command none = none
parse_read_command (some args) = do rest ← after_read (skip_blanks args); parse_count rest

-- The line that `znn_control` formats for a slot: under the number that the record holds.
unfoldable pub stored_line : List ExecRecord → ℕ → Bytes
stored_line ring slot =
    let r = get_or ring slot blank in format_exec_record line_capacity r.seq r.pid r.tgid r.ppid

-- One round of `znn_control`, from the formatted line on. All three ways out are `break`s.
unfoldable pub send_stored : Kernel → (out_msg outlen total : ℕ) → Bytes → UserMemory → Round
send_stored k out_msg outlen total line m =
    let (copied, m') = k.copy_to_user (add64 out_msg total) line m in
    if length line == 0 || ltb outlen (total + length line)
    then stop
    else if equals copied (length line)
    then sent m'
    else fault m'

-- The loop of `znn_control`, with `rounds` rounds left.
unfoldable pub control_loop :
    Kernel
    → List ExecRecord
    → (out_msg outlen first : ℕ) → (rounds i total : ℕ) → UserMemory
    → ℤ × UserMemory
control_loop k ring out_msg outlen first zero i total m = (pos total, m)
control_loop k ring out_msg outlen first (suc rounds) i total m =
    let line = stored_line ring (add64 first i % ring_capacity) in
    elim (send_stored k out_msg outlen total line m) [
      | stop ↦ (pos total, m)
      | fault m' ↦ (pos total, m')
      | sent m' ↦ control_loop k ring out_msg outlen first rounds (i + 1) (total + length line) m'
    ]

-- How many records to send: all that there are for 0 or for more than there are.
unfoldable pub send_count : ℕ → ℕ → ℕ
send_count requested available =
    if requested == 0 || ltb available requested then available else requested

-- `outlen <= 0`
abbrev pub no_room : ℤ → Bool
no_room (pos n) = n == 0
no_room (negsuc n) = true

abbrev pub room_of : ℤ → ℕ
room_of (pos n) = n
room_of (negsuc n) = 0

-- `znn_control`
unfoldable pub control :
    Kernel → Znn → Option Bytes → (out_msg : ℕ) → (outlen : ℤ) → UserMemory → ℤ × UserMemory
control k s ctl_args out_msg outlen m =
    let written = s.ring_written in
    if out_msg == 0 || no_room outlen then (minus_one, m) else elim (parse_read_command ctl_args) [
      | none ↦ (minus_one, m)
      | some requested ↦
          let count = send_count requested (available_of written) in
          control_loop k s.ring out_msg (room_of outlen) (sub64 written count) count 0 0 m
    ]
