-- ===== src/Kpm/Ring.antt =====
-- kpm/src/znn.c: the ring of exec records, its writer `znn_note_exec` and the two readers.
-- The kernel's own functions and memory are the argument `k`.
pub mod History
pub mod Read
pub mod Race
use zygisk_next_next.Base.{
  ℕ, zero, suc, ◌+◌, ◌-◌, ◌%◌, ◌^◌, Bool, true, false, not, ◌||◌, List, [], ◌∷◌, Bytes, length,
  get_or, set, ltb, leb, ◌==◌, if◌then◌else◌, ℤ, pos, negsuc, is_neg, is_zero,
}
use zygisk_next_next.Kpm.Format.{format_exec_record, line_capacity}

-- ZNN_RING_CAPACITY
abbrev pub ring_capacity : ℕ
ring_capacity = 64

-- `uint64_t` arithmetic
abbrev pub add64 : ℕ → ℕ → ℕ
add64 a b = (a + b) % 2 ^ 64

abbrev pub sub64 : ℕ → ℕ → ℕ
sub64 a b = (a + 2 ^ 64 - b) % 2 ^ 64

abbrev pub minus_one : ℤ
minus_one = negsuc 0

-- `-EFAULT`
abbrev pub efault : ℤ
efault = negsuc 13

-- `struct znn_exec_record`
pub record ExecRecord : Type 0 where
  pub seq : ℕ
  pub pid : ℤ
  pub tgid : ℤ
  pub ppid : ℤ
  pub reserved : ℤ

-- The ring's static storage starts zeroed.
abbrev pub blank : ExecRecord
blank = record { seq = 0; pid = pos 0; tgid = pos 0; ppid = pos 0; reserved = pos 0 }

-- The file's static variables. `task_pid_nr_ns` says whether the pointer is set.
pub record Znn : Type 0 where
  pub ring : List ExecRecord
  pub ring_written : ℕ
  pub execve_hooked : Bool
  pub execveat_hooked : Bool
  pub channel_hooked : Bool
  pub task_pid_nr_ns : Bool
  pub real_parent_offset : ℤ
  pub task_cred_offset : ℤ
  pub cred_uid_offset : ℤ

-- `v == n` for a length `n`
abbrev pub equals : ℤ → ℕ → Bool
equals (pos v) n = v == n
equals (negsuc v) n = false

-- A user address space, by address.
abbrev pub UserMemory : Type 0
UserMemory = ℕ → ℕ

-- What the kernel gives: `__task_pid_nr_ns`, loads from its memory, and KernelPatch's
-- `compat_copy_to_user` with the user memory it leaves.
pub record Kernel : Type 0 where
  pub pid_nr_ns : ℕ → ℕ → ℤ
  pub load_ptr : ℕ → ℕ
  pub load_u32 : ℕ → ℕ
  pub copy_to_user : ℕ → Bytes → UserMemory → ℤ × UserMemory

-- `(char*)p + offset`; every caller has checked that the offset is not negative.
abbrev pub at_offset : ℕ → ℤ → ℕ
at_offset p (pos n) = add64 p n
at_offset p (negsuc n) = sub64 p (suc n)

-- ZNN_PIDTYPE_PID, ZNN_PIDTYPE_TGID
abbrev pub pidtype_pid : ℕ
pidtype_pid = 0

abbrev pub pidtype_tgid : ℕ
pidtype_tgid = 1

-- A task is its address, 0 for a null pointer.
unfoldable pub task_nr : Kernel → Znn → ℕ → ℕ → ℤ
task_nr k s task type =
    if not s.task_pid_nr_ns || task == 0 then minus_one else k.pid_nr_ns task type

unfoldable pub parent_nr : Kernel → Znn → ℕ → ℤ
parent_nr k s task =
    if (is_neg s.real_parent_offset || is_zero s.real_parent_offset) || task == 0
    then minus_one
    else task_nr k s (k.load_ptr (at_offset task s.real_parent_offset)) pidtype_pid

-- `__atomic_add_fetch(&znn_ring_written, 1)`, the first step of `znn_note_exec`.
unfoldable pub claim : Znn → ℕ × Znn
claim s = let seq = add64 s.ring_written 1 in (seq, record s { ring_written = seq })

-- The stores to the claimed record, the rest of `znn_note_exec`.
unfoldable pub fill : Kernel → ℕ → ℕ → Znn → Znn
fill k task seq s = record s {
  ring = set s.ring (sub64 seq 1 % ring_capacity) (record {
    seq = seq;
    pid = task_nr k s task pidtype_pid;
    tgid = task_nr k s task pidtype_tgid;
    ppid = parent_nr k s task;
    reserved = pos 0;
  });
}

unfoldable pub note_exec : Kernel → ℕ → Znn → Znn
note_exec k task s = let (seq, s') = claim s in fill k task seq s'

-- The line that the channel formats for the record number `seq`.
unfoldable pub line_at : List ExecRecord → ℕ → Bytes
line_at ring seq =
    let r = get_or ring (sub64 seq 1 % ring_capacity) blank in
    format_exec_record line_capacity seq r.pid r.tgid r.ppid

-- How a round of the loop ends: by one of the two `break`s, by `return -EFAULT`, or with the line
-- copied.
pub data Round : Type 0 where
  stop : Round
  fault : UserMemory → Round
  sent : UserMemory → Round

-- One round of `znn_channel_write_records`, from the formatted line on. Its length is never
-- negative, so `length <= 0` is a test for no bytes.
unfoldable pub send_line :
    Kernel → (user_buffer buffer_length total : ℕ) → Bytes → UserMemory → Round
send_line k user_buffer buffer_length total line m =
    let (copied, m') = k.copy_to_user (add64 user_buffer total) line m in
    if length line == 0 || ltb buffer_length (add64 total (length line))
    then stop
    else if equals copied (length line)
    then sent m'
    else fault m'

-- The loop of `znn_channel_write_records`, with `rounds` rounds left.
unfoldable pub write_loop :
    Kernel
    → List ExecRecord
    → (user_buffer buffer_length first : ℕ) → (rounds i total : ℕ) → UserMemory
    → ℤ × UserMemory
write_loop k ring user_buffer buffer_length first zero i total m = (pos total, m)
write_loop k ring user_buffer buffer_length first (suc rounds) i total m =
    let line = line_at ring (add64 first i) in
    elim (send_line k user_buffer buffer_length total line m) [
      | stop ↦ (pos total, m)
      | fault m' ↦ (efault, m')
      | sent m' ↦
          write_loop k ring user_buffer buffer_length first rounds (i + 1) (total + length line) m'
    ]

-- How many records the ring holds.
unfoldable pub available_of : ℕ → ℕ
available_of written = if ltb written ring_capacity then written else ring_capacity

-- The number of the first record to send, from `oldest` and `since_seq + 1`.
unfoldable pub first_seq : ℕ → ℕ → ℕ
unfolding available_of
first_seq written since_seq =
    let oldest = add64 (sub64 written (available_of written)) 1 in
    let next = add64 since_seq 1 in if ltb oldest next then next else oldest

-- `znn_channel_write_records`
unfoldable pub write_records :
    Kernel → Znn → (user_buffer buffer_length since_seq : ℕ) → UserMemory → ℤ × UserMemory
write_records k s user_buffer buffer_length since_seq m =
    let written = s.ring_written in
    let first = first_seq written since_seq in
    let count = add64 (sub64 written first) 1 in
    if leb written since_seq
    then (pos 0, m)
    else write_loop k s.ring user_buffer buffer_length first count 0 0 m
