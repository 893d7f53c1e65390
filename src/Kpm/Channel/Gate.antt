-- ===== src/Kpm/Channel/Gate.antt =====
-- kpm/src/znn.c: who is served by the `prctl` channel, and with what.
use zygisk_next_next.Base.{
  ℕ, ◌+◌, ◌%◌, ◌^◌, ◌≤◌, ◌<◌, ◌≡◌, ◌≢◌, ◌⊎◌, inl, inr, true, false, ◌||◌, List, ltb, is_neg,
  Bool-cases, arith, length, concat, drop, zero, suc, refl, ◌∙◌, ◌==◌, Bytes, ℤ, pos, get_or, leb,
}
use zygisk_next_next.Kpm.Format.{line_capacity}
use zygisk_next_next.Kpm.Format.Line.{exec_line, format-take, length-take}
use zygisk_next_next.Kpm.Ring.{
  Kernel, Znn, ExecRecord, UserMemory, at_offset, blank, add64, sub64, equals, efault, Round, stop,
  fault, sent, line_at, send_line, first_seq, write_loop, write_records,
}
use zygisk_next_next.Kpm.Ring.History.{Exec, Tracks}
use zygisk_next_next.Kpm.Ring.Read.{
  Delivers, first_index, exec_lines, fit, store, write_records_lem,
}
use zygisk_next_next.Kpm.Channel.{
  kpm_magic, channel_max_length, to_u64, einval, eperm, caller_uid_is_root, HookArgs,
  channel_before,
}

-- A call of `prctl` that is not for the module goes on unchanged, whatever the module's state.
pub channel-not_magic :
    (k : Kernel) (s : Znn) (task : ℕ) (args : HookArgs) (m : UserMemory)
    → args.arg0 ≢ kpm_magic
    → channel_before k s task args m ≡ (args, m)
unfolding channel_before
channel-not_magic k s task args m other = ground arith

-- The caller's effective user id, as the module reads it, is not root's.
pub record IsOrdinary (k : Kernel) (s : Znn) (task : ℕ) : Type 0 where
  pub cred_known : is_neg s.task_cred_offset ≡ false
  pub uid_known : is_neg s.cred_uid_offset ≡ false
  pub has_task : task ≢ 0
  pub has_cred : k.load_ptr (at_offset task s.task_cred_offset) ≢ 0
  pub uid :
      k.load_u32 (at_offset (k.load_ptr (at_offset task s.task_cred_offset)) s.cred_uid_offset) ≢ 0

-- A caller that is refused learns nothing: its memory is unchanged, the system call is not made, and
-- the result is -EINVAL for a bad length, else -EPERM.
pub channel-refused :
    (k : Kernel) (s : Znn) (task : ℕ) (args : HookArgs) (m : UserMemory)
    → args.arg0 ≡ kpm_magic
    → IsOrdinary k s task
    → let (after, m') = channel_before k s task args m in
      (m' ≡ m)
      × (after.skip_origin ≡ true)
      × ((after.ret ≡ to_u64 einval) × ((args.arg2 < 1) ⊎ (channel_max_length < args.arg2))
          ⊎ (after.ret ≡ to_u64 eperm) × (1 ≤ args.arg2) × (args.arg2 ≤ channel_max_length))
unfolding channel_before caller_uid_is_root
channel-refused k s task args m magic o = ground arith

-- A root caller with a buffer of 1 to 4096 bytes gets what `znn_channel_write_records` sends: the
-- lines of the execs after number `arg3` that the ring holds, in order, as many as fit, and their
-- length as the result.
pub channel-served :
    (k : Kernel) (h : List Exec) (s : Znn) (task : ℕ) (args : HookArgs) (m : UserMemory)
    → Delivers k
    → Tracks h s
    → args.arg0 ≡ kpm_magic
    → caller_uid_is_root k s task ≡ true
    → 1 ≤ args.arg2
    → args.arg2 ≤ channel_max_length
    → args.arg1 + args.arg2 < 2 ^ 64
    → let i = first_index h args.arg3 in
      let out = concat (fit args.arg2 (exec_lines i (drop i h))) in
      channel_before k s task args m
      ≡ (record args { skip_origin = true; ret = length out }, store args.arg1 out m)
unfolding channel_before
channel-served k h s task args m deliver t magic root some_room limit room =
    rw (write_records_lem k h s args.arg1 args.arg2 args.arg3 m deliver t limit room, magic, root)
      (ground arith)

-- A copy to a user changes no byte outside its destination, whether it succeeds, fails or stops half-way.
abbrev pub Confines : Kernel → Type 0
Confines k =
    (p : ℕ) (text : Bytes) (m : UserMemory) (q : ℕ)
    → (q < p) ⊎ (p + length text ≤ q)
    → (k.copy_to_user p text m).1 q ≡ m q

length-line_at : (ring : List ExecRecord) (seq : ℕ) → length (line_at ring seq) ≤ 80
unfolding line_at
length-line_at ring seq =
    let r = get_or ring (sub64 seq 1 % 64) blank in
    let line = exec_line seq r.pid r.tgid r.ppid in
    rw (format-take line_capacity seq r.pid r.tgid r.ppid) (omega (arith, length-take 80 line))

-- What a writer returns: -EFAULT, or a number of bytes that fit in the buffer.
abbrev pub IsCount : (room : ℕ) → ℤ → Type 0
IsCount room r = (r ≡ efault) ⊎ ((n : ℕ) × (r ≡ pos n) × (n ≤ room))

module _ (k : Kernel) (user_buffer buffer_length total : ℕ) (line : Bytes) (m : UserMemory)
    (q : ℕ) where
  -- One round leaves byte `q` as it was, and goes on only if the line fits.
  abbrev IsKept : Round → Type 0
  IsKept stop = Unit
  IsKept (fault m') = m' q ≡ m q
  IsKept (sent m') = (m' q ≡ m q) × (total + length line ≤ buffer_length)

  send_line-IsKept :
      Confines k
      → length line ≤ 80
      → total ≤ buffer_length
      → buffer_length ≤ channel_max_length
      → user_buffer + buffer_length < 2 ^ 64
      → (q < user_buffer) ⊎ (user_buffer + buffer_length ≤ q)
      → IsKept (send_line k user_buffer buffer_length total line m)
  unfolding send_line
  send_line-IsKept c short fits limit room outside =
      elim (Bool-cases (length line == 0 || ltb buffer_length (add64 total (length line)))) [
        | inl e ↦ rw e tt
        | inr e ↦
            let fits' : total + length line ≤ buffer_length = ground (arith, e) in
            let at : add64 user_buffer total ≡ user_buffer + total = omega arith in
            let kept : (k.copy_to_user (add64 user_buffer total) line m).1 q ≡ m q =
              c (add64 user_buffer total) line m q (omega (arith, outside)) in
            elim (Bool-cases
              (equals (k.copy_to_user (add64 user_buffer total) line m).0 (length line))) [
                | inl f ↦ rw (e, f) (kept, fits')
                | inr f ↦ rw (e, f) kept
              ]
      ]

module _ (k : Kernel) (ring : List ExecRecord) (user_buffer buffer_length first : ℕ) where
  write_loop-confined :
      (rounds i total : ℕ) (m : UserMemory) (q : ℕ)
      → Confines k
      → total ≤ buffer_length
      → buffer_length ≤ channel_max_length
      → user_buffer + buffer_length < 2 ^ 64
      → (q < user_buffer) ⊎ (user_buffer + buffer_length ≤ q)
      → let (r, m') = write_loop k ring user_buffer buffer_length first rounds i total m in
        (m' q ≡ m q) × IsCount buffer_length r
  unfolding write_loop
  write_loop-confined zero i total m q c fits limit room outside = (refl, inr (total, refl, fits))
  write_loop-confined (suc rounds) i total m q c fits limit room outside =
      go (send_line k user_buffer buffer_length total line m)
        (send_line-IsKept k user_buffer buffer_length total line m q c
          (length-line_at ring (add64 first i)) fits limit room outside)
        (λ m' fits'.
          write_loop-confined rounds (i + 1) (total + length line) m' q c fits' limit room outside)
    where
      line : Bytes
      line = line_at ring (add64 first i)

      next : UserMemory → ℤ × UserMemory
      next m' =
          write_loop k ring user_buffer buffer_length first rounds (i + 1) (total + length line) m'

      go :
          (r : Round)
          → IsKept k user_buffer buffer_length total line m q r
          → ((m' : UserMemory)
              → total + length line ≤ buffer_length
              → ((next m').1 q ≡ m' q) × IsCount buffer_length (next m').0)
          → let (r', m') : ℤ × UserMemory = elim r [
            | stop ↦ (pos total, m)
            | fault m' ↦ (efault, m')
            | sent m' ↦ next m'
          ] in
            (m' q ≡ m q) × IsCount buffer_length r'
      go stop kept rest = (refl, inr (total, refl, fits))
      go (fault m') kept rest = (kept, inl refl)
      go (sent m') kept rest = let (same, count) = rest m' kept.1 in (same ∙ kept.0, count)

write_records-confined :
    (k : Kernel) (s : Znn) (user_buffer buffer_length since : ℕ) (m : UserMemory) (q : ℕ)
    → Confines k
    → buffer_length ≤ channel_max_length
    → user_buffer + buffer_length < 2 ^ 64
    → (q < user_buffer) ⊎ (user_buffer + buffer_length ≤ q)
    → let (r, m') = write_records k s user_buffer buffer_length since m in
      (m' q ≡ m q) × IsCount buffer_length r
unfolding write_records
write_records-confined k s user_buffer buffer_length since m q c limit room outside =
    elim (Bool-cases (leb s.ring_written since)) [
      | inl e ↦ rw e (refl, inr (0, refl, omega arith))
      | inr e ↦ rw e (
          write_loop-confined k s.ring user_buffer buffer_length (first_seq s.ring_written since) _
            0 0 m q c (omega arith) limit room outside)
    ]

-- Whoever calls the channel, whatever the module's state and however the copies to the user end, if each
-- copy changes bytes of its destination only, no byte outside the buffer that the call names changes, and
-- the call reports -EINVAL, -EPERM, -EFAULT or no more bytes than the buffer has. The buffer does not wrap
-- around the address space.
pub channel-confined :
    (k : Kernel) (s : Znn) (task : ℕ) (args : HookArgs) (m : UserMemory) (q : ℕ)
    → Confines k
    → args.arg0 ≡ kpm_magic
    → args.arg1 + args.arg2 < 2 ^ 64
    → (q < args.arg1) ⊎ (args.arg1 + args.arg2 ≤ q)
    → let (after, m') = channel_before k s task args m in
      (m' q ≡ m q)
      × ((after.ret ≤ args.arg2)
          ⊎ (after.ret ≡ to_u64 einval)
          ⊎ (after.ret ≡ to_u64 eperm)
          ⊎ (after.ret ≡ to_u64 efault))
unfolding channel_before
channel-confined k s task args m q c magic room outside =
    elim (Bool-cases (ltb args.arg2 1 || ltb channel_max_length args.arg2)) [
      | inl bad ↦ ground arith
      | inr fine ↦ elim (Bool-cases (caller_uid_is_root k s task)) [
        | inr ordinary ↦ ground arith
        | inl root ↦
            let r = write_records k s args.arg1 args.arg2 args.arg3 m in
            let w =
              write_records-confined k s args.arg1 args.arg2 args.arg3 m q c (ground (arith, fine))
                room outside in
            rw (magic, fine, root) (w.0, reported r.0 w.1)
      ]
    ]
  where
    reported :
        (r : ℤ)
        → IsCount args.arg2 r
        → (to_u64 r ≤ args.arg2)
          ⊎ (to_u64 r ≡ to_u64 einval)
          ⊎ (to_u64 r ≡ to_u64 eperm)
          ⊎ (to_u64 r ≡ to_u64 efault)
    reported r (inl e) = rw e (inr (inr (inr refl)))
    reported r (inr (n, e, le)) = rw e (inl le)
