-- ===== src/Kpm/Channel.antt =====
-- kpm/src/znn.c: the channel on `prctl`, which serves the records to a root caller.
pub mod Gate
use zygisk_next_next.Base.{
  ℕ, ◌^◌, ◌-◌, Bool, true, false, not, ◌||◌, ltb, ◌==◌, if◌then◌else◌, ℤ, pos, negsuc, is_neg,
}
use zygisk_next_next.Kpm.Ring.{Kernel, Znn, UserMemory, at_offset, write_records}

-- ZNN_KPM_MAGIC, ZNN_CHANNEL_MAX_LENGTH
abbrev pub kpm_magic : ℕ
kpm_magic = 0x5A4E4E4B504D0001

abbrev pub channel_max_length : ℕ
channel_max_length = 4096

-- `(uint64_t)` of a `long`
abbrev pub to_u64 : ℤ → ℕ
to_u64 (pos n) = n
to_u64 (negsuc n) = 2 ^ 64 - 1 - n

-- `-EINVAL`, `-EPERM`
abbrev pub einval : ℤ
einval = negsuc 21

abbrev pub eperm : ℤ
eperm = negsuc 0

-- `znn_caller_uid_is_root`, where `task` is `current`
unfoldable pub caller_uid_is_root : Kernel → Znn → ℕ → Bool
caller_uid_is_root k s task =
    let cred = k.load_ptr (at_offset task s.task_cred_offset) in
    if is_neg s.task_cred_offset || is_neg s.cred_uid_offset
    then true
    else if task == 0
    then true
    else if cred == 0
    then true
    else k.load_u32 (at_offset cred s.cred_uid_offset) == 0

-- `hook_fargs5_t`, as far as the hook uses it.
pub record HookArgs : Type 0 where
  pub arg0 : ℕ
  pub arg1 : ℕ
  pub arg2 : ℕ
  pub arg3 : ℕ
  pub skip_origin : Bool
  pub ret : ℕ

-- `znn_channel_before`: the arguments with the answer, and the caller's memory.
unfoldable pub channel_before :
    Kernel → Znn → (task : ℕ) → HookArgs → UserMemory → HookArgs × UserMemory
channel_before k s task args m =
    let skipped = record args { skip_origin = true } in
    let (sent, m') = write_records k s args.arg1 args.arg2 args.arg3 m in
    if not (args.arg0 == kpm_magic)
    then (args, m)
    else if ltb args.arg2 1 || ltb channel_max_length args.arg2
    then (record skipped { ret = to_u64 einval }, m)
    else if not (caller_uid_is_root k s task)
    then (record skipped { ret = to_u64 eperm }, m)
    else (record skipped { ret = to_u64 sent }, m')
