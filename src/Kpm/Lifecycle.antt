-- ===== src/Kpm/Lifecycle.antt =====
-- kpm/src/znn.c: loading and unloading the module. KernelPatch, which installs the hooks, is a
-- parameter: a state `w` of type `W` with its two calls.
pub mod Hooked
use zygisk_next_next.Base.{
  ℕ, Bool, true, false, if◌then◌else◌, ℤ, pos, negsuc, is_neg, is_zero, List, replicate, not, ◌||◌,
  ◌&&◌,
}
use zygisk_next_next.Kpm.Ring.{Znn, ExecRecord, blank, ring_capacity, minus_one}

-- `__NR_execve`, `__NR_execveat`, `__NR_prctl`
pub data Syscall : Type 0 where
  execve execveat prctl : Syscall

-- `hook_syscalln` (and its `_override` form) with its error code, 0 for success, and
-- `unhook_syscalln`. A hook is known by the system call that it stands on.
pub record KernelPatch (W : Type 0) : Type 0 where
  pub hook : Syscall → W → ℤ × W
  pub unhook : Syscall → W → W

-- What `znn_init` looks up. `with_btf` is ZNN_WITH_BTF; an offset below 0 is not found.
pub record Lookups : Type 0 where
  pub with_btf : Bool
  pub pid_nr_ns_found : Bool
  pub parent_offset : ℤ
  pub cred_offset : ℤ
  pub cred_uid_offset : ℤ

-- The static variables before `znn_init`.
unfoldable pub fresh : Znn
fresh = record {
  ring = replicate ring_capacity blank;
  ring_written = 0;
  execve_hooked = false;
  execveat_hooked = false;
  channel_hooked = false;
  task_pid_nr_ns = false;
  real_parent_offset = minus_one;
  task_cred_offset = minus_one;
  cred_uid_offset = minus_one;
}

module _ {W : Type 0} (p : KernelPatch W) where
  -- `znn_unhook_all`, one step for each `if`
  unfoldable pub unhook_channel : Znn × W → Znn × W
  unhook_channel (s, w) =
      if s.channel_hooked then (record s { channel_hooked = false }, p.unhook prctl w) else (s, w)

  unfoldable pub unhook_execveat : Znn × W → Znn × W
  unhook_execveat (s, w) =
      if s.execveat_hooked
      then (record s { execveat_hooked = false }, p.unhook execveat w)
      else (s, w)

  unfoldable pub unhook_execve : Znn × W → Znn × W
  unhook_execve (s, w) =
      if s.execve_hooked then (record s { execve_hooked = false }, p.unhook execve w) else (s, w)

  unfoldable pub unhook_all : Znn × W → Znn × W
  unhook_all sw = unhook_execve (unhook_execveat (unhook_channel sw))

  -- The lookups at the top of `znn_init`.
  unfoldable pub resolve : Lookups → Znn → Znn
  resolve l s =
      let s1 = record s { task_pid_nr_ns = l.pid_nr_ns_found } in
      let uid_offset = if is_neg l.cred_offset then minus_one else l.cred_uid_offset in
      let s2 =
        if is_neg l.parent_offset || is_zero l.parent_offset
        then s1
        else record s1 { real_parent_offset = l.parent_offset } in
      let s3 =
        if is_neg uid_offset
        then s2
        else record s2 { task_cred_offset = l.cred_offset; cred_uid_offset = uid_offset } in
      if l.with_btf then s3 else s1

  -- The optional channel, whose failure is only logged.
  unfoldable pub hook_channel : Znn × W → Znn × W
  hook_channel (s, w) =
      let (error, w') = p.hook prctl w in
      if is_zero error then (record s { channel_hooked = true }, w') else (s, w')

  -- `znn_init`: its result, the static variables and KernelPatch's state.
  unfoldable pub init : Lookups → Znn → W → ℤ × Znn × W
  init l s0 w0 =
      let s = resolve l s0 in
      let (error, w1) = p.hook execve w0 in
      let s1 = record s { execve_hooked = true } in
      let (error', w2) = p.hook execveat w1 in
      let s2 = record s1 { execveat_hooked = true } in
      let (f, wf) = unhook_all (s, w1) in
      let (g, wg) = unhook_all (s1, w2) in
      let (s3, w3) = hook_channel (s2, w2) in
      if not (is_zero error)
      then (error, f, wf)
      else if not (is_zero error')
      then (error', g, wg)
      else (pos 0, s3, w3)

  -- `znn_exit`
  unfoldable pub exit : Znn → W → ℤ × Znn × W
  exit s w = let (s', w') = unhook_all (s, w) in (pos 0, s', w')
