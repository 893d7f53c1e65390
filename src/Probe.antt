-- ===== src/Probe.antt =====
-- injector/bpf/exec.bpf.c: the probe that tells the injector of an exec. The helpers of the kernel are
-- parameters.
use zygisk_next_next.Base.{
  ℕ, ◌+◌, ◌*◌, ◌/◌, ◌%◌, ◌^◌, ◌<◌, ◌≡◌, refl, Bool, true, Bytes, take, if◌then◌else◌, Option, none,
  some, arith,
}

-- What the helpers answer in one run: whether the ring buffer has room, the two words of ids, the `pid` of
-- the real parent, and the 16 bytes of the name.
pub record Helpers : Type 0 where
  pub has_room : Bool
  pub pid_tgid : ℕ
  pub uid_gid : ℕ
  pub parent_pid : ℕ
  pub comm : Bytes

-- `struct kernel_event`, less its padding
pub record KernelEvent : Type 0 where
  pub kind : ℕ
  pub pid : ℕ
  pub tgid : ℕ
  pub uid : ℕ
  pub ppid : ℕ
  pub comm : Bytes

-- EVENT_EXEC
abbrev pub event_exec : ℕ
event_exec = 0

-- `handle_exec`: the event that it submits, none where there is no room.
unfoldable pub handle_exec : Helpers → Option KernelEvent
handle_exec h =
    if h.has_room
    then some (record {
      kind = event_exec;
      pid = (h.pid_tgid / 2 ^ 32) % 2 ^ 32;
      tgid = h.pid_tgid % 2 ^ 32;
      uid = h.uid_gid % 2 ^ 32;
      ppid = h.parent_pid % 2 ^ 32;
      comm = take 16 h.comm;
    })
    else none

-- The kernel puts the process's id above the thread's, and the group above the user. Then the event has the
-- process's id as `pid`, the thread's as `tgid`, and the user.
pub handle_exec-ids :
    (h : Helpers) (process thread group user : ℕ)
    → h.has_room ≡ true
    → h.pid_tgid ≡ process * 2 ^ 32 + thread
    → h.uid_gid ≡ group * 2 ^ 32 + user
    → process < 2 ^ 32
    → thread < 2 ^ 32
    → user < 2 ^ 32
    → h.parent_pid < 2 ^ 32
    → handle_exec h
      ≡ some (record {
        kind = event_exec;
        pid = process;
        tgid = thread;
        uid = user;
        ppid = h.parent_pid;
        comm = take 16 h.comm;
      })
unfolding handle_exec
handle_exec-ids h process thread group user room ids owner hp ht hu hpp =
    let p : (h.pid_tgid / 2 ^ 32) % 2 ^ 32 ≡ process = omega (arith, ids) in
    let t : h.pid_tgid % 2 ^ 32 ≡ thread = omega (arith, ids) in
    let u : h.uid_gid % 2 ^ 32 ≡ user = omega (arith, owner) in
    let q : h.parent_pid % 2 ^ 32 ≡ h.parent_pid = omega arith in rw (room, p, t, u, q) refl
