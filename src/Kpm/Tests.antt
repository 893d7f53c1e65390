-- ===== src/Kpm/Tests.antt =====
-- kpm/src/: the theorems about the kernel module at work on one kernel.
use zygisk_next_next.Base.{
  ℕ, suc, ◌+◌, ◌-◌, ◌%◌, ◌≤◌, ◌<◌, min, ◌≡◌, ◌≢◌, refl, ◌⊎◌, inr, Bool, true, false, List, [], ◌++◌,
  length, concat, drop, replicate, codes, ◌==◌, if◌then◌else◌, some, ℤ, pos, negsuc, is_zero, arith,
  get_or,
}
use zygisk_next_next.Kpm.Format.{format_exec_record, line_capacity}
use zygisk_next_next.Kpm.Format.Digits.{value}
use zygisk_next_next.Kpm.Format.Line.{exec_line, format_whole}
use zygisk_next_next.Kpm.Ring.{Kernel, Znn, blank, claim, efault, write_records}
use zygisk_next_next.Kpm.Ring.History.{
  Exec, no_exec, Tracks, PidIsInt32, seen_all, note_all, note_all-Tracks,
}
use zygisk_next_next.Kpm.Ring.Read.{
  store, store_outside, Delivers, first_index, exec_lines, fit, write_records_lem,
}
use zygisk_next_next.Kpm.Ring.Race.{claim_exposes_stale}
use zygisk_next_next.Kpm.Channel.{
  HookArgs, kpm_magic, channel_max_length, to_u64, einval, eperm, channel_before,
}
use zygisk_next_next.Kpm.Channel.Gate.{Confines, IsOrdinary, channel-refused, channel-confined}
use zygisk_next_next.Kpm.Control.{
  after_read, skip_blanks, parse_count, digit_loop, next_value, parse_read_command, control,
}
use zygisk_next_next.Kpm.Control.Parse.{parse-read_count}
use zygisk_next_next.Kpm.Control.Newest.{newest, control_lem}
use zygisk_next_next.Kpm.Lifecycle.{
  Syscall, execve, execveat, prctl, KernelPatch, Lookups, fresh, init, exit,
}
use zygisk_next_next.Kpm.Lifecycle.Hooked.{
  Promises, Matches, Unhooked, Started, exit-Unhooked, init-Matches,
}

-- A kernel whose tasks lie at multiples of 1000, with a credential behind each: user 0 for the task
-- at 1000, user 7 for the others.
abbrev kernel : Kernel
kernel = record {
  pid_nr_ns = λ task type. pos ((task + type) % 1000);
  load_ptr = λ p. p + 100;
  load_u32 = λ p. if p == 1112 then 0 else 7;
  copy_to_user = λ p text m. (pos (length text), store p text m);
}

kernel-Delivers : Delivers kernel
kernel-Delivers p text m = refl

kernel-PidIsInt32 : PidIsInt32 kernel
kernel-PidIsInt32 task type = omega arith

-- The module after its lookups have succeeded.
abbrev ready : Znn
ready = record {
  ring = replicate 64 blank;
  ring_written = 0;
  execve_hooked = true;
  execveat_hooked = true;
  channel_hooked = true;
  task_pid_nr_ns = true;
  real_parent_offset = pos 16;
  task_cred_offset = pos 8;
  cred_uid_offset = pos 4;
}

ready-Tracks : Tracks [] ready
ready-Tracks = record {
  counted = refl;
  small = omega arith;
  slots = refl;
  in_range = tt;
  stored = λ i lt near. absurd (omega arith);
}

abbrev tasks : List ℕ
tasks = replicate 70 5001

abbrev execs : List Exec
execs = seen_all kernel ready tasks

abbrev busy : Znn
busy = note_all kernel tasks ready

note_all-Tracks_example : Tracks ([] ++ seen_all kernel ready tasks) (note_all kernel tasks ready)
note_all-Tracks_example =
    note_all-Tracks kernel tasks [] ready kernel-PidIsInt32 ready-Tracks (omega arith)

busy-Tracks : Tracks execs busy
busy-Tracks = note_all-Tracks kernel tasks [] ready kernel-PidIsInt32 ready-Tracks (omega arith)

write_records_lem_example :
    let out =
      concat (fit 200 (exec_lines (first_index execs 68) (drop (first_index execs 68) execs))) in
    write_records kernel busy 9000 200 68 (λ q. 0) ≡ (pos (length out), store 9000 out (λ q. 0))
write_records_lem_example =
    write_records_lem kernel execs busy 9000 200 68 (λ q. 0) kernel-Delivers busy-Tracks
      (omega arith) (omega arith)

claim_exposes_stale_example :
    let e = get_or execs (length execs - 64) no_exec in
    let line = exec_line (suc (length execs)) e.pid e.tgid e.ppid in
    write_records kernel (claim busy).1 9000 200 (length execs) (λ q. 0)
    ≡ (pos (length line), store 9000 line (λ q. 0))
claim_exposes_stale_example =
    claim_exposes_stale kernel execs busy 9000 200 (λ q. 0) kernel-Delivers busy-Tracks
      (omega arith) (omega arith) (omega arith) (omega arith) (omega arith)

-- A call of the channel for up to 200 bytes about the execs after number 68.
abbrev call : HookArgs
call = record { arg0 = kpm_magic; arg1 = 9000; arg2 = 200; arg3 = 68; skip_origin = false; ret = 0 }

kernel-Confines : Confines kernel
kernel-Confines p text m q outside = store_outside p text m q outside

channel-confined_example :
    let (after, m) = channel_before kernel busy 1000 call (λ q. 0) in
    (m 9200 ≡ 0)
    × ((after.ret ≤ 200)
        ⊎ (after.ret ≡ to_u64 einval)
        ⊎ (after.ret ≡ to_u64 eperm)
        ⊎ (after.ret ≡ to_u64 efault))
channel-confined_example =
    channel-confined kernel busy 1000 call (λ q. 0) 9200 kernel-Confines refl (omega arith)
      (inr (omega arith))

ordinary : IsOrdinary kernel ready 2000
ordinary = record {
  cred_known = refl;
  uid_known = refl;
  has_task = omega arith;
  has_cred = omega arith;
  uid = λ e. omega (arith, e);
}

channel-refused_example :
    let (after, m) = channel_before kernel ready 2000 call (λ q. 0) in
    (m ≡ λ q. 0)
    × (after.skip_origin ≡ true)
    × ((after.ret ≡ to_u64 einval) × ((200 < 1) ⊎ (channel_max_length < 200))
        ⊎ (after.ret ≡ to_u64 eperm) × (1 ≤ 200) × (200 ≤ channel_max_length))
channel-refused_example = channel-refused kernel ready 2000 call (λ q. 0) refl ordinary

format_whole_example :
    format_exec_record line_capacity 7 (pos 5) (pos 5) (negsuc 0)
    ≡ exec_line 7 (pos 5) (pos 5) (negsuc 0)
format_whole_example =
    format_whole 7 (pos 5) (pos 5) (negsuc 0) (omega arith) (omega arith) (omega arith)
      (omega arith)

read_12 : parse_read_command (some (codes "read 12")) ≡ some 12
unfolding parse_read_command after_read skip_blanks parse_count digit_loop next_value
read_12 = refl

parse-read_count_example :
    parse_read_command
      (some (codes " " ++ (codes "read" ++ (codes " " ++ (codes "12" ++ codes " x")))))
    ≡ some (min (value 0 (codes "12")) 64)
parse-read_count_example =
    parse-read_count (codes " ") (codes " ") (codes "12") (codes " x") (refl, tt) (refl, tt)
      (λ e. cc e) ((omega arith, omega arith), ((omega arith, omega arith), tt)) (λ e. cc e) refl

control_lem_example :
    let i = length execs - newest 12 execs in
    let out = concat (fit 300 (exec_lines i (drop i execs))) in
    control kernel busy (some (codes "read 12")) 9000 (pos 300) (λ q. 0)
    ≡ (pos (length out), store 9000 out (λ q. 0))
control_lem_example =
    control_lem kernel execs busy (some (codes "read 12")) 12 9000 300 (λ q. 0) kernel-Delivers
      busy-Tracks read_12 (omega arith) (omega arith) (omega arith)

-- A KernelPatch that keeps the three hooks in a triple and refuses a hook on `prctl`.
abbrev Hooks : Type 0
Hooks = Bool × Bool × Bool

abbrev put : Syscall → Bool → Hooks → Hooks
put execve on w = (on, w.1, w.2)
put execveat on w = (w.0, on, w.2)
put prctl on w = (w.0, w.1, on)

abbrev get : Syscall → Hooks → Bool
get execve w = w.0
get execveat w = w.1
get prctl w = w.2

abbrev try_hook : Syscall → Hooks → ℤ × Hooks
try_hook prctl w = (negsuc 15, w)
try_hook execve w = (pos 0, put execve true w)
try_hook execveat w = (pos 0, put execveat true w)

abbrev patch : KernelPatch Hooks
patch = record { hook = try_hook; unhook = λ c w. put c false w }

hooked : (c : Syscall) (w : Hooks) → is_zero (try_hook c w).0 ≡ true → get c (try_hook c w).1 ≡ true
hooked execve w e = refl
hooked execveat w e = refl
hooked prctl w e = cc e

failed_hook :
    (c d : Syscall) (w : Hooks)
    → is_zero (try_hook c w).0 ≡ false
    → get d (try_hook c w).1 ≡ get d w
failed_hook execve d w e = cc e
failed_hook execveat d w e = cc e
failed_hook prctl d w e = refl

put_self : (c : Syscall) (on : Bool) (w : Hooks) → get c (put c on w) ≡ on
put_self execve on w = refl
put_self execveat on w = refl
put_self prctl on w = refl

put_other : (c d : Syscall) (on : Bool) (w : Hooks) → c ≢ d → get d (put c on w) ≡ get d w
put_other execve execve on w ne = absurd (ne refl)
put_other execve execveat on w ne = refl
put_other execve prctl on w ne = refl
put_other execveat execve on w ne = refl
put_other execveat execveat on w ne = absurd (ne refl)
put_other execveat prctl on w ne = refl
put_other prctl execve on w ne = refl
put_other prctl execveat on w ne = refl
put_other prctl prctl on w ne = absurd (ne refl)

hook_others : (c d : Syscall) (w : Hooks) → c ≢ d → get d (try_hook c w).1 ≡ get d w
hook_others execve d w ne = put_other execve d true w ne
hook_others execveat d w ne = put_other execveat d true w ne
hook_others prctl d w ne = refl

patch-Promises : Promises patch get
patch-Promises = record {
  hook_ok = hooked;
  hook_failed = failed_hook;
  hook_other = hook_others;
  unhook_self = λ c w. put_self c false w;
  unhook_other = λ c d w ne. put_other c d false w ne;
}

abbrev lookups : Lookups
lookups = record {
  with_btf = true;
  pid_nr_ns_found = true;
  parent_offset = pos 16;
  cred_offset = pos 8;
  cred_uid_offset = pos 4;
}

init-Matches_example :
    Started patch get (false, false, false) (init patch lookups fresh (false, false, false))
init-Matches_example =
    init-Matches patch get patch-Promises lookups (false, false, false)
      (record { no_execve = refl; no_execveat = refl; no_channel = refl })

exit-Unhooked_example :
    let (error, s, w) = exit patch ready (true, true, true) in
    (error ≡ pos 0) × Matches patch get s w × Unhooked patch get w
exit-Unhooked_example =
    exit-Unhooked patch get patch-Promises ready (true, true, true)
      (record { on_execve = refl; on_execveat = refl; on_channel = refl })
