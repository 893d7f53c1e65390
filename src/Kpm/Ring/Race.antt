-- ===== src/Kpm/Ring/Race.antt =====
-- kpm/src/znn.c: a read of the channel between the two steps of `znn_note_exec` on another CPU.
use zygisk_next_next.Base.{
  ℕ, zero, suc, ◌+◌, ◌-◌, ◌%◌, ◌^◌, ◌≤◌, ◌<◌, ◌≡◌, ap, false, List, [], ◌∷◌, All, length, get_or,
  ltb, leb, Bytes, pos, arith,
}
use zygisk_next_next.Kpm.Format.Line.{exec_line, format_whole, exec_line-pos, length-exec_line}
use zygisk_next_next.Kpm.Ring.{
  Kernel, Znn, UserMemory, add64, sub64, claim, line_at, first_seq, write_loop, write_records,
}
use zygisk_next_next.Kpm.Ring.History.{Exec, IsExec, no_exec, Tracks}
use zygisk_next_next.Kpm.Ring.Read.{Delivers, store, send_fits, line_of}

get_or-IsExec : (es : List Exec) (i : ℕ) → All IsExec es → IsExec (get_or es i no_exec)
get_or-IsExec [] i h = omega arith
get_or-IsExec (e ∷ es) zero h = h.0
get_or-IsExec (e ∷ es) (suc i) h = get_or-IsExec es i h.1

stale_line :
    (h : List Exec) (s : Znn) (seq : ℕ)
    → Tracks h s
    → 64 ≤ length h
    → seq ≡ suc (length h)
    → length h + 1 < 2 ^ 64
    → let e = get_or h (length h - 64) no_exec in
      IsExec e → line_at s.ring seq ≡ line_of (length h) e
unfolding line_at
stale_line h s seq t full same small ok =
    let n = length h in
    let slot : sub64 seq 1 % 64 ≡ (n - 64) % 64 = omega arith in
    let e = get_or h (n - 64) no_exec in
    rw (slot, t.stored (n - 64) (omega arith) (omega arith), same)
      (format_whole (suc n) e.pid e.tgid e.ppid (omega arith) ok.0 ok.1 ok.2)

-- Once the ring is full, a reader that comes between the increment of the counter and the stores of
-- the record is sent, under the new exec's number, the process ids of the exec 64 earlier.
pub claim_exposes_stale :
    (k : Kernel) (h : List Exec) (s : Znn) (user_buffer buffer_length : ℕ) (m : UserMemory)
    → Delivers k
    → Tracks h s
    → 64 ≤ length h
    → length h + 1 < 2 ^ 64
    → 75 ≤ buffer_length
    → buffer_length ≤ 4096
    → user_buffer + buffer_length < 2 ^ 64
    → let e = get_or h (length h - 64) no_exec in
      let line = exec_line (suc (length h)) e.pid e.tgid e.ppid in
      write_records k (claim s).1 user_buffer buffer_length (length h) m
      ≡ (pos (length line), store user_buffer line m)
unfolding write_records claim write_loop
claim_exposes_stale k h s user_buffer buffer_length m deliver t full small big limit room =
    let n = length h in
    let e = get_or h (n - 64) no_exec in
    let ok = get_or-IsExec h (n - 64) t.in_range in
    let line : Bytes = line_of n e in
    let written : add64 s.ring_written 1 ≡ suc n = omega (arith, t.counted) in
    let new : leb (suc n) n ≡ false = ground arith in
    let first : first_seq (suc n) n ≡ suc n = unfold first_seq in ground arith in
    let count : add64 (sub64 (suc n) (suc n)) 1 ≡ suc zero = omega arith in
    let short : length line ≤ 75 =
      length-exec_line (suc n) e.pid e.tgid e.ppid (omega arith) ok.0 ok.1 ok.2 in
    let fits : ltb buffer_length (add64 0 (length line)) ≡ false = ground arith in
    let z : add64 user_buffer 0 ≡ user_buffer = omega arith in
    let stale : line_at (claim s).1.ring (add64 (suc n) 0) ≡ line =
      stale_line h s (add64 (suc n) 0) t full (omega arith) small ok in
    rw (written, new, first, count)
      (rw
        (
          stale,
          send_fits k user_buffer buffer_length 0 line m deliver
              (exec_line-pos (suc n) e.pid e.tgid e.ppid) fits,
          write_loop,
          z,
        )
        (rw stale (ap (λ (q : ℕ). (pos q, store user_buffer line m)) (omega arith))))
