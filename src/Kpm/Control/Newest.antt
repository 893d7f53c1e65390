-- ===== src/Kpm/Control/Newest.antt =====
-- kpm/src/znn.c: `znn_control` against the history of all execs.
use zygisk_next_next.Base.{
  ℕ, zero, suc, ◌+◌, ◌-◌, ◌%◌, ◌^◌, ◌≤◌, ◌<◌, ◌≡◌, ◌≢◌, ◌⊎◌, ap, ◌∙◌, inl, inr, true, false, List,
  [], ◌∷◌, length, get_or, drop, concat, ltb, ◌==◌, ==_refl, Bool-cases, Bytes, Option, none, some,
  ℤ, pos, negsuc, min, arith,
}
use zygisk_next_next.Kpm.Format.Line.{format_whole, exec_line-pos}
use zygisk_next_next.Kpm.Ring.{
  Kernel, Znn, ExecRecord, UserMemory, blank, ring_capacity, add64, sub64, available_of, stop, sent,
}
use zygisk_next_next.Kpm.Ring.History.{Exec, IsExec, record_of, Tracks}
use zygisk_next_next.Kpm.Ring.Read.{
  Delivers, Holds, line_of, exec_lines, fit, store, join, minus_twice, length-drop, Tracks-Holds,
}
use zygisk_next_next.Kpm.Control.{
  parse_read_command, stored_line, send_stored, control_loop, send_count, no_room, control,
}

stored_line-slot :
    (ring : List ExecRecord) (slot i : ℕ) (e : Exec)
    → slot ≡ i % 64
    → suc i < 2 ^ 64
    → IsExec e
    → get_or ring (i % 64) blank ≡ record_of (suc i) e
    → stored_line ring slot ≡ line_of i e
unfolding stored_line
stored_line-slot ring slot i e same small ok held =
    rw (same, held) (format_whole (suc i) e.pid e.tgid e.ppid small ok.0 ok.1 ok.2)

module _ (k : Kernel) (out_msg outlen total : ℕ) (line : Bytes) (m : UserMemory) where
  send_full :
      ltb outlen (total + length line) ≡ true → send_stored k out_msg outlen total line m ≡ stop
  unfolding send_stored
  send_full h = ground arith

  send_fits :
      Delivers k
      → 0 < length line
      → ltb outlen (total + length line) ≡ false
      → send_stored k out_msg outlen total line m ≡ sent (store (add64 out_msg total) line m)
  unfolding send_stored
  send_fits deliver some_bytes fits =
      let more : (length line == 0) ≡ false = ground arith in
      rw (more, fits, deliver, ==_refl (length line))

module _ (k : Kernel) (ring : List ExecRecord) (out_msg outlen first : ℕ) where
  control_loop_lem :
      (es : List Exec) (i j total : ℕ) (m : UserMemory)
      → Delivers k
      → first + j ≡ i
      → i + length es < 2 ^ 64
      → total ≤ outlen
      → out_msg + outlen < 2 ^ 64
      → Holds ring i es
      → let out = concat (fit (outlen - total) (exec_lines i es)) in
        control_loop k ring out_msg outlen first (length es) j total m
        ≡ (pos (total + length out), store (out_msg + total) out m)
  unfolding control_loop fit exec_lines store
  control_loop_lem [] i j total m deliver e b c d h = ap (λ (t : ℕ). (pos t, m)) (omega arith)
  control_loop_lem (x ∷ es) i j total m deliver e b c d (slot, ok, h) =
      let line : stored_line ring (add64 first j % ring_capacity) ≡ line_of i x =
        stored_line-slot ring (add64 first j % ring_capacity) i x (omega arith) (omega arith) ok
          slot in
      elim (Bool-cases (ltb (outlen - total) (length (line_of i x)))) [
        | inl full ↦
            let f : ltb outlen (total + length (line_of i x)) ≡ true = ground arith in
            rw (line, send_full k out_msg outlen total (line_of i x) m f, full, control_loop)
              (ap (λ (t : ℕ). (pos t, m)) (omega arith))
        | inr fits ↦
            let f : ltb outlen (total + length (line_of i x)) ≡ false = ground arith in
            let c' : total + length (line_of i x) ≤ outlen = ground arith in
            let m' : UserMemory = store (add64 out_msg total) (line_of i x) m in
            rw
              (
                line,
                send_fits k out_msg outlen total (line_of i x) m deliver
                    (exec_line-pos (suc i) x.pid x.tgid x.ppid) f,
                fits,
                control_loop,
              )
              (rw line (
                control_loop_lem es (suc i) (j + 1) (total + length (line_of i x)) m' deliver
                  (omega arith) (omega arith) c' d h
                ∙ rw (minus_twice outlen total (length (line_of i x)))
                    (join out_msg total (line_of i x) _ m (omega arith))))
      ]

-- How many of the newest execs a request asks for: all that the ring holds for 0, else the number
-- requested or all if there are fewer.
abbrev pub newest : ℕ → List Exec → ℕ
newest zero h = min (length h) 64
newest (suc n) h = min (suc n) (min (length h) 64)

send_count_lem :
    (requested : ℕ) (h : List Exec) → send_count requested (min (length h) 64) ≡ newest requested h
unfolding send_count
send_count_lem zero h = ground arith
send_count_lem (suc n) h = ground arith

newest-held : (requested : ℕ) (h : List Exec) → newest requested h ≤ min (length h) 64
newest-held zero h = omega arith
newest-held (suc n) h = omega arith

-- For a ring that holds history `h`, where every copy to the user's buffer succeeds, `znn_control` answers
-- an accepted command with the lines of the newest execs, all that are held for the count 0, else as many
-- as the count asks for or all if fewer are held, oldest first, cut to the whole lines that fit, and
-- returns how many bytes these are. The buffer does not wrap around the address space.
pub control_lem :
    (k : Kernel) (h : List Exec) (s : Znn) (args : Option Bytes) (requested out_msg outlen : ℕ)
    (m : UserMemory)
    → Delivers k
    → Tracks h s
    → parse_read_command args ≡ some requested
    → out_msg ≢ 0
    → outlen ≢ 0
    → out_msg + outlen < 2 ^ 64
    → let i = length h - newest requested h in
      let out = concat (fit outlen (exec_lines i (drop i h))) in
      control k s args out_msg (pos outlen) m ≡ (pos (length out), store out_msg out m)
unfolding control
control_lem k h s args requested out_msg outlen m deliver t parsed buffer length_ok room =
    let refuse : (out_msg == 0) ≡ false = ground arith in
    let refuse' : (outlen == 0) ≡ false = ground arith in
    let i : ℕ = length h - newest requested h in
    let out : Bytes = concat (fit outlen (exec_lines i (drop i h))) in
    let held : available_of s.ring_written ≡ min (length h) 64 =
      unfold available_of in ground (arith, t.counted) in
    let few : newest requested h ≤ min (length h) 64 = newest-held requested h in
    let asked : send_count requested (min (length h) 64) ≡ newest requested h =
      send_count_lem requested h in
    let first : sub64 s.ring_written (newest requested h) ≡ i = omega (arith, t.counted, t.small) in
    let count : newest requested h ≡ length (drop i h) = omega (arith, length-drop i h) in
    let z : out_msg + 0 ≡ out_msg = omega arith in
    let y : outlen - 0 ≡ outlen = omega arith in
    let sent_all =
      control_loop_lem k s.ring out_msg outlen i (drop i h) i 0 0 m deliver (omega arith)
        (omega (arith, t.small, length-drop i h)) (omega arith) room
        (Tracks-Holds h s i t (omega arith)) in
    rw (refuse, refuse', parsed, held, asked, first)
      ((rw (← count) at sent_all)
        ∙ rw (z, y) (ap (λ (n : ℕ). (pos n, store out_msg out m)) (omega arith)))

-- A null buffer, a length that is not positive and a command that is not understood are refused with
-- -1, and the memory stays as it was.
pub control-refused :
    (k : Kernel) (s : Znn) (args : Option Bytes) (out_msg : ℕ) (outlen : ℤ) (m : UserMemory)
    → (out_msg ≡ 0) ⊎ (no_room outlen ≡ true) ⊎ (parse_read_command args ≡ none)
    → control k s args out_msg outlen m ≡ (negsuc 0, m)
unfolding control
control-refused k s args out_msg outlen m h = ground arith
