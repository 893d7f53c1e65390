-- ===== src/Kpm/Ring/Read.antt =====
-- kpm/src/znn.c: `znn_channel_write_records` against the history of all execs.
use zygisk_next_next.Base.{
  ℕ, zero, suc, ◌+◌, ◌-◌, ◌%◌, ◌^◌, ◌≤◌, ◌<◌, ◌≡◌, refl, sym, ap, ◌∙◌, ◌⊎◌, true, false, List, [],
  ◌∷◌, ◌++◌, length, length-append, get_or, drop, concat, ltb, leb, ◌==◌, ==_refl, Bool-cases, inl,
  inr, if◌then◌else◌, All, Bytes, ℤ, pos, arith, max,
}
use zygisk_next_next.Kpm.Format.Line.{exec_line, format_whole, exec_line-pos, length-exec_line}
use zygisk_next_next.Kpm.Ring.{
  Kernel, Znn, ExecRecord, UserMemory, blank, line_at, add64, sub64, stop, sent, send_line,
  first_seq, write_loop, write_records,
}
use zygisk_next_next.Kpm.Ring.History.{Exec, IsExec, no_exec, record_of, Tracks}

-- `text` at the address `at` of a user address space.
unfoldable pub store : ℕ → Bytes → UserMemory → UserMemory
store p [] m = m
store p (c ∷ text) m = store (p + 1) text (λ q. if q == p then c else m q)

-- Bytes outside the stored text keep their value.
pub store_outside :
    (p : ℕ) (text : Bytes) (m : UserMemory) (q : ℕ)
    → (q < p) ⊎ (p + length text ≤ q)
    → store p text m q ≡ m q
unfolding store
store_outside p [] m q h = refl
store_outside p (c ∷ text) m q h =
    ground (arith, store_outside (p + 1) text (λ r. if r == p then c else m r) q)

pub store-append :
    (p : ℕ) (a b : Bytes) (m : UserMemory)
    → store p (a ++ b) m ≡ store (p + length a) b (store p a m)
unfolding store
store-append p [] b m = let e : p ≡ p + 0 = omega arith in rw (← e)
store-append p (c ∷ a) b m =
    let e : p + 1 + length a ≡ p + suc (length a) = omega arith in
    rw (← e) (store-append (p + 1) a b _)

-- Every byte of the user buffer is writable: each copy stores the whole line and reports its length.
abbrev pub Delivers : Kernel → Type 0
Delivers k =
    (p : ℕ) (text : Bytes) (m : UserMemory)
    → k.copy_to_user p text m ≡ (pos (length text), store p text m)

-- The lines of execs that stand from index `i` of the history on.
unfoldable pub exec_lines : ℕ → List Exec → List Bytes
exec_lines i [] = []
exec_lines i (e ∷ es) = exec_line (suc i) e.pid e.tgid e.ppid ∷ exec_lines (suc i) es

-- The longest row of first lines that fits in `room` bytes.
unfoldable pub fit : ℕ → List Bytes → List Bytes
fit room [] = []
fit room (l ∷ ls) = if ltb room (length l) then [] else l ∷ fit (room - length l) ls

pub length-fit : (room : ℕ) (ls : List Bytes) → length (concat (fit room ls)) ≤ room
unfolding fit
length-fit room [] = omega arith
length-fit room (l ∷ ls) =
    ground
      (arith, length-fit (room - length l) ls, length-append l (concat (fit (room - length l) ls)))

-- The ring holds the execs `es` of the history's indices from `i` on.
abbrev pub Holds : List ExecRecord → ℕ → List Exec → Type 0
Holds ring i [] = Unit
Holds ring i (e ∷ es) =
    (get_or ring (i % 64) blank ≡ record_of (suc i) e) × IsExec e × Holds ring (suc i) es

abbrev pub line_of : ℕ → Exec → Bytes
line_of i e = exec_line (suc i) e.pid e.tgid e.ppid

line_at-slot :
    (ring : List ExecRecord) (seq i : ℕ) (e : Exec)
    → seq ≡ suc i
    → suc i < 2 ^ 64
    → IsExec e
    → get_or ring (i % 64) blank ≡ record_of (suc i) e
    → line_at ring seq ≡ line_of i e
unfolding line_at
line_at-slot ring seq i e same small ok slot =
    let index : sub64 seq 1 % 64 ≡ i % 64 = omega arith in
    rw (index, slot, same) (format_whole (suc i) e.pid e.tgid e.ppid small ok.0 ok.1 ok.2)

module _ (k : Kernel) (user_buffer buffer_length total : ℕ) (line : Bytes) (m : UserMemory) where
  send_full :
      ltb buffer_length (add64 total (length line)) ≡ true
      → send_line k user_buffer buffer_length total line m ≡ stop
  unfolding send_line
  send_full h = ground arith

  pub send_fits :
      Delivers k
      → 0 < length line
      → ltb buffer_length (add64 total (length line)) ≡ false
      → send_line k user_buffer buffer_length total line m
        ≡ sent (store (add64 user_buffer total) line m)
  unfolding send_line
  send_fits deliver some_bytes fits =
      let more : (length line == 0) ≡ false = ground arith in
      rw (more, fits, deliver, ==_refl (length line))

pub minus_twice : (a b c : ℕ) → a - (b + c) ≡ a - b - c
minus_twice a b c = omega arith

-- A line and the bytes after it are stored as one text.
pub join :
    (user_buffer total : ℕ) (line rest : Bytes) (m : UserMemory)
    → user_buffer + total < 2 ^ 64
    → ◌≡◌ {A = ℤ × UserMemory}
        (
          pos (total + length line + length rest),
          store (user_buffer + (total + length line)) rest (store (add64 user_buffer total) line m),
        )
        (pos (total + length (line ++ rest)), store (user_buffer + total) (line ++ rest) m)
join user_buffer total line rest m small =
    let a : add64 user_buffer total ≡ user_buffer + total = omega arith in
    let b : user_buffer + (total + length line) ≡ user_buffer + total + length line = omega arith in
    let c : total + length line + length rest ≡ total + length (line ++ rest) =
      omega (arith, length-append line rest) in
    rw (a, b, c, store-append (user_buffer + total) line rest m)

module _ (k : Kernel) (ring : List ExecRecord) (user_buffer buffer_length first : ℕ) where
  -- The rounds that are left send what fits of the lines that are left.
  write_loop_lem :
      (es : List Exec) (i j total : ℕ) (m : UserMemory)
      → Delivers k
      → first + j ≡ suc i
      → i + length es < 2 ^ 64
      → total ≤ buffer_length
      → buffer_length ≤ 4096
      → user_buffer + buffer_length < 2 ^ 64
      → Holds ring i es
      → let out = concat (fit (buffer_length - total) (exec_lines i es)) in
        write_loop k ring user_buffer buffer_length first (length es) j total m
        ≡ (pos (total + length out), store (user_buffer + total) out m)
  unfolding write_loop fit exec_lines store
  write_loop_lem [] i j total m deliver e b c limit d h = ap (λ (t : ℕ). (pos t, m)) (omega arith)
  write_loop_lem (x ∷ es) i j total m deliver e b c limit d (slot, ok, h) =
      let line : line_at ring (add64 first j) ≡ line_of i x =
        line_at-slot ring (add64 first j) i x (omega arith) (omega arith) ok slot in
      let short : length (line_of i x) ≤ 75 =
        length-exec_line (suc i) x.pid x.tgid x.ppid (omega arith) ok.0 ok.1 ok.2 in
      elim (Bool-cases (ltb (buffer_length - total) (length (line_of i x)))) [
        | inl full ↦
            let f : ltb buffer_length (add64 total (length (line_of i x))) ≡ true = ground arith in
            rw
              (
                line,
                send_full k user_buffer buffer_length total (line_of i x) m f,
                full,
                write_loop,
              )
              (ap (λ (t : ℕ). (pos t, m)) (omega arith))
        | inr fits ↦
            let f : ltb buffer_length (add64 total (length (line_of i x))) ≡ false = ground arith in
            let c' : total + length (line_of i x) ≤ buffer_length = ground arith in
            let m' : UserMemory = store (add64 user_buffer total) (line_of i x) m in
            rw
              (
                line,
                send_fits k user_buffer buffer_length total (line_of i x) m deliver
                    (exec_line-pos (suc i) x.pid x.tgid x.ppid) f,
                fits,
                write_loop,
              )
              (rw line (
                write_loop_lem es (suc i) (j + 1) (total + length (line_of i x)) m' deliver
                  (omega arith) (omega arith) c' limit d h
                ∙ rw (minus_twice buffer_length total (length (line_of i x)))
                    (join user_buffer total (line_of i x) _ m (omega arith))))
      ]

-- The execs that the ring still holds at index `i` and later.
tracked :
    (es : List Exec) (i : ℕ) (ring : List ExecRecord)
    → All IsExec es
    → ((j : ℕ)
        → j < length es
        → get_or ring ((i + j) % 64) blank ≡ record_of (suc (i + j)) (get_or es j no_exec))
    → Holds ring i es
tracked [] i ring ok h = tt
tracked (e ∷ es) i ring ok h =
    let z : i + 0 ≡ i = omega arith in
    (
      rw z at (h 0 (omega arith)),
      ok.0,
      tracked es (suc i) ring ok.1 (λ j lt.
          let s : i + suc j ≡ suc i + j = omega arith in rw s at (h (suc j) (omega arith))),
    )

All-drop : (n : ℕ) (es : List Exec) → All IsExec es → All IsExec (drop n es)
All-drop zero es h = h
All-drop (suc n) [] h = tt
All-drop (suc n) (e ∷ es) h = All-drop n es h.1

get_or-drop : (n j : ℕ) (es : List Exec) → get_or (drop n es) j no_exec ≡ get_or es (n + j) no_exec
get_or-drop zero j es = let z : 0 + j ≡ j = omega arith in rw z
get_or-drop (suc n) j [] = refl
get_or-drop (suc n) j (e ∷ es) =
    let z : suc n + j ≡ suc (n + j) = omega arith in rw z (get_or-drop n j es)

pub length-drop : (n : ℕ) (es : List Exec) → length (drop n es) ≡ length es - n
length-drop zero es = omega arith
length-drop (suc n) [] = omega arith
length-drop (suc n) (e ∷ es) = omega (arith, length-drop n es)

pub Tracks-Holds :
    (h : List Exec) (s : Znn) (i : ℕ) → Tracks h s → length h ≤ i + 64 → Holds s.ring i (drop i h)
Tracks-Holds h s i t near = tracked (drop i h) i s.ring (All-drop i h t.in_range) λ j lt.
    t.stored (i + j) (omega (arith, length-drop i h)) (omega arith)
    ∙ ap (record_of (suc (i + j))) (sym (get_or-drop i j h))

-- The index of the first exec that a read since `since` sends: the next one, unless the ring has
-- lost it.
unfoldable pub first_index : List Exec → ℕ → ℕ
first_index h since = max since (length h - 64)

first_seq_lem :
    (h : List Exec) (since : ℕ)
    → length h < 2 ^ 64
    → since < length h
    → first_seq (length h) since ≡ suc (first_index h since)
unfolding first_seq first_index
first_seq_lem h since small lt = ground arith

drop-all : (n : ℕ) (es : List Exec) → length es ≤ n → drop n es ≡ []
drop-all zero [] h = refl
drop-all zero (e ∷ es) h = absurd (omega arith)
drop-all (suc n) [] h = refl
drop-all (suc n) (e ∷ es) h = drop-all n es (omega arith)

-- For a ring that holds history `h`, `znn_channel_write_records` copies out, in the order of the
-- execs, the lines of those after number `since` that are among the newest 64, as many whole lines
-- as fit; it returns how many bytes these are, and leaves the rest of the memory as it was. The buffer is
-- writable, at most 4096 bytes long and does not wrap around the address space.
pub write_records_lem :
    (k : Kernel) (h : List Exec) (s : Znn) (user_buffer buffer_length since : ℕ) (m : UserMemory)
    → Delivers k
    → Tracks h s
    → buffer_length ≤ 4096
    → user_buffer + buffer_length < 2 ^ 64
    → let i = first_index h since in
      let out = concat (fit buffer_length (exec_lines i (drop i h))) in
      write_records k s user_buffer buffer_length since m
      ≡ (pos (length out), store user_buffer out m)
unfolding write_records first_index
write_records_lem k h s user_buffer buffer_length since m deliver t limit room =
    elim (Bool-cases (leb s.ring_written since)) [
      | inl old ↦
          let none_new : drop (max since (length h - 64)) h ≡ [] =
            drop-all _ h (ground (arith, t.counted)) in
          rw (old, none_new) (unfold exec_lines fit store in refl)
      | inr new ↦
          let lt : since < length h = ground (arith, t.counted) in
          let i = max since (length h - 64) in
          let out : Bytes = concat (fit buffer_length (exec_lines i (drop i h))) in
          let first : first_seq s.ring_written since ≡ suc i =
            ap (λ (w : ℕ). first_seq w since) t.counted ∙ first_seq_lem h since t.small lt in
          let count : add64 (sub64 s.ring_written (suc i)) 1 ≡ length (drop i h) =
            omega (arith, t.counted, t.small, length-drop i h) in
          let z : user_buffer + 0 ≡ user_buffer = omega arith in
          let y : buffer_length - 0 ≡ buffer_length = omega arith in
          rw (new, first, count)
            (write_loop_lem k s.ring user_buffer buffer_length (suc i) (drop i h) i 0 0 m deliver
                (omega arith) (omega (arith, t.small, length-drop i h)) (omega arith) limit room
                (Tracks-Holds h s i t (omega arith))
              ∙ rw (z, y) (ap (λ (t : ℕ). (pos t, store user_buffer out m)) (omega arith)))
    ]
