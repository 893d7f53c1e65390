-- ===== src/Kpm/Ring/History.antt =====
-- kpm/src/znn.c: the ring against the history of all execs. `znn_note_exec` appends to the history.
use native.Mathlib.Decide.{ℕ_discrete}
use zygisk_next_next.Base.{
  ℕ, suc, ◌+◌, ◌%◌, ◌^◌, ◌≤◌, ◌<◌, ◌≡◌, ◌≢◌, refl, sym, ap, ap₂, ◌∙◌, List, [], ◌∷◌, ◌++◌, length,
  length-append, length-set, get_or, get_or-set_self, get_or-set_ne, get_or-append_left,
  get_or-append_here, set, All, All-append, append_assoc, append-nil, ℤ, pos, IsInt32, arith,
}
use zygisk_next_next.Kpm.Ring.{
  Kernel, Znn, ExecRecord, blank, ring_capacity, pidtype_pid, pidtype_tgid, task_nr, parent_nr,
  claim, fill, note_exec, at_offset,
}

-- One exec as the module saw it.
pub record Exec : Type 0 where
  pub pid : ℤ
  pub tgid : ℤ
  pub ppid : ℤ

abbrev pub no_exec : Exec
no_exec = record { pid = pos 0; tgid = pos 0; ppid = pos 0 }

abbrev pub IsExec : Exec → Type 0
IsExec e = IsInt32 e.pid × IsInt32 e.tgid × IsInt32 e.ppid

-- What `znn_note_exec` reads of the current task.
abbrev pub seen : Kernel → Znn → ℕ → Exec
seen k s task = record {
  pid = task_nr k s task pidtype_pid;
  tgid = task_nr k s task pidtype_tgid;
  ppid = parent_nr k s task;
}

-- The record of the exec that is number `seq` of the history, counted from 1.
abbrev pub record_of : ℕ → Exec → ExecRecord
record_of seq e = record { seq = seq; pid = e.pid; tgid = e.tgid; ppid = e.ppid; reserved = pos 0 }

-- `h` is the history of the ring: its length is the counter, and the newest 64 of it are stored,
-- the exec at index `i` in slot `i % 64` with its number `i + 1`.
pub record Tracks (h : List Exec) (s : Znn) : Type 0 where
  pub counted : s.ring_written ≡ length h
  pub small : length h < 2 ^ 64
  pub slots : length s.ring ≡ ring_capacity
  pub in_range : All IsExec h
  pub stored :
      (i : ℕ)
      → i < length h
      → length h ≤ i + 64
      → get_or s.ring (i % 64) blank ≡ record_of (suc i) (get_or h i no_exec)

-- `pid_t` is an `int32_t`.
abbrev pub PidIsInt32 : Kernel → Type 0
PidIsInt32 k = (task type : ℕ) → IsInt32 (k.pid_nr_ns task type)

task_nr-IsInt32 :
    (k : Kernel) (s : Znn) (task type : ℕ) → PidIsInt32 k → IsInt32 (task_nr k s task type)
unfolding task_nr
task_nr-IsInt32 k s task type h = ground (arith, h task type)

parent_nr-IsInt32 : (k : Kernel) (s : Znn) (task : ℕ) → PidIsInt32 k → IsInt32 (parent_nr k s task)
unfolding parent_nr
parent_nr-IsInt32 k s task h =
    ground
      (arith, task_nr-IsInt32 k s (k.load_ptr (at_offset task s.real_parent_offset)) pidtype_pid h)

seen-IsExec : (k : Kernel) (s : Znn) (task : ℕ) → PidIsInt32 k → IsExec (seen k s task)
seen-IsExec k s task h = (
  task_nr-IsInt32 k s task pidtype_pid h,
  task_nr-IsInt32 k s task pidtype_tgid h,
  parent_nr-IsInt32 k s task h,
)

abbrev slot_after : Kernel → ℕ → Znn → List Exec → List ExecRecord
slot_after k task s h = set s.ring (length h % 64) (record_of (suc (length h)) (seen k s task))

note_exec-ring :
    (k : Kernel) (task : ℕ) (h : List Exec) (s : Znn)
    → Tracks h s
    → length h + 1 < 2 ^ 64
    → note_exec k task s ≡ record s { ring_written = suc (length h); ring = slot_after k task s h }
unfolding note_exec claim fill task_nr parent_nr
note_exec-ring k task h s t small =
    ap₂
      (λ (x y : ℕ). record s {
        ring = set s.ring y (record_of x (seen k s task));
        ring_written = x;
      })
      (omega (arith, t.counted)) (omega (arith, t.counted))

apart : (i n : ℕ) → i < n → n + 1 ≤ i + 64 → n % 64 ≢ i % 64
apart i n lt near = omega arith

stored_after :
    (k : Kernel) (task : ℕ) (h : List Exec) (s : Znn) (e : Exec)
    → Tracks h s
    → (i : ℕ) → i < length h + 1
    → length h + 1 ≤ i + 64
    → get_or (set s.ring (length h % 64) (record_of (suc (length h)) e)) (i % 64) blank
      ≡ record_of (suc i) (get_or (h ++ e ∷ []) i no_exec)
stored_after k task h s e t i lt near = elim (ℕ_discrete i (length h)) [
  | yes same ↦
      rw (same, get_or-append_here h [] e no_exec)
        (get_or-set_self s.ring (length h % 64) _ blank (omega (arith, t.slots)))
  | no other ↦
      get_or-set_ne s.ring (length h % 64) (i % 64) _ blank (apart i (length h) (omega arith) near)
      ∙ t.stored i (omega arith) (omega arith)
      ∙ ap (record_of (suc i)) (sym (get_or-append_left h _ i no_exec (omega arith)))
]

-- `znn_note_exec` appends what it sees to the history, as long as the 64-bit counter does not wrap.
pub note_exec-Tracks :
    (k : Kernel) (task : ℕ) (h : List Exec) (s : Znn)
    → PidIsInt32 k
    → Tracks h s
    → length h + 1 < 2 ^ 64
    → Tracks (h ++ seen k s task ∷ []) (note_exec k task s)
note_exec-Tracks k task h s pids t small = rw (note_exec-ring k task h s t small) (record {
  counted = omega (arith, length-append h (seen k s task ∷ []));
  small = omega (arith, length-append h (seen k s task ∷ []));
  slots = length-set s.ring (length h % 64) _ ∙ t.slots;
  in_range = All-append IsExec h _ t.in_range (seen-IsExec k s task pids, tt);
  stored = λ i lt near.
      stored_after k task h s (seen k s task) t i
        (omega (arith, length-append h (seen k s task ∷ [])))
        (omega (arith, length-append h (seen k s task ∷ [])));
})

-- `znn_note_exec` for one task after the other.
unfoldable pub note_all : Kernel → List ℕ → Znn → Znn
note_all k [] s = s
note_all k (task ∷ tasks) s = note_all k tasks (note_exec k task s)

abbrev pub seen_all : Kernel → Znn → List ℕ → List Exec
seen_all k s [] = []
seen_all k s (task ∷ tasks) = seen k s task ∷ seen_all k s tasks

-- Noting an exec changes no variable that a later one reads of a task.
seen_all-note :
    (k : Kernel) (t : ℕ) (s : Znn) (tasks : List ℕ)
    → seen_all k (note_exec k t s) tasks ≡ seen_all k s tasks
unfolding note_exec claim fill task_nr parent_nr
seen_all-note k t s [] = refl
seen_all-note k t s (task ∷ tasks) =
    ap₂ (λ (e : Exec) (es : List Exec). e ∷ es) refl (seen_all-note k t s tasks)

-- After any number of execs, short of a wrap of the counter, the ring holds the newest 64 of all that
-- were seen, in the slots and under the numbers that the readers expect.
pub note_all-Tracks :
    (k : Kernel) (tasks : List ℕ) (h : List Exec) (s : Znn)
    → PidIsInt32 k
    → Tracks h s
    → length h + length tasks < 2 ^ 64
    → Tracks (h ++ seen_all k s tasks) (note_all k tasks s)
unfolding note_all
note_all-Tracks k [] h s pids t small = rw append-nil t
note_all-Tracks k (task ∷ tasks) h s pids t small =
    let first = note_exec-Tracks k task h s pids t (omega arith) in
    let rest =
      note_all-Tracks k tasks (h ++ seen k s task ∷ []) (note_exec k task s) pids first
        (omega (arith, length-append h (seen k s task ∷ []))) in
    rw (append_assoc, seen_all-note) at rest
