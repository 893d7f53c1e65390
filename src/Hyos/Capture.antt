-- ===== src/Hyos/Capture.antt =====
-- loader/src/hyos/hooks.cpp and loader/src/hyos/runtime.cpp: threads of a child that capture their name
-- and deliver it, in steps. The copy into `captured_name` writes a byte at a time; each test or change of
-- an atomic is a step.
use zygisk_next_next.Base.{
  ℕ, zero, suc, ◌≤◌, ◌<◌, ◌≡◌, ◌≢◌, refl, ap, ◌∙◌, Bool, true, false, [], ◌∷◌, ◌++◌, Bytes, length,
  take, drop, get_or, ◌==◌, if◌then◌else◌, Option, none, some, arith,
}
use zygisk_next_next.Hyos.State.{NameState, empty, writing, ready}

-- Where a thread stands: before its call, behind the `compare_exchange` of the name with the bytes that it
-- has copied, behind the one of `fired`, behind the test for kNameReady, or at the end.
pub data Phase : Type 0 where
  idle : Phase
  copying : ℕ → Phase
  delivering reading finished : Phase

-- `name_state`, `captured_name` and `fired`, and the process name that modules were told: none before
-- that, and then none for one that was not captured.
pub record System : Type 0 where
  pub name_state : NameState
  pub captured : Bytes
  pub fired : Bool
  pub phase : ℕ → Phase
  pub told : Option (Option Bytes)

abbrev pub update : (ℕ → Phase) → ℕ → Phase → ℕ → Phase
update phase i p j = if j == i then p else phase j

-- A child right behind `fork`.
abbrev pub start : System
start = record { name_state = empty; captured = []; fired = false; phase = λ i. idle; told = none }

take_whole : (k : ℕ) (s : Bytes) → k ≡ length s → take k s ≡ s
take_whole zero [] e = refl
take_whole zero (c ∷ s) e = absurd (omega (arith, e))
take_whole (suc k) [] e = refl
take_whole (suc k) (c ∷ s) e = ap (λ (r : Bytes). c ∷ r) (take_whole k s (omega (arith, e)))

-- The shared buffer with the byte `c` at index `k`; the bytes behind it stay.
abbrev pub write_at : (k c : ℕ) → Bytes → Bytes
write_at k c buffer = take k buffer ++ c ∷ drop (suc k) buffer

write_at-take :
    (k : ℕ) (s : Bytes) → k < length s → write_at k (get_or s k 0) (take k s) ≡ take (suc k) s
write_at-take k [] h = absurd (omega arith)
write_at-take zero (c ∷ s) h = refl
write_at-take (suc k) (c ∷ s) h = ap (λ (r : Bytes). c ∷ r) (write_at-take k s (omega arith))

-- `name i` is what thread `i` copies: its name, cut to what has room.
module _ (name : ℕ → Bytes) where
  pub data Step (s : System) : System → Type 0 where
    -- `setnameHook`
    claim :
        (i : ℕ)
        → s.phase i ≡ idle
        → s.name_state ≡ empty
        → Step s (record s { name_state = writing; phase = update s.phase i (copying 0) })
    lose :
        (i : ℕ)
        → s.phase i ≡ idle
        → s.name_state ≢ empty
        → Step s (record s { phase = update s.phase i finished })
    copy :
        (i k : ℕ)
        → s.phase i ≡ copying k
        → k < length (name i)
        → Step s (record s {
          captured = write_at k (get_or (name i) k 0) s.captured;
          phase = update s.phase i (copying (suc k));
        })
    publish :
        (i k : ℕ)
        → s.phase i ≡ copying k
        → k ≡ length (name i)
        → Step s (record s { name_state = ready; phase = update s.phase i finished })
    -- `deliverAppSpecialized`
    fire :
        (i : ℕ)
        → s.phase i ≡ idle
        → s.fired ≡ false
        → Step s (record s { fired = true; phase = update s.phase i delivering })
    see_ready :
        (i : ℕ)
        → s.phase i ≡ delivering
        → s.name_state ≡ ready
        → Step s (record s { phase = update s.phase i reading })
    see_none :
        (i : ℕ)
        → s.phase i ≡ delivering
        → s.name_state ≢ ready
        → Step s (record s { phase = update s.phase i finished; told = some none })
    tell :
        (i : ℕ)
        → s.phase i ≡ reading
        → Step s (record s { phase = update s.phase i finished; told = some (some s.captured) })

  pub data Reach (s : System) : System → Type 0 where
    here : Reach s s
    next : {t u : System} → Reach s t → Step t u → Reach s u

  pub record Inv (s : System) : Type 0 where
    pub copies :
        (i k : ℕ)
        → s.phase i ≡ copying k
        → (s.name_state ≡ writing) × (s.captured ≡ take k (name i)) × (k ≤ length (name i))
    pub alone : (i j k l : ℕ) → s.phase i ≡ copying k → s.phase j ≡ copying l → i ≡ j
    pub whole : s.name_state ≡ ready → (i : ℕ) × (s.captured ≡ name i)
    pub reads : (i : ℕ) → s.phase i ≡ reading → s.name_state ≡ ready
    pub fresh : s.name_state ≡ empty → s.captured ≡ []
    pub tells : (n : Bytes) → s.told ≡ some (some n) → (i : ℕ) × (n ≡ name i)

  Step-Inv : {s u : System} → Step s u → Inv s → Inv u
  Step-Inv {s} (claim i p e) v = record {
    copies = λ j k h. ground (arith, v.copies j k, v.fresh e);
    alone = λ j j' k l h h'. ground (arith, v.copies j k, v.copies j' l);
    whole = λ h. ground (arith, h);
    reads = λ j h. ground (arith, v.reads j);
    fresh = λ h. ground (arith, h);
    tells = λ n h. v.tells n h;
  }
  Step-Inv {s} (lose i p e) v = record {
    copies = λ j k h. ground (arith, v.copies j k);
    alone = λ j j' k l h h'. ground (arith, v.alone j j' k l);
    whole = λ h. v.whole h;
    reads = λ j h. ground (arith, v.reads j);
    fresh = λ h. v.fresh h;
    tells = λ n h. v.tells n h;
  }
  Step-Inv {s} (copy i k p e) v =
      let written : write_at k (get_or (name i) k 0) s.captured ≡ take (suc k) (name i) =
        ap (write_at k (get_or (name i) k 0)) (v.copies i k p).1 ∙ write_at-take k (name i) e in
      record {
        copies = λ j l h. rw written (ground (arith, v.copies i k, v.copies j l, v.alone i j k l));
        alone =
            λ j j' l l' h h'. ground (arith, v.alone j j' l l', v.alone i j k l, v.alone i j' k l');
        whole = λ h. ground (arith, h, v.copies i k);
        reads = λ j h. ground (arith, v.reads j, v.copies i k);
        fresh = λ h. ground (arith, h, v.copies i k);
        tells = λ n h. v.tells n h;
      }
  Step-Inv {s} (publish i k p e) v = record {
    copies = λ j l h. ground (arith, v.alone i j k l);
    alone = λ j j' l l' h h'. ground (arith, v.alone j j' l l');
    whole = λ h. (i, (v.copies i k p).1 ∙ take_whole k (name i) e);
    reads = λ j h. refl;
    fresh = λ h. ground (arith, h);
    tells = λ n h. v.tells n h;
  }
  Step-Inv {s} (fire i p e) v = record {
    copies = λ j k h. ground (arith, v.copies j k);
    alone = λ j j' k l h h'. ground (arith, v.alone j j' k l);
    whole = λ h. v.whole h;
    reads = λ j h. ground (arith, v.reads j);
    fresh = λ h. v.fresh h;
    tells = λ n h. v.tells n h;
  }
  Step-Inv {s} (see_ready i p e) v = record {
    copies = λ j k h. ground (arith, v.copies j k);
    alone = λ j j' k l h h'. ground (arith, v.alone j j' k l);
    whole = λ h. v.whole h;
    reads = λ j h. ground (arith, v.reads j, e);
    fresh = λ h. v.fresh h;
    tells = λ n h. v.tells n h;
  }
  Step-Inv {s} (see_none i p e) v = record {
    copies = λ j k h. ground (arith, v.copies j k);
    alone = λ j j' k l h h'. ground (arith, v.alone j j' k l);
    whole = λ h. v.whole h;
    reads = λ j h. ground (arith, v.reads j);
    fresh = λ h. v.fresh h;
    tells = λ n h. cc h;
  }
  Step-Inv {s} (tell i p) v = record {
    copies = λ j k h. ground (arith, v.copies j k);
    alone = λ j j' k l h h'. ground (arith, v.alone j j' k l);
    whole = λ h. v.whole h;
    reads = λ j h. ground (arith, v.reads j);
    fresh = λ h. v.fresh h;
    tells = λ n h.
        (let (j, e) = v.whole (v.reads i p) in let same : n ≡ s.captured = cc h in (j, same ∙ e));
  }

  Reach-Inv : {s u : System} → Inv s → Reach s u → Inv u
  Reach-Inv v here = v
  Reach-Inv v (next r st) = Step-Inv st (Reach-Inv v r)

  -- However the threads' steps interleave, a captured name that modules are told is the whole name of one
  -- thread, never a part of a name or a mixture of two.
  pub told-IsWhole :
      (s : System) (n : Bytes) → Reach start s → s.told ≡ some (some n) → (i : ℕ) × (n ≡ name i)
  told-IsWhole s n r h =
      let v =
        Reach-Inv
          (record {
            copies = λ i k h. cc h;
            alone = λ i j k l h h'. cc h;
            whole = λ h. cc h;
            reads = λ i h. cc h;
            fresh = λ h. refl;
            tells = λ n h. cc h;
          })
          r in
      v.tells n h
