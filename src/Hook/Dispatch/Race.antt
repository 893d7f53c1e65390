-- ===== src/Hook/Dispatch/Race.antt =====
-- loader/src/api/hook.cpp: calls of `inlineHook` by several threads, with the claim and the outcome
-- as separate steps, as the two locked blocks are.
use zygisk_next_next.Base.{ℕ, ◌≡◌, Bool, true, false, List, [], ◌∷◌, ◌==◌, if◌then◌else◌, arith}
use zygisk_next_next.Hook.Dispatch.{contains, erase}
use zygisk_next_next.Hook.Dispatch.Claims.{contains-erase}

-- Where a thread's call stands: before its claim, between the claim and the library's answer, or
-- returned with ZN_SUCCESS or ZN_FAILED.
pub data Phase : Type 0 where
  calling claimed owner refused : Phase

pub record System : Type 0 where
  pub hooked : List ℕ
  pub phase : ℕ → Phase

abbrev pub update : (ℕ → Phase) → ℕ → Phase → ℕ → Phase
update phase i p j = if j == i then p else phase j

-- `target i` is the address that thread `i` hooks.
module _ (target : ℕ → ℕ) where
  -- One locked block of one thread. The library's answer is open.
  pub data Step (s : System) : System → Type 0 where
    take :
        (i : ℕ)
        → s.phase i ≡ calling
        → contains (target i) s.hooked ≡ false
        → Step s (record { hooked = target i ∷ s.hooked; phase = update s.phase i claimed })
    lose :
        (i : ℕ)
        → s.phase i ≡ calling
        → contains (target i) s.hooked ≡ true
        → Step s (record s { phase = update s.phase i refused })
    succeed : (i : ℕ) → s.phase i ≡ claimed → Step s (record s { phase = update s.phase i owner })
    give_back :
        (i : ℕ)
        → s.phase i ≡ claimed
        → Step s (record { hooked = erase (target i) s.hooked; phase = update s.phase i refused })

  pub data Reach (s : System) : System → Type 0 where
    here : Reach s s
    next : {t u : System} → Reach s t → Step t u → Reach s u

  -- The call holds its address.
  abbrev pub holds : Phase → Bool
  holds claimed = true
  holds owner = true
  holds _ = false

  pub record Inv (s : System) : Type 0 where
    pub listed : (i : ℕ) → holds (s.phase i) ≡ true → contains (target i) s.hooked ≡ true
    pub alone :
        (i j : ℕ)
        → holds (s.phase i) ≡ true
        → holds (s.phase j) ≡ true
        → target i ≡ target j
        → i ≡ j

  Step-Inv : {s u : System} → Step s u → Inv s → Inv u
  unfolding contains
  Step-Inv {s} (take i p free) v = record {
    listed = λ j h. ground (arith, v.listed j);
    alone = λ j k hj hk same. ground (arith, v.alone j k, v.listed j, v.listed k);
  }
  Step-Inv {s} (lose i p taken) v = record {
    listed = λ j h. ground (arith, v.listed j);
    alone = λ j k hj hk same. ground (arith, v.alone j k);
  }
  Step-Inv {s} (succeed i p) v = record {
    listed = λ j h. ground (arith, v.listed j);
    alone = λ j k hj hk same. ground (arith, v.alone j k);
  }
  Step-Inv {s} (give_back i p) v = record {
    listed = λ j h.
        ground (arith, v.listed j, v.alone i j, contains-erase (target j) (target i) s.hooked);
    alone = λ j k hj hk same. ground (arith, v.alone j k);
  }

  Reach-Inv : {s u : System} → Inv s → Reach s u → Inv u
  Reach-Inv v here = v
  Reach-Inv v (next r st) = Step-Inv st (Reach-Inv v r)

  abbrev pub start : System
  start = record { hooked = []; phase = λ i. calling }

  -- However the steps of threads that call `inlineHook` interleave, no two threads are told that they own the same address.
  pub one_owner :
      (s : System) (i j : ℕ)
      → Reach start s
      → s.phase i ≡ owner
      → s.phase j ≡ owner
      → target i ≡ target j
      → i ≡ j
  one_owner s i j r oi oj same =
      let v = Reach-Inv (record { listed = λ i h. cc; alone = λ i j h k e. cc }) r in
      v.alone i j (rw oi) (rw oj) same
