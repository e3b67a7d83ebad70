-- ===== src/Windows/Mutex/Steps/Exclusion.antt =====
-- headers/sppc/platform/windows.h: the threads that are inside a mutex.
use sppc.Common.{
  ℕ, ◌≡◌, ◌≢◌, refl, sym, ◌∙◌, true, false, arith, ◌==◌, if◌then◌else◌, Bool-cases, inl, inr,
}
use sppc.Windows.Mutex.{Mutex, acquired, compare_exchange, exchange}
use sppc.Windows.Mutex.Steps.{Place, World, Step, Steps, move, is_inside}

-- At most one thread has the lock, and none while the word is 0.
pub record IsExclusive (w : World) : Type 0 where
  pub one : (i j : ℕ) → is_inside (w.at i) ≡ true → is_inside (w.at j) ≡ true → i ≡ j
  pub none : w.mutex.state ≡ 0 → (i : ℕ) → is_inside (w.at i) ≡ false

module _ (w v : World) (e : IsExclusive w) where
  -- A step by which no thread enters or leaves.
  keeps :
      ((j : ℕ) → is_inside (v.at j) ≡ is_inside (w.at j))
      → (v.mutex.state ≡ 0 → w.mutex.state ≡ 0)
      → IsExclusive v
  keeps same zero_lem = record {
    one = λ i j h k. e.one i j (sym (same i) ∙ h) (sym (same j) ∙ k);
    none = λ z i. same i ∙ e.none (zero_lem z) i;
  }

  -- The thread `i` enters: the word was 0 and is no more.
  enters :
      (i : ℕ)
      → w.mutex.state ≡ 0
      → v.mutex.state ≢ 0
      → ((j : ℕ) → (j == i) ≡ false → is_inside (v.at j) ≡ is_inside (w.at j))
      → IsExclusive v
  enters i z nz same = record {
    one = λ j k h l. elim (Bool-cases (j == i)) [
      | inl p ↦ elim (Bool-cases (k == i)) [
        | inl q ↦ ground arith
        | inr q ↦ absurd (ground (arith, same k q, e.none z k))
      ]
      | inr p ↦ absurd (ground (arith, same j p, e.none z j))
    ];
    none = λ z' j. absurd (nz z');
  }

  -- The thread `i` leaves.
  leaves :
      (i : ℕ)
      → is_inside (w.at i) ≡ true
      → is_inside (v.at i) ≡ false
      → ((j : ℕ) → (j == i) ≡ false → is_inside (v.at j) ≡ is_inside (w.at j))
      → IsExclusive v
  leaves i was now same =
      let gone : (j : ℕ) → is_inside (v.at j) ≡ false = λ j. elim (Bool-cases (j == i)) [
        | inl p ↦ ground arith
        | inr p ↦ elim (Bool-cases (is_inside (w.at j))) [
          | inl q ↦ absurd (ground (arith, e.one j i q was))
          | inr q ↦ same j p ∙ q
        ]
      ] in
      record { one = λ j k h l. absurd (ground (arith, gone j)); none = λ z j. gone j }

-- A compare-exchange: the lock is taken, or the thread goes on at `p`.
tries :
    (i : ℕ) (p : Place) (w : World)
    → is_inside (w.at i) ≡ false
    → is_inside p ≡ false
    → IsExclusive w
    → IsExclusive (
        move i
          (if (compare_exchange w.mutex).0 then p else Place.taking)
          (compare_exchange w.mutex).1
          w)
unfolding compare_exchange
tries i p w h o e =
    let v =
      move i (if (compare_exchange w.mutex).0 then p else Place.taking) (compare_exchange w.mutex).1
        w in
    elim (Bool-cases (w.mutex.state == 0)) [
      | inl z ↦ enters w v e i (ground arith) (λ n. ground arith) (λ j q. ground arith)
      | inr z ↦ keeps w v e (λ j. ground arith) (λ n. ground arith)
    ]

Step-IsExclusive : (w v : World) → Step w v → IsExclusive w → IsExclusive v
unfolding compare_exchange exchange acquired
Step-IsExclusive _ _ (Step.arrive i w h) e =
    keeps w (move i Place.arriving w.mutex w) e (λ j. ground arith) (λ z. z)
Step-IsExclusive _ _ (Step.try i w h) e = tries i Place.contending w (ground arith) refl e
Step-IsExclusive _ _ (Step.try_once i w h) e = tries i Place.outside w (ground arith) refl e
Step-IsExclusive _ _ (Step.mark i w h) e =
    let v =
      move i (if (exchange 2 w.mutex).0 == 0 then Place.taking else Place.waiting)
        (exchange 2 w.mutex).1 w in
    elim (Bool-cases (w.mutex.state == 0)) [
      | inl z ↦ enters w v e i (ground arith) (λ n. ground arith) (λ j q. ground arith)
      | inr z ↦ keeps w v e (λ j. ground arith) (λ n. ground arith)
    ]
Step-IsExclusive _ _ (Step.sleep i w h) e =
    keeps w (move i (if w.mutex.state == 2 then Place.asleep else Place.contending) w.mutex w) e
      (λ j. ground arith) (λ z. z)
Step-IsExclusive _ _ (Step.wake i w h) e =
    keeps w (move i Place.contending w.mutex w) e (λ j. ground arith) (λ z. z)
Step-IsExclusive _ _ (Step.refuse i w h) e =
    keeps w (move i Place.outside w.mutex w) e (λ j. ground arith) (λ z. z)
Step-IsExclusive _ _ (Step.take i w h) e =
    keeps w (move i Place.holding (acquired i w.mutex) w) e (λ j. ground arith) (λ z. z)
Step-IsExclusive _ _ (Step.leave i w h) e =
    keeps w (move i Place.leaving (record w.mutex { owner = 0 }) w) e (λ j. ground arith) (λ z. z)
Step-IsExclusive _ _ (Step.free i w h) e =
    leaves w
      (move i (if (exchange 0 w.mutex).0 == 2 then Place.waking else Place.outside)
        (exchange 0 w.mutex).1 w)
      e i (ground arith) (ground arith) (λ j p. ground arith)
Step-IsExclusive _ _ (Step.wake_none i w h n) e =
    keeps w (move i Place.outside w.mutex w) e (λ j. ground arith) (λ z. z)
Step-IsExclusive _ _ (Step.wake_one i j w h a) e =
    keeps w (move j Place.contending w.mutex (move i Place.outside w.mutex w)) e (λ k. ground arith)
      (λ z. z)

-- Before any call: a fresh mutex, and every thread outside.
abbrev pub start : Mutex → World
start m = record { mutex = m; at = λ i. Place.outside }

start-IsExclusive : (m : Mutex) → IsExclusive (start m)
start-IsExclusive m = record { one = λ i j h k. cc; none = λ z i. refl }

Steps-IsExclusive : (w v : World) → Steps w v → IsExclusive w → IsExclusive v
Steps-IsExclusive _ _ (Steps.stop w) e = e
Steps-IsExclusive _ _ (Steps.next u v w s ss) e =
    Steps-IsExclusive v w ss (Step-IsExclusive u v s e)

-- A normal mutex that only the thread that holds it unlocks: whatever the threads' locks, trylocks, timeouts and
-- unlocks do, in any order of their atomic steps from a mutex that no thread uses, two threads inside are one,
-- and with the word at 0 none is.
pub mutual-exclusion :
    (m : Mutex) (w : World)
    → Steps (start m) w
    → ((i j : ℕ) → is_inside (w.at i) ≡ true → is_inside (w.at j) ≡ true → i ≡ j)
      × (w.mutex.state ≡ 0 → (i : ℕ) → is_inside (w.at i) ≡ false)
mutual-exclusion m w s =
    let e = Steps-IsExclusive (start m) w s (start-IsExclusive m) in (e.one, e.none)
