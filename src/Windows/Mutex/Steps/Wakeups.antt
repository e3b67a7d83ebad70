-- ===== src/Windows/Mutex/Steps/Wakeups.antt =====
-- headers/sppc/platform/windows.h: the threads that sleep on a mutex, and the mark 2.
use sppc.Common.{
  ℕ, ◌≡◌, refl, Bool, true, false, arith, ◌==◌, if◌then◌else◌, Bool-cases, inl, inr, ◌⊎◌,
}
use sppc.Windows.Mutex.{Mutex, acquired, compare_exchange, exchange}
use sppc.Windows.Mutex.Steps.{Place, World, Step, Steps, move}
use sppc.Windows.Mutex.Steps.Exclusion.{start}

-- A thread that is about to mark the mutex, or to wake a sleeper.
abbrev pub is_on_way : Place → Bool
is_on_way Place.contending = true
is_on_way Place.waking = true
is_on_way _ = false

-- While a thread sleeps, the word is 2, or some thread is about to set it to 2 or to wake a sleeper.
abbrev pub IsAwake : World → Type 0
IsAwake w =
    (i : ℕ) → w.at i ≡ Place.asleep → (w.mutex.state ≡ 2) ⊎ ((j : ℕ) × (is_on_way (w.at j) ≡ true))

-- A step that puts no thread to sleep, keeps the threads on their way, and keeps a 2.
stays :
    (w v : World)
    → ((i : ℕ) → v.at i ≡ Place.asleep → w.at i ≡ Place.asleep)
    → (w.mutex.state ≡ 2 → v.mutex.state ≡ 2)
    → ((j : ℕ) → is_on_way (w.at j) ≡ true → is_on_way (v.at j) ≡ true)
    → IsAwake w
    → IsAwake v
stays w v a m c e i h = elim (e i (a i h)) [ inl two ↦ inl (m two) | inr (j, k) ↦ inr (j, c j k) ]

Step-IsAwake : (w v : World) → Step w v → IsAwake w → IsAwake v
unfolding compare_exchange exchange acquired
Step-IsAwake _ _ (Step.arrive i w h) e =
    stays w (move i Place.arriving w.mutex w) (λ j. ground arith) (λ z. z) (λ j. ground arith) e
Step-IsAwake _ _ (Step.try i w h) e =
    stays w
      (move i (if (compare_exchange w.mutex).0 then Place.contending else Place.taking)
        (compare_exchange w.mutex).1 w)
      (λ j. ground arith) (λ z. ground arith) (λ j. ground arith) e
Step-IsAwake _ _ (Step.try_once i w h) e =
    stays w
      (move i (if (compare_exchange w.mutex).0 then Place.outside else Place.taking)
        (compare_exchange w.mutex).1 w)
      (λ j. ground arith) (λ z. ground arith) (λ j. ground arith) e
Step-IsAwake _ _ (Step.mark i w h) e = λ j k. inl refl
Step-IsAwake _ _ (Step.sleep i w h) e = λ j k. elim (Bool-cases (w.mutex.state == 2)) [
  | inl two ↦ inl (ground arith)
  | inr other ↦ inr (i, ground arith)
]
Step-IsAwake _ _ (Step.wake i w h) e = λ j k. inr (i, ground arith)
Step-IsAwake _ _ (Step.refuse i w h) e =
    stays w (move i Place.outside w.mutex w) (λ j. ground arith) (λ z. z) (λ j. ground arith) e
Step-IsAwake _ _ (Step.take i w h) e =
    stays w (move i Place.holding (acquired i w.mutex) w) (λ j. ground arith) (λ z. z)
      (λ j. ground arith) e
Step-IsAwake _ _ (Step.leave i w h) e =
    stays w (move i Place.leaving (record w.mutex { owner = 0 }) w) (λ j. ground arith) (λ z. z)
      (λ j. ground arith) e
Step-IsAwake _ _ (Step.free i w h) e = elim (Bool-cases (w.mutex.state == 2)) [
  | inl two ↦ λ j k. inr (i, ground (arith, two))
  | inr other ↦
      stays w
        (move i (if (exchange 0 w.mutex).0 == 2 then Place.waking else Place.outside)
          (exchange 0 w.mutex).1 w)
        (λ j. ground (arith, other)) (λ z. absurd (ground (arith, other, z))) (λ j. ground arith) e
]
Step-IsAwake _ _ (Step.wake_none i w h n) e = λ j k. absurd (n j (ground arith))
Step-IsAwake _ _ (Step.wake_one i j w h a) e = λ k l. inr (j, ground arith)

Steps-IsAwake : (w v : World) → Steps w v → IsAwake w → IsAwake v
Steps-IsAwake _ _ (Steps.stop w) e = e
Steps-IsAwake _ _ (Steps.next u v w s ss) e = Steps-IsAwake v w ss (Step-IsAwake u v s e)

-- A normal mutex that only the thread that holds it unlocks: in every order of the threads' atomic steps from a mutex
-- that no thread uses, while a thread sleeps, the mutex is marked 2, so that its unlock wakes a sleeper, or some
-- thread is awake that sets the mark before it sleeps, or one is about to wake a sleeper.
pub no-lost_wakeup : (m : Mutex) (w : World) → Steps (start m) w → IsAwake w
no-lost_wakeup m w s = Steps-IsAwake (start m) w s (λ i h. cc)
