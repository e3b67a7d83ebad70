-- ===== src/Async/Locks/Released.antt =====
-- Which task runs once a lock is released.
use sppc.Common.{
  ℕ, ◌<◌, ◌≡◌, refl, ap, sym, subst, Bool, true, false, not, ◌&&◌, ◌||◌, Option, none, some, List,
  [], ◌∷◌, ◌++◌, ◌==◌, arith, if◌then◌else◌, Bool-cases, inl, inr, ◌>>=◌, length,
}
use sppc.Async.{Runtime}
use sppc.Async.Chain.{has}
use sppc.Async.Queue.{rq_push}
use sppc.Async.Queue.Order.{IsQueue, rq_push-IsQueue}
use sppc.Async.Queue.Remove.{erase, rq_remove-erase, rq_remove-frame, has-erase}
use sppc.Async.Tasks.{switch_to}
use sppc.Async.Tasks.Rotation.{switch_to-IsQueue, switch_to-current}
use sppc.Async.Locks.{Waiter, Locks, lock_wait_add, is_ready, released_loop, lock_released, unlock}

module _ (lock : ℕ) (xs : List ℕ) (r : Runtime) where
  -- A waiter for the lock whose task is on the run queue.
  abbrev pub is_taker : Waiter → Bool
  is_taker w = (w.lock == lock) && is_ready (r.task w.task).state && has w.task xs

  -- The first in the list of those that wait for the lock and are on the run queue.
  abbrev pub first_waiter : List Waiter → Option ℕ
  first_waiter [] = none
  first_waiter (w ∷ ws) = if is_taker w then some w.task else first_waiter ws

  -- The list is in the order of arrival: whoever is queued next is behind all that wait already.
  abbrev pub behind : Option ℕ → Waiter → Option ℕ
  behind (some t) w = some t
  behind none w = first_waiter (w ∷ [])

  abbrev pub KeepsOrder : List Waiter → Type 0
  KeepsOrder ws = (w : Waiter) → first_waiter (lock_wait_add w ws) ≡ behind (first_waiter ws) w

  lock_wait_add-KeepsOrder : (ws : List Waiter) → KeepsOrder ws
  unfolding lock_wait_add
  lock_wait_add-KeepsOrder [] w = refl
  lock_wait_add-KeepsOrder (x ∷ ws) w = elim (Bool-cases (is_taker x)) [
    | inl first ↦ rw first refl
    | inr other ↦ rw other (lock_wait_add-KeepsOrder ws w)
  ]

  -- What a release leaves: the runtime as it was, or that task running and the releaser behind the queue.
  abbrev pub Handed : Option ℕ → Runtime → Type 0
  Handed none q = q ≡ r
  Handed (some t) q = (q.current ≡ t) × IsQueue q (erase t xs ++ r.current ∷ [])

  abbrev Released : Option ℕ → Option Runtime → Type 0
  Released t o = (q : Runtime) × (o ≡ some q) × Handed t q

  released_loop-Released :
      (rounds : ℕ) (ws : List Waiter)
      → length xs < rounds
      → IsQueue r xs
      → has r.current xs ≡ false
      → Released (first_waiter ws) (released_loop rounds lock ws r)
  unfolding released_loop
  released_loop-Released rounds [] h q out = (r, refl, refl)
  released_loop-Released rounds (w ∷ ws) h q out =
      let rest = released_loop-Released rounds ws h q out in
      elim (Bool-cases (not (w.lock == lock) || not (is_ready (r.task w.task).state))) [
        | inl skipped ↦
            let no_taker : is_taker w ≡ false = ground (arith, skipped) in
            rw (skipped, no_taker) rest
        | inr tried ↦
            let (r', found, queue) = rq_remove-erase rounds w.task r xs h q in
            let frame = rq_remove-frame rounds w.task r (has w.task xs) r' found in
            let taker : is_taker w ≡ has w.task xs = ground (arith, tried) in
            rw (tried, taker, found) (by_found r' (has w.task xs) refl frame queue rest)
      ]
    where
      by_found :
          (r' : Runtime) (b : Bool)
          → has w.task xs ≡ b
          → (b ≡ false → r' ≡ r) × (r'.current ≡ r.current)
          → IsQueue r' (erase w.task xs)
          → Released (first_waiter ws) (released_loop rounds lock ws r)
          → Released (if b then some w.task else first_waiter ws) (
              if b
              then some (switch_to w.task (rq_push r'.current r'))
              else released_loop rounds lock ws r')
      by_found r' true e frame queue rest =
          let pushed =
            rq_push-IsQueue r'.current r' (erase w.task xs) queue
              (has-erase r'.current w.task xs (rw frame.1 out)) in
          (
            switch_to w.task (rq_push r'.current r'),
            refl,
            (
              switch_to-current w.task (rq_push r'.current r'),
              subst
                  (λ c.
                    IsQueue (switch_to w.task (rq_push r'.current r')) (erase w.task xs ++ c ∷ []))
                  frame.1 (switch_to-IsQueue w.task (rq_push r'.current r') _ pushed),
            ),
          )
      by_found r' false e frame queue rest =
          subst (λ s. Released (first_waiter ws) (released_loop rounds lock ws s))
            (sym (frame.0 refl)) rest

-- An unlock that succeeds hands the thread to the first waiter for the lock in the list among the tasks ready on the run
-- queue `xs`, with the releaser behind the rest of the queue; with none such it changes nothing. The list is in the order
-- of arrival: a waiter that is queued next does not come before any that would be handed the thread. More rounds than
-- the queue has members are enough, and the releaser is not on the queue.
pub unlock-hands :
    (rounds lock : ℕ) (s : Locks) (xs : List ℕ)
    → length xs < rounds
    → IsQueue s.runtime xs
    → has s.runtime.current xs ≡ false
    → (q : Runtime) × (unlock rounds 0 lock s ≡ some (0, record s { runtime = q }))
      × Handed lock xs s.runtime (first_waiter lock xs s.runtime s.lock_waiters) q
      × KeepsOrder lock xs s.runtime s.lock_waiters
unfolding unlock lock_released
unlock-hands rounds lock s xs h queue out =
    let (q, e, handed) =
      released_loop-Released lock xs s.runtime rounds s.lock_waiters h queue out in
    let given : lock_released rounds lock s ≡ some (record s { runtime = q }) =
      ap (λ o. o >>= λ r. some (record s { runtime = r })) e in
    (
      q,
      ap (λ (o : Option Locks). o >>= λ t. some (0, t)) given,
      handed,
      lock_wait_add-KeepsOrder lock xs s.runtime s.lock_waiters,
    )
