-- ===== src/Async/Locks.antt =====
-- headers/sppc/async/sched.h: a thread lock taken and released from a task. The lock itself is the
-- C library's: what its calls answer is an argument, as is what the other tasks do once the thread
-- has moved on. `lock_waiters` is the list it is linked as, a waiter being named by its address.
pub mod Examples
pub mod Released
pub mod Waits
use sppc.Common.{
  ℕ, zero, suc, Bool, true, false, not, ◌||◌, ◌&&◌, Option, none, some, List, [], ◌∷◌, ◌==◌,
  if◌then◌else◌, ◌>>=◌,
}
use sppc.Async.{State, Runtime}
use sppc.Async.Queue.{rq_push, rq_remove}
use sppc.Async.Tasks.{switch_to}
use sppc.Async.Idle.{has_other_work, step}

-- `gt_lock_waiter`.
pub record Waiter : Type 0 where
  pub address : ℕ
  pub lock : ℕ
  pub task : ℕ

pub record Locks : Type 0 where
  pub runtime : Runtime
  pub lock_waiters : List Waiter

-- `_gt_lock_wait_add`.
unfoldable pub lock_wait_add : Waiter → List Waiter → List Waiter
lock_wait_add w [] = w ∷ []
lock_wait_add w (x ∷ xs) = x ∷ lock_wait_add w xs

-- `_gt_lock_wait_remove`.
unfoldable pub lock_wait_remove : ℕ → List Waiter → List Waiter
lock_wait_remove at [] = []
lock_wait_remove at (x ∷ xs) =
    let rest = lock_wait_remove at xs in if x.address == at then xs else x ∷ rest

abbrev pub is_ready : State → Bool
is_ready State.ready = true
is_ready _ = false

-- The loop of `_gt_lock_released`, up to the switch; `none` where the rounds of a removal run out.
unfoldable pub released_loop : ℕ → ℕ → List Waiter → Runtime → Option Runtime
unfolding rq_remove rq_push switch_to
released_loop rounds lock [] r = some r
released_loop rounds lock (w ∷ ws) r =
    let found = rq_remove rounds w.task r >>= λ x.
    if x.0
    then some (switch_to w.task (rq_push x.1.current x.1))
    else released_loop rounds lock ws x.1 in
    let rest = released_loop rounds lock ws r in
    if not (w.lock == lock) || not (is_ready (r.task w.task).state) then rest else found

-- `_gt_lock_released`, on a runtime that has started.
unfoldable pub lock_released : ℕ → ℕ → Locks → Option Locks
unfolding released_loop
lock_released rounds lock s =
    released_loop rounds lock s.lock_waiters s.runtime >>= λ r. some (record s { runtime = r })

-- `_gt_mutex_unlock`, and likewise `_gt_rwlock_unlock` and `_gt_spin_unlock`; `err` is what the unlock
-- of the C library answers.
unfoldable pub unlock : ℕ → ℕ → ℕ → Locks → Option (ℕ × Locks)
unfolding lock_released
unlock rounds err lock s =
    let after = lock_released rounds lock s >>= λ t. some (err, t) in
    if err == 0 then after else some (err, s)

-- A round of `_gt_lock_until`: what the try answers, what the backend has finished by the look for
-- other work, whether the deadline has passed, what the backend finishes in the step, and what the
-- other tasks do until this one runs again.
pub record Attempt : Type 0 where
  pub try : ℕ
  pub done : List ℕ
  pub passed : Bool
  pub waited : List ℕ
  pub others : Locks → Locks

module _ (ebusy etimedout : ℕ) where
  -- The loop of `_gt_lock_until`: the result, and whether the waiter was queued. `last` is what the
  -- blocking or the timed lock answers.
  unfoldable pub lock_loop : List Attempt → ℕ → ℕ → ℕ → Bool → Locks → Option (ℕ × Bool × Locks)
  unfolding has_other_work step lock_wait_add
  lock_loop [] at lock last queued s = none
  lock_loop (a ∷ more) at lock last queued s =
      let (work, q) = has_other_work a.done s.runtime in
      let looked : Locks = record s { runtime = q } in
      let waiter : Waiter = record { address = at; lock = lock; task = q.current } in
      let waiters = if queued then s.lock_waiters else lock_wait_add waiter s.lock_waiters in
      let rest =
        lock_loop more at lock last true
          (a.others (record { runtime = step a.waited q; lock_waiters = waiters })) in
      if not (a.try == ebusy)
      then some (a.try, queued, s)
      else if not work
      then some (last, queued, looked)
      else if a.passed
      then some (etimedout, queued, looked)
      else rest

  -- `_gt_lock_until`, its waiter at the address `at`.
  unfoldable pub lock_until : List Attempt → ℕ → ℕ → ℕ → Locks → Option (ℕ × Locks)
  unfolding lock_loop lock_wait_remove
  lock_until attempts at lock last s = lock_loop attempts at lock last false s >>= λ x. some (
    x.0,
    (if x.1 then record x.2 { lock_waiters = lock_wait_remove at (x.2).lock_waiters } else x.2),
  )
