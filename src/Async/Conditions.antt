-- ===== src/Async/Conditions.antt =====
-- headers/sppc/async/sched.h: `_gt_cond_wait_until`. The calls of the C library answer as arguments say, and
-- so do the other tasks, from each switch until this task runs again.
pub mod Relocks
mod Examples
use sppc.Common.{
  ℕ, Bool, true, false, not, Option, none, some, List, map, ◌==◌, if◌then◌else◌, ◌>>=◌,
}
use sppc.Async.{Runtime}
use sppc.Async.Idle.{has_other_work, step}
use sppc.Async.Locks.{Locks, Attempt, unlock, lock_until}

-- What a wait meets: what the backend has finished by the first look for other work, what a real wait would
-- answer, and what the unlock does; what the other tasks do then; what the backend has finished by the second
-- look, and finishes in the step; what the other tasks do then; the tries for the mutex, and what the blocking
-- lock would answer; and whether there is a deadline and it has passed in the end.
pub record CondWait : Type 0 where
  pub first : List ℕ
  pub real : ℕ
  pub unlocked : ℕ
  pub meanwhile : Locks → Locks
  pub second : List ℕ
  pub waited : List ℕ
  pub others : Locks → Locks
  pub tries : List Attempt
  pub locked : ℕ
  pub expired : Bool

-- The step that lets the rest of the thread move, where there is something else to do.
unfoldable pub cond_moved : CondWait → Locks → Locks
unfolding has_other_work step
cond_moved c s =
    let (work, q) = has_other_work c.second s.runtime in
    if work then c.others (record s { runtime = step c.waited q }) else record s { runtime = q }

-- A try of a lock without a deadline.
abbrev pub untimed : Attempt → Attempt
untimed a = record a { passed = false }

module _ (ebusy etimedout : ℕ) where
  -- From the switch back on: the step, and the mutex taken again.
  unfoldable pub cond_relock : CondWait → ℕ → ℕ → Locks → Option (ℕ × Locks)
  unfolding lock_until cond_moved
  cond_relock c at mutex s =
      lock_until ebusy etimedout (map untimed c.tries) at mutex c.locked (cond_moved c s) >>= λ x.
      some ((if not (x.0 == 0) then x.0 else if c.expired then etimedout else 0), x.1)

  -- `_gt_cond_wait_until`: its result. The waiter for the mutex stands at the address `at`.
  unfoldable pub cond_wait_until : ℕ → CondWait → ℕ → ℕ → Locks → Option (ℕ × Locks)
  unfolding has_other_work unlock cond_relock
  cond_wait_until rounds c at mutex s =
      let (work, q) = has_other_work c.first s.runtime in
      let looked : Locks = record s { runtime = q } in
      if not work
      then some (c.real, looked)
      else unlock rounds c.unlocked mutex looked >>= λ x.
          if not (x.0 == 0) then some x else cond_relock c at mutex (c.meanwhile x.1)
