-- ===== src/Async/Conditions/Relocks.antt =====
-- What a condition wait of a task leaves: the mutex, and the list of waiters.
use sppc.Common.{
  ℕ, ◌≡◌, ◌≢◌, ◌⊎◌, Bool, true, false, not, Option, some, List, ◌∷◌, ◌++◌, map, ◌==◌, if◌then◌else◌,
  All,
}
use sppc.Async.{Runtime}
use sppc.Async.Idle.{has_other_work}
use sppc.Async.Locks.{Locks, Attempt, lock_until}
use sppc.Async.Locks.Released.{first_waiter, Handed, KeepsOrder}
use sppc.Async.Locks.Waits.{count, Spares, Gets}
use sppc.Async.Conditions.{CondWait, cond_moved, untimed, cond_relock}

module _ (ebusy etimedout at mutex last : ℕ) where
  -- The other tasks leave the waiter at this address alone.
  abbrev pub Alone : (Locks → Locks) → Type 0
  Alone f = (s : Locks) → count at (f s).lock_waiters ≡ count at s.lock_waiters

module _ (ebusy etimedout at mutex : ℕ) (c : CondWait) where
  -- The other tasks, and a try that gets the mutex.
  abbrev pub Fair : List Attempt → Attempt → List Attempt → Type 0
  Fair before a after =
      (c.tries ≡ before ++ a ∷ after)
      × All (Spares ebusy etimedout at mutex c.locked) (before ++ a ∷ after)
      × Gets ebusy etimedout at mutex c.locked a
      × Alone ebusy etimedout at mutex c.locked c.meanwhile
      × Alone ebusy etimedout at mutex c.locked c.others

  -- The mutex's lock behind the wait answers, and the wait answers what that does, or what the deadline has come to.
  abbrev pub Relocked : Locks → Option (ℕ × Locks) → Type 0
  Relocked s o =
      (err lerr : ℕ) × (t : Locks) × (o ≡ some (err, t))
      × (lock_until ebusy etimedout (map untimed c.tries) at mutex c.locked s ≡ some (lerr, t))
      × (lerr ≢ 0 → err ≡ lerr)
      × (lerr ≡ 0 → err ≡ (if c.expired then etimedout else 0))
      × (count at t.lock_waiters ≡ 0)

  -- The first look for other work.
  abbrev looked : Locks → Locks
  looked s = record s { runtime = (has_other_work c.first s.runtime).1 }

  -- A real wait; or an unlock that is refused; or the mutex handed on and taken again.
  abbrev pub Outcome : List ℕ → Locks → Bool → Option (ℕ × Locks) → Type 0
  Outcome xs l false o = o ≡ some (c.real, l)
  Outcome xs l true o =
      ((c.unlocked ≢ 0) × (o ≡ some (c.unlocked, l)))
      ⊎ ((c.unlocked ≡ 0)
          × (q : Runtime) × Handed mutex xs l.runtime
              (first_waiter mutex xs l.runtime l.lock_waiters) q
          × KeepsOrder mutex xs l.runtime l.lock_waiters
          × Relocked (cond_moved c (c.meanwhile (record l { runtime = q }))) o)

  abbrev behind_unlock : ℕ × Locks → Option (ℕ × Locks)
  behind_unlock x =
      if not (x.0 == 0) then some x else cond_relock ebusy etimedout c at mutex (c.meanwhile x.1)
