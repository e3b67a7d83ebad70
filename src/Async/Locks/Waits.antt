-- ===== src/Async/Locks/Waits.antt =====
-- What a wait for a lock leaves behind.
use sppc.Common.{
  ℕ, suc, ◌≡◌, ◌≢◌, Bool, true, Option, some, List, [], ◌∷◌, ◌==◌, if◌then◌else◌, ◌⊎◌,
}
use sppc.Async.Locks.{Waiter, Locks, Attempt}

-- How many waiters stand at an address.
abbrev pub count : ℕ → List Waiter → ℕ
count at [] = 0
count at (x ∷ xs) = if x.address == at then suc (count at xs) else count at xs

module _ (ebusy etimedout : ℕ) (at lock last : ℕ) where
  -- The other tasks never queue or take off the waiter of this one: it stands on this task's stack.
  abbrev pub Spares : Attempt → Type 0
  Spares a = (s : Locks) → count at (a.others s).lock_waiters ≡ count at s.lock_waiters

  -- A round in which the try does not find the lock held.
  abbrev pub Gets : Attempt → Type 0
  Gets a = a.try ≢ ebusy

  -- Where a wait's result comes from: the first try that does not find the lock held; or, behind tries that do, the
  -- blocking or the timed call, or a deadline that has passed.
  abbrev pub IsResult : List Attempt → ℕ → Type 0
  IsResult [] err = ⊥
  IsResult (b ∷ bs) err =
      ((b.try ≢ ebusy) × (err ≡ b.try))
      ⊎ ((b.try ≡ ebusy)
          × ((err ≡ last) ⊎ ((b.passed ≡ true) × (err ≡ etimedout)) ⊎ IsResult bs err))

  abbrev Waited : List Attempt → Option (ℕ × Bool × Locks) → Type 0
  Waited bs o =
      (err : ℕ) × (queued : Bool) × (t : Locks) × (o ≡ some (err, queued, t))
      × IsResult bs err
      × (count at t.lock_waiters ≡ (if queued then 1 else 0))
