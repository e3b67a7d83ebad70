-- ===== src/Darwin/Locks/Examples.antt =====
-- A lock that is held until its deadline, 100 microseconds off, and a wait and a sleep.
use sppc.Common.{ℕ, ◌+◌, ◌≤◌, ◌≡◌, refl, true, some, List, [], ◌∷◌, map, arith}
use sppc.Time.{Timespec, Clock}
use sppc.Posix.Once.{backoff_min_ns, next_pause}
use sppc.Time.Passing.{ns}
use sppc.Darwin.Locks.{
  Err, Left, time_left, nap_for, timed_lock, rwlock_try, Wait, cond_clockwait,
  clock_nanosleep_errno,
}
use sppc.Darwin.Locks.Ends.{round, Lasts, Ended, timed_lock-Ended}

abbrev at : ℕ → Timespec
at nsec = record { sec = 1; nsec = nsec }

abbrev later : List (Err × Timespec)
later = (Err.ebusy, at 60000) ∷ (Err.ebusy, at 100000) ∷ []

left_first : time_left (some (at 0)) (at 100000) ≡ Left.left (record { sec = 0; nsec = 100000 })
unfolding time_left
left_first = refl

left_next : time_left (some (at 60000)) (at 100000) ≡ Left.left (record { sec = 0; nsec = 40000 })
unfolding time_left
left_next = refl

naps :
    timed_lock (map round ((Err.ebusy, at 0) ∷ later)) (at 100000)
    ≡ some (record {
      err = Err.etimedout;
      naps = record { sec = 0; nsec = 50000 } ∷ record { sec = 0; nsec = 40000 } ∷ [];
    })
unfolding timed_lock time_left nap_for next_pause
naps = refl

clock-Lasts : Lasts (at 100000) backoff_min_ns ((Err.ebusy, at 0) ∷ later)
unfolding nap_for next_pause
clock-Lasts = (first, (second, tt))
  where
    first :
        (t : Timespec)
        → time_left (some (at 0)) (at 100000) ≡ Left.left t
        → 1000000000 + ns (nap_for t 50000) ≤ 1000060000
    first t e =
        let told : Left.left (record { sec = 0; nsec = 100000 }) ≡ Left.left t =
          (rw left_first at e) in
        let same : record { sec = 0; nsec = 100000 } ≡ t = (cc) in rw (← same) (omega arith)

    second :
        (t : Timespec)
        → time_left (some (at 60000)) (at 100000) ≡ Left.left t
        → 1000060000 + ns (nap_for t 100000) ≤ 1000100000
    second t e =
        let told : Left.left (record { sec = 0; nsec = 40000 }) ≡ Left.left t =
          (rw left_next at e) in
        let same : record { sec = 0; nsec = 40000 } ≡ t = (cc) in rw (← same) (omega arith)

spurious_wait :
    cond_clockwait Clock.monotonic (some (at 60000)) (at 100000)
    ≡ Wait.lasting (record { sec = 0; nsec = 40000 })
unfolding cond_clockwait
spurious_wait = refl

sleeps :
    clock_nanosleep_errno Clock.realtime true
      (at 100000)
      Err.ok
      ((some (at 60000), Err.ok) ∷ (some (at 100000), Err.ok) ∷ [])
    ≡ some (record { err = Err.ok; naps = record { sec = 0; nsec = 40000 } ∷ [] })
unfolding clock_nanosleep_errno
sleeps = refl

own_lock : rwlock_try Err.edeadlk ≡ Err.ebusy
unfolding rwlock_try
own_lock = refl

timed_lock-Ended_example :
    Ended
      (at 100000)
      ((Err.ebusy, at 0) ∷ later)
      (timed_lock (map round ((Err.ebusy, at 0) ∷ later)) (at 100000))
timed_lock-Ended_example =
    timed_lock-Ended 2 (at 100000) (Err.ebusy, at 0) later (omega arith) (omega arith) clock-Lasts
      (omega arith) (omega arith)
