-- ===== src/Windows/Barrier.antt =====
-- headers/sppc/platform/windows.h, BARRIERS. A wait is two atomic parts: the arrival, under the
-- barrier's lock, and the look at the generation that the thread makes each time it wakes.
pub mod Opens
pub mod Rounds
mod Examples
use sppc.Common.{
  ℕ, ◌+◌, ◌-◌, ◌*◌, ◌%◌, ◌^◌, Bool, not, ◌||◌, Option, none, some, ◌==◌, ltb, if◌then◌else◌,
}
use sppc.Errno.{einval, ebusy}

-- `_sppc_pthread_barrier_t`, less its lock.
pub record Barrier : Type 0 where
  pub count : ℕ
  pub remaining : ℕ
  pub generation : ℕ
  pub waiters : ℕ

abbrev pub long_max : ℕ
long_max = 2 ^ 31 - 1

-- `_sppc_pthread_barrier_init`: the barrier, or none with EINVAL.
unfoldable pub barrier_init : ℕ → ℕ × Option Barrier
barrier_init count =
    if count == 0 || ltb long_max count
    then (einval, none)
    else (0, some (record { count = count; remaining = count; generation = 0; waiters = 0 }))

-- What a look of `_sppc_pthread_barrier_destroy` comes to.
pub data Destroyed : Type 0 where
  refused : ℕ → Destroyed
  sleeps : Destroyed
  destroyed : Destroyed

-- A look of `_sppc_pthread_barrier_destroy` at the waiters.
unfoldable pub destroy_look : Barrier → Destroyed
destroy_look b = if b.waiters == 0 then Destroyed.destroyed else Destroyed.sleeps

-- `_sppc_pthread_barrier_destroy` up to its first look at the waiters, with no other thread in between.
unfoldable pub barrier_destroy : Barrier → Destroyed
barrier_destroy b = if not (b.remaining == b.count) then Destroyed.refused ebusy else destroy_look b

-- What an arrival comes to: the round is full, or the thread sleeps on a generation.
pub data Arrival : Type 0 where
  serial : Arrival
  asleep : ℕ → Arrival

-- `_sppc_pthread_barrier_wait` up to the release of the lock.
unfoldable pub barrier_arrive : Barrier → Arrival × Barrier
barrier_arrive b =
    if b.remaining - 1 == 0
    then (
      Arrival.serial,
      record b { remaining = b.count; generation = (b.generation + 1) % 2 ^ 32 },
    )
    else (
      Arrival.asleep b.generation,
      record b { remaining = b.remaining - 1; waiters = b.waiters + 1 },
    )

-- The rest of `_sppc_pthread_barrier_wait` for a thread asleep on `generation` that wakes: none where
-- it goes back to sleep.
unfoldable pub barrier_wake : ℕ → Barrier → Option Barrier
barrier_wake generation b =
    if b.generation == generation then none else some (record b { waiters = b.waiters - 1 })
