-- ===== src/Windows/Mutex/Steps.antt =====
-- headers/sppc/platform/windows.h: `_sppc_win_mutex_lock`, `_sppc_pthread_mutex_trylock` and
-- `_sppc_pthread_mutex_unlock` of a normal mutex, run by any number of threads, of which only the one
-- that holds it unlocks it: the source does not check that. One step is one atomic operation on the mutex,
-- one plain write of its holder, or one act of `WaitOnAddress` or `WakeByAddressSingle`. A wait sleeps only
-- while the word is 2, and wakes with or without cause, or at its deadline, all of which the source takes alike.
pub mod Exclusion
pub mod Wakeups
use sppc.Common.{ℕ, ◌≡◌, ◌≢◌, Bool, true, false, ◌==◌, if◌then◌else◌, update}
use sppc.Windows.Mutex.{Mutex, acquired, compare_exchange, exchange}

-- Where a thread is in the code: outside; before its compare-exchange; before its exchange of 2;
-- before its wait; asleep; behind the operation that gave it the lock, and before it writes its
-- name; in the critical section; in the unlock, with its name taken away; and behind the unlock's exchange
-- of a 2, with the mutex free and a sleeper to wake.
pub data Place : Type 0 where
  outside arriving contending waiting asleep taking holding leaving waking : Place

-- The mutex, and the place of each thread.
pub record World : Type 0 where
  pub mutex : Mutex
  pub at : ℕ → Place

abbrev pub move : ℕ → Place → Mutex → World → World
move i p m w = record { mutex = m; at = update w.at i p }

pub data Step : World → World → Type 0 where
  -- A call of lock or trylock.
  arrive : (i : ℕ) (w : World) → w.at i ≡ Place.outside → Step w (move i Place.arriving w.mutex w)
  -- The compare-exchange of lock.
  try :
      (i : ℕ) (w : World)
      → w.at i ≡ Place.arriving
      → Step w (
          move i
            (if (compare_exchange w.mutex).0 then Place.contending else Place.taking)
            (compare_exchange w.mutex).1
            w)
  -- The compare-exchange of trylock.
  try_once :
      (i : ℕ) (w : World)
      → w.at i ≡ Place.arriving
      → Step w (
          move i
            (if (compare_exchange w.mutex).0 then Place.outside else Place.taking)
            (compare_exchange w.mutex).1
            w)
  -- The condition of the loop.
  mark :
      (i : ℕ) (w : World)
      → w.at i ≡ Place.contending
      → Step w (
          move i
            (if (exchange 2 w.mutex).0 == 0 then Place.taking else Place.waiting)
            (exchange 2 w.mutex).1
            w)
  -- The wait compares the word and sleeps, or comes back.
  sleep :
      (i : ℕ) (w : World)
      → w.at i ≡ Place.waiting
      → Step w (move i (if w.mutex.state == 2 then Place.asleep else Place.contending) w.mutex w)
  wake : (i : ℕ) (w : World) → w.at i ≡ Place.asleep → Step w (move i Place.contending w.mutex w)
  -- The deadline has passed, before the wait.
  refuse : (i : ℕ) (w : World) → w.at i ≡ Place.waiting → Step w (move i Place.outside w.mutex w)
  take :
      (i : ℕ) (w : World)
      → w.at i ≡ Place.taking
      → Step w (move i Place.holding (acquired i w.mutex) w)
  -- The unlock's write of `owner`.
  leave :
      (i : ℕ) (w : World)
      → w.at i ≡ Place.holding
      → Step w (move i Place.leaving (record w.mutex { owner = 0 }) w)
  -- The unlock's exchange of 0: the mutex is free, and the old word says whether to wake a sleeper.
  free :
      (i : ℕ) (w : World)
      → w.at i ≡ Place.leaving
      → Step w (
          move i
            (if (exchange 0 w.mutex).0 == 2 then Place.waking else Place.outside)
            (exchange 0 w.mutex).1
            w)
  -- `WakeByAddressSingle`, with nobody asleep by now, or of the thread `j`.
  wake_none :
      (i : ℕ) (w : World)
      → w.at i ≡ Place.waking
      → ((j : ℕ) → w.at j ≢ Place.asleep)
      → Step w (move i Place.outside w.mutex w)
  wake_one :
      (i j : ℕ) (w : World)
      → w.at i ≡ Place.waking
      → w.at j ≡ Place.asleep
      → Step w (move j Place.contending w.mutex (move i Place.outside w.mutex w))

pub data Steps : World → World → Type 0 where
  stop : (w : World) → Steps w w
  next : (u v w : World) → Step u v → Steps v w → Steps u w

abbrev pub is_inside : Place → Bool
is_inside Place.taking = true
is_inside Place.holding = true
is_inside Place.leaving = true
is_inside _ = false
