-- ===== src/Windows/Rwlock.antt =====
-- headers/sppc/platform/windows.h, PTHREADS: read-write locks. `me` is the calling thread's id. Each
-- function is a call with no other thread in it; where the source sleeps it gives `none`.
pub mod Holders
mod Examples
use sppc.Common.{ℕ, ◌+◌, ◌-◌, Bool, true, false, not, ◌&&◌, Option, none, some, ◌==◌, if◌then◌else◌}
use sppc.Windows.{Code}

-- `state`, a LONG of -1 or more: -1 for a writer, or the number of readers.
pub data Word : Type 0 where
  writing : Word
  readers : ℕ → Word

abbrev pub long_max : ℕ
long_max = 0x7FFFFFFF

-- `_sppc_pthread_rwlock_t`.
pub record Rwlock : Type 0 where
  pub state : Word
  pub writer : ℕ

-- `_sppc_pthread_rwlock_init`.
abbrev pub rwlock_init : Rwlock
rwlock_init = record { state = Word.readers 0; writer = 0 }

abbrev pub is_zero : Word → Bool
is_zero Word.writing = false
is_zero (Word.readers n) = n == 0

-- `_sppc_pthread_rwlock_destroy`.
unfoldable pub rwlock_destroy : Rwlock → Code
rwlock_destroy l = if not (is_zero l.state) then Code.ebusy else Code.ok

-- `_sppc_pthread_rwlock_tryrdlock`.
unfoldable pub rwlock_tryrdlock : Rwlock → Code × Rwlock
rwlock_tryrdlock l = elim l.state [
  | Word.writing ↦ (Code.ebusy, l)
  | Word.readers n ↦
      if n == long_max
      then (Code.eagain, l)
      else (Code.ok, record l { state = Word.readers (n + 1) })
]

-- `_sppc_pthread_rwlock_trywrlock`.
unfoldable pub rwlock_trywrlock : ℕ → Rwlock → Code × Rwlock
rwlock_trywrlock me l =
    if is_zero l.state
    then (Code.ok, record { state = Word.writing; writer = me })
    else (Code.ebusy, l)

abbrev pub is_busy : Code → Bool
is_busy Code.ebusy = true
is_busy _ = false

-- `_sppc_win_rwlock_rdlock`.
unfoldable pub rwlock_rdlock : ℕ → Rwlock → Option Code × Rwlock
unfolding rwlock_tryrdlock
rwlock_rdlock me l =
    let (code, m) = rwlock_tryrdlock l in
    if not (is_busy code)
    then (some code, m)
    else if m.writer == me
    then (some Code.edeadlk, m)
    else (none, m)

-- `_sppc_win_rwlock_wrlock`.
unfoldable pub rwlock_wrlock : ℕ → Rwlock → Option Code × Rwlock
unfolding rwlock_trywrlock
rwlock_wrlock me l = elim l.state [
  | Word.writing ↦ if l.writer == me then (some Code.edeadlk, l) else (none, l)
  | Word.readers n ↦
      if n == 0 then (let (code, m) = rwlock_trywrlock me l in (some code, m)) else (none, l)
]

-- `_sppc_pthread_rwlock_unlock`: the code, whether it wakes every sleeper, and the lock.
unfoldable pub rwlock_unlock : ℕ → Rwlock → Code × Bool × Rwlock
rwlock_unlock me l = elim l.state [
  | Word.writing ↦
      if not (l.writer == me)
      then (Code.eperm, false, l)
      else (Code.ok, true, record { state = Word.readers 0; writer = 0 })
  | Word.readers n ↦
      if n == 0
      then (Code.eperm, false, l)
      else (Code.ok, n - 1 == 0, record l { state = Word.readers (n - 1) })
]
