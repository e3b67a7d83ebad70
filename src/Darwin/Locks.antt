-- ===== src/Darwin/Locks.antt =====
-- headers/sppc/platform/darwin.h: timed locks, built from tries and naps, and waits and sleeps up to a
-- deadline. What a try answers and what the clock reads are arguments; a clock that cannot be read
-- gives none.
pub mod Ends
mod Examples
use sppc.Common.{
  ℕ, zero, suc, ◌+◌, ◌-◌, ◌*◌, Bool, true, false, ◌&&◌, ◌||◌, Option, none, some, List, [], ◌∷◌,
  ◌==◌, ltb, if◌then◌else◌, ◌>>=◌,
}
use sppc.Time.{Timespec, second, Clock}
use sppc.Posix.Once.{backoff_min_ns, next_pause}

-- What a lock, a wait or a sleep returns: 0, an error of the C library by name, or another one.
pub data Err : Type 0 where
  ok ebusy edeadlk einval etimedout : Err
  other : ℕ → Err

-- What is left of the time up to a deadline.
pub data Left : Type 0 where
  left : Timespec → Left
  no_time : Err → Left

-- `_sppc_time_left`.
unfoldable pub time_left : Option Timespec → Timespec → Left
time_left none d = Left.no_time Err.einval
time_left (some now) d =
    let borrowed = if ltb d.nsec now.nsec then 1 else 0 in
    let sec = d.sec - (now.sec + borrowed) in
    let nsec = d.nsec + borrowed * second - now.nsec in
    if ltb d.sec (now.sec + borrowed) || (sec == 0 && nsec == 0)
    then Left.no_time Err.etimedout
    else Left.left (record { sec = sec; nsec = nsec })

-- The nap of `_sppc_backoff`: the pause, or what is left where that is less.
unfoldable pub nap_for : Timespec → ℕ → Timespec
nap_for t pause = if t.sec == 0 && ltb t.nsec pause then t else record { sec = 0; nsec = pause }

-- A round of `_SPPC_TIMED_LOCK`: what the try answers, and what the clock reads then.
pub record Try : Type 0 where
  pub answer : Err
  pub now : Option Timespec

-- A timed lock's result, and its naps.
pub record Locked : Type 0 where
  pub err : Err
  pub naps : List Timespec

abbrev pub is_busy : Err → Bool
is_busy Err.ebusy = true
is_busy _ = false

-- `_SPPC_TIMED_LOCK` from a pause on; none where the rounds run out.
unfoldable pub timed_loop : List Try → Timespec → ℕ → Option Locked
timed_loop [] d pause = none
timed_loop (t ∷ ts) d pause = elim (is_busy t.answer) [
  | false ↦ some (record { err = t.answer; naps = [] })
  | true ↦ elim (time_left t.now d) [
    | Left.no_time e ↦ some (record { err = e; naps = [] })
    | Left.left l ↦ timed_loop ts d (next_pause pause) >>= λ r.
        some (record r { naps = nap_for l pause ∷ r.naps })
  ]
]

-- `_sppc_pthread_mutex_clocklock`, and those of a read-write lock.
unfoldable pub timed_lock : List Try → Timespec → Option Locked
unfolding timed_loop
timed_lock tries d = timed_loop tries d backoff_min_ns

-- `_sppc_pthread_rwlock_tryrdlock` and `_sppc_pthread_rwlock_trywrlock`, of what Darwin's call answers.
unfoldable pub rwlock_try : Err → Err
rwlock_try Err.edeadlk = Err.ebusy
rwlock_try e = e

-- What `_sppc_pthread_cond_clockwait` comes to: one of Darwin's two waits, or an error.
pub data Wait : Type 0 where
  until : Timespec → Wait
  lasting : Timespec → Wait
  refused : Err → Wait

abbrev pub waits_for : Left → Wait
waits_for (Left.left t) = Wait.lasting t
waits_for (Left.no_time e) = Wait.refused e

unfoldable pub cond_clockwait : Clock → Option Timespec → Timespec → Wait
unfolding time_left
cond_clockwait Clock.realtime now d = Wait.until d
cond_clockwait clock now d = waits_for (time_left now d)

-- The loop of `_sppc_clock_nanosleep_errno`: a reading and what `nanosleep` answers then, for each round.
-- The result, and the naps.
unfoldable pub sleep_until : List (Option Timespec × Err) → Timespec → Option Locked
unfolding time_left
sleep_until [] d = none
sleep_until ((now, answer) ∷ rest) d = elim (time_left now d) [
  | Left.no_time Err.etimedout ↦ some (record { err = Err.ok; naps = [] })
  | Left.no_time e ↦ some (record { err = e; naps = [] })
  | Left.left l ↦ elim answer [
    | Err.ok ↦ sleep_until rest d >>= λ r. some (record r { naps = l ∷ r.naps })
    | e ↦ some (record { err = e; naps = l ∷ [] })
  ]
]

abbrev pub is_cpu_time : Clock → Bool
is_cpu_time Clock.process_cputime = true
is_cpu_time Clock.thread_cputime = true
is_cpu_time _ = false

-- `_sppc_clock_nanosleep_errno`: `once` is what a relative `nanosleep` answers.
unfoldable pub clock_nanosleep_errno :
    Clock → Bool → Timespec → Err → List (Option Timespec × Err) → Option Locked
unfolding sleep_until
clock_nanosleep_errno clock absolute duration once rounds =
    let until = sleep_until rounds duration in
    if is_cpu_time clock
    then some (record { err = Err.einval; naps = [] })
    else if absolute
    then until
    else some (record { err = once; naps = duration ∷ [] })
