-- ===== src/Windows/Sleep.antt =====
-- headers/sppc/platform/windows.h: the clocks and the sleeps. What the system's counters read is an
-- argument, and so is how long its timers take. A tick is 100 nanoseconds. Requests are not negative.
pub mod Ends
mod Examples
use sppc.Common.{
  ℕ, zero, suc, ◌+◌, ◌-◌, ◌*◌, ◌/◌, ◌%◌, ◌^◌, Bool, true, false, not, ◌||◌, Option, none, some,
  List, [], ◌∷◌, ltb, leb, if◌then◌else◌, ◌>>=◌,
}
use sppc.Errno.{einval}
use sppc.Time.{Timespec, second, Clock, is_timed, deadline}

abbrev pub ticks_per_second : ℕ
ticks_per_second = 10000000

abbrev pub epoch_ticks : ℕ
epoch_ticks = 116444736000000000

-- `_sppc_win_filetime`.
unfoldable pub filetime : ℕ → ℕ → ℕ
filetime high low = high * 2 ^ 32 + low

-- A count of ticks as a time, as three of the clocks have it.
unfoldable pub of_ticks : ℕ → Timespec
of_ticks ticks = record { sec = ticks / ticks_per_second; nsec = ticks % ticks_per_second * 100 }

-- The performance counter as a time.
unfoldable pub of_counter : ℕ → ℕ → Timespec
of_counter freq count = record { sec = count / freq; nsec = count % freq * second / freq }

-- What the system reads for a clock: a file time, two of them, or a frequency and a count.
pub data Reading : Type 0 where
  system_time : ℕ → ℕ → Reading
  cpu_times : ℕ × ℕ → ℕ × ℕ → Reading
  counter : ℕ → ℕ → Reading
  unread : Reading

-- `_sppc_clock_gettime`: the time, and whether the clock was read.
unfoldable pub clock_gettime : Reading → Timespec × Bool
unfolding filetime of_ticks of_counter
clock_gettime (Reading.system_time high low) =
    (of_ticks ((filetime high low + 2 ^ 64 - epoch_ticks) % 2 ^ 64), true)
clock_gettime (Reading.cpu_times (kh, kl) (uh, ul)) =
    (of_ticks ((filetime kh kl + filetime uh ul) % 2 ^ 64), true)
clock_gettime (Reading.counter freq count) = (of_counter freq count, true)
clock_gettime Reading.unread = (record { sec = 0; nsec = 0 }, false)

-- The longest sleep.
abbrev pub day_ticks : ℕ
day_ticks = 86400 * 10000000

-- A look at the clock in the loop of `_sppc_clock_nanosleep`: the ticks to sleep, or none where it ends.
unfoldable pub sleep_look : Timespec → Timespec → Option ℕ
sleep_look d now =
    if ltb d.sec now.sec
    then none
    else if leb 86400 (d.sec - now.sec)
    then some day_ticks
    else if leb ((d.sec - now.sec) * second + d.nsec) now.nsec
    then none
    else some (((d.sec - now.sec) * second + d.nsec - now.nsec + 99) / 100)

-- That loop, for what the clock reads each time: the ticks of each sleep; none where the readings run out.
unfoldable pub sleep_loop : Timespec → List Timespec → Option (List ℕ)
sleep_loop d [] = none
sleep_loop d (now ∷ later) = elim (sleep_look d now) [
  | none ↦ some []
  | some ticks ↦ sleep_loop d later >>= λ naps. some (ticks ∷ naps)
]

-- The result of a sleep: an error, or the sleeps it took.
pub data Slept : Type 0 where
  refused : ℕ → Slept
  slept : List ℕ → Slept

-- `_sppc_clock_nanosleep`, its deadline taken at `start` where it is relative.
unfoldable pub clock_nanosleep : Clock → Bool → Timespec → Timespec → List Timespec → Option Slept
unfolding deadline sleep_loop sleep_look
clock_nanosleep clock absolute request start readings =
    let d = if absolute then request else deadline start request in
    if not (is_timed clock) || leb second request.nsec
    then some (Slept.refused einval)
    else sleep_loop d readings >>= λ naps. some (Slept.slept naps)
