-- ===== src/Time.antt =====
-- Times and deadlines: headers/sppc/async/sched.h, `_gt_deadline`, `_gt_remaining`, `_gt_passed`,
-- and headers/sppc/platform/windows.h, `_sppc_win_check_deadline`, `_sppc_win_wait_ms` and the
-- translation of clocks and times. What a clock reads is an argument. Seconds and nanoseconds that
-- the source keeps signed are not negative here: where the source takes a difference, the case that
-- it is negative is written out.
pub mod Passing
mod Examples
use sppc.Common.{
  ℕ, zero, suc, ◌+◌, ◌-◌, ◌*◌, ◌/◌, ◌^◌, ◌≤◌, ◌<◌, Bool, true, false, ◌&&◌, ◌||◌, not, Option, none,
  some, ◌==◌, ltb, leb, if◌then◌else◌,
}
use sppc.Errno.{einval}

-- `struct timespec`.
pub record Timespec : Type 0 where
  pub sec : ℕ
  pub nsec : ℕ

abbrev pub second : ℕ
second = 1000000000

-- `_gt_deadline`, at the time `now`.
unfoldable pub deadline : Timespec → Timespec → Timespec
deadline now timeout =
    let sec = now.sec + timeout.sec in
    let nsec = now.nsec + timeout.nsec in
    if leb second nsec
    then record { sec = sec + 1; nsec = nsec - second }
    else record { sec = sec; nsec = nsec }

-- `_gt_remaining`, at the time `now`: what it borrows from the seconds, and zero where they then are
-- negative.
unfoldable pub remaining : Timespec → Timespec → Timespec
remaining now d =
    let borrowed = if ltb d.nsec now.nsec then 1 else 0 in
    if ltb d.sec (now.sec + borrowed)
    then record { sec = 0; nsec = 0 }
    else record { sec = d.sec - (now.sec + borrowed); nsec = d.nsec + borrowed * second - now.nsec }

-- `_gt_passed`.
unfoldable pub passed : Timespec → Timespec → Bool
unfolding remaining
passed now d = let left = remaining now d in left.sec == 0 && left.nsec == 0

-- `_gt_passed_if_any`; `none` is NULL.
unfoldable pub passed_if_any : Timespec → Option Timespec → Bool
unfolding passed
passed_if_any now none = false
passed_if_any now (some d) = passed now d

-- The clocks of windows.h.
pub data Clock : Type 0 where
  realtime monotonic process_cputime thread_cputime : Clock

abbrev pub is_timed : Clock → Bool
is_timed Clock.realtime = true
is_timed Clock.monotonic = true
is_timed _ = false

-- `_sppc_win_check_deadline`.
unfoldable pub check_deadline : Clock → Option Timespec → ℕ
check_deadline clock none = if is_timed clock then 0 else einval
check_deadline clock (some d) =
    if is_timed clock then (if leb second d.nsec then einval else 0) else einval

abbrev pub infinite : ℕ
infinite = 2 ^ 32 - 1

-- The milliseconds of `_sppc_win_wait_ms` up to a deadline `sec` seconds off: rounded up, and 0 where
-- the nanoseconds left are not positive.
unfoldable pub ms_up : ℕ → ℕ → ℕ → ℕ
ms_up sec nsec now_nsec =
    if leb (sec * second + nsec) now_nsec
    then 0
    else (sec * second + nsec - now_nsec + 999999) / 1000000

-- `_sppc_win_wait_ms`, at the time `now`.
unfoldable pub wait_ms : Timespec → Option Timespec → ℕ
unfolding ms_up
wait_ms now none = infinite
wait_ms now (some d) =
    if ltb d.sec now.sec
    then 0
    else if leb (infinite / 1000) (d.sec - now.sec)
    then infinite - 1
    else ms_up (d.sec - now.sec) d.nsec now.nsec

-- `_sppc_to_os_timespec` of windows.h: the time in the platform's form, or the error.
unfoldable pub to_os_timespec : Timespec → Option Timespec
to_os_timespec t = if leb second t.nsec || ltb (2 ^ 63 - 1) t.sec then none else some t
