-- ===== src/Time/Examples.antt =====
-- Deadlines and waits at concrete times.
use sppc.Common.{◌≡◌, refl, arith, some}
use sppc.Time.{Timespec, wait_ms}
use sppc.Time.Passing.{WaitFits, wait_ms-WaitFits}

abbrev noon : Timespec
noon = record { sec = 43200; nsec = 999999999 }

abbrev tick : Timespec
tick = record { sec = 2; nsec = 1 }

abbrev later : Timespec
later = record { sec = 43203; nsec = 0 }

wait_ms-WaitFits_example : WaitFits noon later (wait_ms noon (some later))
wait_ms-WaitFits_example = wait_ms-WaitFits noon later (omega arith) (omega arith)

-- At 4294966 seconds and a nanosecond from the deadline, the wait is 4294967294 milliseconds.
late :
    wait_ms (record { sec = 0; nsec = 999999999 }) (some (record { sec = 4294967; nsec = 0 }))
    ≡ 4294967294
unfolding wait_ms
late = refl
