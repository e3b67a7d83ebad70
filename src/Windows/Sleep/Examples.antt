-- ===== src/Windows/Sleep/Examples.antt =====
-- A sleep of a millisecond and a half, and one that a clock refuses.
use sppc.Common.{ℕ, ◌+◌, ◌*◌, ◌≤◌, ◌≡◌, refl, true, false, some, List, [], ◌∷◌, arith}
use sppc.Errno.{einval}
use sppc.Time.{Timespec, Clock, deadline}
use sppc.Windows.Sleep.{sleep_look, Slept, clock_nanosleep, Reading, clock_gettime}
use sppc.Windows.Sleep.Ends.{Lasts, Ends, clock_nanosleep-Ends}

abbrev at : ℕ → Timespec
at nsec = record { sec = 10; nsec = nsec }

abbrev while_asked : Timespec
while_asked = record { sec = 0; nsec = 1500000 }

asks : sleep_look (deadline (at 500) while_asked) (at 500) ≡ some 15000
unfolding sleep_look deadline
asks = refl

then_wakes : Lasts (deadline (at 500) while_asked) (at 500 ∷ at 1600000 ∷ [])
then_wakes = (late, tt)
  where
    late :
        (ticks : ℕ)
        → sleep_look (deadline (at 500) while_asked) (at 500) ≡ some ticks
        → 10000000500 + ticks * 100 ≤ 10001600000
    late ticks e =
        let same : some 15000 ≡ some ticks = (rw asks at e) in
        let told : ◌≡◌ {A = ℕ} 15000 ticks = (cc) in omega (arith, told)

refused : clock_nanosleep Clock.thread_cputime true (at 0) (at 0) [] ≡ some (Slept.refused einval)
unfolding clock_nanosleep
refused = refl

-- The first second of 1970.
epoch :
    clock_gettime (Reading.system_time 27111902 3577643018)
    ≡ (record { sec = 0; nsec = 1000 }, true)
unfolding clock_gettime
epoch = refl

clock_nanosleep-Ends_example :
    (naps : List ℕ) × (clock_nanosleep Clock.monotonic false while_asked
        (at 500)
        (at 500 ∷ at 1600000 ∷ [])
      ≡ some (Slept.slept naps))
    × Ends (deadline (at 500) while_asked) (at 500) (at 1600000 ∷ []) naps
clock_nanosleep-Ends_example =
    clock_nanosleep-Ends Clock.monotonic 1 while_asked (at 500) (at 500) (at 1600000 ∷ []) refl
      (omega arith) (omega arith) (omega arith) then_wakes (omega arith) (omega arith)
