-- ===== src/Windows/Barrier/Examples.antt =====
-- A barrier for two threads, through a round.
use sppc.Common.{◌+◌, ◌<◌, ◌≡◌, refl, arith, some, [], ◌∷◌, sum}
use sppc.Errno.{ebusy}
use sppc.Windows.Barrier.{
  Barrier, barrier_init, Destroyed, destroy_look, barrier_destroy, barrier_arrive, barrier_wake,
}
use sppc.Windows.Barrier.Rounds.{Place, World, Step, Steps, is_asleep_on, is_inside}
use sppc.Windows.Barrier.Opens.{start, barrier-opens}

abbrev pair : Barrier
pair = record { count = 2; remaining = 2; generation = 0; waiters = 0 }

abbrev one_in : World
one_in = record {
  barrier = record { count = 2; remaining = 1; generation = 0; waiters = 1 };
  threads = Place.inside 0 ∷ Place.outside ∷ [];
}

abbrev opened : World
opened = record one_in {
  barrier = record { count = 2; remaining = 2; generation = 1; waiters = 1 };
}

abbrev gone : World
gone = record {
  barrier = record { count = 2; remaining = 2; generation = 1; waiters = 0 };
  threads = Place.outside ∷ Place.outside ∷ [];
}

round : Steps 1 (start 2 pair) gone
unfolding barrier_arrive barrier_wake
round =
    Steps.then_step 1 0 (start 2 pair) opened gone
      (Steps.then_step 0 1 (start 2 pair) one_in opened
        (Steps.then_step 0 0 (start 2 pair) (start 2 pair) one_in (Steps.stop (start 2 pair))
          (Step.arrives 0 0 (start 2 pair) refl refl))
        (Step.completes 1 one_in refl refl))
      (Step.leaves 0 0 opened gone.barrier refl refl)

made : barrier_init 2 ≡ (0, some pair)
unfolding barrier_init
made = refl

refused : barrier_destroy one_in.barrier ≡ Destroyed.refused ebusy
unfolding barrier_destroy
refused = refl

barrier-opens_example :
    (sum (is_asleep_on 1) gone.threads + gone.barrier.remaining ≡ gone.barrier.count)
    × (0 < gone.barrier.remaining)
    × (destroy_look gone.barrier ≡ Destroyed.destroyed → sum is_inside gone.threads ≡ 0)
barrier-opens_example = barrier-opens 2 2 1 pair gone made round (omega arith)
