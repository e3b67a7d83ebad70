-- ===== src/Posix/Once/Runs.antt =====
-- How often `_sppc_pthread_once` runs its function, and who returns when.
use sppc.Common.{
  ℕ, ◌+◌, ◌≤◌, ◌<◌, ◌≡◌, refl, ◌==◌, arith, Bool-cases, inl, inr, sum, sum_zero, replicate,
}
use sppc.Posix.Once.{Place, once_init, once_done}
use sppc.Posix.Once.Steps.{
  World, Step, Steps, IsOnce, is_running, is_ran, is_returned, is_odd, claims-IsOnce, runs-IsOnce,
  stores-IsOnce, looks-IsOnce,
}

-- A once as it is made, and `n` threads about to call it.
abbrev pub start : ℕ → World
start n = record { word = once_init; calls = 0; threads = replicate n Place.before }

start-IsOnce : (n : ℕ) → IsOnce (start n)
start-IsOnce n = record {
  range = omega arith;
  owners =
      omega (arith, sum_zero is_running n Place.before refl, sum_zero is_ran n Place.before refl);
  once = omega (arith, sum_zero is_running n Place.before refl);
  none_early = λ e. sum_zero is_returned n Place.before refl;
  short = sum_zero is_odd n Place.before refl;
}

Step-IsOnce : (w v : World) → Step w v → IsOnce w → IsOnce v
Step-IsOnce w _ (Step.claims i _ here) o = claims-IsOnce i w here o
Step-IsOnce w _ (Step.runs i _ here) o = runs-IsOnce i w here o
Step-IsOnce w _ (Step.stores i _ here) o = stores-IsOnce i w here o
Step-IsOnce w _ (Step.looks i pause _ here) o = looks-IsOnce i pause w here o

Steps-IsOnce : (w v : World) → Steps w v → IsOnce w → IsOnce v
Steps-IsOnce w _ (Steps.stop _) o = o
Steps-IsOnce w v (Steps.then_step _ u _ before last) o =
    Step-IsOnce u v last (Steps-IsOnce w u before o)

-- However any number of threads interleave on a new once: the function has run at most once; where some thread has come
-- back from its call the function has run to its end, once; and no thread ever naps for another pause than 50, 100, 200,
-- 400, 800 or 1600 microseconds.
pub once-runs :
    (n : ℕ) (w : World)
    → Steps (start n) w
    → (w.calls ≤ 1) × (0 < sum is_returned w.threads → w.calls ≡ 1) × (sum is_odd w.threads ≡ 0)
once-runs n w steps =
    let o = Steps-IsOnce (start n) w steps (start-IsOnce n) in (at_most o, once_over o, o.short)
  where
    at_most : IsOnce w → w.calls ≤ 1
    at_most o = elim (Bool-cases (w.word == once_init)) [
      | inl e ↦
          let c : w.calls + sum is_running w.threads ≡ 0 = (rw e at o.once) in omega (arith, c)
      | inr e ↦
          let c : w.calls + sum is_running w.threads ≡ 1 = (rw e at o.once) in omega (arith, c)
    ]

    once_over : IsOnce w → 0 < sum is_returned w.threads → w.calls ≡ 1
    once_over o some_back = elim (Bool-cases (w.word == once_done)) [
      | inl e ↦
          let end : w.word ≡ 2 = ground (arith, e) in
          let c : w.calls + sum is_running w.threads ≡ 1 = (rw end at o.once) in
          let r : sum is_running w.threads + sum is_ran w.threads ≡ 0 = (rw end at o.owners) in
          omega (arith, c, r)
      | inr e ↦
          let nobody : sum is_returned w.threads ≡ 0 = o.none_early (ground (arith, e)) in
          absurd (omega (arith, nobody, some_back))
    ]
