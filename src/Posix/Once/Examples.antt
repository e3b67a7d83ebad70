-- ===== src/Posix/Once/Examples.antt =====
-- Two threads call one once: the first runs the function, the second waits for it.
use sppc.Common.{◌<◌, ◌≤◌, ◌≡◌, refl, [], ◌∷◌, sum}
use sppc.Posix.Once.{Place, once_claim, claimed, once_look, next_pause}
use sppc.Posix.Once.Steps.{World, Step, Steps, is_returned, is_odd}
use sppc.Posix.Once.Runs.{start, once-runs}

abbrev first_claimed : World
first_claimed = record { word = 1; calls = 0; threads = Place.running ∷ Place.before ∷ [] }

abbrev both_in : World
both_in = record { word = 1; calls = 0; threads = Place.running ∷ Place.napping 50000 ∷ [] }

abbrev napped : World
napped = record { word = 1; calls = 0; threads = Place.running ∷ Place.napping 100000 ∷ [] }

abbrev has_run : World
has_run = record { word = 1; calls = 1; threads = Place.ran ∷ Place.napping 100000 ∷ [] }

abbrev stored : World
stored = record { word = 2; calls = 1; threads = Place.returned ∷ Place.napping 100000 ∷ [] }

abbrev over : World
over = record { word = 2; calls = 1; threads = Place.returned ∷ Place.returned ∷ [] }

race : Steps (start 2) over
unfolding once_claim claimed once_look next_pause
race =
    let s1 =
      Steps.then_step (start 2) (start 2) first_claimed (Steps.stop (start 2))
        (Step.claims 0 (start 2) refl) in
    let s2 =
      Steps.then_step (start 2) first_claimed both_in s1 (Step.claims 1 first_claimed refl) in
    let s3 = Steps.then_step (start 2) both_in napped s2 (Step.looks 1 50000 both_in refl) in
    let s4 = Steps.then_step (start 2) napped has_run s3 (Step.runs 0 napped refl) in
    let s5 = Steps.then_step (start 2) has_run stored s4 (Step.stores 0 has_run refl) in
    Steps.then_step (start 2) stored over s5 (Step.looks 1 100000 stored refl)

once-runs_example :
    (over.calls ≤ 1)
    × (0 < sum is_returned over.threads → over.calls ≡ 1)
    × (sum is_odd over.threads ≡ 0)
once-runs_example = once-runs 2 over race
