-- ===== src/Async/Conditions/Examples.antt =====
-- A condition wait with the lock 80, for which task 2 waits.
use sppc.Common.{◌≡◌, refl, true, some, [], ◌∷◌, ◌>>=◌}
use sppc.Async.Locks.Examples.{waiting, held, got}
use sppc.Async.Conditions.{CondWait, cond_wait_until}

-- The deadline has passed, and the mutex is got at the second try.
abbrev wait : CondWait
wait = record {
  first = [];
  real = 0;
  unlocked = 0;
  meanwhile = λ s. s;
  second = [];
  waited = [];
  others = λ s. s;
  tries = held ∷ got ∷ [];
  locked = 0;
  expired = true;
}

told : (cond_wait_until 16 110 3 wait 700 80 waiting >>= λ x. some x.0) ≡ some 110
unfolding cond_wait_until
told = refl
