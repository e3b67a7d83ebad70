-- ===== src/Posix/Once/Steps.antt =====
-- `_sppc_pthread_once` under any interleaving of any number of threads.
use sppc.Common.{
  ℕ, ◌+◌, ◌≤◌, ◌<◌, ◌≡◌, ◌≢◌, refl, Bool, true, some, List, ◌==◌, arith, if◌then◌else◌, Bool-cases,
  ◌||◌, inl, inr, get_elem?, set, sum, sum-set, le-sum,
}
use sppc.Posix.Once.{
  Place, once_claim, claimed, once_look, next_pause, once_init, once_running, once_done,
  backoff_min_ns,
}

-- The word, how often the function was run to its end, and the threads.
pub record World : Type 0 where
  pub word : ℕ
  pub calls : ℕ
  pub threads : List Place

pub data Step : World → World → Type 0 where
  claims :
      (i : ℕ) (w : World)
      → get_elem? w.threads i ≡ some Place.before
      → Step w (record w {
        word = (once_claim w.word).1;
        threads = set w.threads i (claimed (once_claim w.word).0);
      })
  runs :
      (i : ℕ) (w : World)
      → get_elem? w.threads i ≡ some Place.running
      → Step w (record w { calls = w.calls + 1; threads = set w.threads i Place.ran })
  stores :
      (i : ℕ) (w : World)
      → get_elem? w.threads i ≡ some Place.ran
      → Step w (record w { word = once_done; threads = set w.threads i Place.returned })
  looks :
      (i pause : ℕ) (w : World)
      → get_elem? w.threads i ≡ some (Place.napping pause)
      → Step w (record w { threads = set w.threads i (once_look w.word pause) })

pub data Steps : World → World → Type 0 where
  stop : (w : World) → Steps w w
  then_step : (w v u : World) → Steps w v → Step v u → Steps w u

abbrev pub is_running : Place → ℕ
is_running Place.running = 1
is_running _ = 0

abbrev pub is_ran : Place → ℕ
is_ran Place.ran = 1
is_ran _ = 0

abbrev pub is_returned : Place → ℕ
is_returned Place.returned = 1
is_returned _ = 0

-- The pauses that doubling comes to, from the least one until it is past the bound.
abbrev pub is_doubling : ℕ → Bool
is_doubling p =
    p == 50000 || p == 100000 || p == 200000 || p == 400000 || p == 800000 || p == 1600000

abbrev pub is_odd : Place → ℕ
is_odd (Place.napping pause) = if is_doubling pause then 0 else 1
is_odd _ = 0

-- One thread owns the word while it is running, and none else; the function was run once where it is not being run.
pub record IsOnce (w : World) : Type 0 where
  pub range : w.word ≤ once_done
  pub owners :
      sum is_running w.threads + sum is_ran w.threads ≡ (if w.word == once_running then 1 else 0)
  pub once : w.calls + sum is_running w.threads ≡ (if w.word == once_init then 0 else 1)
  pub none_early : w.word ≢ once_done → sum is_returned w.threads ≡ 0
  pub short : sum is_odd w.threads ≡ 0

-- What a step of the thread `i` from `p` to `q` does to each sum.
abbrev Moves : List Place → ℕ → Place → Place → Type 0
Moves ps i p q = (f : Place → ℕ) → sum f (set ps i q) + f p ≡ sum f ps + f q

pub claims-IsOnce :
    (i : ℕ) (w : World)
    → get_elem? w.threads i ≡ some Place.before
    → IsOnce w
    → IsOnce (record w {
      word = (once_claim w.word).1;
      threads = set w.threads i (claimed (once_claim w.word).0);
    })
unfolding once_claim claimed
claims-IsOnce i w here o = elim (Bool-cases (w.word == once_init)) [
  | inl free ↦
      let zero_word : w.word ≡ 0 = ground (arith, free) in
      let m : Moves w.threads i Place.before Place.running =
        λ f. sum-set f w.threads i Place.before Place.running here in
      let owners : sum is_running w.threads + sum is_ran w.threads ≡ 0 = rw zero_word at o.owners in
      let calls : w.calls + sum is_running w.threads ≡ 0 = rw zero_word at o.once in
      rw free (record {
        range = omega arith;
        owners = omega (arith, m is_running, m is_ran, owners);
        once = omega (arith, m is_running, calls);
        none_early = λ n. omega (arith, m is_returned, o.none_early (omega (arith, zero_word)));
        short = omega (arith, m is_odd, o.short);
      })
  | inr held ↦
      let m : Moves w.threads i Place.before (Place.napping backoff_min_ns) =
        λ f. sum-set f w.threads i Place.before (Place.napping backoff_min_ns) here in
      rw held (record {
        range = o.range;
        owners = omega (arith, m is_running, m is_ran, o.owners);
        once = omega (arith, m is_running, o.once);
        none_early = λ n. omega (arith, m is_returned, o.none_early n);
        short = omega (arith, m is_odd, o.short);
      })
]

-- The thread that runs the function, or has run it, owns the word.
owned : (w : World) → IsOnce w → 0 < sum is_running w.threads + sum is_ran w.threads → w.word ≡ 1
owned w o h = elim (Bool-cases (w.word == once_running)) [
  | inl e ↦ ground (arith, e)
  | inr e ↦
      let nobody : sum is_running w.threads + sum is_ran w.threads ≡ 0 = rw e at o.owners in
      absurd (omega (arith, nobody, h))
]

pub runs-IsOnce :
    (i : ℕ) (w : World)
    → get_elem? w.threads i ≡ some Place.running
    → IsOnce w
    → IsOnce (record w { calls = w.calls + 1; threads = set w.threads i Place.ran })
runs-IsOnce i w here o =
    let m : Moves w.threads i Place.running Place.ran =
      λ f. sum-set f w.threads i Place.running Place.ran here in
    let one = owned w o (omega (arith, m is_running)) in
    record {
      range = o.range;
      owners = omega (arith, m is_running, m is_ran, o.owners);
      once = omega (arith, m is_running, o.once);
      none_early = λ n. omega (arith, m is_returned, o.none_early n);
      short = omega (arith, m is_odd, o.short);
    }

pub stores-IsOnce :
    (i : ℕ) (w : World)
    → get_elem? w.threads i ≡ some Place.ran
    → IsOnce w
    → IsOnce (record w { word = once_done; threads = set w.threads i Place.returned })
stores-IsOnce i w here o =
    let m : Moves w.threads i Place.ran Place.returned =
      λ f. sum-set f w.threads i Place.ran Place.returned here in
    let one = owned w o (omega (arith, m is_ran)) in
    let owners : sum is_running w.threads + sum is_ran w.threads ≡ 1 = rw one at o.owners in
    let once : w.calls + sum is_running w.threads ≡ 1 = rw one at o.once in
    record {
      range = omega arith;
      owners = omega (arith, m is_running, m is_ran, owners);
      once = omega (arith, m is_running, m is_ran, owners, once);
      none_early = λ n. absurd (n refl);
      short = omega (arith, m is_odd, o.short);
    }

next_pause-doubling : (p : ℕ) → is_doubling p ≡ true → is_doubling (next_pause p) ≡ true
unfolding next_pause
next_pause-doubling p h = ground (arith, h)

pub looks-IsOnce :
    (i pause : ℕ) (w : World)
    → get_elem? w.threads i ≡ some (Place.napping pause)
    → IsOnce w
    → IsOnce (record w { threads = set w.threads i (once_look w.word pause) })
unfolding once_look
looks-IsOnce i pause w here o = elim (Bool-cases (w.word == once_done)) [
  | inl done ↦
      let m : Moves w.threads i (Place.napping pause) Place.returned =
        λ f. sum-set f w.threads i (Place.napping pause) Place.returned here in
      let end : w.word ≡ 2 = ground (arith, done) in
      rw done (record {
        range = o.range;
        owners = omega (arith, m is_running, m is_ran, o.owners);
        once = omega (arith, m is_running, o.once);
        none_early = λ n. absurd (n end);
        short = omega (arith, m is_odd, o.short);
      })
  | inr more ↦
      let m : Moves w.threads i (Place.napping pause) (Place.napping (next_pause pause)) =
        λ f. sum-set f w.threads i (Place.napping pause) (Place.napping (next_pause pause)) here in
      let old : is_odd (Place.napping pause) ≡ 0 =
        omega (arith, le-sum is_odd w.threads i (Place.napping pause) here, o.short) in
      let new : is_odd (Place.napping (next_pause pause)) ≡ 0 =
        let kept = next_pause-doubling pause (ground (arith, old)) in rw kept refl in
      rw more (record {
        range = o.range;
        owners = omega (arith, m is_running, m is_ran, o.owners);
        once = omega (arith, m is_running, o.once);
        none_early = λ n. omega (arith, m is_returned, o.none_early n);
        short = omega (arith, m is_odd, o.short, new);
      })
]
