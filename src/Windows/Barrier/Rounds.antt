-- ===== src/Windows/Barrier/Rounds.antt =====
-- A barrier of windows.h under any interleaving of any number of threads.
use sppc.Common.{
  ℕ, ◌+◌, ◌-◌, ◌%◌, ◌^◌, ◌<◌, ◌≡◌, ◌≢◌, refl, sym, ◌∙◌, subst, none, some, List, ◌==◌, arith,
  if◌then◌else◌, get_elem?, set, sum, sum-set, Bool-cases, inl, inr,
}
use sppc.Windows.Barrier.{Barrier, Arrival, barrier_arrive, barrier_wake}

-- Where a thread is: outside a wait, or inside one, asleep on a generation.
pub data Place : Type 0 where
  outside : Place
  inside : ℕ → Place

pub record World : Type 0 where
  pub barrier : Barrier
  pub threads : List Place

-- An atomic step of one of the threads, and how many rounds it completes.
pub data Step : ℕ → World → World → Type 0 where
  completes :
      (i : ℕ) (w : World)
      → get_elem? w.threads i ≡ some Place.outside
      → (barrier_arrive w.barrier).0 ≡ Arrival.serial
      → Step 1 w (record w { barrier = (barrier_arrive w.barrier).1 })
  arrives :
      (i g : ℕ) (w : World)
      → get_elem? w.threads i ≡ some Place.outside
      → (barrier_arrive w.barrier).0 ≡ Arrival.asleep g
      → Step 0 w (record {
        barrier = (barrier_arrive w.barrier).1;
        threads = set w.threads i (Place.inside g);
      })
  leaves :
      (i g : ℕ) (w : World) (b : Barrier)
      → get_elem? w.threads i ≡ some (Place.inside g)
      → barrier_wake g w.barrier ≡ some b
      → Step 0 w (record { barrier = b; threads = set w.threads i Place.outside })

-- Any number of steps, and the rounds that they complete.
pub data Steps : ℕ → World → World → Type 0 where
  stop : (w : World) → Steps 0 w w
  then_step : (n m : ℕ) (w v u : World) → Steps n w v → Step m v u → Steps (n + m) w u

abbrev pub is_asleep_on : ℕ → Place → ℕ
is_asleep_on g Place.outside = 0
is_asleep_on g (Place.inside h) = if h == g then 1 else 0

abbrev pub is_inside : Place → ℕ
is_inside Place.outside = 0
is_inside (Place.inside h) = 1

-- After `n` rounds: those asleep on the round and those it still waits for are as many as the barrier counts, at least
-- one is still to come, and the barrier knows how many threads are inside a wait.
pub record IsRound (n : ℕ) (w : World) : Type 0 where
  pub generation : w.barrier.generation ≡ n
  pub open_place : 0 < w.barrier.remaining
  pub arrived : sum (is_asleep_on n) w.threads + w.barrier.remaining ≡ w.barrier.count
  pub waiting : w.barrier.waiters ≡ sum is_inside w.threads
  pub none_ahead : (g : ℕ) → n < g → sum (is_asleep_on g) w.threads ≡ 0

module _ (b : Barrier) where
  arrive-serial :
      (barrier_arrive b).0 ≡ Arrival.serial
      → 0 < b.remaining
      → (b.remaining ≡ 1)
        × ((barrier_arrive b).1
            ≡ record b { remaining = b.count; generation = (b.generation + 1) % 2 ^ 32 })
  unfolding barrier_arrive
  arrive-serial e h = elim (Bool-cases (b.remaining - 1 == 0)) [
    | inl last ↦ (ground (arith, last), rw last refl)
    | inr more ↦
        let e' : Arrival.asleep b.generation ≡ Arrival.serial = (rw more at e) in absurd (cc)
  ]

  arrive-asleep :
      (g : ℕ)
      → (barrier_arrive b).0 ≡ Arrival.asleep g
      → (g ≡ b.generation)
        × (1 < b.remaining)
        × ((barrier_arrive b).1 ≡ record b { remaining = b.remaining - 1; waiters = b.waiters + 1 })
  unfolding barrier_arrive
  arrive-asleep g e = elim (Bool-cases (b.remaining - 1 == 0)) [
    | inl last ↦ let e' : Arrival.serial ≡ Arrival.asleep g = (rw last at e) in absurd (cc)
    | inr more ↦
        let e' : Arrival.asleep b.generation ≡ Arrival.asleep g = (rw more at e) in
        (cc, ground (arith, more), rw more refl)
  ]

  wake-parts :
      (g : ℕ) (b' : Barrier)
      → barrier_wake g b ≡ some b'
      → (b.generation ≢ g) × (b' ≡ record b { waiters = b.waiters - 1 })
  unfolding barrier_wake
  wake-parts g b' e = elim (Bool-cases (b.generation == g)) [
    | inl same ↦ let e' : none ≡ some b' = (rw same at e) in absurd (cc)
    | inr other ↦
        let e' : some (record b { waiters = b.waiters - 1 }) ≡ some b' = (rw other at e) in
        (ground (arith, other), cc)
  ]

asleep-other : (g h : ℕ) → h ≢ g → is_asleep_on g (Place.inside h) ≡ 0
asleep-other g h n = ground arith

asleep_self : (g : ℕ) → is_asleep_on g (Place.inside g) ≡ 1
asleep_self g = ground arith

pub completes-IsRound :
    (n : ℕ) (w : World)
    → IsRound n w
    → n + 1 < 2 ^ 32
    → (barrier_arrive w.barrier).0 ≡ Arrival.serial
    → IsRound (n + 1) (record w { barrier = (barrier_arrive w.barrier).1 })
completes-IsRound n w r fits e =
    let (one, after) = arrive-serial w.barrier e r.open_place in
    subst (λ b. IsRound (n + 1) (record w { barrier = b })) (sym after)
      (record {
        generation = omega (arith, r.generation);
        open_place = omega (arith, r.arrived, r.open_place);
        arrived = omega (arith, r.none_ahead (n + 1) (omega arith));
        waiting = r.waiting;
        none_ahead = λ g h. r.none_ahead g (omega arith);
      })

pub arrives-IsRound :
    (n i g : ℕ) (w : World)
    → IsRound n w
    → get_elem? w.threads i ≡ some Place.outside
    → (barrier_arrive w.barrier).0 ≡ Arrival.asleep g
    → IsRound n (record {
      barrier = (barrier_arrive w.barrier).1;
      threads = set w.threads i (Place.inside g);
    })
arrives-IsRound n i g w r here e =
    let (same, more, after) = arrive-asleep w.barrier g e in
    let now : g ≡ n = same ∙ r.generation in
    let moved : (f : Place → ℕ)
        → sum f (set w.threads i (Place.inside g)) + f Place.outside
          ≡ sum f w.threads + f (Place.inside g) =
      λ f. sum-set f w.threads i Place.outside (Place.inside g) here in
    let own : is_asleep_on n (Place.inside g) ≡ 1 = rw now (asleep_self n) in
    subst (λ b. IsRound n (record { barrier = b; threads = set w.threads i (Place.inside g) }))
      (sym after)
      (record {
        generation = r.generation;
        open_place = omega (arith, more);
        arrived = omega (arith, moved (is_asleep_on n), own, r.arrived, more);
        waiting = omega (arith, moved is_inside, r.waiting);
        none_ahead = λ h ahead. omega (
          arith,
          moved (is_asleep_on h),
          asleep-other h g (omega (arith, now)),
          r.none_ahead h ahead,
        );
      })

pub leaves-IsRound :
    (n i g : ℕ) (w : World) (b : Barrier)
    → IsRound n w
    → get_elem? w.threads i ≡ some (Place.inside g)
    → barrier_wake g w.barrier ≡ some b
    → IsRound n (record { barrier = b; threads = set w.threads i Place.outside })
leaves-IsRound n i g w b r here e =
    let (other, after) = wake-parts w.barrier g b e in
    let past : g ≢ n = λ s. other (r.generation ∙ sym s) in
    let moved : (f : Place → ℕ)
        → sum f (set w.threads i Place.outside) + f (Place.inside g)
          ≡ sum f w.threads + f Place.outside =
      λ f. sum-set f w.threads i (Place.inside g) Place.outside here in
    subst (λ b. IsRound n (record { barrier = b; threads = set w.threads i Place.outside }))
      (sym after)
      (record {
        generation = r.generation;
        open_place = r.open_place;
        arrived = omega (arith, moved (is_asleep_on n), asleep-other n g past, r.arrived);
        waiting = omega (arith, moved is_inside, r.waiting);
        none_ahead = λ h ahead. omega (arith, moved (is_asleep_on h), r.none_ahead h ahead);
      })
