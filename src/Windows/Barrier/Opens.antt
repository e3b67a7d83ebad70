-- ===== src/Windows/Barrier/Opens.antt =====
-- When a barrier of windows.h opens, and when it may be destroyed.
use sppc.Common.{
  ℕ, ◌+◌, ◌^◌, ◌<◌, ◌≡◌, refl, ap, sym, ◌∙◌, subst, Option, none, some, ◌==◌, arith, replicate,
  Bool-cases, inl, inr, ltb, ◌||◌, sum, sum_zero,
}
use sppc.Errno.{einval}
use sppc.Windows.Barrier.{long_max, Barrier, barrier_init, Destroyed, destroy_look}
use sppc.Windows.Barrier.Rounds.{
  Place, World, Step, Steps, IsRound, is_inside, is_asleep_on, completes-IsRound, arrives-IsRound,
  leaves-IsRound,
}

plus_zero-IsRound : (n : ℕ) (w : World) → IsRound n w → IsRound (n + 0) w
plus_zero-IsRound n w r = let same : n ≡ n + 0 = omega arith in subst (λ k. IsRound k w) same r

Step-IsRound :
    (n m : ℕ) (w v : World) → Step m w v → IsRound n w → n + m < 2 ^ 32 → IsRound (n + m) v
Step-IsRound n _ w _ (Step.completes i _ here e) r fits = completes-IsRound n w r fits e
Step-IsRound n _ w _ (Step.arrives i g _ here e) r fits =
    plus_zero-IsRound n _ (arrives-IsRound n i g w r here e)
Step-IsRound n _ w _ (Step.leaves i g _ b here e) r fits =
    plus_zero-IsRound n _ (leaves-IsRound n i g w b r here e)

Steps-IsRound : (n : ℕ) (w v : World) → Steps n w v → IsRound 0 w → n < 2 ^ 32 → IsRound n v
Steps-IsRound _ w _ (Steps.stop _) r fits = r
Steps-IsRound _ w v (Steps.then_step n m _ u _ before last) r fits =
    Step-IsRound n m u v last (Steps-IsRound n w u before r (omega arith)) fits

-- A new barrier, with `k` threads outside it.
abbrev pub start : ℕ → Barrier → World
start k b = record { barrier = b; threads = replicate k Place.outside }

barrier_init-parts :
    (count : ℕ) (b : Barrier)
    → barrier_init count ≡ (0, some b)
    → (0 < count) × (b ≡ record { count = count; remaining = count; generation = 0; waiters = 0 })
unfolding barrier_init
barrier_init-parts count b e = elim (Bool-cases (count == 0 || ltb long_max count)) [
  | inl bad ↦
      let e' : ◌≡◌ {A = ℕ × Option Barrier} (einval, none) (0, some b) = (rw bad at e) in
      let fail : none ≡ some b = ap (λ x. x.1) e' in absurd (cc)
  | inr good ↦
      let made : Barrier = record {
        count = count;
        remaining = count;
        generation = 0;
        waiters = 0;
      } in
      let e' : ◌≡◌ {A = ℕ × Option Barrier} (0, some made) (0, some b) = (rw good at e) in
      let built : some made ≡ some b = ap (λ x. x.1) e' in (ground (arith, good), cc)
]

destroyed-empty : (b : Barrier) → destroy_look b ≡ Destroyed.destroyed → b.waiters ≡ 0
unfolding destroy_look
destroyed-empty b e = ground (arith, e)

-- From a barrier made for `count` threads and `k` threads outside it, whatever their steps, while fewer than 2^32 rounds
-- have been completed: those asleep on the present round and those still to arrive are `count` together, at least one
-- of them still to come; and at the look that ends a destroy no thread is inside a wait.
pub barrier-opens :
    (count k n : ℕ) (b : Barrier) (w : World)
    → barrier_init count ≡ (0, some b)
    → Steps n (start k b) w
    → n < 2 ^ 32
    → (sum (is_asleep_on w.barrier.generation) w.threads + w.barrier.remaining ≡ w.barrier.count)
      × (0 < w.barrier.remaining)
      × (destroy_look w.barrier ≡ Destroyed.destroyed → sum is_inside w.threads ≡ 0)
barrier-opens count k n b w made steps fits =
    let (pos, same) = barrier_init-parts count b made in
    let fresh : Barrier = record {
      count = count;
      remaining = count;
      generation = 0;
      waiters = 0;
    } in
    let r0 : IsRound 0 (start k b) =
      subst (λ c. IsRound 0 (start k c)) (sym same)
        (record {
          generation = refl;
          open_place = pos;
          arrived = omega (arith, sum_zero (is_asleep_on 0) k Place.outside refl);
          waiting = sym (sum_zero is_inside k Place.outside refl);
          none_ahead = λ g h. sum_zero (is_asleep_on g) k Place.outside refl;
        }) in
    let r = Steps-IsRound n (start k b) w steps r0 fits in
    (
      subst (λ g. sum (is_asleep_on g) w.threads + w.barrier.remaining ≡ w.barrier.count)
          (sym r.generation) r.arrived,
      r.open_place,
      λ e. sym r.waiting ∙ destroyed-empty w.barrier e,
    )
