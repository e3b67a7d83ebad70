-- ===== src/Windows/Threads/Freed.antt =====
-- When a thread's object is freed, whatever its callers do.
use sppc.Common.{
  ℕ, ◌+◌, ◌≤◌, ◌≡◌, refl, ap, sym, ◌∙◌, subst, Bool, true, false, Option, none, some, ◌==◌, arith,
  if◌then◌else◌, replicate, sum, sum_zero,
}
use sppc.Windows.Threads.{Thread, Attr, Created, made, create}
use sppc.Windows.Threads.Steps.{
  Runner, Place, World, Steps, IsCounted, is_alive, is_pending, is_taker, is_joined, is_misled,
  owed,
}
use sppc.Windows.Threads.Counted.{Step-IsCounted}

Steps-IsCounted : (w v : World) → Steps w v → IsCounted w → IsCounted v
Steps-IsCounted w _ (Steps.stop _) c = c
Steps-IsCounted w v (Steps.then_step _ u _ before last) c =
    Step-IsCounted u v last (Steps-IsCounted w u before c)

-- A thread as it was created, with `n` callers that know it.
abbrev pub start : ℕ → Thread → World
start n t = record { thread = t; runner = Runner.running; callers = replicate n Place.idle }

start-IsCounted : (n : ℕ) (detached handle : Bool) → IsCounted (start n (made detached handle))
unfolding made
start-IsCounted n detached handle = record {
  count = ground (arith, sum_zero is_pending n Place.idle refl);
  freed = ground arith;
  single = ground (arith, sum_zero is_taker n Place.idle refl);
  alone = λ _. sum_zero is_joined n Place.idle refl;
  told = sum_zero (is_misled 0) n Place.idle refl;
}

create-made :
    (attr : Option Attr) (memory begun resumed : Bool) (t : Thread)
    → create attr memory begun resumed ≡ Created.created t
    → (detached : Bool) × (t ≡ made detached true)
unfolding create
create-made attr false begun resumed t e = absurd (cc)
create-made attr true false resumed t e = absurd (cc)
create-made attr true true false t e = absurd (cc)
create-made none true true true t e = (false, cc)
create-made (some a) true true true t e = (a.detached, cc)

-- From the creation of a thread, whatever it and its callers do in any order, each call made while the object is there:
-- the object is not freed while the thread runs, the join is owed or a caller is still to touch it, and is freed once,
-- when none of these holds; at most one caller has the join, and a
-- join gives the thread's result.
pub thread-freed_once :
    (n : ℕ) (attr : Option Attr) (memory begun resumed : Bool) (t : Thread) (w : World)
    → create attr memory begun resumed ≡ Created.created t
    → Steps (start n t) w
    → (w.thread.freed
        ≡ (if is_alive w.runner + owed w.thread + sum is_pending w.callers == 0 then 1 else 0))
      × (sum is_taker w.callers ≤ 1)
      × (sum (is_misled w.thread.retval) w.callers ≡ 0)
thread-freed_once n attr memory begun resumed t w new steps =
    let (detached, same) = create-made attr memory begun resumed t new in
    let c =
      Steps-IsCounted (start n t) w steps
        (subst (λ t. IsCounted (start n t)) (sym same) (start-IsCounted n detached true)) in
    (c.freed ∙ ap (λ k. if k == 0 then 1 else 0) c.count, omega (arith, c.single), c.told)
