-- ===== src/Async/Tasks/Wake.antt =====
-- headers/sppc/async/sched.h, `_gt_task_run`: the tasks that wait on one that finishes.
use mathlib.Core.List.{append-nil, append_assoc}
use mathlib.Core.Option
use sppc.Common.{
  ℕ, zero, suc, ◌<◌, ◌≡◌, refl, ap, sym, ◌∙◌, subst, true, false, Option, none, some, List, [], ◌∷◌,
  ◌++◌, arith, ◌==◌, if◌then◌else◌, Bool-cases, inl, inr, length,
}
use sppc.Async.{State, Task, Runtime, set_task}
use sppc.Async.Chain.{has, IsDistinct, Chain-frame, has-ne, distinct-front, distinct-behind}
use sppc.Async.Queue.{rq_push}
use sppc.Async.Queue.Order.{IsQueue, IsQueue-frame, rq_push-IsQueue}
use sppc.Async.Tasks.{wake_loop, mark_done, make_zombie, finish}

-- From `w` the `wnext` pointers lead through the waiting tasks `ws` to NULL.
abbrev pub Waiters : (ℕ → Task) → Option ℕ → List ℕ → Type 0
Waiters f w [] = w ≡ none
Waiters f w (x ∷ xs) = (w ≡ some x) × Waiters f (f x).wnext xs

Waiters-frame :
    (f g : ℕ → Task) (w : Option ℕ) (ws : List ℕ)
    → ((y : ℕ) → has y ws ≡ true → (g y).wnext ≡ (f y).wnext)
    → Waiters f w ws
    → Waiters g w ws
Waiters-frame f g w [] same c = c
Waiters-frame f g w (x ∷ xs) same c = (
  c.0,
  Waiters-frame f g (g x).wnext xs (λ y h. same y (ground arith))
      (subst (λ q. Waiters f q xs) (sym (same x (ground arith))) c.1),
)

rq_push-wnext : (t : ℕ) (r : Runtime) (y : ℕ) → ((rq_push t r).task y).wnext ≡ (r.task y).wnext
unfolding rq_push
rq_push-wnext t r y = ground arith

rq_push-state :
    (t : ℕ) (r : Runtime) (y : ℕ)
    → ((rq_push t r).task y).state ≡ (if y == t then State.ready else (r.task y).state)
unfolding rq_push
rq_push-state t r y = ground arith

rq_push-zombies : (t : ℕ) (r : Runtime) → (rq_push t r).zombies ≡ r.zombies
unfolding rq_push
rq_push-zombies t r = ground arith

-- What the loop leaves: the waiters on the queue in order, and nothing else of the runtime's own.
record Woken (r : Runtime) (xs ws : List ℕ) (out : Option Runtime) : Type 0 where
  last : Runtime
  ends : out ≡ some last
  queue : IsQueue last (xs ++ ws)
  same_zombies : last.zombies ≡ r.zombies
  ready : (y : ℕ) → has y ws ≡ true → (last.task y).state ≡ State.ready
  spared : (y : ℕ) → has y ws ≡ false → (last.task y).state ≡ (r.task y).state

wake_loop-Woken :
    (k : ℕ) (w : Option ℕ) (r : Runtime) (xs ws : List ℕ)
    → length ws < k
    → IsQueue r xs
    → IsDistinct (xs ++ ws)
    → Waiters r.task w ws
    → Woken r xs ws (wake_loop k w r)
unfolding wake_loop
wake_loop-Woken zero w r xs ws h q d c = absurd (omega arith)
wake_loop-Woken (suc k) w r xs [] h q d c = record {
  last = r;
  ends = rw c;
  queue = subst (IsQueue r) (sym (append-nil xs)) q;
  same_zombies = refl;
  ready = λ y m. cc;
  spared = λ y m. refl;
}
wake_loop-Woken (suc k) w r xs (x ∷ ws) h q d c =
    let a = set_task r x (record (r.task x) { wnext = none }) in
    let b = rq_push x a in
    let moved = append_assoc xs (x ∷ []) ws in
    let other : has x ws ≡ false = distinct-behind xs x ws d in
    let q' : IsQueue a xs = IsQueue-frame r a xs refl refl (λ y. ground arith) q in
    let rest =
      wake_loop-Woken k (r.task x).wnext b (xs ++ x ∷ []) ws (omega arith)
        (rq_push-IsQueue x a xs q' (distinct-front xs x ws d)) (subst IsDistinct (sym moved) d)
        (Waiters-frame r.task b.task (r.task x).wnext ws (λ y m. rq_push-wnext x a y ∙ ground arith)
          c.1) in
    record {
      last = rest.last;
      ends = ap (λ p. wake_loop (suc k) p r) c.0 ∙ rest.ends;
      queue = subst (IsQueue rest.last) moved rest.queue;
      same_zombies = rest.same_zombies ∙ rq_push-zombies x a;
      ready = λ y m. elim (Bool-cases (has y ws)) [
        | inl later ↦ rest.ready y later
        | inr now ↦ rest.spared y now ∙ rq_push-state x a y ∙ ground arith
      ];
      spared = λ y m. rest.spared y (ground arith) ∙ rq_push-state x a y ∙ ground arith;
    }

mark_done-wnext : (t : ℕ) (r : Runtime) (y : ℕ) → ((mark_done t r).task y).wnext ≡ (r.task y).wnext
unfolding mark_done
mark_done-wnext t r y = ground arith

mark_done-next : (t : ℕ) (r : Runtime) (y : ℕ) → ((mark_done t r).task y).next ≡ (r.task y).next
unfolding mark_done
mark_done-next t r y = ground arith

mark_done-state : (t : ℕ) (r : Runtime) → ((mark_done t r).task t).state ≡ State.done
unfolding mark_done
mark_done-state t r = ground arith

mark_done-IsQueue : (t : ℕ) (r : Runtime) (xs : List ℕ) → IsQueue r xs → IsQueue (mark_done t r) xs
unfolding mark_done
mark_done-IsQueue t r xs q =
    IsQueue-frame r (mark_done t r) xs refl refl (λ y. mark_done-next t r y) q

mark_done-zombies : (t : ℕ) (r : Runtime) → (mark_done t r).zombies ≡ r.zombies
unfolding mark_done
mark_done-zombies t r = refl

make_zombie-state :
    (t : ℕ) (r : Runtime) (y : ℕ) → ((make_zombie t r).task y).state ≡ (r.task y).state
unfolding make_zombie
make_zombie-state t r y = ground arith

make_zombie-zombies : (t : ℕ) (r : Runtime) → (make_zombie t r).zombies ≡ some t
unfolding make_zombie
make_zombie-zombies t r = refl

make_zombie-next : (t : ℕ) (r : Runtime) → ((make_zombie t r).task t).next ≡ r.zombies
unfolding make_zombie
make_zombie-next t r = ground arith

has-append_inr : (t : ℕ) (xs ys : List ℕ) → has t (xs ++ ys) ≡ false → has t ys ≡ false
has-append_inr t [] ys m = m
has-append_inr t (x ∷ xs) ys m = has-append_inr t xs ys (ground arith)

make_zombie-IsQueue :
    (t : ℕ) (r : Runtime) (xs : List ℕ)
    → has t xs ≡ false
    → IsQueue r xs
    → IsQueue (make_zombie t r) xs
unfolding make_zombie
make_zombie-IsQueue t r xs m q = record {
  chain =
      Chain-frame r.task (make_zombie t r).task r.rq_head xs
        (λ y n. ground (arith, has-ne t y xs m n)) q.chain;
  tail = q.tail;
  distinct = q.distinct;
}

finish-woken :
    (k : ℕ) (r b : Runtime)
    → wake_loop k (r.task r.current).waiters (mark_done r.current r) ≡ some b
    → finish k r ≡ some (make_zombie r.current b)
unfolding finish
finish-woken k r b e = ap (Option.map (make_zombie r.current)) e

-- The running task finishes with the waiters `ws`, in more rounds than they are; they and the queue
-- `xs` are distinct tasks, and it is none of them. Then it returns; every waiter is ready and on the
-- queue behind `xs`, in the order of the waiter list; the task is done, and heads the zombies.
pub finish-wakes :
    (k : ℕ) (r : Runtime) (xs ws : List ℕ)
    → length ws < k
    → IsQueue r xs
    → IsDistinct (xs ++ ws)
    → Waiters r.task (r.task r.current).waiters ws
    → has r.current (xs ++ ws) ≡ false
    → (s : Runtime) × (finish k r ≡ some s)
      × IsQueue s (xs ++ ws)
      × ((y : ℕ) → has y ws ≡ true → (s.task y).state ≡ State.ready)
      × ((s.task r.current).state ≡ State.done)
      × (s.zombies ≡ some r.current)
      × ((s.task r.current).next ≡ r.zombies)
finish-wakes k r xs ws h q d c alone =
    let self = r.current in
    let a = mark_done self r in
    let out =
      wake_loop-Woken k (r.task self).waiters a xs ws h (mark_done-IsQueue self r xs q) d (
        Waiters-frame r.task a.task (r.task self).waiters ws (λ y m. mark_done-wnext self r y) c) in
    let b = out.last in
    (
      make_zombie self b,
      finish-woken k r b out.ends,
      make_zombie-IsQueue self b (xs ++ ws) alone out.queue,
      (λ y m. make_zombie-state self b y ∙ out.ready y m),
      make_zombie-state self b self
          ∙ out.spared self (has-append_inr self xs ws alone)
          ∙ mark_done-state self r,
      make_zombie-zombies self b,
      make_zombie-next self b ∙ out.same_zombies ∙ mark_done-zombies self r,
    )
