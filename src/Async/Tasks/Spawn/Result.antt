-- ===== src/Async/Tasks/Spawn/Result.antt =====
-- headers/sppc/async/sched.h, `_gt_spawn`: the outcomes of a spawn, seen from its caller.
use sppc.Common.{
  ℕ, ◌+◌, ◌≤◌, ◌<◌, ◌^◌, ◌≡◌, ap, sym, ◌∙◌, subst, Bool, true, false, some, arith, List, [], ◌∷◌,
  ◌++◌, inl, inr, Option-cases, Bool-cases,
}
use sppc.Errno.{enomem}
use sppc.Async.{State, Runtime}
use sppc.Async.Chain.{has}
use sppc.Async.Queue.{rq_push}
use sppc.Async.Queue.Order.{IsQueue, IsQueue-frame, rq_push-IsQueue}
use sppc.Async.Slots.{slot_alloc, slot_free}
use sppc.Async.Slots.Table.{IsTable, FitsGen}
use sppc.Async.Slots.Alloc.{slot_alloc-IsTable, slot_alloc-free}
use sppc.Async.Handle.{is_free, handle, resolve}
use sppc.Async.Handle.Fresh.{IsLive, resolve-handle}
use sppc.Async.Tasks.{Supply, Spawned, prime, spawn_slot, spawn}
use sppc.Async.Tasks.Spawn.{Keeps, Outcome, spawn_into-Outcome}
use sppc.Async.Tasks.Spawn.Effect.{
  IsQueue-other, slot_alloc-ends, slot_alloc-other, slot_alloc-live, slot_alloc-inside,
  slot_alloc-none, slot_free-other, prime-other, started,
}

-- The result of a spawn of `body` on `r`, whose run queue is `xs`: ENOMEM with the queue and the
-- count of tasks as before; or the handle of a new task that is ready, runs `body`, stands last on
-- the queue and is the one the handle resolves to.
pub data Result (body : ℕ) (r : Runtime) (xs : List ℕ) : Spawned × Runtime → Type 0 where
  out_of_memory :
      (s : Runtime) → IsQueue s xs → s.live ≡ r.live → Result body r xs (Spawned.failed enomem, s)
  running :
      (s : Runtime) (t : ℕ)
      → has t xs ≡ false
      → IsQueue s (xs ++ t ∷ [])
      → s.live ≡ r.live + 1
      → (s.task t).body ≡ some body
      → (s.task t).state ≡ State.ready
      → resolve (handle t s) s ≡ some t
      → Result body r xs (Spawned.spawned (handle t s), s)

-- A slot that `a` has just got for a task, which the queue of `a` does not hold.
record IsNew (r a : Runtime) (t : ℕ) (xs : List ℕ) : Type 0 where
  queue : IsQueue a xs
  out : has t xs ≡ false
  live : a.live ≡ r.live + 1
  inside : t < a.nslots
  table : a.nslots ≤ 2 ^ 20
  gen : FitsGen (a.task t).gen

Keeps-IsQueue : (r s : Runtime) (xs : List ℕ) → Keeps r s → IsQueue r xs → IsQueue s xs
Keeps-IsQueue r s xs k q = IsQueue-frame r s xs k.head k.tail (λ y. ap (λ f. (f y).next) k.tasks) q

settle :
    (body t : ℕ) (r a : Runtime) (xs : List ℕ) (o : Spawned × Runtime)
    → IsNew r a t xs
    → Outcome body t a o
    → Result body r xs o
settle body t r a xs o n (Outcome.fails b k) =
    let f = slot_free-other t b in
    Result.out_of_memory (slot_free t b)
      (IsQueue-other b (slot_free t b) t xs f.0 f.1 f.3 n.out (Keeps-IsQueue a b xs k n.queue))
      (omega (arith, f.2, k.live, n.live))
settle body t r a xs o n (Outcome.starts b stack ustack sp k) =
    let p = prime-other t body stack sp ustack b in
    let q = prime t body stack ustack sp b in
    let c = started t body stack sp ustack b in
    let queue = IsQueue-frame b q xs p.0 p.1 p.2 (Keeps-IsQueue a b xs k n.queue) in
    let gen : ((rq_push t q).task t).gen ≡ (a.task t).gen = c.1 ∙ ap (λ f. (f t).gen) k.tasks in
    let live : IsLive (rq_push t q) t = record {
      index = omega (arith, n.inside, k.nslots, c.4);
      table = omega (arith, n.table, k.nslots, c.4);
      gen_pos = omega (arith, gen, n.gen.0);
      gen_small = omega (arith, gen, n.gen.1);
      used = ap is_free c.2;
    } in
    Result.running (rq_push t q) t n.out (rq_push-IsQueue t q xs queue n.out)
      (omega (arith, c.3, k.live, n.live)) c.0 c.2 (resolve-handle t (rq_push t q) live).2

-- The slot that an allocation gives is not in a queue of tasks that are in busy.
slot_alloc-unused :
    (rk ck : Bool) (t : ℕ) (r : Runtime) (fs xs : List ℕ)
    → IsTable r fs
    → ((y : ℕ) → has y xs ≡ true → (y < r.nslots) × (has y fs ≡ false))
    → (slot_alloc rk ck r).0 ≡ some t
    → (has t xs ≡ false) × (t < (slot_alloc rk ck r).1.nslots)
slot_alloc-unused rk ck t r [] xs i busy o =
    let n = slot_alloc-inside rk ck r t o i.chain in
    (
      elim (Bool-cases (has t xs)) [
        | inl m ↦ absurd (omega (arith, (busy t m).0, n.0))
        | inr m ↦ m
      ],
      omega (arith, n.0, n.1),
    )
slot_alloc-unused rk ck t r (f ∷ fs) xs i busy o =
    let n = slot_alloc-free rk ck f r i.chain.0 in
    let same : t ≡ f = ground (arith, o, n.0) in
    (
      elim (Bool-cases (has t xs)) [
        | inl m ↦ absurd (ground (arith, (busy t m).1, same))
        | inr m ↦ m
      ],
      omega (arith, same, i.inside f (ground arith), n.3),
    )

-- A spawn on a well-formed table whose free slots are not in the run queue `xs`, whatever the memory
-- and the kernel's answers, has one of the two outcomes of `Result`: ENOMEM with the queue and the
-- count of tasks as before, or a ready task behind `xs` that its handle resolves to.
pub spawn-Result :
    (s : Supply) (body : ℕ) (r : Runtime) (fs xs : List ℕ)
    → IsTable r fs
    → IsQueue r xs
    → ((y : ℕ) → has y xs ≡ true → (y < r.nslots) × (has y fs ≡ false))
    → Result body r xs (spawn s body r)
unfolding spawn spawn_slot
spawn-Result s body r fs xs i q busy =
    let rk = s.realloc_ok in
    let ck = s.calloc_ok in
    let a = (slot_alloc rk ck r).1 in
    let ends = slot_alloc-ends rk ck r in
    elim (Option-cases (slot_alloc rk ck r).0) [
      | inl o ↦
          let n = slot_alloc-none rk ck r o in
          subst (λ p. Result body r xs (spawn_slot s body p a)) (sym o)
            (Result.out_of_memory a (IsQueue-frame r a xs ends.0 ends.1 n.1 q) n.0)
      | inr (t, o) ↦
          let u = slot_alloc-unused rk ck t r fs xs i busy o in
          let (gs, al, table) = slot_alloc-IsTable rk ck r fs i in
          let new : IsNew r a t xs = record {
            queue =
                IsQueue-other r a t xs ends.0 ends.1 (λ y e. slot_alloc-other rk ck r t y o e) u.0
                  q;
            out = u.0;
            live = slot_alloc-live rk ck r t o;
            inside = u.1;
            table = omega (arith, table.room, table.bound);
            gen = table.gens t u.1;
          } in
          subst (λ p. Result body r xs (spawn_slot s body p a)) (sym o)
            (settle body t r a xs (spawn_slot s body (some t) a) new
              (spawn_into-Outcome s body t a))
    ]
