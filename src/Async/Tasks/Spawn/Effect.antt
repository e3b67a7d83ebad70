-- ===== src/Async/Tasks/Spawn/Effect.antt =====
-- headers/sppc/async/sched.h: what the steps of `_gt_spawn` do to the queue, the table and the
-- count of tasks.
use sppc.Common.{
  ℕ, ◌+◌, ◌-◌, ◌≡◌, refl, sym, ◌∙◌, subst, Bool, false, Option, none, some, arith, List, ◌==◌,
}
use sppc.Async.{State, Runtime}
use sppc.Async.Chain.{has, has-ne, Chain, Chain-frame}
use sppc.Async.Queue.{rq_push}
use sppc.Async.Queue.Order.{IsQueue}
use sppc.Async.Slots.{slot_alloc, slot_free, slot_append}
use sppc.Async.Tasks.{prime}

-- A write to the slot `t`, which is not in the queue, keeps the queue.
pub IsQueue-other :
    (r s : Runtime) (t : ℕ) (xs : List ℕ)
    → s.rq_head ≡ r.rq_head
    → s.rq_tail ≡ r.rq_tail
    → ((y : ℕ) → (y == t) ≡ false → (s.task y).next ≡ (r.task y).next)
    → has t xs ≡ false
    → IsQueue r xs
    → IsQueue s xs
IsQueue-other r s t xs head tail same out q = record {
  chain =
      subst (λ p. Chain s.task p xs) (sym head)
        (Chain-frame r.task s.task r.rq_head xs (λ y m. same y (has-ne t y xs out m)) q.chain);
  tail = tail ∙ q.tail;
  distinct = q.distinct;
}

module _ (rk ck : Bool) (r : Runtime) where
  pub slot_alloc-ends :
      ((slot_alloc rk ck r).1.rq_head ≡ r.rq_head) × ((slot_alloc rk ck r).1.rq_tail ≡ r.rq_tail)
  unfolding slot_alloc slot_append
  slot_alloc-ends = (ground arith, ground arith)

  pub slot_alloc-other :
      (t y : ℕ)
      → (slot_alloc rk ck r).0 ≡ some t
      → (y == t) ≡ false
      → ((slot_alloc rk ck r).1.task y).next ≡ (r.task y).next
  unfolding slot_alloc slot_append
  slot_alloc-other t y o e = ground arith

  pub slot_alloc-live :
      (t : ℕ) → (slot_alloc rk ck r).0 ≡ some t → (slot_alloc rk ck r).1.live ≡ r.live + 1
  unfolding slot_alloc slot_append
  slot_alloc-live t o = ground arith

  pub slot_alloc-inside :
      (t : ℕ)
      → (slot_alloc rk ck r).0 ≡ some t
      → r.free_slots ≡ none
      → (t ≡ r.nslots) × ((slot_alloc rk ck r).1.nslots ≡ r.nslots + 1)
  unfolding slot_alloc slot_append
  slot_alloc-inside t o e = (ground arith, ground arith)

  pub slot_alloc-none :
      (slot_alloc rk ck r).0 ≡ none
      → ((slot_alloc rk ck r).1.live ≡ r.live)
        × ((y : ℕ) → ((slot_alloc rk ck r).1.task y).next ≡ (r.task y).next)
  unfolding slot_alloc slot_append
  slot_alloc-none o = (ground arith, λ y. ground arith)

module _ (t : ℕ) (r : Runtime) where
  pub slot_free-other :
      ((slot_free t r).rq_head ≡ r.rq_head)
      × ((slot_free t r).rq_tail ≡ r.rq_tail)
      × ((slot_free t r).live ≡ r.live - 1)
      × ((y : ℕ) → (y == t) ≡ false → ((slot_free t r).task y).next ≡ (r.task y).next)
  unfolding slot_free
  slot_free-other = (refl, refl, refl, λ y e. ground arith)

module _ (t body stack sp : ℕ) (ustack : Option ℕ) (r : Runtime) where
  pub prime-other :
      ((prime t body stack ustack sp r).rq_head ≡ r.rq_head)
      × ((prime t body stack ustack sp r).rq_tail ≡ r.rq_tail)
      × ((y : ℕ) → ((prime t body stack ustack sp r).task y).next ≡ (r.task y).next)
  unfolding prime
  prime-other = (refl, refl, λ y. ground arith)

  -- The new task, once it is on the queue.
  pub started :
      let c = rq_push t (prime t body stack ustack sp r) in
      ((c.task t).body ≡ some body)
      × ((c.task t).gen ≡ (r.task t).gen)
      × ((c.task t).state ≡ State.ready)
      × (c.live ≡ r.live)
      × (c.nslots ≡ r.nslots)
  unfolding prime rq_push
  started = (ground arith, ground arith, ground arith, ground arith, ground arith)
