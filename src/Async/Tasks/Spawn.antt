-- ===== src/Async/Tasks/Spawn.antt =====
-- headers/sppc/async/sched.h, `_gt_spawn`: its steps, from the slot to the run queue.
pub mod Effect
pub mod Result
use sppc.Common.{
  ℕ, suc, ◌+◌, ◌-◌, ◌≤◌, ◌<◌, ◌^◌, ◌≡◌, refl, ap, sym, ◌∙◌, subst, Bool, true, false, Option, none,
  some, arith, List, [], ◌∷◌, ◌++◌, ◌==◌, if◌then◌else◌, inl, inr, ◌⊎◌, Bool-cases, if-either,
}
use sppc.Errno.{enomem}
use sppc.Async.{State, Task, Runtime}
use sppc.Async.Chain.{has}
use sppc.Async.Stacks.{Kernel, stack_alloc, stack_free, stack_unmap, map_stack, load_page}
use sppc.Async.Queue.{rq_push}
use sppc.Async.Queue.Order.{IsQueue, IsQueue-frame, rq_push-IsQueue}
use sppc.Async.Slots.{slot_alloc, slot_free}
use sppc.Async.Slots.Table.{IsTable}
use sppc.Async.Handle.{handle, resolve}
use sppc.Async.Handle.Fresh.{IsLive, resolve-handle}
use sppc.Async.Tasks.{
  Supply, Spawned, prime, spawn_ready, spawn_split, spawn_stacked, spawn_into, spawn_slot, spawn,
}

-- `s` differs from `r` in its stacks at most.
pub record Keeps (r s : Runtime) : Type 0 where
  pub tasks : s.task ≡ r.task
  pub head : s.rq_head ≡ r.rq_head
  pub tail : s.rq_tail ≡ r.rq_tail
  pub live : s.live ≡ r.live
  pub free_slots : s.free_slots ≡ r.free_slots
  pub nslots : s.nslots ≡ r.nslots
  pub cslots : s.cslots ≡ r.cslots

Keeps-trans : (r s u : Runtime) → Keeps r s → Keeps s u → Keeps r u
Keeps-trans r s u h k = record {
  tasks = k.tasks ∙ h.tasks;
  head = k.head ∙ h.head;
  tail = k.tail ∙ h.tail;
  live = k.live ∙ h.live;
  free_slots = k.free_slots ∙ h.free_slots;
  nslots = k.nslots ∙ h.nslots;
  cslots = k.cslots ∙ h.cslots;
}

stack_alloc-Keeps : (k : Kernel) (size : ℕ) (r : Runtime) → Keeps r (stack_alloc k size r).1
unfolding stack_alloc map_stack load_page
stack_alloc-Keeps k size r = record {
  tasks = ground arith;
  head = ground arith;
  tail = ground arith;
  live = ground arith;
  free_slots = ground arith;
  nslots = ground arith;
  cslots = ground arith;
}

stack_free-Keeps :
    (k : Kernel) (p : ℕ) (size : ℕ) (r : Runtime) → Keeps r (stack_free k (some p) size r)
unfolding stack_free stack_unmap load_page
stack_free-Keeps k p size r = record {
  tasks = ground arith;
  head = ground arith;
  tail = ground arith;
  live = ground arith;
  free_slots = ground arith;
  nslots = ground arith;
  cslots = ground arith;
}

-- What a spawn into the slot `t` comes to.
pub data Outcome (body t : ℕ) (r : Runtime) : Spawned × Runtime → Type 0 where
  fails : (a : Runtime) → Keeps r a → Outcome body t r (Spawned.failed enomem, slot_free t a)
  starts :
      (a : Runtime) (stack : ℕ) (ustack : Option ℕ) (sp : ℕ)
      → Keeps r a
      → Outcome body t r (
        Spawned.spawned (handle t (rq_push t (prime t body stack ustack sp a))),
        rq_push t (prime t body stack ustack sp a),
      )

spawn_split-Outcome :
    (s : Supply) (body t p : ℕ) (u : Option ℕ) (r a : Runtime)
    → Keeps r a
    → Outcome body t r (spawn_split s body t p u a)
unfolding spawn_split spawn_ready
spawn_split-Outcome s body t p none r a k =
    Outcome.fails (stack_free s.for_stack (some p) a.stack_size a) (
      Keeps-trans r a (stack_free s.for_stack (some p) a.stack_size a) k
        (stack_free-Keeps s.for_stack p a.stack_size a))
spawn_split-Outcome s body t p (some u) r a k =
    Outcome.starts a p (some u) (s.primed p a.stack_size) k

spawn_stacked-Outcome :
    (s : Supply) (body t : ℕ) (o : Option ℕ) (r a : Runtime)
    → Keeps r a
    → Outcome body t r (spawn_stacked s body t o a)
unfolding spawn_stacked spawn_ready
spawn_stacked-Outcome s body t none r a k = Outcome.fails a k
spawn_stacked-Outcome s body t (some p) r a k =
    let u = stack_alloc s.for_ustack a.stack_size a in
    if-either (Outcome body t r) s.unsafe_stack_wanted (spawn_split s body t p u.0 u.1)
      (spawn_ready s body t p none a)
      (λ e.
        spawn_split-Outcome s body t p u.0 r u.1
          (Keeps-trans r a u.1 k (stack_alloc-Keeps s.for_ustack a.stack_size a)))
      (λ e. Outcome.starts a p none (s.primed p a.stack_size) k)

pub spawn_into-Outcome :
    (s : Supply) (body t : ℕ) (r : Runtime) → Outcome body t r (spawn_into s body t r)
unfolding spawn_into
spawn_into-Outcome s body t r =
    let a = stack_alloc s.for_stack r.stack_size r in
    spawn_stacked-Outcome s body t a.0 r a.1 (stack_alloc-Keeps s.for_stack r.stack_size r)
