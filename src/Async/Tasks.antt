-- ===== src/Async/Tasks.antt =====
-- headers/sppc/async/sched.h: switching, spawning, finishing, awaiting and detaching tasks. Where
-- the source switches to another task, the function here ends with that task current; what the
-- code does once it is switched back to is a function of its own (`reap`, `await_end`).
pub mod Wake
pub mod Rotation
pub mod Spawn
pub mod Await
use mathlib.Core.Option
use sppc.Common.{
  ℕ, zero, suc, ◌+◌, ◌-◌, Bool, true, false, Option, none, some, List, [], ◌∷◌, ◌==◌, if◌then◌else◌,
  ◌||◌,
}
use sppc.Errno.{enomem, einval, edeadlk}
use sppc.Async.{State, Task, Runtime, set_task}
use sppc.Async.Stacks.{Kernel, stack_alloc, stack_free}
use sppc.Async.Queue.{rq_push, rq_pop}
use sppc.Async.Slots.{slot_alloc, slot_free}
use sppc.Async.Handle.{handle, resolve}

-- `_gt_switch_to`, up to the switch.
unfoldable pub switch_to : ℕ → Runtime → Runtime
switch_to next r =
    if next == r.current
    then set_task r next (record (r.task next) { state = State.running })
    else let a = set_task r next (record (r.task next) { state = State.running }) in
      let b = set_task a r.current (record (a.task r.current) { usp = r.unsafe_stack_ptr }) in
      record b { current = next; unsafe_stack_ptr = (b.task next).usp }

-- The completions that one poll of the i/o backend collects: each task is made ready.
unfoldable pub complete : List ℕ → Runtime → Runtime
complete [] r = r
complete (t ∷ ts) r = let q = rq_push t r in complete ts (record q { inflight = q.inflight - 1 })

-- `_gt_io_poll(0)` behind its test; `done` is what the backend has finished by then.
unfoldable pub poll : List ℕ → Runtime → Runtime
unfolding complete
poll done r = if r.inflight == 0 then r else complete done r

-- `_gt_yield`, on a runtime that has started.
unfoldable pub yield : List ℕ → Runtime → Runtime
unfolding poll
yield done r =
    let (next, q) = rq_pop (poll done r) in
    elim next [ none ↦ q | some n ↦ switch_to n (rq_push r.current q) ]

-- `_gt_spawn`'s stores into the slot `t`, once it has its stacks.
unfoldable pub prime : ℕ → ℕ → ℕ → Option ℕ → ℕ → Runtime → Runtime
prime t body stack ustack sp r =
    let size = r.stack_size in
    set_task r t (record (r.task t) {
      body = some body;
      stack = some stack;
      stack_size = size;
      ustack = ustack;
      ustack_size = elim ustack [ none ↦ 0 | some _ ↦ size ];
      usp = elim ustack [ none ↦ none | some u ↦ some (u + size) ];
      sp = sp;
    })

-- What `_gt_spawn` asks of the system: memory for a slot, the kernel's answers for each stack,
-- whether the program has split stacks, and where priming leaves the stack pointer.
pub record Supply : Type 0 where
  pub realloc_ok : Bool
  pub calloc_ok : Bool
  pub for_stack : Kernel
  pub for_ustack : Kernel
  pub unsafe_stack_wanted : Bool
  pub primed : ℕ → ℕ → ℕ

-- The outcome of a spawn: the error, or the handle.
pub data Spawned : Type 0 where
  failed : ℕ → Spawned
  spawned : ℕ → Spawned

-- The task `t`, with its stacks, primed and put on the run queue.
unfoldable pub spawn_ready : Supply → ℕ → ℕ → ℕ → Option ℕ → Runtime → Spawned × Runtime
unfolding prime
spawn_ready s body t stack ustack r =
    let c = rq_push t (prime t body stack ustack (s.primed stack r.stack_size) r) in
    (Spawned.spawned (handle t c), c)

-- `_gt_spawn` once the unsafe stack was asked for: without it, the stack and the slot go back.
unfoldable pub spawn_split : Supply → ℕ → ℕ → ℕ → Option ℕ → Runtime → Spawned × Runtime
unfolding spawn_ready slot_free stack_free
spawn_split s body t stack none r =
    (Spawned.failed enomem, slot_free t (stack_free s.for_stack (some stack) r.stack_size r))
spawn_split s body t stack (some u) r = spawn_ready s body t stack (some u) r

-- `_gt_spawn` once the stack was asked for: without it, the slot goes back.
unfoldable pub spawn_stacked : Supply → ℕ → ℕ → Option ℕ → Runtime → Spawned × Runtime
unfolding spawn_split slot_free stack_alloc
spawn_stacked s body t none r = (Spawned.failed enomem, slot_free t r)
spawn_stacked s body t (some stack) r =
    let u = stack_alloc s.for_ustack r.stack_size r in
    if s.unsafe_stack_wanted
    then spawn_split s body t stack u.0 u.1
    else spawn_ready s body t stack none r

-- `_gt_spawn` once it has the slot `t`.
unfoldable pub spawn_into : Supply → ℕ → ℕ → Runtime → Spawned × Runtime
unfolding stack_alloc spawn_stacked
spawn_into s body t r =
    let a = stack_alloc s.for_stack r.stack_size r in spawn_stacked s body t a.0 a.1

-- `_gt_spawn` once a slot was asked for.
unfoldable pub spawn_slot : Supply → ℕ → Option ℕ → Runtime → Spawned × Runtime
unfolding spawn_into
spawn_slot s body none r = (Spawned.failed enomem, r)
spawn_slot s body (some t) r = spawn_into s body t r

-- `_gt_spawn` of a closure whose environment is `body`, on a runtime that has started.
unfoldable pub spawn : Supply → ℕ → Runtime → Spawned × Runtime
unfolding slot_alloc spawn_slot
spawn s body r = let a = slot_alloc s.realloc_ok s.calloc_ok r in spawn_slot s body a.0 a.1

-- The waking of `_gt_task_run`: each waiter, from `w` on, goes to the run queue.
unfoldable pub wake_loop : ℕ → Option ℕ → Runtime → Option Runtime
wake_loop zero w r = none
wake_loop (suc rounds) none r = some r
wake_loop (suc rounds) (some w) r =
    wake_loop rounds (r.task w).wnext
      (rq_push w (set_task r w (record (r.task w) { wnext = none })))

-- The stores of `_gt_task_run` behind the return of the task's body, before it wakes the waiters.
unfoldable pub mark_done : ℕ → Runtime → Runtime
mark_done t r = set_task r t (record (r.task t) { body = none; state = State.done; waiters = none })

-- A finished task put on the zombies.
unfoldable pub make_zombie : ℕ → Runtime → Runtime
make_zombie t r = record (set_task r t (record (r.task t) { next = r.zombies })) {
  zombies = some t;
}

-- `_gt_task_run` from the return of the task's body up to `_gt_pick`: the task is done, its waiters
-- are ready, and it is a zombie.
unfoldable pub finish : ℕ → Runtime → Option Runtime
unfolding wake_loop mark_done make_zombie
finish rounds r =
    Option.map (make_zombie r.current)
      (wake_loop rounds (r.task r.current).waiters (mark_done r.current r))

-- What `_gt_await` does with a handle: it refuses it, collects a task that is done, or parks the
-- caller on a task that is not.
pub data Awaited : Type 0 where
  refused : ℕ → Awaited
  collect : ℕ → Awaited
  park : ℕ → Awaited

abbrev pub is_done : State → Bool
is_done State.done = true
is_done _ = false

-- The checks of `_gt_await`, on a runtime that has started.
unfoldable pub await_check : ℕ → Runtime → Awaited
unfolding resolve
await_check h r = elim (resolve h r) [
  | none ↦ refused einval
  | some t ↦
      if t == r.current
      then refused edeadlk
      else if (r.task t).detached
      then refused einval
      else if is_done (r.task t).state
      then collect t
      else park t
]

-- The caller put on the waiters of `t` and blocked, up to the switch in `_gt_block`.
unfoldable pub await_park : ℕ → Runtime → Runtime
await_park t r =
    let self = r.current in
    let a = set_task r self (record (r.task self) { wnext = (r.task t).waiters }) in
    let b =
      set_task a t
        (record (a.task t) { waiters = some self; njoiners = (a.task t).njoiners + 1 }) in
    set_task b self (record (b.task self) { state = State.joining })

-- The end of `_gt_await`: the slot goes back with the last awaiter.
unfoldable pub await_collect : ℕ → Runtime → Runtime
unfolding slot_free
await_collect t r = if (r.task t).njoiners == 0 then slot_free t r else r

-- `_gt_await` from the return of `_gt_block` on.
unfoldable pub await_end : ℕ → Runtime → Runtime
unfolding await_collect
await_end t r =
    await_collect t (set_task r t (record (r.task t) { njoiners = (r.task t).njoiners - 1 }))

-- `_gt_detach`, on a runtime that has started: its result, 0 or the error.
unfoldable pub detach : ℕ → Runtime → ℕ × Runtime
unfolding resolve slot_free
detach h r = elim (resolve h r) [
  | none ↦ (einval, r)
  | some t ↦
      if t == r.current || (r.task t).detached
      then (einval, r)
      else let a = set_task r t (record (r.task t) { detached = true }) in
        (0, if is_done (r.task t).state then slot_free t a else a)
]
