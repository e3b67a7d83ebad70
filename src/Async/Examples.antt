-- ===== src/Async/Examples.antt =====
-- Runtimes written out, and the theorems on headers/sppc/async at work on them.
use sppc.Common.{
  ℕ, ◌+◌, ◌≡◌, refl, true, false, none, some, List, [], ◌∷◌, arith, ◌==◌, if◌then◌else◌, update,
}
use sppc.Async.{State, Task, Runtime, set_task}
use sppc.Async.Chain.{has}
use sppc.Async.Queue.Order.{IsQueue}
use sppc.Async.Slots.{blank, slot_alloc, reap_one}
use sppc.Async.Slots.Table.{IsTable}
use sppc.Async.Slots.Alloc.{Allocation, slot_alloc-IsTable}
use sppc.Async.Handle.{resolve_at, handle, resolve}
use sppc.Async.Handle.Fresh.{IsLive}
use sppc.Async.Handle.Stale.{recycles, occupied, stale_handle}
use sppc.Async.Tasks.{detach, yield, finish, await_end, spawn, Supply}
use sppc.Async.Tasks.Rotation.{yield-rotates}
use sppc.Async.Tasks.Wake.{finish-wakes}
use sppc.Async.Tasks.Await.{await_end-double_free}
use sppc.Async.Tasks.Spawn.Result.{Result, spawn-Result}

-- Task 0 runs, 1 and 2 are ready, 4 waits on 0, and slot 3 is free.
abbrev tasks : ℕ → Task
tasks i =
    if i == 0
    then record (blank 1) { state = State.running; waiters = some 4; njoiners = 1 }
    else if i == 1
    then record (blank 1) { state = State.ready; next = some 2 }
    else if i == 2
    then record (blank 1) { state = State.ready }
    else if i == 4
    then record (blank 1) { state = State.joining }
    else blank 1

abbrev busy : Runtime
busy = record {
  current = 0;
  rq_head = some 1;
  rq_tail = some 2;
  free_slots = some 3;
  zombies = none;
  task = tasks;
  nslots = 5;
  cslots = 64;
  live = 4;
  stack_size = 65536;
  page = 4096;
  guard = true;
  stack_cache = [];
  cached_size = 0;
  inflight = 0;
  unsafe_stack_ptr = none;
  unmapped = [];
}

abbrev alone : Runtime
alone = record busy { rq_head = none; rq_tail = none }

-- Task 0 is awaited by task 4 while task 1 runs; and later, detached and finished, a zombie.
abbrev awaited : Runtime
awaited = record busy { current = 1 }

abbrev finished : Runtime
finished = record awaited {
  task = update tasks 0 (record (tasks 0) { state = State.done; waiters = none; detached = true });
}

abbrev supply : Supply
supply = record {
  realloc_ok = true;
  calloc_ok = true;
  for_stack = record { page_size = 4096; mmap = some 1048576; mprotect_ok = true };
  for_ustack = record { page_size = 4096; mmap = none; mprotect_ok = true };
  unsafe_stack_wanted = false;
  primed = λ stack size. stack + size;
}

busy-IsQueue : IsQueue busy (1 ∷ 2 ∷ [])
busy-IsQueue = record { chain = (refl, (refl, refl)); tail = refl; distinct = (refl, (refl, tt)) }

alone-IsQueue : IsQueue alone []
alone-IsQueue = record { chain = refl; tail = refl; distinct = tt }

busy-IsTable : IsTable busy (3 ∷ [])
busy-IsTable = record {
  chain = (refl, refl);
  distinct = (refl, tt);
  inside = λ y m. ground (arith, m);
  count = refl;
  room = omega arith;
  bound = omega arith;
  gens = λ y h. (ground arith, ground arith);
}

busy-IsLive : IsLive busy 1
busy-IsLive = record {
  index = omega arith;
  table = omega arith;
  gen_pos = omega arith;
  gen_small = omega arith;
  used = refl;
}

stale_handle_example : resolve (handle 1 busy) (occupied State.ready 1 (recycles 2 1 busy)) ≡ none
stale_handle_example = stale_handle 2 1 busy State.ready busy-IsLive (omega arith) (omega arith)

yield-rotates_example :
    IsQueue (yield [] busy) (2 ∷ 0 ∷ [])
    × ((yield [] busy).current ≡ 1)
    × (((yield [] busy).task 1).state ≡ State.running)
yield-rotates_example =
    yield-rotates [] busy (1 ∷ 2 ∷ []) (2 ∷ []) 1 busy-IsQueue (refl, (refl, tt)) refl refl

finish-wakes_example :
    (s : Runtime) × (finish 2 busy ≡ some s)
    × IsQueue s (1 ∷ 2 ∷ 4 ∷ [])
    × ((y : ℕ) → has y (4 ∷ []) ≡ true → (s.task y).state ≡ State.ready)
    × ((s.task 0).state ≡ State.done)
    × (s.zombies ≡ some 0)
    × ((s.task 0).next ≡ none)
finish-wakes_example =
    finish-wakes 2 busy (1 ∷ 2 ∷ []) (4 ∷ []) (omega arith) busy-IsQueue (refl, (refl, (refl, tt)))
      (refl, refl) refl

slot_alloc-IsTable_example :
    (gs : List ℕ) × Allocation busy (slot_alloc true true busy).0 (3 ∷ []) gs
    × IsTable (slot_alloc true true busy).1 gs
slot_alloc-IsTable_example = slot_alloc-IsTable true true busy (3 ∷ []) busy-IsTable

await_end-double_free_example :
    let q = await_end 0 (reap_one supply.for_stack 0 finished) in
    (detach 1048576 awaited ≡ (0, set_task awaited 0 (record (tasks 0) { detached = true })))
    × ((slot_alloc true true q).0 ≡ some 0)
    × ((slot_alloc true true (slot_alloc true true q).1).0 ≡ some 0)
unfolding resolve resolve_at
await_end-double_free_example =
    await_end-double_free true true true true supply.for_stack 1048576 0 awaited finished refl refl
      refl refl refl refl

spawn-Result_example : Result 7 busy (1 ∷ 2 ∷ []) (spawn supply 7 busy)
spawn-Result_example =
    spawn-Result supply 7 busy (3 ∷ []) (1 ∷ 2 ∷ []) busy-IsTable busy-IsQueue
      (λ y m. (ground (arith, m), ground (arith, m)))
