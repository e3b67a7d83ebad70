-- ===== src/Async/Locks/Examples.antt =====
-- The waits of headers/sppc/async/sched.h on a runtime written out.
use sppc.Common.{
  ℕ, ◌≡◌, ◌⊎◌, refl, arith, true, false, none, some, List, [], ◌∷◌, ◌==◌, if◌then◌else◌,
}
use sppc.Async.{State, Task, Runtime}
use sppc.Async.Queue.{rq_push, rq_pop}
use sppc.Async.Queue.Order.{IsQueue}
use sppc.Async.Queue.Fifo.{Op, run, run_list, run-refines_list}
use sppc.Async.Slots.{blank}
use sppc.Async.Tasks.{switch_to}
use sppc.Async.Idle.{Polls, Blocked, block}
use sppc.Async.Idle.Picks.{IsDead, block-deadlock}
use sppc.Async.Locks.{Locks, Attempt, unlock}
use sppc.Async.Locks.Released.{first_waiter, Handed, KeepsOrder, unlock-hands}

-- Task 0 runs; 1 and 2 are ready, and wait for the locks 70 and 80.
abbrev tasks : ℕ → Task
tasks i =
    if i == 1
    then record (blank 1) { state = State.ready; next = some 2 }
    else if i == 2
    then record (blank 1) { state = State.ready }
    else record (blank 1) { state = State.running }

abbrev pub two_ready : Runtime
two_ready = record {
  current = 0;
  rq_head = some 1;
  rq_tail = some 2;
  free_slots = none;
  zombies = none;
  task = tasks;
  nslots = 4;
  cslots = 64;
  live = 4;
  stack_size = 65536;
  page = 4096;
  guard = true;
  stack_cache = [];
  cached_size = 0;
  inflight = 1;
  unsafe_stack_ptr = none;
  unmapped = [];
}

abbrev idle : Runtime
idle = record two_ready { rq_head = none; rq_tail = none }

abbrev pub waiting : Locks
waiting = record {
  runtime = two_ready;
  lock_waiters =
      record { address = 500; lock = 70; task = 1 }
      ∷ record { address = 600; lock = 80; task = 2 }
      ∷ [];
}

pub two_ready-IsQueue : IsQueue two_ready (1 ∷ 2 ∷ [])
two_ready-IsQueue = record {
  chain = (refl, (refl, refl));
  tail = refl;
  distinct = (refl, (refl, tt));
}

unlock-hands_example :
    (q : Runtime) × (unlock 3 0 80 waiting ≡ some (0, record waiting { runtime = q }))
    × Handed 80
        (1 ∷ 2 ∷ [])
        two_ready
        (first_waiter 80 (1 ∷ 2 ∷ []) two_ready waiting.lock_waiters)
        q
    × KeepsOrder 80 (1 ∷ 2 ∷ []) two_ready waiting.lock_waiters
unlock-hands_example = unlock-hands 3 80 waiting (1 ∷ 2 ∷ []) (omega arith) two_ready-IsQueue refl

-- Of the two waiters the one for the lock 80 is task 2.
handed_to : first_waiter 80 (1 ∷ 2 ∷ []) two_ready waiting.lock_waiters ≡ some 2
handed_to = refl

-- A try that finds the lock held, and one that does not.
abbrev pub held : Attempt
held = record { try = 16; done = []; passed = false; waited = []; others = λ s. s }

abbrev pub got : Attempt
got = record held { try = 0 }

-- The first wait of the backend finishes the operation of task 3.
abbrev first_polls : Polls
first_polls = record { now = []; later = 3 ∷ [] }

abbrev next_polls : Polls
next_polls = record { now = []; later = [] }

block-deadlock_example :
    ((block State.waiting (first_polls ∷ next_polls ∷ []) idle ≡ some (Blocked.deadlock 0))
      × IsDead idle)
    ⊎ ((t : ℕ) × (q : Runtime) × (block State.waiting (first_polls ∷ next_polls ∷ []) idle
          ≡ some (Blocked.switched (switch_to t q)))
        × (IsDead idle → ⊥))
block-deadlock_example =
    block-deadlock State.waiting first_polls next_polls [] idle (λ e. refl) (λ e. cc)

abbrev calls : List Op
calls = Op.pop ∷ Op.push 0 ∷ Op.pop ∷ Op.pop ∷ Op.pop ∷ []

fifo_answers : (run calls two_ready).0 ≡ some 1 ∷ some 2 ∷ some 0 ∷ none ∷ []
unfolding rq_push rq_pop
fifo_answers = refl

run-refines_list_example :
    ((run calls two_ready).0 ≡ (run_list calls (1 ∷ 2 ∷ [])).0)
    × IsQueue (run calls two_ready).1 (run_list calls (1 ∷ 2 ∷ [])).1
run-refines_list_example =
    run-refines_list calls two_ready (1 ∷ 2 ∷ []) two_ready-IsQueue (refl, tt)
