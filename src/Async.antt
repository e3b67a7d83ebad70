-- ===== src/Async.antt =====
-- headers/sppc/async/runtime.h: the state of the green-thread runtime of one os thread.
--
-- A `gt_task *` is the index of its slot (`slots[i]` is made once, with `idx` i, and is only
-- freed with the whole runtime), so the table `slots` is a function from the index, of which the
-- first `nslots` entries are in use, and NULL is `none`.
pub mod Chain
pub mod Stacks
pub mod Queue
pub mod Slots
pub mod Handle
pub mod Tasks
pub mod Idle
pub mod Conditions
pub mod Locks
mod Examples
use sppc.Common.{ℕ, ◌-◌, ◌^◌, Bool, Option, List, update}

-- `enum gt_state_t`.
pub data State : Type 0 where
  free ready running joining waiting done : State

-- `gt_task`. `body` is the environment of its closure.
pub record Task : Type 0 where
  pub sp : ℕ
  pub stack : Option ℕ
  pub stack_size : ℕ
  pub ustack : Option ℕ
  pub ustack_size : ℕ
  pub usp : Option ℕ
  pub next : Option ℕ
  pub waiters : Option ℕ
  pub wnext : Option ℕ
  pub body : Option ℕ
  pub njoiners : ℕ
  pub gen : ℕ
  pub state : State
  pub detached : Bool

-- `gt_runtime`, with the thread's `__safestack_unsafe_stack_ptr`, and what the runtime has handed
-- back to the kernel with `munmap` (address and length, the latest first). The array
-- `stack_cache` and its count are a list whose head is the last one put in.
pub record Runtime : Type 0 where
  pub current : ℕ
  pub rq_head : Option ℕ
  pub rq_tail : Option ℕ
  pub free_slots : Option ℕ
  pub zombies : Option ℕ
  pub task : ℕ → Task
  pub nslots : ℕ
  pub cslots : ℕ
  pub live : ℕ
  pub stack_size : ℕ
  pub page : ℕ
  pub guard : Bool
  pub stack_cache : List ℕ
  pub cached_size : ℕ
  pub inflight : ℕ
  pub unsafe_stack_ptr : Option ℕ
  pub unmapped : List (ℕ × ℕ)

abbrev pub idx_bits : ℕ
idx_bits = 20

abbrev pub idx_mask : ℕ
idx_mask = 2 ^ idx_bits - 1

abbrev pub gen_mask : ℕ
gen_mask = 0x7FF

-- An assignment to fields of the task `t`.
abbrev pub set_task : Runtime → ℕ → Task → Runtime
set_task r t x = record r { task = update r.task t x }
