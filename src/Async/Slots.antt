-- ===== src/Async/Slots.antt =====
-- headers/sppc/async/sched.h, TASK SLOTS and the reaping of finished tasks: where a task's slot
-- comes from and goes back to. Whether `realloc` and `calloc` find memory is an argument.
pub mod Table
pub mod Alloc
use sppc.Common.{
  ℕ, zero, suc, ◌+◌, ◌-◌, ◌*◌, Bool, true, false, Option, none, some, ◌==◌, ltb, if◌then◌else◌,
}
use Prim.Native.Nat.{bit_and}
use sppc.Async.{State, Task, Runtime, idx_mask, gen_mask, set_task}
use sppc.Async.Stacks.{Kernel, stack_free}

-- A slot's memory once it is all zero, but for its generation.
abbrev pub blank : ℕ → Task
blank g = record {
  sp = 0;
  stack = none;
  stack_size = 0;
  ustack = none;
  ustack_size = 0;
  usp = none;
  next = none;
  waiters = none;
  wnext = none;
  body = none;
  njoiners = 0;
  gen = g;
  state = State.free;
  detached = false;
}

-- The capacity that `_gt_slot_alloc` asks for when the table is full.
abbrev pub grown : ℕ → ℕ
grown cslots = if cslots == 0 then 64 else cslots * 2

-- The slot at the end of the table, of which `cslots` entries have room.
unfoldable pub slot_append : Bool → Runtime → Option ℕ × Runtime
slot_append calloc_ok r =
    if calloc_ok
    then (
      some r.nslots,
      record (set_task r r.nslots (blank 1)) { nslots = r.nslots + 1; live = r.live + 1 },
    )
    else (none, r)

-- `_gt_slot_alloc`.
unfoldable pub slot_alloc : Bool → Bool → Runtime → Option ℕ × Runtime
unfolding slot_append
slot_alloc realloc_ok calloc_ok r = elim r.free_slots [
  | some t ↦
      let g = (r.task t).gen in
      (
        some t,
        record (set_task r t (blank (if g == 0 then 1 else g))) {
          free_slots = (r.task t).next;
          live = r.live + 1;
        },
      )
  | none ↦
      if r.nslots == r.cslots
      then (if ltb idx_mask (grown r.cslots)
          then (none, r)
          else if realloc_ok
          then slot_append calloc_ok (record r { cslots = grown r.cslots })
          else (none, r))
      else slot_append calloc_ok r
]

-- The generation after `g`: 11 bits, and never 0.
unfoldable pub next_gen : ℕ → ℕ
next_gen g = let n = bit_and (g + 1) gen_mask in if n == 0 then 1 else n

-- `_gt_slot_free`.
unfoldable pub slot_free : ℕ → Runtime → Runtime
unfolding next_gen
slot_free t r =
    record (set_task r t (record (r.task t) {
      state = State.free;
      gen = next_gen (r.task t).gen;
      next = r.free_slots;
    })) { free_slots = some t; live = r.live - 1 }

-- The body of `_gt_reap` for the zombie `z`: its stacks go back, and its slot if it was detached.
unfoldable pub reap_one : Kernel → ℕ → Runtime → Runtime
unfolding stack_free slot_free
reap_one k z r =
    let x = r.task z in
    let a = stack_free k x.stack x.stack_size r in
    let b = stack_free k x.ustack x.ustack_size a in
    let c = set_task b z (record x { next = none; stack = none; ustack = none }) in
    if x.detached then slot_free z c else c

unfoldable pub reap_loop : Kernel → ℕ → Option ℕ → Runtime → Option Runtime
unfolding reap_one
reap_loop k zero z r = none
reap_loop k (suc rounds) none r = some r
reap_loop k (suc rounds) (some z) r = reap_loop k rounds (r.task z).next (reap_one k z r)

-- `_gt_reap`; `none` when the rounds run out.
unfoldable pub reap : Kernel → ℕ → Runtime → Option Runtime
unfolding reap_loop
reap k rounds r = reap_loop k rounds r.zombies (record r { zombies = none })
