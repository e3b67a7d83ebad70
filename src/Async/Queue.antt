-- ===== src/Async/Queue.antt =====
-- headers/sppc/async/sched.h, SCHEDULE: the run queue, an intrusive list through `next`.
pub mod Fifo
pub mod Order
pub mod Remove
use sppc.Common.{ℕ, zero, suc, Bool, true, false, Option, none, some, ◌==◌, if◌then◌else◌}
use sppc.Async.{State, Runtime, set_task}

-- `_gt_rq_push`.
unfoldable pub rq_push : ℕ → Runtime → Runtime
rq_push t r =
    let q = set_task r t (record (r.task t) { state = State.ready; next = none }) in
    elim r.rq_tail [
      | none ↦ record q { rq_head = some t; rq_tail = some t }
      | some l ↦ record (set_task q l (record (q.task l) { next = some t })) { rq_tail = some t }
    ]

-- The tail once the head is `n`: NULL with it.
abbrev pub tail_after : Option ℕ → Option ℕ → Option ℕ
tail_after none tail = none
tail_after (some _) tail = tail

-- `_gt_rq_pop`.
unfoldable pub rq_pop : Runtime → Option ℕ × Runtime
rq_pop r = elim r.rq_head [
  | none ↦ (none, r)
  | some t ↦ (
    some t,
    record (set_task r t (record (r.task t) { next = none })) {
      rq_head = (r.task t).next;
      rq_tail = tail_after (r.task t).next r.rq_tail;
    },
  )
]

abbrev pub is_at : Option ℕ → ℕ → Bool
is_at none t = false
is_at (some x) t = x == t

-- The unlinking of `cur` in `_gt_rq_remove`, behind `prev`.
unfoldable pub unlink : Option ℕ → ℕ → Runtime → Runtime
unlink prev cur r =
    let n = (r.task cur).next in
    let tail = if is_at r.rq_tail cur then prev else r.rq_tail in
    let q : Runtime = elim prev [
      | none ↦ record r { rq_head = n; rq_tail = tail }
      | some p ↦ record (set_task r p (record (r.task p) { next = n })) { rq_tail = tail }
    ] in
    set_task q cur (record (q.task cur) { next = none })

-- The loop of `_gt_rq_remove`; `none` when the rounds run out.
unfoldable pub remove_loop : ℕ → ℕ → Option ℕ → Option ℕ → Runtime → Option (Bool × Runtime)
unfolding unlink
remove_loop zero t prev cur r = none
remove_loop (suc k) t prev none r = some (false, r)
remove_loop (suc k) t prev (some cur) r =
    let rest = remove_loop k t (some cur) (r.task cur).next r in
    if cur == t then some (true, unlink prev cur r) else rest

-- `_gt_rq_remove`.
unfoldable pub rq_remove : ℕ → ℕ → Runtime → Option (Bool × Runtime)
unfolding remove_loop
rq_remove rounds t r = remove_loop rounds t none r.rq_head r
