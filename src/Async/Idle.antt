-- ===== src/Async/Idle.antt =====
-- headers/sppc/async/sched.h: picking the next task, blocking, and letting the thread move while a
-- task waits for a lock. What each poll of the i/o backend finds finished is an argument.
pub mod Picks
use sppc.Common.{
  ℕ, Bool, true, false, not, ◌||◌, Option, none, some, List, [], ◌∷◌, ◌==◌, if◌then◌else◌, ◌>>=◌,
}
use sppc.Async.{State, Runtime, set_task}
use sppc.Async.Queue.{rq_push, rq_pop}
use sppc.Async.Tasks.{switch_to, complete, poll}

-- The polls of one round of `_gt_pick`: the one that does not wait, and the one that does.
pub record Polls : Type 0 where
  pub now : List ℕ
  pub later : List ℕ

-- A round of `_gt_pick` once the queue was popped: the rest of the loop is `wait`.
unfoldable pub pick_popped :
    Option ℕ × Runtime → (Runtime → Option (Option ℕ × Runtime)) → Option (Option ℕ × Runtime)
pick_popped (some t, q) wait = some (some t, q)
pick_popped (none, q) wait = if q.inflight == 0 then some (none, q) else wait q

-- `_gt_pick`, a round for each of the polls; `none` where they run out.
unfoldable pub pick : List Polls → Runtime → Option (Option ℕ × Runtime)
unfolding poll complete rq_pop pick_popped
pick [] r = none
pick (p ∷ ps) r = pick_popped (rq_pop (poll p.now r)) (λ q. pick ps (complete p.later q))

-- The outcome of `_gt_block`: the end of the process, or the switch to another task.
pub data Blocked : Type 0 where
  deadlock : ℕ → Blocked
  switched : Runtime → Blocked

-- `_gt_block`.
unfoldable pub block : State → List Polls → Runtime → Option Blocked
unfolding pick switch_to
block state ps r = do
  let parked = set_task r r.current (record (r.task r.current) { state = state })
  (next, q) ← pick ps parked
  some (elim next [ none ↦ Blocked.deadlock r.current | some t ↦ Blocked.switched (switch_to t q) ])

abbrev pub is_some : Option ℕ → Bool
is_some none = false
is_some (some t) = true

-- `_gt_has_other_work`, on a runtime that has started.
unfoldable pub has_other_work : List ℕ → Runtime → Bool × Runtime
unfolding poll
has_other_work done r = let q = poll done r in (is_some q.rq_head || not (q.inflight == 0), q)

-- `_gt_step`, up to the switch; `waited` is what the backend finishes by the deadline, if there is one.
unfoldable pub step : List ℕ → Runtime → Runtime
unfolding rq_push rq_pop switch_to complete
step waited r =
    let (next, q) = rq_pop r in
    elim next [ some t ↦ switch_to t (rq_push q.current q) | none ↦ complete waited q ]
