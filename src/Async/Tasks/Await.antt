-- ===== src/Async/Tasks/Await.antt =====
-- headers/sppc/async/sched.h, `_gt_await`: which awaiter gives the slot of a finished task back.
use sppc.Common.{true, false, ◌==◌, ℕ, zero, suc, ◌+◌, ◌-◌, ◌≤◌, ◌≡◌, ap, ◌∙◌, Bool, some, arith}
use sppc.Async.{Runtime, State, set_task}
use sppc.Async.Slots.{slot_free, slot_alloc, next_gen, reap_one}
use sppc.Async.Stacks.{Kernel}
use sppc.Async.Handle.{resolve}
use sppc.Async.Tasks.{is_done, detach, await_collect, await_end}

-- What the theorems read of the slot `t`: its state, its generation, the awaiters that have not
-- collected, and the count of tasks that are alive.
abbrev pub slot_view : ℕ → Runtime → State × ℕ × ℕ × ℕ
slot_view t r = ((r.task t).state, (r.task t).gen, (r.task t).njoiners, r.live)

-- `n` of the awaiters of `t` collecting, one after another.
abbrev pub collect_many : ℕ → ℕ → Runtime → Runtime
collect_many zero t r = r
collect_many (suc n) t r = collect_many n t (await_end t r)

await_end-early :
    (t n : ℕ) (r : Runtime)
    → (r.task t).njoiners ≡ n + 2
    → slot_view t (await_end t r) ≡ ((r.task t).state, (r.task t).gen, n + 1, r.live)
unfolding await_end await_collect
await_end-early t n r h = ground arith

await_end-last :
    (t : ℕ) (r : Runtime)
    → (r.task t).njoiners ≡ 1
    → slot_view t (await_end t r) ≡ (State.free, next_gen (r.task t).gen, 0, r.live - 1)
unfolding await_end await_collect slot_free
await_end-last t r h = ground arith

collect_many-early :
    (k t n : ℕ) (r : Runtime)
    → (r.task t).njoiners ≡ k + n + 1
    → slot_view t (collect_many k t r) ≡ ((r.task t).state, (r.task t).gen, n + 1, r.live)
collect_many-early zero t n r h =
    ap (λ j. ((r.task t).state, (r.task t).gen, j, r.live)) (h ∙ omega arith)
collect_many-early (suc k) t n r h =
    let e = await_end-early t (k + n) r (omega (arith, h)) in
    let joiners = ap (λ v. v.2) e in
    collect_many-early k t n (await_end t r) joiners ∙ ap (λ v. (v.0, v.1, n + 1, v.3)) e

-- When `n + 1` awaiters of `t` wait, then after any `k ≤ n` of them have collected the slot still
-- has its state and its generation, with `n + 1 - k` awaiters left and no task less alive; the one
-- that collects behind the first `n` frees the slot, gives it the next generation, and takes one
-- from the tasks that are alive.
pub collect-last_frees :
    (t n k : ℕ) (r : Runtime)
    → (r.task t).njoiners ≡ n + 1
    → k ≤ n
    → (slot_view t (collect_many k t r) ≡ ((r.task t).state, (r.task t).gen, n + 1 - k, r.live))
      × (slot_view t (await_end t (collect_many n t r))
          ≡ (State.free, next_gen (r.task t).gen, 0, r.live - 1))
collect-last_frees t n k r h le =
    let all = collect_many-early n t 0 r (omega (arith, h)) in
    (
      collect_many-early k t (n - k) r (omega (arith, h, le))
          ∙ ap (λ j. ((r.task t).state, (r.task t).gen, j, r.live)) (omega (arith, le)),
      await_end-last t (collect_many n t r) (ap (λ v. v.2) all)
          ∙ ap (λ v. (State.free, next_gen v.1, 0, v.3 - 1)) all,
    )

await_end-freed :
    (t : ℕ) (r : Runtime)
    → (r.task t).njoiners ≡ 1
    → ((await_end t r).free_slots ≡ some t) × (((await_end t r).task t).next ≡ r.free_slots)
unfolding await_end await_collect slot_free
await_end-freed t r h = (ground arith, ground arith)

slot_alloc-reused :
    (rk ck : Bool) (t : ℕ) (r : Runtime)
    → r.free_slots ≡ some t
    → ((slot_alloc rk ck r).0 ≡ some t) × ((slot_alloc rk ck r).1.free_slots ≡ (r.task t).next)
unfolding slot_alloc
slot_alloc-reused rk ck t r h = (ground arith, ground arith)

given_twice :
    (a b c d : Bool) (t : ℕ) (r : Runtime)
    → (r.task t).njoiners ≡ 1
    → r.free_slots ≡ some t
    → ((slot_alloc a b (await_end t r)).0 ≡ some t)
      × ((slot_alloc c d (slot_alloc a b (await_end t r)).1).0 ≡ some t)
given_twice a b c d t r h e =
    let freed = await_end-freed t r h in
    let first = slot_alloc-reused a b t (await_end t r) freed.0 in
    (
      first.0,
      (slot_alloc-reused c d t (slot_alloc a b (await_end t r)).1 (first.1 ∙ freed.1 ∙ e)).0,
    )

detach-marks :
    (h t : ℕ) (r : Runtime)
    → resolve h r ≡ some t
    → (t == r.current) ≡ false
    → (r.task t).detached ≡ false
    → is_done (r.task t).state ≡ false
    → detach h r ≡ (0, set_task r t (record (r.task t) { detached = true }))
unfolding detach
detach-marks h t r e c f n = ground (arith, e, c, f, n)

reap_one-detached :
    (k : Kernel) (t : ℕ) (r : Runtime)
    → (r.task t).detached ≡ true
    → ((reap_one k t r).free_slots ≡ some t)
      × (((reap_one k t r).task t).njoiners ≡ (r.task t).njoiners)
unfolding reap_one slot_free
reap_one-detached k t r h = (ground arith, ground arith)

-- A task `t` that is not done is detached with success also while one awaiter waits on it, and is
-- marked so. When a task `t` so marked is reaped with that awaiter still to collect, in any runtime
-- `z`, its slot goes back; when the awaiter then collects, the slot goes back a second time: the next
-- two allocations, whatever the memory, both get `t`.
pub await_end-double_free :
    (a b c d : Bool) (k : Kernel) (h t : ℕ) (r z : Runtime)
    → resolve h r ≡ some t
    → (t == r.current) ≡ false
    → (r.task t).detached ≡ false
    → is_done (r.task t).state ≡ false
    → (z.task t).detached ≡ true
    → (z.task t).njoiners ≡ 1
    → let q = await_end t (reap_one k t z) in
      (detach h r ≡ (0, set_task r t (record (r.task t) { detached = true })))
      × ((slot_alloc a b q).0 ≡ some t)
      × ((slot_alloc c d (slot_alloc a b q).1).0 ≡ some t)
await_end-double_free a b c d k h t r z e o f n m j =
    let freed = reap_one-detached k t z m in
    let twice = given_twice a b c d t (reap_one k t z) (freed.1 ∙ j) freed.0 in
    (detach-marks h t r e o f n, twice.0, twice.1)
