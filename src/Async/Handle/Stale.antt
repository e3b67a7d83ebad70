-- ===== src/Async/Handle/Stale.antt =====
-- headers/sppc/async/sched.h, `_gt_resolve`: handles kept after their slot has gone back.
use sppc.Common.{
  ℕ, zero, suc, ◌+◌, ◌-◌, ◌*◌, ◌/◌, ◌%◌, ◌^◌, ◌<◌, ◌≡◌, ap, ◌∙◌, ◌≢◌, true, none, arith,
  if◌then◌else◌, ◌==◌,
}
use sppc.Common.Bits.{bit_and-low_mask}
use sppc.Async.{State, Runtime, set_task}
use sppc.Async.Slots.{next_gen, slot_free, slot_alloc}
use sppc.Async.Handle.{handle, resolve_at, resolve}
use sppc.Async.Handle.Fresh.{IsLive, handle_value, resolve_value}

-- The generations 1 to 2047, in a ring.
next_gen_value : (g : ℕ) → 0 < g → g < 2 ^ 11 → next_gen g ≡ g % 2047 + 1
unfolding next_gen
next_gen_value g pos small =
    ap (λ n. if n == 0 then 1 else n) (bit_and-low_mask 11 (g + 1)) ∙ ground arith

-- A slot that goes back, and is then given to another task.
unfoldable pub recycle : ℕ → Runtime → Runtime
unfolding slot_free slot_alloc
recycle t r = (slot_alloc true true (slot_free t r)).1

unfoldable pub recycles : ℕ → ℕ → Runtime → Runtime
unfolding recycle
recycles zero t r = r
recycles (suc n) t r = recycle t (recycles n t r)

gen-recycle :
    (t : ℕ) (r : Runtime)
    → 0 < next_gen (r.task t).gen
    → ((recycle t r).task t).gen ≡ next_gen (r.task t).gen
unfolding recycle
gen-recycle t r pos = ground arith

gen-recycles :
    (n t : ℕ) (r : Runtime)
    → 0 < (r.task t).gen
    → (r.task t).gen < 2 ^ 11
    → ((recycles n t r).task t).gen ≡ ((r.task t).gen - 1 + n) % 2047 + 1
unfolding recycles
gen-recycles zero t r pos small = omega arith
gen-recycles (suc n) t r pos small =
    let ih = gen-recycles n t r pos small in
    ground (arith, ih, gen-recycle t (recycles n t r), next_gen_value ((recycles n t r).task t).gen)

module _ (h i g t : ℕ) (r : Runtime) where
  resolve_at-other_gen : i ≡ t → (r.task t).gen ≢ g → resolve_at h i g r ≡ none
  unfolding resolve_at
  resolve_at-other_gen e n = ground arith

-- The task that a slot is given to, in whatever state.
abbrev pub occupied : State → ℕ → Runtime → Runtime
occupied state t r = set_task r t (record (r.task t) { state = state })

occupied-gen :
    (state : State) (t : ℕ) (r : Runtime) → ((occupied state t r).task t).gen ≡ (r.task t).gen
occupied-gen state t r = ground arith

-- A live task's handle is refused after its slot has been retired and given to another task `n` times, for every
-- `n` from 1 to 2046, whatever state the last of these is in: ready, running, waiting or finished.
pub stale_handle :
    (n t : ℕ) (r : Runtime) (state : State)
    → IsLive r t
    → 0 < n
    → n < 2047
    → resolve (handle t r) (occupied state t (recycles n t r)) ≡ none
stale_handle n t r state l pos small =
    let h = handle t r in
    let q = occupied state t (recycles n t r) in
    let v : h ≡ (r.task t).gen * 2 ^ 20 + t =
      handle_value t r (omega (arith, l.index, l.table)) l.gen_small in
    let index : h % 2 ^ 20 ≡ t = omega (arith, l.index, l.table) in
    let moved : (q.task t).gen ≢ h / 2 ^ 20 % 2 ^ 11 = omega (
      arith,
      occupied-gen state t (recycles n t r),
      gen-recycles n t r l.gen_pos l.gen_small,
      l.index,
      l.table,
      l.gen_pos,
      l.gen_small,
    ) in
    resolve_value h q ∙ resolve_at-other_gen h (h % 2 ^ 20) _ t q index moved
