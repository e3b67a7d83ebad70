-- ===== src/Async/Handle.antt =====
-- headers/sppc/async/runtime.h, `_gt_handle`, and sched.h, `_gt_resolve`: a task's index and
-- generation packed into one `int`. An `int` is its 32-bit pattern: it is at most 0 when the
-- pattern is 0 or has the sign bit.
pub mod Fresh
pub mod Stale
use Prim.Native.Nat.{bit_and, bit_or}
use sppc.Common.{
  ℕ, ◌*◌, ◌/◌, ◌%◌, ◌^◌, Bool, true, false, not, ◌||◌, Option, none, some, ◌==◌, leb, if◌then◌else◌,
}
use sppc.Async.{State, Runtime, idx_bits, idx_mask, gen_mask}

abbrev pub is_free : State → Bool
is_free State.free = true
is_free _ = false

-- `_gt_handle`.
unfoldable pub handle : ℕ → Runtime → ℕ
handle t r = bit_or ((r.task t).gen * 2 ^ idx_bits % 2 ^ 32) t

-- `_gt_resolve` once the index and the generation are unpacked; `none` is NULL.
unfoldable pub resolve_at : ℕ → ℕ → ℕ → Runtime → Option ℕ
resolve_at h idx gen r =
    if h == 0 || leb (2 ^ 31) h || leb r.nslots idx
    then none
    else if not ((r.task idx).gen == gen) || is_free (r.task idx).state
    then none
    else some idx

-- `_gt_resolve`.
unfoldable pub resolve : ℕ → Runtime → Option ℕ
unfolding resolve_at
resolve h r = resolve_at h (bit_and h idx_mask) (bit_and (h / 2 ^ idx_bits) gen_mask) r
