-- ===== src/Async/Stacks.antt =====
-- headers/sppc/async/vmem.h (POSIX): task stacks mapped from the kernel, with a guard page below,
-- and the cache of freed ones. What the kernel answers is an argument.
pub mod Cache
pub mod Guard
mod Examples
use Prim.Native.Nat.{bit_and}
use sppc.Common.{
  ℕ, ◌+◌, ◌-◌, ◌*◌, ◌%◌, ◌^◌, Bool, true, false, not, ◌&&◌, ◌||◌, Option, none, some, List, [], ◌∷◌,
  ◌==◌, ltb, if◌then◌else◌, length,
}
use sppc.Async.{Runtime}

abbrev pub stack_cache_max : ℕ
stack_cache_max = 32

abbrev pub stack_min : ℕ
stack_min = 16 * 1024

-- The answers of `sysconf(_SC_PAGESIZE)`, `mmap` (`none` for MAP_FAILED) and `mprotect`.
pub record Kernel : Type 0 where
  pub page_size : ℕ
  pub mmap : Option ℕ
  pub mprotect_ok : Bool

-- `_gt_page`.
unfoldable pub load_page : Kernel → Runtime → Runtime
load_page k r = if r.page == 0 then record r { page = k.page_size } else r

-- A fresh mapping of `_gt_stack_alloc`, past the cache.
unfoldable pub map_stack : Kernel → ℕ → Runtime → Option ℕ × Runtime
map_stack k size r = if not r.guard then (k.mmap, r) else elim k.mmap [
  | none ↦ (none, r)
  | some p ↦
      if k.mprotect_ok
      then (some (p + r.page), r)
      else (none, record r { unmapped = (p, size + r.page) ∷ r.unmapped })
]

-- `_gt_stack_alloc`.
unfoldable pub stack_alloc : Kernel → ℕ → Runtime → Option ℕ × Runtime
unfolding load_page map_stack
stack_alloc k size r = elim r.stack_cache [
  | [] ↦ map_stack k size (load_page k r)
  | s ∷ rest ↦
      if r.cached_size == size
      then (some s, record r { stack_cache = rest })
      else map_stack k size (load_page k r)
]

-- `_gt_stack_unmap`.
unfoldable pub stack_unmap : Kernel → ℕ → ℕ → Runtime → Runtime
unfolding load_page
stack_unmap k usable size r =
    let q = load_page k r in
    if q.guard
    then record q { unmapped = (usable - q.page, size + q.page) ∷ q.unmapped }
    else record q { unmapped = (usable, size) ∷ q.unmapped }

abbrev pub is_empty : List ℕ → Bool
is_empty [] = true
is_empty (_ ∷ _) = false

-- `_gt_stack_free`; `none` is a NULL stack.
unfoldable pub stack_free : Kernel → Option ℕ → ℕ → Runtime → Runtime
unfolding stack_unmap
stack_free k none size r = r
stack_free k (some usable) size r =
    if ltb (length r.stack_cache) stack_cache_max
      && (is_empty r.stack_cache || r.cached_size == size)
    then record r { cached_size = size; stack_cache = usable ∷ r.stack_cache }
    else stack_unmap k usable size r

-- The loop that empties the cache, in `_gt_set_guard_pages` and `_gt_teardown`.
unfoldable pub flush_cache : Kernel → List ℕ → Runtime → Runtime
unfolding stack_unmap
flush_cache k [] r = record r { stack_cache = [] }
flush_cache k (s ∷ rest) r = flush_cache k rest (stack_unmap k s r.cached_size r)

-- `_gt_set_guard_pages`, on a runtime that has started.
unfoldable pub set_guard_pages : Kernel → Bool → Runtime → Runtime
unfolding flush_cache
set_guard_pages k enabled r =
    if (enabled && r.guard) || (not enabled && not r.guard)
    then r
    else record (flush_cache k r.stack_cache r) { guard = enabled }

-- `_gt_set_stack_size`: at least the minimum, rounded up to whole pages with the mask
-- `~(pg - 1u)` of a 64-bit `size_t`.
unfoldable pub set_stack_size : Kernel → ℕ → Runtime → Runtime
unfolding load_page
set_stack_size k bytes r =
    let q = load_page k r in
    let want = if ltb bytes stack_min then stack_min else bytes in
    record q { stack_size = bit_and ((want + q.page - 1) % 2 ^ 64) (2 ^ 64 - q.page) }
