-- ===== src/Async/Stacks/Cache.antt =====
-- headers/sppc/async/vmem.h: the cache of freed stacks, and the size of a stack.
use mathlib.Core.Path.{ap₂}
use sppc.Common.{
  ℕ, suc, ◌+◌, ◌-◌, ◌*◌, ◌/◌, ◌%◌, ◌^◌, ◌≤◌, ◌<◌, ◌≡◌, refl, ap, sym, ◌∙◌, Bool, Option, none, some,
  arith, List, [], ◌∷◌, if◌then◌else◌, length, ltb, if-either, not, ◌&&◌, ◌||◌, ◌⊎◌,
}
use Prim.Native.Nat.{bit_and, max}
use native.Mathlib.Nat.{one-le-pow, pow-le-pow_right, mul-mod_left}
use sppc.Common.Powers.{bit_and-high_mask}
use sppc.Async.{Runtime}
use sppc.Async.Stacks.{
  Kernel, stack_alloc, stack_free, stack_unmap, map_stack, load_page, flush_cache, set_guard_pages,
  set_stack_size, stack_min,
}

-- What the two operations touch.
abbrev pub cache_view : Runtime → List ℕ × ℕ × List (ℕ × ℕ)
cache_view r = (r.stack_cache, r.cached_size, r.unmapped)

-- A stack that is freed while the cache has room and holds stacks of that size, if any, is the one
-- that the next request for the size gets; the cache is then what it was, and nothing was unmapped.
pub stack_alloc-free :
    (k l : Kernel) (p size : ℕ) (r : Runtime)
    → length r.stack_cache < 32
    → (r.stack_cache ≡ []) ⊎ (r.cached_size ≡ size)
    → ((stack_alloc l size (stack_free k (some p) size r)).0 ≡ some p)
      × (cache_view (stack_alloc l size (stack_free k (some p) size r)).1
          ≡ (r.stack_cache, size, r.unmapped))
unfolding stack_alloc stack_free
stack_alloc-free k l p size r room fits = (ground arith, ground arith)

stack_free-length :
    (k : Kernel) (o : Option ℕ) (size : ℕ) (r : Runtime)
    → length r.stack_cache ≤ 32
    → length (stack_free k o size r).stack_cache ≤ 32
unfolding stack_free stack_unmap load_page
stack_free-length k none size r h = h
stack_free-length k (some p) size r h = ground arith

stack_alloc-length :
    (k : Kernel) (size : ℕ) (r : Runtime)
    → length r.stack_cache ≤ 32
    → length (stack_alloc k size r).1.stack_cache ≤ 32
unfolding stack_alloc map_stack load_page
stack_alloc-length k size r h = ground arith

flush_cache-empty : (k : Kernel) (ss : List ℕ) (r : Runtime) → (flush_cache k ss r).stack_cache ≡ []
unfolding flush_cache
flush_cache-empty k [] r = refl
flush_cache-empty k (s ∷ ss) r = flush_cache-empty k ss (stack_unmap k s r.cached_size r)

set_guard_pages-length :
    (k : Kernel) (on : Bool) (r : Runtime)
    → length r.stack_cache ≤ 32
    → length (set_guard_pages k on r).stack_cache ≤ 32
unfolding set_guard_pages
set_guard_pages-length k on r h =
    let e = flush_cache-empty k r.stack_cache r in
    let l : length (flush_cache k r.stack_cache r).stack_cache ≤ 32 =
      omega (arith, ap (λ ss. length ss) e) in
    if-either (λ q. length q.stack_cache ≤ 32) ((on && r.guard) || (not on && not r.guard)) r
      (record (flush_cache k r.stack_cache r) { guard = on }) (λ t. h) (λ f. l)

set_stack_size-length :
    (k : Kernel) (n : ℕ) (r : Runtime)
    → length r.stack_cache ≤ 32
    → length (set_stack_size k n r).stack_cache ≤ 32
unfolding set_stack_size load_page
set_stack_size-length k n r h = ground arith

-- One call of an operation on stacks, the kernel answering as it may.
pub data Call : Runtime → Runtime → Type 0 where
  alloc : (k : Kernel) (size : ℕ) (r : Runtime) → Call r (stack_alloc k size r).1
  release : (k : Kernel) (o : Option ℕ) (size : ℕ) (r : Runtime) → Call r (stack_free k o size r)
  guard : (k : Kernel) (on : Bool) (r : Runtime) → Call r (set_guard_pages k on r)
  resize : (k : Kernel) (n : ℕ) (r : Runtime) → Call r (set_stack_size k n r)

pub data Calls : Runtime → Runtime → Type 0 where
  stop : (r : Runtime) → Calls r r
  next : (r s u : Runtime) → Call r s → Calls s u → Calls r u

Call-length : (r s : Runtime) → Call r s → length r.stack_cache ≤ 32 → length s.stack_cache ≤ 32
Call-length _ _ (Call.alloc k size r) h = stack_alloc-length k size r h
Call-length _ _ (Call.release k o size r) h = stack_free-length k o size r h
Call-length _ _ (Call.guard k on r) h = set_guard_pages-length k on r h
Call-length _ _ (Call.resize k n r) h = set_stack_size-length k n r h

-- Through any sequence of requests, releases and changes of the settings, the cache holds at most
-- the 32 stacks that its array has room for, if it does at the start.
pub Calls-length :
    (r s : Runtime) → Calls r s → length r.stack_cache ≤ 32 → length s.stack_cache ≤ 32
Calls-length _ _ (Calls.stop r) h = h
Calls-length _ _ (Calls.next r m s c cs) h = Calls-length m s cs (Call-length r m c h)

round_up :
    (j k n : ℕ)
    → suc j + k ≡ 64
    → n < 2 ^ 63
    → bit_and ((n + 2 ^ k - 1) % 2 ^ 64) (2 ^ 64 - 2 ^ k) ≡ (n + 2 ^ k - 1) / 2 ^ k * 2 ^ k
round_up j k n sum h =
    let whole : 2 ^ (suc j + k) ≡ 2 ^ 64 = ap (λ w. 2 ^ w) sum in
    let half : 2 ^ k ≤ 2 ^ 63 =
      pow-le-pow_right {n = 2} (omega arith) {i = k} {j = 63} (omega arith) in
    let small : n + 2 ^ k - 1 < 2 ^ (suc j + k) = omega (arith, whole, half, h) in
    let fits : (n + 2 ^ k - 1) % 2 ^ 64 ≡ n + 2 ^ k - 1 = omega (arith, half, h) in
    ap₂ (λ x w. bit_and x (w - 2 ^ k)) fits (sym whole)
    ∙ bit_and-high_mask (suc j) k (n + 2 ^ k - 1) small

set_stack_size-value :
    (k : Kernel) (bytes : ℕ) (r : Runtime)
    → ((set_stack_size k bytes r).page ≡ (load_page k r).page)
      × ((set_stack_size k bytes r).stack_size ≡ (
          let want = if ltb bytes stack_min then stack_min else bytes in
          bit_and ((want + (load_page k r).page - 1) % 2 ^ 64) (2 ^ 64 - (load_page k r).page)))
unfolding set_stack_size
set_stack_size-value k bytes r = (refl, refl)

-- For a page of 2^e bytes (e ≤ 63) and a request below 2^63: the stack size is a whole number of
-- pages, at least the request and at least 16 KiB, and by less than a page more than the larger of
-- the two.
pub set_stack_size-pages :
    (j e bytes : ℕ) (o : Kernel) (r : Runtime)
    → suc j + e ≡ 64
    → (load_page o r).page ≡ 2 ^ e
    → bytes < 2 ^ 63
    → let size = (set_stack_size o bytes r).stack_size in
      (size % 2 ^ e ≡ 0) × (bytes ≤ size) × (16384 ≤ size) × (size < max bytes 16384 + 2 ^ e)
set_stack_size-pages j e bytes o r sum page small =
    let want = if ltb bytes stack_min then stack_min else bytes in
    let v = set_stack_size-value o bytes r in
    let size : (set_stack_size o bytes r).stack_size ≡ (want + 2 ^ e - 1) / 2 ^ e * 2 ^ e =
      v.1
      ∙ ap (λ p. bit_and ((want + p - 1) % 2 ^ 64) (2 ^ 64 - p)) page
      ∙ round_up j e want sum (ground arith) in
    let wanted : want ≡ max bytes 16384 = ground arith in
    let pos : 0 < 2 ^ e = one-le-pow e 2 (omega arith) in
    rw size (
      mul-mod_left ((want + 2 ^ e - 1) / 2 ^ e) (2 ^ e),
      omega (arith, wanted),
      omega (arith, wanted),
      omega (arith, wanted),
    )
