-- ===== src/Windows/Heap.antt =====
-- headers/sppc/platform/windows.h, HEAP ALLOCATION. The C library's heap is an argument: the block it
-- gives for a number of bytes, or none. Of memory the model has the headers, at their addresses, and
-- what was copied and given back. An address or a size is a word of 64 bits.
pub mod Blocks
mod Examples
use Prim.Native.Nat.{min, bit_and}
use sppc.Common.{
  ℕ, ◌+◌, ◌-◌, ◌*◌, ◌/◌, ◌%◌, ◌^◌, Bool, true, false, not, ◌||◌, ◌&&◌, Option, none, some, List, [],
  ◌∷◌, ◌==◌, leb, ltb, if◌then◌else◌, update,
}
use sppc.Errno.{enomem, einval}

abbrev pub heap_head : ℕ
heap_head = 16

abbrev pub size_max : ℕ
size_max = 2 ^ 64 - 1

-- `_sppc_heap_head`.
pub record Head : Type 0 where
  pub raw : ℕ
  pub size : ℕ

-- The copies are destination, source and number of bytes; of both lists the latest stands first.
pub record Heap : Type 0 where
  pub head : ℕ → Head
  pub errno : ℕ
  pub freed : List ℕ
  pub copies : List (ℕ × ℕ × ℕ)

-- `_sppc_heap_head_of`.
abbrev pub heap_head_of : ℕ → ℕ
heap_head_of ptr = (ptr + 2 ^ 64 - heap_head) % 2 ^ 64

-- `_sppc_heap_place`.
unfoldable pub heap_place : Option ℕ → ℕ → ℕ → Heap → Option ℕ × Heap
heap_place none size align h = (none, h)
heap_place (some raw) size align h =
    let user = bit_and ((raw + heap_head + (align - 1)) % 2 ^ 64) (size_max - (align - 1)) in
    (
      some user,
      record h { head = update h.head (heap_head_of user) (record { raw = raw; size = size }) },
    )

-- `_sppc_heap_overflows`.
unfoldable pub heap_overflows : ℕ → ℕ → Heap → Bool × Heap
heap_overflows size extra h =
    if leb size (size_max - extra) then (false, h) else (true, record h { errno = enomem })

-- What follows the test of an overflow: the block for `bytes`.
unfoldable pub placed : (ℕ → Option ℕ) → ℕ → ℕ → ℕ → Bool × Heap → Option ℕ × Heap
unfolding heap_place
placed block bytes size align (true, h) = (none, h)
placed block bytes size align (false, h) = heap_place (block bytes) size align h

-- `sppc_malloc`.
unfoldable pub malloc : (ℕ → Option ℕ) → ℕ → Heap → Option ℕ × Heap
unfolding heap_overflows placed
malloc block size h =
    placed block (size + heap_head) size heap_head (heap_overflows size heap_head h)

-- `sppc_aligned_alloc`.
unfoldable pub aligned_alloc : (ℕ → Option ℕ) → ℕ → ℕ → Heap → Option ℕ × Heap
unfolding heap_overflows placed malloc
aligned_alloc block size alignment h =
    if alignment == 0 || not (bit_and alignment (alignment - 1) == 0)
    then (none, record h { errno = einval })
    else if leb alignment heap_head
    then malloc block size h
    else placed block (size + heap_head + alignment) size alignment
        (heap_overflows size (heap_head + alignment) h)

-- `sppc_calloc`: `block` is the library's `calloc` of one element.
unfoldable pub calloc : (ℕ → Option ℕ) → ℕ → ℕ → Heap → Option ℕ × Heap
unfolding heap_overflows placed
calloc block num size h =
    if not (size == 0) && ltb (size_max / size) num
    then (none, record h { errno = enomem })
    else let total = num * size % 2 ^ 64 in
      placed block (total + heap_head) total heap_head (heap_overflows total heap_head h)

-- `sppc_free`.
unfoldable pub free : Option ℕ → Heap → Heap
free none h = h
free (some ptr) h = record h { freed = (h.head (heap_head_of ptr)).raw ∷ h.freed }

-- The move of an over-aligned block to a plain one.
unfoldable pub moved : ℕ → ℕ → Head → Option ℕ × Heap → Option ℕ × Heap
moved ptr new_size head (none, h) = (none, h)
moved ptr new_size head (some to, h) = (
  some to,
  record h {
    copies = (to, ptr, (if ltb head.size new_size then head.size else new_size)) ∷ h.copies;
    freed = head.raw ∷ h.freed;
  },
)

-- `sppc_realloc`: `block` is the library's `malloc`, and `resized` its `realloc` of a block.
unfoldable pub realloc : (ℕ → Option ℕ) → (ℕ → ℕ → Option ℕ) → Option ℕ → ℕ → Heap → Option ℕ × Heap
unfolding malloc free moved heap_overflows placed
realloc block resized none new_size h = malloc block new_size h
realloc block resized (some ptr) new_size h =
    let head = h.head (heap_head_of ptr) in
    if new_size == 0
    then (none, free (some ptr) h)
    else if head.raw == heap_head_of ptr
    then placed (resized head.raw) (new_size + heap_head) new_size heap_head
        (heap_overflows new_size heap_head h)
    else moved ptr new_size head (malloc block new_size h)
