-- ===== src/Windows/Heap/Blocks.antt =====
-- The blocks that the heap of windows.h hands out.
use mathlib.Core.Path.{ap₂}
use Prim.Native.Nat.{bit_and}
use native.Mathlib.Nat.{one-le-pow, mul-mod_left, le-div_iff_mul-le}
use sppc.Common.{
  ℕ, zero, suc, ◌+◌, ◌-◌, ◌*◌, ◌/◌, ◌%◌, ◌^◌, ◌≤◌, ◌<◌, ◌≡◌, ◌≢◌, refl, ap, ◌∙◌, true, false,
  if◌then◌else◌, Option, none, some, ◌==◌, arith, if-either, update_self, ◌⊎◌, Bool-cases, inl, inr,
  leb, not, ◌&&◌, ltb, dec_le,
}
use sppc.Common.Powers.{bit_and-high_mask}
use sppc.Errno.{einval, enomem}
use sppc.Windows.Heap.{
  Heap, heap_head, size_max, heap_head_of, heap_place, heap_overflows, placed, calloc,
}

-- What the C library's heap promises: blocks aligned to 16 bytes, that end below the end of memory.
abbrev pub IsMalloc : (ℕ → Option ℕ) → Type 0
IsMalloc block =
    (bytes raw : ℕ) → block bytes ≡ some raw → (raw % heap_head ≡ 0) × (raw + bytes < 2 ^ 64)

-- A pointer to `size` bytes aligned to `align`, inside the library's block of `bytes` bytes together with the header below it.
abbrev pub Block : (ℕ → Option ℕ) → ℕ → ℕ → ℕ → Heap → ℕ → Type 0
Block block bytes size align h user =
    (raw : ℕ) × (block bytes ≡ some raw)
    × (user % align ≡ 0)
    × (raw + heap_head ≤ user)
    × (user + size ≤ raw + bytes)
    × (h.head (heap_head_of user) ≡ record { raw = raw; size = size })

-- The pointer that an address is placed at: the next multiple of `2 ^ k`.
place-up :
    (j k a : ℕ)
    → suc j + k ≡ 64
    → a + 2 ^ k ≤ 2 ^ 64
    → let user = bit_and ((a + (2 ^ k - 1)) % 2 ^ 64) (size_max - (2 ^ k - 1)) in
      (user % 2 ^ k ≡ 0) × (a ≤ user) × (user < a + 2 ^ k)
place-up j k a sum fits =
    let x = a + (2 ^ k - 1) in
    let pos : 0 < 2 ^ k = one-le-pow k 2 (omega arith) in
    let word : x % 2 ^ 64 ≡ x = omega arith in
    let whole : 2 ^ (suc j + k) ≡ 2 ^ 64 = ap (λ w. 2 ^ w) sum in
    let mask : size_max - (2 ^ k - 1) ≡ 2 ^ (suc j + k) - 2 ^ k = omega (arith, whole, pos) in
    let user : bit_and (x % 2 ^ 64) (size_max - (2 ^ k - 1)) ≡ x / 2 ^ k * 2 ^ k =
      ap₂ bit_and word mask ∙ bit_and-high_mask (suc j) k x (omega (arith, whole, pos)) in
    rw user (mul-mod_left (x / 2 ^ k) (2 ^ k), omega arith, omega arith)

-- A call's answer, that asks for `bytes` bytes: a block, or none where these are more than a word counts, or where the
-- library has no such block.
abbrev pub Answer : (ℕ → Option ℕ) → ℕ → ℕ → ℕ → Option ℕ × Heap → Type 0
Answer block bytes size align (none, h) =
    ((size_max < bytes) × (h.errno ≡ enomem)) ⊎ ((bytes ≤ size_max) × (block bytes ≡ none))
Answer block bytes size align (some user, h) = Block block bytes size align h user

-- The place at a power of two of at least 16 inside a block that is long enough for it.
heap_place-Answer :
    (block : ℕ → Option ℕ) (bytes size j k : ℕ) (h : Heap)
    → IsMalloc block
    → suc j + k ≡ 64
    → heap_head + size ≤ bytes
    → bytes ≤ size_max
    → ((raw user : ℕ)
        → raw % heap_head ≡ 0
        → user % 2 ^ k ≡ 0
        → raw + heap_head ≤ user
        → user < raw + heap_head + 2 ^ k
        → user + size ≤ raw + bytes)
    → ((raw : ℕ) → raw + bytes < 2 ^ 64 → raw % heap_head ≡ 0 → raw + heap_head + 2 ^ k ≤ 2 ^ 64)
    → Answer block bytes size (2 ^ k) (heap_place (block bytes) size (2 ^ k) h)
unfolding heap_place
heap_place-Answer block bytes size j k h lib sum long counted inside word =
    by_block (block bytes) refl
  where
    by_block :
        (o : Option ℕ)
        → block bytes ≡ o
        → Answer block bytes size (2 ^ k) (heap_place o size (2 ^ k) h)
    by_block none e = inr (counted, e)
    by_block (some raw) e =
        let (even, fits) = lib bytes raw e in
        let (multiple, above, below) = place-up j k (raw + heap_head) sum (word raw fits even) in
        (
          raw,
          e,
          multiple,
          above,
          inside raw _ even multiple above below,
          update_self h.head _ (record { raw = raw; size = size }),
        )

placed-Answer :
    (block : ℕ → Option ℕ) (bytes size extra align : ℕ) (h : Heap)
    → extra ≤ size_max
    → size + extra ≡ bytes
    → (bytes ≤ size_max → Answer block bytes size align (heap_place (block bytes) size align h))
    → Answer block bytes size align (placed block bytes size align (heap_overflows size extra h))
unfolding placed heap_overflows
placed-Answer block bytes size extra align h word sum found =
    elim (Bool-cases (leb size (size_max - extra))) [
      | inl fits ↦ rw fits (found (ground (arith, fits, word, sum)))
      | inr over ↦ rw over (inl (ground (arith, over, word, sum), refl))
    ]

-- The bytes that an aligned allocation asks the library for.
abbrev pub asked_for : ℕ → ℕ → ℕ
asked_for size alignment =
    if leb alignment heap_head then size + heap_head else size + heap_head + alignment

-- The answer of an aligned allocation: none, with EINVAL, for what is no power of two; for one, a block.
abbrev pub AlignedAnswer : (ℕ → Option ℕ) → ℕ → ℕ → Option ℕ × Heap → Type 0
AlignedAnswer block size alignment o =
    (((k : ℕ) → 2 ^ k ≢ alignment) × (o.0 ≡ none) × (o.1.errno ≡ einval))
    ⊎ (((k : ℕ) × (2 ^ k ≡ alignment)) × Answer block (asked_for size alignment) size alignment o)

-- With the library's zeroed allocation as such a heap, `calloc` never hands out less than `num` times `size` bytes: the
-- product does not wrap where it answers with a pointer, which is 16-aligned and inside a block behind its header.
pub calloc-Answer :
    (block : ℕ → Option ℕ) (num size : ℕ) (h : Heap)
    → IsMalloc block
    → Answer block (num * size + heap_head) (num * size) (2 ^ 4) (calloc block num size h)
unfolding calloc
calloc-Answer block num size h lib =
    if-either (Answer block (num * size + heap_head) (num * size) (2 ^ 4))
      (not (size == 0) && ltb (size_max / size) num) (none, record h { errno = enomem }) _
      (λ e. inl (over size e, refl))
      λ e.
        let exact : num * size % 2 ^ 64 ≡ num * size = product size e in
        rw exact (
          placed-Answer block (num * size + heap_head) (num * size) heap_head (2 ^ 4) h
            (omega arith) refl
            λ fits.
              heap_place-Answer block (num * size + heap_head) (num * size) 59 4 h lib refl
                (omega arith) fits
                (λ raw user even multiple above below. omega (arith, even, multiple, above, below))
                (λ raw inside even. omega (arith, inside, even)))
  where
    over :
        (size : ℕ)
        → (not (size == 0) && ltb (size_max / size) num) ≡ true
        → size_max < num * size + heap_head
    over zero e = absurd (ground (arith, e))
    over (suc s) e = elim (dec_le (num * suc s) size_max) [
      | yes le ↦
          let few : num ≤ size_max / suc s = (le-div_iff_mul-le (omega arith)).1 le in
          absurd (ground (arith, e, few))
      | no gt ↦ omega (arith, gt)
    ]

    product :
        (size : ℕ)
        → (not (size == 0) && ltb (size_max / size) num) ≡ false
        → num * size % 2 ^ 64 ≡ num * size
    product zero e = omega arith
    product (suc s) e =
        let few : num ≤ size_max / suc s = ground (arith, e) in
        let bound : num * suc s ≤ size_max = (le-div_iff_mul-le (omega arith)).0 few in
        omega (arith, bound)
