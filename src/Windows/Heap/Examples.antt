-- ===== src/Windows/Heap/Examples.antt =====
-- The heap of windows.h over a C library with one block.
use sppc.Common.{ℕ, ◌≡◌, refl, Option, none, some, [], ◌∷◌, if◌then◌else◌, ltb}
use sppc.Windows.Heap.{
  Heap, malloc, aligned_alloc, free, realloc, heap_place, heap_overflows, placed, moved,
}

-- A block at 4096 for every request of up to 1000 bytes.
abbrev library : ℕ → Option ℕ
library bytes = if ltb 1000 bytes then none else some 4096

abbrev empty : Heap
empty = record { head = λ a. record { raw = 0; size = 0 }; errno = 0; freed = []; copies = [] }

-- A block aligned to 64 bytes, moved by a `realloc`, and then given back: both blocks go back.
abbrev over_aligned : Option ℕ × Heap
over_aligned = aligned_alloc library 100 64 empty

aligned_at : over_aligned.0 ≡ some 4160
unfolding aligned_alloc placed heap_overflows heap_place
aligned_at = refl

moved_and_freed :
    let grown = realloc (λ n. some 8192) (λ p n. none) over_aligned.0 200 over_aligned.1 in
    (grown.0 ≡ some 8208)
    × (grown.1.copies ≡ (8208, 4160, 100) ∷ [])
    × ((free grown.0 grown.1).freed ≡ 8192 ∷ 4096 ∷ [])
unfolding realloc aligned_alloc malloc placed heap_overflows heap_place moved free
moved_and_freed = (refl, refl, refl)
