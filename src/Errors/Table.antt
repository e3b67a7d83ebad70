-- ===== src/Errors/Table.antt =====
-- headers/sppc/errors.h: the numbers that the translation answers with.
use sppc.Common.{ℕ, ◌≤◌, ◌≡◌, ◌↔◌, refl, Bool, true, false, ◌&&◌, Option, List, [], ◌∷◌, leb, arith}
use sppc.Errno.{eio}
use sppc.Errors.{
  Name, Entry, table_start, table_middle, table_end, element, look, or_else, errno_table, errno,
  errno_identity,
}

-- Every value of the entries is one of sppc's numbers, 1 to 133.
abbrev in_range : List Entry → Bool
in_range [] = true
in_range (e ∷ es) = (leb 1 e.value && leb e.value 133) && in_range es

element-bound :
    (os : Name → Option ℕ) (es : List Entry) (err : ℕ)
    → in_range es ≡ true
    → element os es err ≤ 133
unfolding element
element-bound os [] err h = omega arith
element-bound os (e ∷ es) err h = ground (arith, element-bound os es err (ground arith))

or_else-bound : (a b : ℕ) → a ≤ 133 → b ≤ 133 → or_else a b ≤ 133
unfolding or_else
or_else-bound a b h k = ground arith

or_else-zero : (a b : ℕ) → or_else a b ≡ 0 → b ≡ 0
unfolding or_else
or_else-zero a b h = ground arith

look-bound : (os : Name → Option ℕ) (err : ℕ) → look os err ≤ 133
unfolding look
look-bound os err =
    let start = element os table_start err in
    let middle = element os table_middle err in
    or_else-bound (element os table_end err) (or_else middle start)
      (element-bound os table_end err refl)
      (or_else-bound middle start (element-bound os table_middle err refl)
        (element-bound os table_start err refl))

errno_table-range :
    (os : Name → Option ℕ) (err : ℕ)
    → (errno_table os err ≤ 133) × ((errno_table os err ≡ 0) ↔ (err ≡ 0))
unfolding errno_table
errno_table-range os err =
    let bound = or_else-bound (look os err) eio (look-bound os err) (omega arith) in
    let not_zero = or_else-zero (look os err) eio in
    (ground (arith, bound), (λ e. ground (arith, not_zero), λ e. ground arith))

-- On a platform whose numbers are not all sppc's, with any numbers for its names: an error number of
-- the C library becomes 0 when it is 0, and otherwise a number from 1 to 133.
pub errno-range :
    (os : Name → Option ℕ) (err : ℕ)
    → errno_identity os ≡ false
    → (errno os err ≤ 133) × ((errno os err ≡ 0) ↔ (err ≡ 0))
unfolding errno
errno-range os err h = rw h (errno_table-range os err)
