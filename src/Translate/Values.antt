-- ===== src/Translate/Values.antt =====
-- headers/sppc/platform/shared.h: values to the platform's and back, and tables of equal pairs.
use sppc.Common.{ℕ, ◌≡◌, true, some, List, [], ◌∷◌, ◌==◌, arith, Bool-cases, inl, inr}
use sppc.Async.Chain.{has, IsDistinct}
use sppc.Translate.{Pair, to_os_value, from_os_value, table_is_identity}

-- The platform's values of a table.
abbrev pub os_values : List Pair → List ℕ
os_values [] = []
os_values (p ∷ ps) = p.os ∷ os_values ps

to_os_value-has : (v x : ℕ) (t : List Pair) → to_os_value v t ≡ some x → has x (os_values t) ≡ true
unfolding to_os_value
to_os_value-has v x [] h = cc
to_os_value-has v x (p ∷ ps) h = elim (Bool-cases (p.sppc == v)) [
  | inl e ↦ ground (arith, e, h)
  | inr e ↦ ground (arith, to_os_value-has v x ps (ground (arith, e, h)))
]

value-there_and_back :
    (v x fallback : ℕ) (t : List Pair)
    → IsDistinct (os_values t)
    → to_os_value v t ≡ some x
    → from_os_value x t fallback ≡ v
unfolding to_os_value from_os_value
value-there_and_back v x fallback [] d h = cc
value-there_and_back v x fallback (p ∷ ps) d h = elim (Bool-cases (p.sppc == v)) [
  | inl e ↦ ground (arith, e, h)
  | inr e ↦
      let later : to_os_value v ps ≡ some x = ground (arith, e, h) in
      ground
        (arith, to_os_value-has v x ps later, d.0, value-there_and_back v x fallback ps d.1 later)
]

value-identity :
    (v x : ℕ) (t : List Pair) → table_is_identity t ≡ true → to_os_value v t ≡ some x → x ≡ v
unfolding to_os_value table_is_identity
value-identity v x [] i h = cc
value-identity v x (p ∷ ps) i h = elim (Bool-cases (p.sppc == v)) [
  | inl e ↦ ground (arith, e, h, i)
  | inr e ↦ value-identity v x ps (ground (arith, i)) (ground (arith, e, h))
]

-- A value that a table takes to the platform's comes back as itself, whatever the fallback, if the
-- table gives no two pairs the same platform's value; and if the table is one that
-- `_sppc_table_is_identity` accepts, the platform's value is the same number.
pub from_os_value-to_os_value :
    (v x fallback : ℕ) (t : List Pair)
    → to_os_value v t ≡ some x
    → (IsDistinct (os_values t) → from_os_value x t fallback ≡ v)
      × (table_is_identity t ≡ true → x ≡ v)
from_os_value-to_os_value v x fallback t h =
    (λ d. value-there_and_back v x fallback t d h, λ i. value-identity v x t i h)
