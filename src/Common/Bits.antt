-- ===== src/Common/Bits.antt =====
-- Masks and shifts over the native numbers, for every width: `x & (2 ^ k - 1)`, `x & ~(2 ^ k - 1)`
-- and the union of two fields that do not overlap.
use Prim.Native.Nat.{
  ℕ, zero, suc, ◌+◌, ◌-◌, ◌*◌, ◌/◌, ◌%◌, ◌^◌, ◌≤◌, ◌<◌, min, max, digits, bit_and, bit_or,
  bit_and-bitwise, bit_or-bitwise,
}
use mathlib.Core.Path.{◌≡◌, refl}
use native.Mathlib.Nat.{one-le-pow, pow-suc}
use native.Mathlib.Omega.{arith}

-- Rounds beyond the first operand's own value change nothing.
digits-stable :
    (pad : ℕ → ℕ) (op : ℕ → ℕ → ℕ) (more less x y : ℕ)
    → x ≤ less
    → less ≤ more
    → digits pad op more x y ≡ digits pad op less x y
digits-stable pad op zero zero x y small below = refl
digits-stable pad op zero (suc less) x y small below = absurd (omega arith)
digits-stable pad op (suc more) zero zero y small below = refl
digits-stable pad op (suc more) zero (suc x) y small below = absurd (omega arith)
digits-stable pad op (suc more) (suc less) zero y small below = refl
digits-stable pad op (suc more) (suc less) (suc x) y small below =
    omega (arith, digits-stable pad op more less (suc x / 2) (y / 2) (omega arith) (omega arith))

pub and_low : (x y : ℕ) → bit_and x y ≡ bit_and (x / 2) (y / 2) * 2 + min (x % 2) (y % 2)
and_low zero y = omega (arith, bit_and-bitwise 0 y, bit_and-bitwise 0 (y / 2))
and_low (suc x) y = omega (
  arith,
  bit_and-bitwise (suc x) y,
  bit_and-bitwise (suc x / 2) (y / 2),
  digits-stable (λ d. 0) min x (suc x / 2) (suc x / 2) (y / 2) (omega arith) (omega arith),
)

or_low : (x y : ℕ) → bit_or x y ≡ bit_or (x / 2) (y / 2) * 2 + max (x % 2) (y % 2)
or_low zero y = omega (arith, bit_or-bitwise 0 y, bit_or-bitwise 0 (y / 2))
or_low (suc x) y = omega (
  arith,
  bit_or-bitwise (suc x) y,
  bit_or-bitwise (suc x / 2) (y / 2),
  digits-stable (λ d. d) max x (suc x / 2) (suc x / 2) (y / 2) (omega arith) (omega arith),
)

and_none_within : (n x : ℕ) → x ≤ n → bit_and x 0 ≡ 0
and_none_within n zero h = omega (arith, bit_and-bitwise 0 0)
and_none_within zero (suc x) h = absurd (omega arith)
and_none_within (suc n) (suc x) h =
    omega (arith, and_low (suc x) 0, and_none_within n (suc x / 2) (omega arith))

or_none_within : (n x : ℕ) → x ≤ n → bit_or x 0 ≡ x
or_none_within n zero h = omega (arith, bit_or-bitwise 0 0)
or_none_within zero (suc x) h = absurd (omega arith)
or_none_within (suc n) (suc x) h =
    omega (arith, or_low (suc x) 0, or_none_within n (suc x / 2) (omega arith))

pub bit_and-zero : (x : ℕ) → bit_and x 0 ≡ 0
bit_and-zero x = and_none_within x x (omega arith)

-- The lowest digit of two fields, the upper one above the bit of weight `p * 2`.
halve : (p q r : ℕ) → (q * (p * 2) + r) / 2 ≡ q * p + r / 2
halve p q r = omega arith

lowest : (p q r : ℕ) → (q * (p * 2) + r) % 2 ≡ r % 2
lowest p q r = omega arith

-- Of `q` above and `r` below the bit `k`, the low mask keeps `r`.
keep_low : (k q r : ℕ) → r < 2 ^ k → bit_and (q * 2 ^ k + r) (2 ^ k - 1) ≡ r
keep_low zero q r h = ground (arith, bit_and-zero (q * 2 ^ 0 + r))
keep_low (suc k) q r h =
    rw
      (
        pow-suc 2 k,
        and_low (q * (2 ^ k * 2) + r) (2 ^ k * 2 - 1),
        halve (2 ^ k) q r,
        lowest (2 ^ k) q r,
      )
      (ground (arith, half_mask, keep_low k q (r / 2) (omega (arith, pow-suc 2 k)), one-le-pow k 2))
  where
    half_mask : (2 ^ k * 2 - 1) / 2 ≡ 2 ^ k - 1
    half_mask = omega (arith, one-le-pow k 2)

-- `x & (2 ^ k - 1)` is the remainder.
pub bit_and-low_mask : (k x : ℕ) → bit_and x (2 ^ k - 1) ≡ x % 2 ^ k
bit_and-low_mask k x = ground (arith, one-le-pow k 2, keep_low k (x / 2 ^ k) (x % 2 ^ k))

-- A mask of `j` ones above `k` zeros keeps `q`.
pub keep_high :
    (k j q r : ℕ)
    → q < 2 ^ j
    → r < 2 ^ k
    → bit_and (q * 2 ^ k + r) ((2 ^ j - 1) * 2 ^ k) ≡ q * 2 ^ k
keep_high zero j q r hq hr = ground (arith, keep_low j 0 q)
keep_high (suc k) j q r hq hr =
    rw
      (
        pow-suc 2 k,
        and_low (q * (2 ^ k * 2) + r) ((2 ^ j - 1) * (2 ^ k * 2)),
        halve (2 ^ k) q r,
        lowest (2 ^ k) q r,
      )
      (ground (arith, half_mask, keep_high k j q (r / 2) hq (omega (arith, pow-suc 2 k))))
  where
    half_mask : (2 ^ j - 1) * (2 ^ k * 2) / 2 ≡ (2 ^ j - 1) * 2 ^ k
    half_mask = omega (arith, halve (2 ^ k) (2 ^ j - 1) 0)

-- Two fields that do not overlap are added.
pub bit_or-fields : (k q r : ℕ) → r < 2 ^ k → bit_or (q * 2 ^ k) r ≡ q * 2 ^ k + r
bit_or-fields zero q r h = ground (arith, or_none_within (q * 2 ^ 0) (q * 2 ^ 0))
bit_or-fields (suc k) q r h =
    rw (pow-suc 2 k, or_low (q * (2 ^ k * 2)) r)
      (ground (arith, half, bit_or-fields k q (r / 2) (omega (arith, pow-suc 2 k))))
  where
    half : q * (2 ^ k * 2) / 2 ≡ q * 2 ^ k
    half = omega arith
