-- ===== src/Common/Powers.antt =====
-- The test `x & (x - 1) == 0` for a power of two, and the multiples of one below an address.
use Prim.Native.Nat.{ℕ, zero, suc, ◌+◌, ◌-◌, ◌*◌, ◌/◌, ◌%◌, ◌^◌, ◌≤◌, ◌<◌, bit_and}
use mathlib.Core.Path.{◌≡◌, refl, ap, ap₂, subst, sym, ◌∙◌}
use mathlib.Core.Logic.{◌⊎◌, inl, inr}
use native.Mathlib.Nat.{one-le-pow, pow-suc, div-lt_iff_lt-mul, suc-mul}
use native.Mathlib.Omega.{arith, pow_step}
use sppc.Common.Bits.{and_low, bit_and-zero, keep_high}

and_self_within : (n x : ℕ) → x ≤ n → bit_and x x ≡ x
and_self_within n zero h = bit_and-zero 0
and_self_within zero (suc x) h = absurd (omega arith)
and_self_within (suc n) (suc x) h =
    omega (arith, and_low (suc x) (suc x), and_self_within n (suc x / 2) (omega arith))

parity : (x : ℕ) → (x ≡ x / 2 * 2) ⊎ (x ≡ x / 2 * 2 + 1)
parity x = by_rest (x % 2) refl
  where
    by_rest : (m : ℕ) → x % 2 ≡ m → (x ≡ x / 2 * 2) ⊎ (x ≡ x / 2 * 2 + 1)
    by_rest zero e = inl (omega (arith, e))
    by_rest (suc m) e = inr (omega (arith, e))

power_within : (n x : ℕ) → x ≤ n → 0 < x → bit_and x (x - 1) ≡ 0 → (k : ℕ) × (x ≡ 2 ^ k)
power_within zero x h pos e = absurd (omega arith)
power_within (suc n) x h pos e = elim (parity x) [
  | inl even ↦
      let half : (x - 1) / 2 ≡ x / 2 - 1 = omega arith in
      let low : bit_and (x / 2) ((x - 1) / 2) ≡ 0 = omega (arith, and_low x (x - 1), e) in
      let (k, p) =
        power_within n (x / 2) (omega arith) (omega arith)
          (ap (bit_and (x / 2)) (sym half) ∙ low) in
      (suc k, omega (arith, pow-suc 2 k, p))
  | inr odd ↦
      let half : (x - 1) / 2 ≡ x / 2 = omega arith in
      let low : bit_and (x / 2) ((x - 1) / 2) ≡ 0 = omega (arith, and_low x (x - 1), e) in
      let none_left : x / 2 ≡ 0 =
        sym (and_self_within (x / 2) (x / 2) (omega arith))
        ∙ ap (bit_and (x / 2)) (sym half)
        ∙ low in
      (0, omega (arith, none_left))
]

-- What the test accepts is a power of two.
pub power_of-test : (x : ℕ) → 0 < x → bit_and x (x - 1) ≡ 0 → (k : ℕ) × (x ≡ 2 ^ k)
power_of-test x = power_within x x (omega arith)

pow_add : (j k : ℕ) → 2 ^ (j + k) ≡ 2 ^ j * 2 ^ k
pow_add zero k = let e : 0 + k ≡ k = omega arith in ap (λ m. 2 ^ m) e ∙ omega arith
pow_add (suc j) k =
    let e : suc j + k ≡ suc (j + k) = omega arith in
    ap (λ m. 2 ^ m) e ∙ grind (arith, pow_step 2 (j + k), pow_step 2 j, pow_add j k)

mask_factor : (a b : ℕ) → 0 < a → a * b - b ≡ (a - 1) * b
mask_factor zero b h = absurd (omega arith)
mask_factor (suc a) b h = grind (arith, suc-mul a b)

-- `x & ~(2 ^ k - 1)` on a word of `j + k` bits is the multiple of `2 ^ k` at or below `x`.
pub bit_and-high_mask :
    (j k x : ℕ) → x < 2 ^ (j + k) → bit_and x (2 ^ (j + k) - 2 ^ k) ≡ x / 2 ^ k * 2 ^ k
bit_and-high_mask j k x h =
    let pos : 0 < 2 ^ k = one-le-pow k 2 (omega arith) in
    let parts : x ≡ x / 2 ^ k * 2 ^ k + x % 2 ^ k = omega arith in
    let mask : 2 ^ (j + k) - 2 ^ k ≡ (2 ^ j - 1) * 2 ^ k =
      ap (λ w. w - 2 ^ k) (pow_add j k)
      ∙ mask_factor (2 ^ j) (2 ^ k) (one-le-pow j 2 (omega arith)) in
    ap₂ bit_and parts mask
    ∙ keep_high k j (x / 2 ^ k) (x % 2 ^ k)
        ((div-lt_iff_lt-mul pos).1 (subst (λ w. x < w) (pow_add j k) h)) (omega (arith, pos))
