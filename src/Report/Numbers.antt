-- ===== src/Report/Numbers.antt =====
-- The numbers that `_sppc_bt_put_dec` and `_sppc_bt_put_hex` print, read back.
use Prim.Native.Nat.{bit_and}
use native.Mathlib.Nat.{pow-suc}
use sppc.Common.{
  ℕ, zero, suc, ◌+◌, ◌-◌, ◌*◌, ◌/◌, ◌%◌, ◌^◌, ◌≤◌, ◌<◌, true, inl, inr, Option, some, [], ◌∷◌, ◌==◌,
  if◌then◌else◌, Bool-cases, ◌≡◌, refl, ap, ◌∙◌, arith, length, leb, Bytes, All, ◌>>=◌, if-either,
  Bool, ◌&&◌,
}
use sppc.Common.Bits.{bit_and-low_mask}
use sppc.Report.{Report, put, is_hex, dec_loop, put_dec, hex_digit, hex_loop, hex_prefix, put_hex}

abbrev pub IsDigit : ℕ → Type 0
IsDigit c = (b'0' ≤ c) × (c ≤ b'9')

-- The number that decimal digits spell behind `n`.
abbrev pub dec_value : Bytes → ℕ → ℕ
dec_value [] n = n
dec_value (c ∷ s) n = dec_value s (n * 10 + (c - b'0'))

-- The digit that a byte of a hexadecimal number stands for.
abbrev pub hex_of : ℕ → ℕ
hex_of c = if leb c b'9' then c - b'0' else c - b'a' + 10

abbrev pub hex_value : Bytes → ℕ → ℕ
hex_value [] n = n
hex_value (c ∷ s) n = hex_value s (n * 16 + hex_of c)

abbrev DecDone : ℕ → ℕ → Bytes → Option Bytes → Type 0
DecDone i v out found =
    (text : Bytes) × (found ≡ some text)
    × (dec_value text 0 ≡ dec_value out v)
    × All IsDigit text
    × (length text ≤ i + length out)

-- With `i` places for a number below `10 ^ i` the loop stays inside its array.
dec_loop-reads :
    (i v : ℕ) (out : Bytes)
    → 0 < i
    → v < 10 ^ i
    → All IsDigit out
    → DecDone i v out (dec_loop i v out)
unfolding dec_loop
dec_loop-reads zero v out hi hv hd = absurd (omega arith)
dec_loop-reads (suc i) v out hi hv hd =
    let next = (b'0' + v % 10) ∷ out in
    let rest = dec_loop i (v / 10) next in
    let last : v / 10 * 10 + (b'0' + v % 10 - b'0') ≡ v = omega arith in
    if-either (DecDone (suc i) v out) (v / 10 == 0) (some next) rest
      (λ e. (
        next,
        refl,
        let small : 0 * 10 + (b'0' + v % 10 - b'0') ≡ v = ground (arith, e) in
            ap (dec_value out) small,
        ((omega arith, omega arith), hd),
        omega arith,
      ))
      λ e.
        let more : 0 < v / 10 = ground (arith, e) in
        let (text, found, reads, digits, short) =
          dec_loop-reads i (v / 10) next (ground (arith, positive i, pow-suc 10 i))
            (omega (arith, pow-suc 10 i)) ((omega arith, omega arith), hd) in
        (text, found, reads ∙ ap (dec_value out) last, digits, omega (arith, short))
  where
    positive : (j : ℕ) → 0 < v / 10 → v < 10 ^ suc j → 0 < j
    positive zero m h = absurd (omega arith)
    positive (suc j) m h = omega arith

-- A number of 64 bits is printed within the array of 21 bytes: what is put is decimal digits, at most 20 of them, that
-- read back as the number.
pub put_dec-reads :
    (v : ℕ) (r : Report)
    → v < 2 ^ 64
    → (text : Bytes) × (put_dec v r ≡ some (put text r))
      × (dec_value text 0 ≡ v)
      × All IsDigit text
      × (length text ≤ 20)
unfolding put_dec
put_dec-reads v r h =
    let (text, found, reads, digits, short) =
      dec_loop-reads 20 v [] (omega arith) (omega arith) tt in
    (text, ap (λ o. o >>= λ t. some (put t r)) found, reads, digits, omega (arith, short))

-- A test that holds below a bound, by trying each number.
all_below : ℕ → (ℕ → Bool) → Bool
all_below zero p = true
all_below (suc n) p = p n && all_below n p

all_below_holds : (n : ℕ) (p : ℕ → Bool) (d : ℕ) → d < n → all_below n p ≡ true → p d ≡ true
unfolding all_below
all_below_holds zero p d h e = absurd (omega arith)
all_below_holds (suc n) p d h e = elim (Bool-cases (d == n)) [
  | inl same ↦ let e' : d ≡ n = ground (arith, same) in rw e' (ground (arith, e))
  | inr other ↦ all_below_holds n p d (ground (arith, other)) (ground (arith, e))
]

hex_of-hex_digit : (d : ℕ) → d < 16 → hex_of (hex_digit d) ≡ d
unfolding all_below
hex_of-hex_digit d h =
    let e = all_below_holds 16 (λ x. hex_of (hex_digit x) == x) d h refl in ground (arith, e)

hex_digit-IsHex : (d : ℕ) → d < 16 → is_hex (hex_digit d) ≡ true
unfolding all_below
hex_digit-IsHex d h = all_below_holds 16 (λ x. is_hex (hex_digit x)) d h refl

abbrev pub IsHex : ℕ → Type 0
IsHex c = is_hex c ≡ true

abbrev HexDone : ℕ → Bytes → Option (ℕ × Bytes) → Type 0
HexDone v out found =
    (i : ℕ) × (text : Bytes) × (found ≡ some (suc (suc i), text))
    × (hex_value text 0 ≡ hex_value out v)
    × All IsHex text

-- With `k` places for a number below `16 ^ k`, and 2 for the prefix, the loop stays inside its array.
hex_loop-reads :
    (k v : ℕ) (out : Bytes)
    → 0 < k
    → v < 16 ^ k
    → All IsHex out
    → HexDone v out (hex_loop (suc (suc k)) v out)
unfolding hex_loop
hex_loop-reads zero v out hi hv hd = absurd (omega arith)
hex_loop-reads (suc k) v out hi hv hd =
    let next = hex_digit (bit_and v 15) ∷ out in
    let rest = hex_loop (suc (suc k)) (v / 16) next in
    let low : bit_and v 15 ≡ v % 16 = bit_and-low_mask 4 v in
    let digit : hex_of (hex_digit (bit_and v 15)) ≡ v % 16 =
      rw low (hex_of-hex_digit (v % 16) (omega arith)) in
    let hd' : All IsHex next = (rw low (hex_digit-IsHex (v % 16) (omega arith)), hd) in
    if-either (HexDone v out) (v / 16 == 0) (some (suc (suc k), next)) rest
      (λ e.
        let small : 0 * 16 + hex_of (hex_digit (bit_and v 15)) ≡ v = ground (arith, e, digit) in
        (k, next, refl, ap (hex_value out) small, hd'))
      λ e.
        let more : 0 < v / 16 = ground (arith, e) in
        let (i, text, found, reads, digits) =
          hex_loop-reads k (v / 16) next (ground (arith, positive k, pow-suc 16 k))
            (omega (arith, pow-suc 16 k)) hd' in
        let last : v / 16 * 16 + hex_of (hex_digit (bit_and v 15)) ≡ v = ground (arith, digit) in
        (i, text, found, reads ∙ ap (hex_value out) last, digits)
  where
    positive : (j : ℕ) → 0 < v / 16 → v < 16 ^ suc j → 0 < j
    positive zero m h = absurd (omega arith)
    positive (suc j) m h = omega arith

-- A 64-bit address is printed within the array of 19 bytes: what is put is "0x" and hexadecimal digits that read back
-- as the address.
pub put_hex-reads :
    (v : ℕ) (r : Report)
    → v < 2 ^ 64
    → (digits : Bytes) × (put_hex v r ≡ some (put (b'0' ∷ b'x' ∷ digits) r))
      × (hex_value digits 0 ≡ v)
      × All IsHex digits
unfolding put_hex hex_prefix
put_hex-reads v r h =
    let (i, text, found, reads, digits) = hex_loop-reads 16 v [] (omega arith) (omega arith) tt in
    (text, ap (λ o. o >>= λ d. hex_prefix d >>= λ t. some (put t r)) found, reads, digits)
