-- ===== src/Report/Contents.antt =====
-- What the report buffer holds: a text, cut off at the buffer's size.
use Prim.Native.Nat.{min}
use mathlib.Core.List.{append-nil, append_assoc}
use sppc.Common.{
  ℕ, zero, suc, ◌+◌, ◌-◌, ◌%◌, ◌^◌, ◌≤◌, List, [], ◌∷◌, ◌++◌, ◌≡◌, refl, ap, sym, ◌∙◌, arith, subst,
  length, take, length-take, take-take, Bytes,
}
use sppc.Report.{Report, buf_size, put_n, put}

-- The report is `text`, cut off.
abbrev pub Says : Report → Bytes → Type 0
Says r text = r.buf ≡ take buf_size text

-- What is taken of a text, and then of what follows within the room left.
take-append :
    (n m : ℕ) (xs ys : Bytes)
    → m ≡ n - length (take n xs)
    → take n xs ++ take m ys ≡ take n (xs ++ ys)
take-append zero m xs ys h = let e : m ≡ 0 = omega arith in rw e refl
take-append (suc n) m [] ys h = let e : m ≡ suc n = omega arith in rw e refl
take-append (suc n) m (x ∷ xs) ys h = ap (λ t. x ∷ t) (take-append n m xs ys (omega arith))

-- `put_n` of `n` bytes of a string.
pub put_n-Says :
    (s text : Bytes) (n : ℕ) (r : Report) → Says r text → Says (put_n s n r) (text ++ take n s)
unfolding put_n
put_n-Says s text n r h =
    let short : length r.buf ≡ min buf_size (length text) =
      ap length h ∙ length-take buf_size text in
    let room = (buf_size + 2 ^ 64 - length r.buf) % 2 ^ 64 in
    let fits : room ≡ buf_size - length (take buf_size text) =
      omega (arith, short, length-take buf_size text) in
    let all = take-append buf_size room text (take n s) fits in
    ap (λ b. b ++ take (min n room) s) h
    ∙ ap (λ t. take buf_size text ++ t) (sym (take-take room n (min n room) s (omega arith)))
    ∙ all

take-length : (xs : Bytes) → take (length xs) xs ≡ xs
take-length [] = refl
take-length (x ∷ xs) = ap (λ t. x ∷ t) (take-length xs)

pub put-Says : (s text : Bytes) (r : Report) → Says r text → Says (put s r) (text ++ s)
unfolding put
put-Says s text r h =
    subst (λ t. Says (put s r) (text ++ t)) (take-length s) (put_n-Says s text (length s) r h)

-- The pieces of a report, put one after the other.
abbrev pub put_all : List Bytes → Report → Report
put_all [] r = r
put_all (s ∷ ss) r = put_all ss (put s r)

abbrev pub joined : List Bytes → Bytes
joined [] = []
joined (s ∷ ss) = s ++ joined ss

-- However many pieces are put, the buffer is their text cut off at its size: no byte is written past its end, none is
-- lost before it is full, and none is written once it is.
pub puts-refine_text :
    (ss : List Bytes) (text : Bytes) (r : Report)
    → Says r text
    → Says (put_all ss r) (text ++ joined ss) × (length (put_all ss r).buf ≤ buf_size)
puts-refine_text [] text r h = (
  subst (Says r) (sym (append-nil text)) h,
  omega (arith, ap length h, length-take buf_size text),
)
puts-refine_text (s ∷ ss) text r h =
    let (says, fits) = puts-refine_text ss (text ++ s) (put s r) (put-Says s text r h) in
    (subst (Says (put_all ss (put s r))) (append_assoc text s (joined ss)) says, fits)
