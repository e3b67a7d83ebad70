-- ===== src/Report/Check/Says.antt =====
-- The message of a failed check.
use mathlib.Core.List.{append_assoc, append-nil}
use sppc.Common.{
  ℕ, zero, suc, arith, ◌≢◌, Bool, true, false, Option, none, some, List, [], ◌∷◌, ◌++◌, ◌≡◌, refl,
  ap, sym, ◌∙◌, subst, All, Bytes, codes, ◌==◌, if◌then◌else◌, ◌>>=◌,
}
use sppc.Report.{Report, put, put_dec, dec_loop}
use sppc.Report.Contents.{Says, put-Says}
use sppc.Report.Numbers.{IsDigit, dec_value, put_dec-reads}
use sppc.Report.Backtrace.Prints.{IsWord}
use sppc.Report.Check.{put_numbered, plain_text, put_values, put_check}

-- A piece of a message: a text, or a number.
pub data Piece : Type 0 where
  text : Bytes → Piece
  number : ℕ → Piece

-- A text of such pieces: a number stands in it as decimal digits that read back as it.
abbrev pub Renders : List Piece → Bytes → Type 0
Renders [] s = s ≡ []
Renders (Piece.text t ∷ ps) s = (u : Bytes) × (s ≡ t ++ u) × Renders ps u
Renders (Piece.number n ∷ ps) s =
    (d : Bytes) × (u : Bytes) × (s ≡ d ++ u)
    × (d ≢ [])
    × (dec_value d 0 ≡ n)
    × All IsDigit d
    × Renders ps u

-- The checks that are told by a text alone, by their numbers.
abbrev pub texts : List (ℕ × Bytes)
texts =
    (2, codes "integer conversion reached for a width pair it is not defined for")
    ∷ (
      3,
      codes "generator 'send' was reached directly; it is lowered through the '.res()' operator",
    )
    ∷ (16, codes "signed add overflowed")
    ∷ (17, codes "unsigned add overflowed")
    ∷ (18, codes "signed subtract overflowed")
    ∷ (19, codes "unsigned subtract underflowed")
    ∷ (20, codes "signed multiply overflowed")
    ∷ (21, codes "unsigned multiply overflowed")
    ∷ []

abbrev pub text_of : List (ℕ × Bytes) → ℕ → Option Bytes
text_of [] check = none
text_of ((k, s) ∷ rest) check = if check == k then some s else text_of rest check

abbrev pub pieces_of : List (ℕ × List Piece) → List Piece → ℕ → List Piece
pieces_of [] unknown check = unknown
pieces_of ((k, ps) ∷ rest) unknown check = if check == k then ps else pieces_of rest unknown check

-- Those that are told with numbers, or with the name of the foreign function.
abbrev pub values : (ℕ → Bytes) → ℕ → ℕ → List (ℕ × List Piece)
values string_at a b =
    (
      1,
      Piece.text (codes "index ")
          ∷ Piece.number a
          ∷ Piece.text (codes " out of bounds for length ")
          ∷ Piece.number b
          ∷ [],
    )
    ∷ (
      4,
      Piece.text (codes "slice ")
          ∷ Piece.number a
          ∷ Piece.text (codes "..")
          ∷ Piece.number b
          ∷ Piece.text (codes " ends before it starts")
          ∷ [],
    )
    ∷ (
      5,
      Piece.text (codes "slice end ")
          ∷ Piece.number a
          ∷ Piece.text (codes " out of bounds for length ")
          ∷ Piece.number b
          ∷ [],
    )
    ∷ (
      6,
      Piece.text (codes "float out of range for ")
          ∷ Piece.text (if b == 0 then codes "U" else codes "S")
          ∷ Piece.number a
          ∷ Piece.text (codes ", or NaN")
          ∷ [],
    )
    ∷ (
      7,
      Piece.text (codes "an exception unwound into s++ from '")
          ∷ Piece.text (string_at a)
          ∷ Piece.text (codes "'; foreign code must not unwind through s++ frames")
          ∷ [],
    )
    ∷ []

-- What a failed check says.
abbrev pub message : (ℕ → Bytes) → ℕ → ℕ → ℕ → List Piece
message string_at check a b = elim (text_of texts check) [
  | some s ↦ Piece.text s ∷ []
  | none ↦
      pieces_of (values string_at a b)
        (Piece.text (codes "unknown check ") ∷ Piece.number check ∷ []) check
]

-- Code that adds a text of such pieces to the report, and writes nothing out.
abbrev pub Told : List Piece → Bytes → Bytes → Option Report → Type 0
Told ps before err o =
    (q : Report) × (said : Bytes) × (o ≡ some q)
    × Says q (before ++ said)
    × (q.err ≡ err)
    × Renders ps said

abbrev Tells : List Piece → (Report → Option Report) → Type 0
Tells ps f = (r : Report) (before : Bytes) → Says r before → Told ps before r.err (f r)

put-Tells : (s : Bytes) → Tells (Piece.text s ∷ []) (λ r. some (put s r))
unfolding put
put-Tells s r before h =
    (put s r, s, refl, put-Says s before r h, refl, ([], sym (append-nil s), refl))

-- The digits of a number are at least one.
put_dec-digits :
    (n : ℕ) (r : Report)
    → IsWord n
    → (d : Bytes) × (put_dec n r ≡ some (put d r)) × (d ≢ []) × (dec_value d 0 ≡ n) × All IsDigit d
unfolding put_dec dec_loop
put_dec-digits zero r small = (b'0' ∷ [], refl, (λ e. cc), refl, ((omega arith, omega arith), tt))
put_dec-digits (suc n) r small =
    let (d, found, reads, all, _) = put_dec-reads (suc n) r small in
    (d, found, some_digit d reads, reads, all)
  where
    some_digit : (d : Bytes) → dec_value d 0 ≡ suc n → d ≢ []
    some_digit [] e = absurd (omega (arith, e))
    some_digit (x ∷ xs) e = λ k. cc

put_dec-Tells : (n : ℕ) → IsWord n → Tells (Piece.number n ∷ []) (put_dec n)
unfolding put
put_dec-Tells n small r before h =
    let (digits, found, some_of, reads, all) = put_dec-digits n r small in
    (
      put digits r,
      digits,
      found,
      put-Says digits before r h,
      refl,
      (digits, [], sym (append-nil digits), some_of, reads, all, refl),
    )

Renders-append :
    (ps qs : List Piece) (s t : Bytes) → Renders ps s → Renders qs t → Renders (ps ++ qs) (s ++ t)
Renders-append [] qs s t e k = subst (λ x. Renders qs (x ++ t)) (sym e) k
Renders-append (Piece.text x ∷ ps) qs s t (u, e, h) k =
    (u ++ t, ap (λ y. y ++ t) e ∙ append_assoc x u t, Renders-append ps qs u t h k)
Renders-append (Piece.number n ∷ ps) qs s t (d, u, e, some_of, reads, all, h) k = (
  d,
  u ++ t,
  ap (λ y. y ++ t) e ∙ append_assoc d u t,
  some_of,
  reads,
  all,
  Renders-append ps qs u t h k,
)

-- One piece of code after another.
chain-Tells :
    (ps qs : List Piece) (f g : Report → Option Report)
    → Tells ps f
    → Tells qs g
    → Tells (ps ++ qs) (λ r. f r >>= g)
chain-Tells ps qs f g hf hg r before h =
    let (r1, s1, found1, says1, kept1, is1) = hf r before h in
    let (r2, s2, found2, says2, kept2, is2) = hg r1 (before ++ s1) says1 in
    (
      r2,
      s1 ++ s2,
      ap (λ o. o >>= g) found1 ∙ found2,
      subst (Says r2) (append_assoc before s1 s2) says2,
      kept2 ∙ kept1,
      Renders-append ps qs s1 s2 is1 is2,
    )

-- A text, and then more.
after_text :
    (s : Bytes) (ps : List Piece) (f : Report → Option Report)
    → Tells ps f
    → Tells (Piece.text s ∷ ps) (λ r. f (put s r))
after_text s ps f h = chain-Tells (Piece.text s ∷ []) ps (λ r. some (put s r)) f (put-Tells s) h

put_numbered-Tells :
    (n : ℕ) (after : Bytes)
    → IsWord n
    → Tells (Piece.number n ∷ Piece.text after ∷ []) (put_numbered n after)
unfolding put_numbered
put_numbered-Tells n after h =
    chain-Tells (Piece.number n ∷ []) (Piece.text after ∷ []) (put_dec n) (λ q. some (put after q))
      (put_dec-Tells n h) (put-Tells after)

labelled :
    (s : Bytes) (n : ℕ) (after : Bytes)
    → IsWord n
    → Tells
        (Piece.text s ∷ Piece.number n ∷ Piece.text after ∷ [])
        (λ r. put_numbered n after (put s r))
labelled s n after h =
    after_text s (Piece.number n ∷ Piece.text after ∷ []) (put_numbered n after)
      (put_numbered-Tells n after h)

either-Tells :
    (b : Bool) (ps qs : List Piece) (f g : Report → Option Report)
    → Tells ps f
    → Tells qs g
    → Tells (if b then ps else qs) (λ r. if b then f r else g r)
either-Tells true ps qs f g hf hg = hf
either-Tells false ps qs f g hf hg = hg

module _ (string_at : ℕ → Bytes) (check a b : ℕ) (hc : IsWord check) (ha : IsWord a)
    (hb : IsWord b) where
  put_values-Tells :
      Tells
        (pieces_of
          (values string_at a b)
          (Piece.text (codes "unknown check ") ∷ Piece.number check ∷ [])
          check)
        (put_values string_at check a b)
  unfolding put_values
  put_values-Tells =
      either-Tells (check == 1) _ _ _ _
        (chain-Tells
          (Piece.text (codes "index ")
            ∷ Piece.number a
            ∷ Piece.text (codes " out of bounds for length ")
            ∷ [])
          (Piece.number b ∷ []) _ (put_dec b)
          (labelled (codes "index ") a (codes " out of bounds for length ") ha)
          (put_dec-Tells b hb))
        (either-Tells (check == 4) _ _ _ _
          (chain-Tells (Piece.text (codes "slice ") ∷ Piece.number a ∷ Piece.text (codes "..") ∷ [])
            (Piece.number b ∷ Piece.text (codes " ends before it starts") ∷ []) _
            (put_numbered b (codes " ends before it starts"))
            (labelled (codes "slice ") a (codes "..") ha)
            (put_numbered-Tells b (codes " ends before it starts") hb))
          (either-Tells (check == 5) _ _ _ _
            (chain-Tells
              (Piece.text (codes "slice end ")
                ∷ Piece.number a
                ∷ Piece.text (codes " out of bounds for length ")
                ∷ [])
              (Piece.number b ∷ []) _ (put_dec b)
              (labelled (codes "slice end ") a (codes " out of bounds for length ") ha)
              (put_dec-Tells b hb))
            (either-Tells (check == 6) _ _ _ _
              (after_text (codes "float out of range for ")
                (Piece.text (if b == 0 then codes "U" else codes "S")
                  ∷ Piece.number a
                  ∷ Piece.text (codes ", or NaN")
                  ∷ [])
                _ (labelled (if b == 0 then codes "U" else codes "S") a (codes ", or NaN") ha))
              (either-Tells (check == 7) _ _ _ _
                (after_text (codes "an exception unwound into s++ from '")
                  (Piece.text (string_at a)
                    ∷ Piece.text (codes "'; foreign code must not unwind through s++ frames")
                    ∷ [])
                  _
                  (after_text (string_at a)
                    (Piece.text (codes "'; foreign code must not unwind through s++ frames") ∷ []) _
                    (put-Tells (codes "'; foreign code must not unwind through s++ frames"))))
                (after_text (codes "unknown check ") (Piece.number check ∷ []) (put_dec check)
                  (put_dec-Tells check hc))))))

  plain_text-texts : plain_text check ≡ text_of texts check
  unfolding plain_text
  plain_text-texts = refl

  -- The switch says what the check is.
  pub put_check-Tells : Tells (message string_at check a b) (put_check string_at check a b)
  unfolding put_check
  put_check-Tells r before h =
      subst
        (λ (o : Option Bytes).
          Told (message string_at check a b) before r.err
            (elim o [ some t ↦ some (put t r) | none ↦ put_values string_at check a b r ]))
        (sym plain_text-texts) (by_text (text_of texts check))
    where
      by_text :
          (o : Option Bytes)
          → Told
              (elim o [
                | some s ↦ Piece.text s ∷ []
                | none ↦
                    pieces_of
                      (values string_at a b)
                      (Piece.text (codes "unknown check ") ∷ Piece.number check ∷ [])
                      check
              ])
              before
              r.err
              (elim o [ some t ↦ some (put t r) | none ↦ put_values string_at check a b r ])
      by_text none = put_values-Tells r before h
      by_text (some t) = put-Tells t r before h
