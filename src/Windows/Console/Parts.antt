-- ===== src/Windows/Console/Parts.antt =====
-- headers/sppc/platform/windows.h: the parts of a console write: the lengths of characters, where
-- the whole ones end, and the loop that finishes one.
use mathlib.Core.List.{append-nil, append_assoc}
use sppc.Common.{
  ℕ, zero, suc, ◌+◌, ◌-◌, ◌%◌, ◌^◌, ◌==◌, leb, take, ◌≤◌, ◌<◌, ◌≡◌, refl, ap, sym, ◌∙◌, true, false,
  ◌&&◌, List, [], ◌∷◌, ◌++◌, arith, ltb, if◌then◌else◌, length, get_or, drop, length-append,
  if-either, ◌⊎◌, inl, inr,
}
use sppc.Windows.Console.{
  Console, utf8_len, whole_from, is_continuation, console_put, finish_char, is_nil,
}

pub utf8_len-bounds : (c : ℕ) → (1 ≤ utf8_len c) × (utf8_len c ≤ 4)
unfolding utf8_len
utf8_len-bounds c = (ground arith, ground arith)

pub whole_from-bounds :
    (k back : ℕ) (bytes : List ℕ)
    → back + k ≤ 4
    → (whole_from k back bytes ≤ length bytes) × (length bytes ≤ whole_from k back bytes + 3)
unfolding whole_from
whole_from-bounds zero back bytes h = (omega arith, omega arith)
whole_from-bounds (suc k) back bytes h =
    let rest = whole_from-bounds k (back + 1) bytes (omega arith) in
    let len = utf8_len-bounds (get_or bytes (length bytes - back) 0) in
    (ground (arith, rest), ground (arith, rest, len))

-- The bytes held back: at most 3, and no more than the character that they begin has.
abbrev pub IsPending : List ℕ → Type 0
IsPending p = (length p ≤ 3) × (length p ≤ utf8_len (get_or p 0 0))

pub whole_from-lead :
    (k back : ℕ) (bytes : List ℕ)
    → (whole_from k back bytes ≡ length bytes)
      ⊎ (length bytes - whole_from k back bytes
          < utf8_len (get_or bytes (whole_from k back bytes) 0))
unfolding whole_from
whole_from-lead zero back bytes = inl refl
whole_from-lead (suc k) back bytes =
    let c = get_or bytes (length bytes - back) 0 in
    let IsLead : ℕ → Type 0 =
      λ w. (w ≡ length bytes) ⊎ (length bytes - w < utf8_len (get_or bytes w 0)) in
    if-either IsLead (ltb (length bytes) back) (length bytes)
      (if is_continuation c
        then whole_from k (back + 1) bytes
        else if ltb back (utf8_len c)
        then length bytes - back
        else length bytes)
      (λ y. inl refl)
      (λ y.
        if-either IsLead (is_continuation c) (whole_from k (back + 1) bytes)
          (if ltb back (utf8_len c) then length bytes - back else length bytes)
          (λ z. whole_from-lead k (back + 1) bytes)
          (λ z.
            if-either IsLead (ltb back (utf8_len c)) (length bytes - back) (length bytes)
              (λ u. inr (ground (arith, u, y))) (λ u. inl refl)))

pub get_or-drop : (n : ℕ) (l : List ℕ) → get_or (drop n l) 0 0 ≡ get_or l n 0
get_or-drop zero [] = refl
get_or-drop zero (x ∷ xs) = refl
get_or-drop (suc n) [] = refl
get_or-drop (suc n) (x ∷ xs) = get_or-drop n xs

take-all : (n : ℕ) (xs : List ℕ) → length xs ≤ n → take n xs ≡ xs
take-all n [] h = take_none n
  where
    take_none : (n : ℕ) → take {A = ℕ} n [] ≡ []
    take_none zero = refl
    take_none (suc n) = refl
take-all zero (x ∷ xs) h = absurd (omega arith)
take-all (suc n) (x ∷ xs) h = ap (λ t. x ∷ t) (take-all n xs (omega arith))

-- A count that an `int` holds.
pub console_put-takes :
    (bytes : List ℕ) (s : Console)
    → length bytes < 2 ^ 31
    → console_put true bytes s ≡ (true, record s { shown = s.shown ++ bytes })
unfolding console_put
console_put-takes [] s h = ap (λ x. (true, record s { shown = x })) (sym (append-nil s.shown))
console_put-takes (c ∷ cs) s h =
    let count : length (c ∷ cs) % 2 ^ 32 ≡ length (c ∷ cs) = omega arith in
    let positive : leb (2 ^ 31) (length (c ∷ cs)) ≡ false = ground arith in
    let some_bytes : (length (c ∷ cs) == 0) ≡ false = ground arith in
    rw (count, positive, some_bytes)
      (ap (λ t. (true, record s { shown = s.shown ++ t }))
        (take-all (length (c ∷ cs)) (c ∷ cs) (omega arith)))

pub finish_char-left : (want : ℕ) (p d : List ℕ) → length (finish_char want p d).1 ≤ length d
unfolding finish_char
finish_char-left want p [] = omega arith
finish_char-left want p (c ∷ cs) =
    if-either (λ (r : List ℕ × List ℕ). length r.1 ≤ length (c ∷ cs))
      (ltb (length p) want && is_continuation c) (finish_char want (p ++ c ∷ []) cs) (p, c ∷ cs)
      (λ y. omega (arith, finish_char-left want (p ++ c ∷ []) cs)) (λ y. omega arith)

pub finish_char-parts :
    (want : ℕ) (p d : List ℕ) → (finish_char want p d).0 ++ (finish_char want p d).1 ≡ p ++ d
unfolding finish_char
finish_char-parts want p [] = refl
finish_char-parts want p (c ∷ cs) =
    if-either (λ (r : List ℕ × List ℕ). r.0 ++ r.1 ≡ p ++ c ∷ cs)
      (ltb (length p) want && is_continuation c) (finish_char want (p ++ c ∷ []) cs) (p, c ∷ cs)
      (λ y. finish_char-parts want (p ++ c ∷ []) cs ∙ append_assoc p (c ∷ []) cs) (λ y. refl)

pub finish_char-length :
    (want : ℕ) (p d : List ℕ) → length p ≤ want → length (finish_char want p d).0 ≤ want
unfolding finish_char
finish_char-length want p [] h = h
finish_char-length want p (c ∷ cs) h =
    if-either (λ (r : List ℕ × List ℕ). length r.0 ≤ want)
      (ltb (length p) want && is_continuation c) (finish_char want (p ++ c ∷ []) cs) (p, c ∷ cs)
      (λ y. finish_char-length want (p ++ c ∷ []) cs (ground (arith, y, length-append p (c ∷ []))))
      (λ y. h)

pub finish_char-head :
    (want : ℕ) (p d : List ℕ)
    → is_nil p ≡ false
    → get_or (finish_char want p d).0 0 0 ≡ get_or p 0 0
unfolding finish_char
finish_char-head want [] d h = cc
finish_char-head want (x ∷ p) [] h = refl
finish_char-head want (x ∷ p) (c ∷ cs) h =
    if-either (λ (r : List ℕ × List ℕ). get_or r.0 0 0 ≡ x)
      (ltb (length (x ∷ p)) want && is_continuation c) (finish_char want ((x ∷ p) ++ c ∷ []) cs)
      (x ∷ p, c ∷ cs) (λ y. finish_char-head want ((x ∷ p) ++ c ∷ []) cs refl) (λ y. refl)
