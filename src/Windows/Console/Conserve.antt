-- ===== src/Windows/Console/Conserve.antt =====
-- headers/sppc/platform/windows.h: what a console shows and what it holds back.
use mathlib.Core.List.{append-nil, append_assoc}
use mathlib.Core.Path.{ap₂}
use sppc.Common.{
  ℕ, zero, suc, ◌^◌, ◌<◌, ◌≤◌, ◌≡◌, refl, ap, sym, ◌∙◌, subst, Bool, true, false, ◌||◌, not, List,
  [], ◌∷◌, ◌++◌, arith, ◌==◌, if◌then◌else◌, length, get_or, take, drop, take-append-drop,
  length-take, length-drop, Bool-cases, if-either, ◌⊎◌, inl, inr,
}
use sppc.Windows.Console.{
  Console, utf8_len, whole_from, utf8_whole, console_put, finish_char, is_nil, resume, write_whole,
  console_write,
}
use sppc.Windows.Console.Parts.{
  utf8_len-bounds, whole_from-bounds, whole_from-lead, get_or-drop, console_put-takes,
  finish_char-left, finish_char-parts, finish_char-length, finish_char-head, IsPending,
}

-- What the first part leaves when the console takes it.
record Resumed (s : Console) (bytes : List ℕ) (r : (Bool × Console) × List ℕ) : Type 0 where
  takes : r.0.0 ≡ true
  same : (r.0.1.shown ++ r.0.1.pending) ++ r.1 ≡ (s.shown ++ s.pending) ++ bytes
  small : IsPending r.0.1.pending
  ends : (r.0.1.pending ≡ []) ⊎ (r.1 ≡ [])
  fits : length r.1 ≤ length bytes

is_nil-true : (xs : List ℕ) → is_nil xs ≡ true → xs ≡ []
is_nil-true [] h = refl
is_nil-true (x ∷ xs) h = cc

module _ (s : Console) (bytes char left : List ℕ) (parts : char ++ left ≡ s.pending ++ bytes) where
  flushed :
      length char < 2 ^ 31
      → length left ≤ length bytes
      → Resumed s bytes
          (((console_put true char s).0, record (console_put true char s).1 { pending = [] }), left)
  flushed short fit =
      let put = console_put-takes char s short in
      record {
        takes = ap (λ (q : Bool × Console). q.0) put;
        same =
            ap (λ (q : Bool × Console). (q.1.shown ++ []) ++ left) put
            ∙ ap (λ x. x ++ left) (append-nil (s.shown ++ char))
            ∙ append_assoc s.shown char left
            ∙ ap (λ x. s.shown ++ x) parts
            ∙ sym (append_assoc s.shown s.pending bytes);
        small = (omega arith, omega arith);
        ends = inl refl;
        fits = fit;
      }

  kept : left ≡ [] → IsPending char → Resumed s bytes ((true, record s { pending = char }), left)
  kept e h = record {
    fits = omega (arith, ap (λ xs. length xs) e);
    takes = refl;
    same =
        append_assoc s.shown char left
        ∙ ap (λ x. s.shown ++ x) parts
        ∙ sym (append_assoc s.shown s.pending bytes);
    small = h;
    ends = inr e;
  }

unresumed :
    (s : Console) (bytes : List ℕ)
    → IsPending s.pending
    → (is_nil s.pending || is_nil bytes) ≡ true
    → Resumed s bytes ((true, s), bytes)
unresumed s bytes h e = record {
  takes = refl;
  same = refl;
  small = h;
  fits = omega arith;
  ends = elim (Bool-cases (is_nil s.pending)) [
    | inl p ↦ inl (is_nil-true s.pending p)
    | inr p ↦ inr (is_nil-true bytes (ground (arith, e)))
  ];
}

resume-Resumed :
    (bytes : List ℕ) (s : Console) → IsPending s.pending → Resumed s bytes (resume true bytes s)
unfolding resume
resume-Resumed bytes s h =
    let want = utf8_len (get_or s.pending 0 0) in
    let r = finish_char want s.pending bytes in
    let parts = finish_char-parts want s.pending bytes in
    let size = finish_char-length want s.pending bytes h.1 in
    let len = utf8_len-bounds (get_or s.pending 0 0) in
    if-either (Resumed s bytes) (is_nil s.pending || is_nil bytes) ((true, s), bytes)
      (if length r.0 == want || not (is_nil r.1)
        then (((console_put true r.0 s).0, record (console_put true r.0 s).1 { pending = [] }), r.1)
        else ((true, record s { pending = r.0 }), r.1))
      (λ e. unresumed s bytes h e)
      (λ e.
        if-either (Resumed s bytes) (length r.0 == want || not (is_nil r.1))
          (((console_put true r.0 s).0, record (console_put true r.0 s).1 { pending = [] }), r.1)
          ((true, record s { pending = r.0 }), r.1)
          (λ y.
            flushed s bytes r.0 r.1 parts (omega (arith, size, len))
              (finish_char-left want s.pending bytes))
          (λ y.
            let pending : is_nil s.pending ≡ false = ground (arith, e) in
            kept s bytes r.0 r.1 parts (is_nil-true r.1 (ground (arith, y))) (
              ground (arith, y, size, len),
              subst (λ c. length r.0 ≤ utf8_len c)
                  (sym (finish_char-head want s.pending bytes pending)) size,
            )))

module _ (bytes : List ℕ) (s : Console) where
  write_whole-value :
      length bytes < 2 ^ 31
      → write_whole true bytes s ≡ (
        true,
        record s {
          shown = s.shown ++ take (utf8_whole bytes) bytes;
          pending = s.pending ++ drop (utf8_whole bytes) bytes;
        },
      )
  unfolding write_whole
  write_whole-value few =
      ap
        (λ (q : Bool × Console). (
          q.0,
          if q.0
              then record q.1 { pending = q.1.pending ++ drop (utf8_whole bytes) bytes }
              else q.1,
        ))
        (console_put-takes (take (utf8_whole bytes) bytes) s
          (omega (arith, few, length-take (utf8_whole bytes) bytes)))

  held_back : IsPending (drop (utf8_whole bytes) bytes)
  unfolding utf8_whole
  held_back =
      let n = whole_from 3 1 bytes in
      let rest = length-drop n bytes in
      let bounds = whole_from-bounds 3 1 bytes (omega arith) in
      (
        omega (arith, rest, bounds),
        elim (whole_from-lead 3 1 bytes) [
          | inl e ↦ omega (arith, rest, e)
          | inr h ↦
              subst (λ c. length (drop n bytes) ≤ utf8_len c) (sym (get_or-drop n bytes))
                (omega (arith, rest, h))
        ],
      )

take_nil : (n : ℕ) → take {A = ℕ} n [] ≡ []
take_nil zero = refl
take_nil (suc n) = refl

drop_nil : (n : ℕ) → drop {A = ℕ} n [] ≡ []
drop_nil zero = refl
drop_nil (suc n) = refl

rejoin :
    (a p l : List ℕ) (n : ℕ)
    → (p ≡ []) ⊎ (l ≡ [])
    → (a ++ take n l) ++ (p ++ drop n l) ≡ (a ++ p) ++ l
rejoin a p l n (inl e) =
    ap (λ x. (a ++ take n l) ++ (x ++ drop n l)) e
    ∙ append_assoc a (take n l) (drop n l)
    ∙ ap (λ x. a ++ x) (take-append-drop n l)
    ∙ ap (λ x. x ++ l) (sym (append-nil a))
    ∙ ap (λ x. (a ++ x) ++ l) (sym e)
rejoin a p l n (inr e) =
    ap (λ x. (a ++ take n x) ++ (p ++ drop n x)) e
    ∙ ap₂ (λ x y. (a ++ x) ++ (p ++ y)) (take_nil n) (drop_nil n)
    ∙ ap₂ (λ x y. x ++ y) (append-nil a) (append-nil p)
    ∙ sym (append-nil (a ++ p))
    ∙ ap (λ x. (a ++ p) ++ x) (sym e)

held-IsPending :
    (p l : List ℕ) (n : ℕ)
    → (p ≡ []) ⊎ (l ≡ [])
    → IsPending p
    → IsPending (drop n l)
    → IsPending (p ++ drop n l)
held-IsPending p l n (inl e) h k = subst (λ x. IsPending (x ++ drop n l)) (sym e) k
held-IsPending p l n (inr e) h k =
    let same : p ++ drop n l ≡ p =
      ap (λ x. p ++ drop n x) e ∙ ap (λ x. p ++ x) (drop_nil n) ∙ append-nil p in
    subst IsPending (sym same) h

-- A write of fewer than 2^31 bytes, to a console that takes what it is handed and holds back at most 3 bytes, no more
-- than the character that they begin has: all bytes are taken; what the console was handed with what is then held back
-- is what it was handed and held back before, and the bytes behind it, in order; and what is held back is again at most
-- 3 bytes and no more than its character has.
pub console_write-conserves :
    (bytes : List ℕ) (s : Console)
    → length bytes < 2 ^ 31
    → IsPending s.pending
    → ((console_write true true bytes s).0 ≡ true)
      × ((console_write true true bytes s).1.shown ++ (console_write true true bytes s).1.pending
          ≡ (s.shown ++ s.pending) ++ bytes)
      × IsPending (console_write true true bytes s).1.pending
unfolding console_write
console_write-conserves bytes s few h =
    let r = resume true bytes s in
    let f = resume-Resumed bytes s h in
    let v = write_whole-value r.1 r.0.1 (omega (arith, few, f.fits)) in
    let written : (if r.0.0 then write_whole true r.1 r.0.1 else (false, r.0.1))
        ≡ write_whole true r.1 r.0.1 =
      rw f.takes refl in
    let out = written ∙ v in
    (
      ap (λ (q : Bool × Console). q.0) out,
      ap (λ (q : Bool × Console). q.1.shown ++ q.1.pending) out
          ∙ rejoin r.0.1.shown r.0.1.pending r.1 (utf8_whole r.1) f.ends
          ∙ f.same,
      subst (λ (q : Bool × Console). IsPending q.1.pending) (sym out)
          (held-IsPending r.0.1.pending r.1 (utf8_whole r.1) f.ends f.small (held_back r.1 r.0.1)),
    )
