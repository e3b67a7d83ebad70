-- ===== src/Async/Chain.antt =====
-- Lists of tasks linked through `next`: the run queue, the free slots and the zombies.
use sppc.Common.{
  ℕ, ◌≡◌, refl, sym, subst, Bool, true, false, ◌||◌, Option, none, some, List, [], ◌∷◌, ◌++◌, arith,
  ◌==◌, Bool-cases, inl, inr,
}
use sppc.Async.{Task}

abbrev pub All {ℓ} : {A : Type ℓ} → (A → Type 0) → List A → Type 0
All P [] = Unit
All P (x ∷ xs) = P x × All P xs

abbrev pub has : ℕ → List ℕ → Bool
has a [] = false
has a (x ∷ xs) = (a == x) || has a xs

abbrev pub IsDistinct : List ℕ → Type 0
IsDistinct [] = Unit
IsDistinct (x ∷ xs) = (has x xs ≡ false) × IsDistinct xs

abbrev pub last? : List ℕ → Option ℕ
last? [] = none
last? (x ∷ []) = some x
last? (x ∷ y ∷ xs) = last? (y ∷ xs)

-- From `p` the `next` pointers lead through `xs` to NULL.
abbrev pub Chain : (ℕ → Task) → Option ℕ → List ℕ → Type 0
Chain f p [] = p ≡ none
Chain f p (x ∷ xs) = (p ≡ some x) × Chain f (f x).next xs

pub has-ne : (t y : ℕ) (xs : List ℕ) → has t xs ≡ false → has y xs ≡ true → (y == t) ≡ false
has-ne t y [] m n = cc
has-ne t y (x ∷ xs) m n = elim (Bool-cases (has y xs)) [
  | inl later ↦ has-ne t y xs (ground arith) later
  | inr now ↦ ground arith
]

-- A write that spares the `next` of the members keeps the chain.
pub Chain-frame :
    (f g : ℕ → Task) (p : Option ℕ) (xs : List ℕ)
    → ((y : ℕ) → has y xs ≡ true → (g y).next ≡ (f y).next)
    → Chain f p xs
    → Chain g p xs
Chain-frame f g p [] same c = c
Chain-frame f g p (x ∷ xs) same c = (
  c.0,
  Chain-frame f g (g x).next xs (λ y h. same y (ground arith))
      (subst (λ q. Chain f q xs) (sym (same x (ground arith))) c.1),
)

pub has-last : (xs : List ℕ) (l : ℕ) → last? xs ≡ some l → has l xs ≡ true
has-last [] l e = cc
has-last (x ∷ []) l e = ground arith
has-last (x ∷ y ∷ xs) l e = ground (arith, has-last (y ∷ xs) l)

-- The chain extended by `t`: the last member's `next` is set to `t`, and that of `t` to NULL.
pub Chain-snoc :
    (f g : ℕ → Task) (p : Option ℕ) (x : ℕ) (xs : List ℕ) (l t : ℕ)
    → last? (x ∷ xs) ≡ some l
    → Chain f p (x ∷ xs)
    → IsDistinct (x ∷ xs)
    → ((y : ℕ) → has y (x ∷ xs) ≡ true → (y == l) ≡ false → (g y).next ≡ (f y).next)
    → (g l).next ≡ some t
    → (g t).next ≡ none
    → Chain g p ((x ∷ xs) ++ t ∷ [])
Chain-snoc f g p x [] l t e c d same end stop = (c.0, (ground arith, stop))
Chain-snoc f g p x (y ∷ ys) l t e c d same end stop =
    let apart : (x == l) ≡ false = ground (arith, has-last (y ∷ ys) l e, d.0) in
    (
      c.0,
      Chain-snoc f g (g x).next y ys l t e
          (subst (λ q. Chain f q (y ∷ ys)) (sym (same x (ground arith) apart)) c.1) d.1
          (λ z h n. same z (ground arith) n) end stop,
    )

pub last?-cons : (x : ℕ) (xs : List ℕ) → (l : ℕ) × (last? (x ∷ xs) ≡ some l)
last?-cons x [] = (x, refl)
last?-cons x (y ∷ xs) = last?-cons y xs

pub has-append : (a : ℕ) (xs ys : List ℕ) → has a (xs ++ ys) ≡ (has a xs || has a ys)
has-append a [] ys = refl
has-append a (x ∷ xs) ys = ground (arith, has-append a xs ys)

pub last?-snoc : (xs : List ℕ) (t : ℕ) → last? (xs ++ t ∷ []) ≡ some t
last?-snoc [] t = refl
last?-snoc (x ∷ []) t = refl
last?-snoc (x ∷ y ∷ xs) t = last?-snoc (y ∷ xs) t

pub IsDistinct-snoc :
    (xs : List ℕ) (t : ℕ) → IsDistinct xs → has t xs ≡ false → IsDistinct (xs ++ t ∷ [])
IsDistinct-snoc [] t d h = (refl, tt)
IsDistinct-snoc (x ∷ xs) t d h =
    (ground (arith, has-append x xs (t ∷ []), d.0), IsDistinct-snoc xs t d.1 (ground arith))

pub distinct-front :
    (xs : List ℕ) (t : ℕ) (ts : List ℕ) → IsDistinct (xs ++ t ∷ ts) → has t xs ≡ false
distinct-front [] t ts d = refl
distinct-front (x ∷ xs) t ts d =
    ground (arith, distinct-front xs t ts d.1, has-append x xs (t ∷ ts), d.0)

pub distinct-behind :
    (ys : List ℕ) (t : ℕ) (zs : List ℕ) → IsDistinct (ys ++ t ∷ zs) → has t zs ≡ false
distinct-behind [] t zs d = d.0
distinct-behind (y ∷ ys) t zs d = distinct-behind ys t zs d.1

module _ (P : ℕ → Type 0) where
  pub All-mem : (xs : List ℕ) (y : ℕ) → All P xs → has y xs ≡ true → P y
  All-mem [] y a h = cc
  All-mem (x ∷ xs) y a h = elim (Bool-cases (y == x)) [
    | inl e ↦ subst P (ground arith) a.0
    | inr e ↦ All-mem xs y a.1 (rw e at h)
  ]

  pub All-append : (xs ys : List ℕ) → All P xs → All P ys → All P (xs ++ ys)
  All-append [] ys hx hy = hy
  All-append (x ∷ xs) ys hx hy = (hx.0, All-append xs ys hx.1 hy)

  pub All-of_mem : (xs : List ℕ) → ((y : ℕ) → has y xs ≡ true → P y) → All P xs
  All-of_mem [] h = tt
  All-of_mem (x ∷ xs) h = (h x (ground arith), All-of_mem xs (λ y m. h y (ground arith)))
