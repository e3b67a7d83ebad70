-- ===== src/Windows/Fds/Count.antt =====
-- headers/sppc/platform/windows.h: the reference counts of descriptions, and the pieces of a call
-- that move them.
use sppc.Common.{
  ℕ, zero, suc, ◌+◌, ◌-◌, ◌<◌, ◌≡◌, refl, ap, ◌∙◌, Bool, true, Option, none, some, arith, List, [],
  ◌∷◌, ◌++◌, ◌==◌, if◌then◌else◌, length, set, replicate, Bool-cases, inl, inr, ◌⊎◌,
}
use sppc.Async.Chain.{has}
use sppc.Windows.Fds.{Slot, Fds, ofd_retain, ofd_release, named, blank_slot, fds_set}

-- 1 where the slot's `ofd` is `d`.
abbrev pub names : Option ℕ → ℕ → ℕ
names none d = 0
names (some x) d = if d == x then 1 else 0

-- How many fds name the description `d`.
abbrev pub uses : ℕ → List Slot → ℕ
uses d [] = 0
uses d (x ∷ xs) = names x.ofd d + uses d xs

-- With `held d` references of running calls to each description: every count is that of the fds that
-- name the description and of those references, and a description whose handle was closed has none.
pub record IsCounted (s : Fds) (held : ℕ → ℕ) : Type 0 where
  pub exact : (d : ℕ) → s.refs d ≡ uses d s.slots + held d
  pub gone : (d : ℕ) → has d s.closed ≡ true → s.refs d ≡ 0

-- One reference more to what `o` names.
abbrev pub plus : Option ℕ → (ℕ → ℕ) → ℕ → ℕ
plus o held d = held d + names o d

module _ (d : ℕ) (s : Fds) (held : ℕ → ℕ) where
  pub retain-IsCounted :
      IsCounted s held → 0 < s.refs d → IsCounted (ofd_retain d s) (plus (some d) held)
  unfolding ofd_retain
  retain-IsCounted c h = record {
    exact = λ e. ground (arith, c.exact e);
    gone = λ e m. ground (arith, c.gone e m);
  }

release-refs :
    (d e : ℕ) (s : Fds)
    → (ofd_release (some d) s).refs e ≡ (if e == d then s.refs d - 1 else s.refs e)
unfolding ofd_release
release-refs d e s = ground arith

release-slots : (o : Option ℕ) (s : Fds) → (ofd_release o s).slots ≡ s.slots
unfolding ofd_release
release-slots none s = refl
release-slots (some d) s = ground arith

release-closed :
    (d e : ℕ) (s : Fds)
    → has e (ofd_release (some d) s).closed ≡ true
    → (has e s.closed ≡ true) ⊎ ((e ≡ d) × (s.refs d - 1 ≡ 0))
unfolding ofd_release
release-closed d e s h = elim (Bool-cases (has e s.closed)) [
  | inl m ↦ inl m
  | inr m ↦ inr (ground arith, ground arith)
]

pub release-IsCounted :
    (o : Option ℕ) (s : Fds) (held : ℕ → ℕ)
    → IsCounted s (plus o held)
    → IsCounted (ofd_release o s) held
unfolding ofd_release
release-IsCounted none s held c = record {
  exact = λ e. omega (arith, c.exact e);
  gone = λ e m. c.gone e m;
}
release-IsCounted (some d) s held c = record {
  exact = λ e. release-refs d e s ∙ ground (arith, c.exact e, release-slots (some d) s);
  gone = λ e m. release-refs d e s ∙ elim (release-closed d e s m) [
    | inl was ↦ ground (arith, c.gone e was, c.exact e)
    | inr now ↦ ground (arith, now)
  ];
}

uses-set :
    (d fd : ℕ) (x : Slot) (slots : List Slot)
    → fd < length slots
    → uses d (set slots fd x) + names (named slots fd) d ≡ uses d slots + names x.ofd d
uses-set d fd x [] h = absurd (omega arith)
uses-set d zero x (y ∷ ys) h = omega arith
uses-set d (suc fd) x (y ∷ ys) h = omega (arith, uses-set d fd x ys (omega arith))

pub uses-blank :
    (d n : ℕ) (slots : List Slot) → uses d (slots ++ replicate n blank_slot) ≡ uses d slots
uses-blank d zero [] = refl
uses-blank d (suc n) [] = omega (arith, uses-blank d n [])
uses-blank d n (x ∷ xs) = ap (λ u. names x.ofd d + u) (uses-blank d n xs)

-- A store into the table hands a reference over for what stood there.
pub set-IsCounted :
    (fd : ℕ) (o : Option ℕ) (b : Bool) (s : Fds) (held : ℕ → ℕ)
    → fd < length s.slots
    → IsCounted s (plus o held)
    → IsCounted (fds_set fd o b s).1 (plus (named s.slots fd) held)
unfolding fds_set
set-IsCounted fd o b s held h c = record {
  exact = λ d. omega (arith, c.exact d, uses-set d fd (record { ofd = o; cloexec = b }) s.slots h);
  gone = λ d m. c.gone d m;
}
