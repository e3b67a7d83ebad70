-- ===== src/Windows/Fds/Lowest.antt =====
-- headers/sppc/platform/windows.h: the room that the table makes, and the search for a free fd.
use sppc.Common.{
  ℕ, zero, suc, ◌+◌, ◌-◌, ◌*◌, ◌≤◌, ◌<◌, ◌≡◌, ◌≢◌, refl, ap, sym, ◌∙◌, subst, Bool, true, false,
  Option, none, some, arith, List, [], ◌∷◌, ◌++◌, ◌==◌, ltb, leb, if◌then◌else◌, length, replicate,
  length-append, length-replicate, Option-cases, Bool-cases, if-either, inl, inr,
}
use sppc.Windows.Fds.{
  Slot, Fds, named, double_past, blank_slot, grow, fds_reserve, fd_max, lowest_free,
}
use sppc.Windows.Fds.Count.{IsCounted, uses-blank}

double_past-enough :
    (k fd size : ℕ)
    → 0 < size
    → fd < size + k
    → (c : ℕ) × (double_past (suc k) fd size ≡ some c) × (fd < c) × (size ≤ c)
unfolding double_past
double_past-enough zero fd size pos h = (size, ground arith, omega arith, omega arith)
double_past-enough (suc k) fd size pos h = elim (Bool-cases (leb size fd)) [
  | inl e ↦
      let (c, f, g, l) = double_past-enough k fd (size * 2) (omega arith) (omega arith) in
      (c, ground (arith, f), g, omega arith)
  | inr e ↦ (size, ground arith, ground arith, omega arith)
]

named-blank :
    (slots : List Slot) (n x : ℕ) → named (slots ++ replicate n blank_slot) x ≡ named slots x
named-blank [] zero x = refl
named-blank [] (suc n) zero = refl
named-blank [] (suc n) (suc x) = named-blank [] n x
named-blank (y ∷ ys) n zero = refl
named-blank (y ∷ ys) n (suc x) = named-blank ys n x

-- What a reservation leaves alone.
pub record Frames (s t : Fds) : Type 0 where
  pub same : (x : ℕ) → named t.slots x ≡ named s.slots x
  pub counted : (held : ℕ → ℕ) → IsCounted s held → IsCounted t held

Frames-refl : (s : Fds) → Frames s s
Frames-refl s = record { same = λ x. refl; counted = λ held c. c }

grow-Frames : (ok : Bool) (o : Option ℕ) (s : Fds) → Frames s (grow ok o s).1
unfolding grow
grow-Frames ok none s = Frames-refl s
grow-Frames ok (some d) s =
    let n = (if ltb fd_max d then fd_max else d) - length s.slots in
    let t = record s { slots = s.slots ++ replicate n blank_slot } in
    if-either (λ (r : Bool × Fds). Frames s r.1) ok (true, t) (false, s)
      (λ y. record {
        same = λ x. named-blank s.slots n x;
        counted = λ held c. record {
          exact = λ e. c.exact e ∙ ap (λ u. u + held e) (sym (uses-blank e n s.slots));
          gone = λ e m. c.gone e m;
        };
      })
      (λ y. Frames-refl s)

pub reserve-Frames : (ok : Bool) (fd : ℕ) (s : Fds) → Frames s (fds_reserve ok fd s).1
unfolding fds_reserve
reserve-Frames ok fd s =
    let r = grow ok (double_past (fd + 1) fd (length s.slots)) s in
    if-either (λ (p : Bool × Fds). Frames s p.1) (ltb fd (length s.slots)) (true, s) r
      (λ y. Frames-refl s) (λ y. grow-Frames ok (double_past (fd + 1) fd (length s.slots)) s)

grow-room :
    (ok : Bool) (fd d : ℕ) (s : Fds)
    → fd < d
    → fd < fd_max
    → length s.slots ≤ d
    → length s.slots ≤ fd_max
    → (grow ok (some d) s).0 ≡ true
    → fd < length (grow ok (some d) s).1.slots
unfolding grow
grow-room ok fd d s below max l m h =
    let n = (if ltb fd_max d then fd_max else d) - length s.slots in
    let long = length-append s.slots (replicate n blank_slot) in
    let blanks = length-replicate n blank_slot in
    let grown : ok ≡ true → length (grow ok (some d) s).1.slots ≡ length s.slots + n =
      λ y. ground (arith, long, blanks) in
    ground (arith, grown)

grow-fails : (ok : Bool) (d : ℕ) (s : Fds) → (grow ok (some d) s).0 ≡ false → ok ≡ false
unfolding grow
grow-fails ok d s h = ground arith

-- A reservation that succeeds makes room for the fd; it fails only where `realloc` does.
pub reserve-room :
    (ok : Bool) (fd : ℕ) (s : Fds)
    → fd < fd_max
    → 0 < length s.slots
    → length s.slots ≤ fd_max
    → ((fds_reserve ok fd s).0 ≡ true → fd < length (fds_reserve ok fd s).1.slots)
      × ((fds_reserve ok fd s).0 ≡ false → ok ≡ false)
unfolding fds_reserve
reserve-room ok fd s small pos max =
    let (c, e, g, l) = double_past-enough fd fd (length s.slots) pos (omega arith) in
    let one : fd + 1 ≡ suc fd = omega arith in
    let asked : double_past (fd + 1) fd (length s.slots) ≡ some c =
      ap (λ k. double_past k fd (length s.slots)) one ∙ e in
    elim (Bool-cases (ltb fd (length s.slots))) [
      | inl y ↦ (λ h. ground arith, λ h. ground arith)
      | inr y ↦
          let made : fds_reserve ok fd s ≡ grow ok (some c) s =
            rw y (ap (λ o. grow ok o s) asked) in
          (
            λ h.
                subst (λ (p : Bool × Fds). fd < length p.1.slots) (sym made)
                  (grow-room ok fd c s g small l max (sym (ap (λ (p : Bool × Fds). p.0) made) ∙ h)),
            λ h. grow-fails ok c s (sym (ap (λ (p : Bool × Fds). p.0) made) ∙ h),
          )
    ]

-- The search stops at the first of its candidates that names nothing.
pub lowest_free-some :
    (n fd x : ℕ) (slots : List Slot)
    → lowest_free n fd slots ≡ some x
    → (named slots x ≡ none)
      × (fd ≤ x)
      × (x < fd + n)
      × ((y : ℕ) → fd ≤ y → y < x → named slots y ≢ none)
unfolding lowest_free
lowest_free-some zero fd x slots h = cc
lowest_free-some (suc n) fd x slots h = elim (Option-cases (named slots fd)) [
  | inl e ↦
      let same : fd ≡ x = ground (arith, e, h) in
      (ground arith, omega arith, omega arith, λ y l m. absurd (omega arith))
  | inr (d, e) ↦
      let (free, from, to, taken) = lowest_free-some n (fd + 1) x slots (ground (arith, e, h)) in
      (
        free,
        omega arith,
        omega arith,
        λ y l m. elim (Bool-cases (y == fd)) [
          | inl p ↦ λ q. ground arith
          | inr p ↦ taken y (ground arith) m
        ],
      )
]

pub lowest_free-none :
    (n fd y : ℕ) (slots : List Slot)
    → lowest_free n fd slots ≡ none
    → fd ≤ y
    → y < fd + n
    → named slots y ≢ none
unfolding lowest_free
lowest_free-none zero fd y slots h l m = absurd (omega arith)
lowest_free-none (suc n) fd y slots h l m = elim (Option-cases (named slots fd)) [
  | inl e ↦ absurd (ground (arith, e, h))
  | inr (d, e) ↦ elim (Bool-cases (y == fd)) [
    | inl p ↦ λ q. ground arith
    | inr p ↦
        lowest_free-none n (fd + 1) y slots (ground (arith, e, h)) (ground arith) (omega arith)
  ]
]
