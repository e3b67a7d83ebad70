-- ===== src/Darwin/Dontneed/Passes.antt =====
-- The two passes of Darwin's DONTNEED.
use Prim.Native.Nat.{min}
use sppc.Common.{
  ℕ, zero, suc, ◌+◌, ◌-◌, ◌≤◌, ◌<◌, ◌≡◌, refl, ◌∙◌, true, false, not, ◌&&◌, Option, none, some,
  List, [], ◌∷◌, ◌==◌, ◌⊎◌, inl, inr, arith, ltb, if-either, Bool-cases, Option-cases, get_elem?,
  dec_lt, All,
}
use sppc.Errno.{eio, einval, enomem}
use sppc.Darwin.Dontneed.{
  Basic, Extended, Kernel, Region, region_of, region_at, is_executable, check_loop, Mapped, Calls,
  restored, replace_loop,
}

-- The kernel answers with the region that an address is in, or one behind it.
abbrev pub Answers : Kernel → Type 0
Answers k =
    (a : ℕ) (b : Basic) (x : Extended)
    → k.basic a ≡ some b
    → k.extended b.start ≡ some x
    → a < b.start + x.size

region_at-ahead : (k : Kernel) (a : ℕ) (r : Region) → Answers k → region_at k a ≡ some r → a < r.end
unfolding region_at region_of
region_at-ahead k a r ok e = elim (Option-cases (k.basic a)) [
  | inl n ↦ let clash : none ≡ some r = (rw n at e) in absurd (cc)
  | inr (b, f) ↦ elim (Option-cases (k.extended b.start)) [
    | inl n ↦ absurd (ground (arith, e, f, n))
    | inr (x, g) ↦ let past = ok a b x f g in ground (arith, e, f, g, past)
  ]
]

-- A new mapping is of memory to be replaced, in the range.
abbrev pub Inside : Kernel → ℕ → ℕ → Mapped → Type 0
Inside k at end m =
    (at ≤ m.from)
    × (m.from + m.len ≤ end)
    × (region_at k m.from ≡ some m.old)
    × (m.old.replace ≡ true)

-- An address is in a new mapping, or in a region that is not to be replaced.
abbrev pub Covered : Kernel → List Mapped → ℕ → Type 0
Covered k log x =
    ((i : ℕ) × (m : Mapped) × (get_elem? log i ≡ some m) × (m.from ≤ x) × (x < m.from + m.len))
    ⊎ ((a : ℕ) × (r : Region) × (region_at k a ≡ some r)
        × (r.replace ≡ false)
        × (a ≤ x)
        × (x < r.end))

-- A mapping that was refused with EINVAL, in the range.
abbrev pub Fails : Calls → ℕ → ℕ → Type 0
Fails c at end = (x : ℕ) × (at ≤ x) × (x < end) × (c.mmap x ≡ einval)

-- What the second pass leaves: an answer that is EINVAL only for a mapping so refused, mappings in the range, and where it
-- succeeds all that was to be replaced.
abbrev pub Replaced : Kernel → Calls → ℕ → ℕ → Option (ℕ × List Mapped) → Type 0
Replaced k c at end o =
    (e : ℕ) × (log : List Mapped) × (o ≡ some (e, log))
    × (e ≡ einval → Fails c at end)
    × All (Inside k at end) log
    × (e ≡ 0 → (x : ℕ) → at ≤ x → x < end → Covered k log x)

Fails-from : (c : Calls) (at next end : ℕ) → at ≤ next → Fails c next end → Fails c at end
Fails-from c at next end h (x, low, high, e) = (x, omega (arith, low, h), high, e)

All-Inside :
    (k : Kernel) (at at' end : ℕ) (log : List Mapped)
    → at ≤ at'
    → All (Inside k at' end) log
    → All (Inside k at end) log
All-Inside k at at' end [] h all = tt
All-Inside k at at' end (m ∷ log) h ((low, high, found, old), all) =
    ((omega (arith, low, h), high, found, old), All-Inside k at at' end log h all)

Covered-cons :
    (k : Kernel) (m : Mapped) (log : List Mapped) (x : ℕ) → Covered k log x → Covered k (m ∷ log) x
Covered-cons k m log x (inl (i, m', e, low, high)) = inl (suc i, m', e, low, high)
Covered-cons k m log x (inr kept) = inr kept

zero_cases : (n : ℕ) → (n ≡ 0) ⊎ ((m : ℕ) × (n ≡ suc m))
zero_cases zero = inl refl
zero_cases (suc m) = inr (m, refl)

module _ (k : Kernel) (c : Calls) (n at end : ℕ) where
  -- A region that is left alone.
  leaves-Replaced :
      (r : Region)
      → ltb at end ≡ true
      → region_at k at ≡ some r
      → r.replace ≡ false
      → at < r.end
      → Replaced k c r.end end (replace_loop n k c r.end end)
      → Replaced k c at end (replace_loop (suc n) k c at end)
  unfolding replace_loop
  leaves-Replaced r more found keep ahead (e, log, ran, valid, all, whole) =
      rw (more, found, keep, replace_loop)
        (
          e,
          log,
          ran,
          (λ bad. Fails-from c at r.end end (omega (arith, ahead)) (valid bad)),
          All-Inside k at r.end end log (omega (arith, ahead)) all,
          λ good x low high. elim (dec_lt x r.end) [
            | yes here ↦ inr (at, r, found, keep, low, here)
            | no past ↦ whole good x (omega (arith, past)) high
          ],
        )

  -- One that is mapped anew, with all that it had.
  maps-Replaced :
      (r : Region)
      → ltb at end ≡ true
      → region_at k at ≡ some r
      → r.replace ≡ true
      → c.mmap at ≡ 0
      → restored c at r.basic ≡ true
      → at < r.end
      → Replaced k c r.end end (replace_loop n k c r.end end)
      → Replaced k c at end (replace_loop (suc n) k c at end)
  unfolding replace_loop
  maps-Replaced r more found new fine kept ahead (e, log, ran, valid, all, whole) =
      let m : Mapped = record { from = at; len = min r.end end - at; old = r } in
      let below : at < end = ground (arith, more) in
      rw (more, found, new, fine, kept, replace_loop)
        (
          e,
          m ∷ log,
          rw ran refl,
          (λ bad. Fails-from c at r.end end (omega (arith, ahead)) (valid bad)),
          (
            (omega arith, omega (arith, ahead, below), found, new),
            All-Inside k at r.end end log (omega (arith, ahead)) all,
          ),
          λ good x low high. elim (dec_lt x r.end) [
            | yes here ↦ inl (zero, m, refl, low, omega (arith, here, high, low))
            | no past ↦ Covered-cons k m log x (whole good x (omega (arith, past)) high)
          ],
        )

  -- A pass that ends in this round.
  stops-Replaced :
      (r : Region)
      → ltb at end ≡ true
      → region_at k at ≡ some r
      → r.replace ≡ true
      → (c.mmap at ≡ 0 → restored c at r.basic ≡ false)
      → at < r.end
      → Replaced k c at end (replace_loop (suc n) k c at end)
  unfolding replace_loop
  stops-Replaced r more found new bad ahead =
      let below : at < end = ground (arith, more) in
      elim (zero_cases (c.mmap at)) [
        | inr (e, failed) ↦
            rw (more, found, new, failed, replace_loop)
              (
                suc e,
                [],
                refl,
                (λ h. (at, omega arith, below, failed ∙ h)),
                tt,
                λ h. absurd (omega (arith, h)),
              )
        | inl fine ↦
            let lost = bad fine in
            rw (more, found, new, fine, lost, replace_loop)
              (
                eio,
                record { from = at; len = min r.end end - at; old = r } ∷ [],
                refl,
                (λ h. absurd (omega (arith, h))),
                ((omega arith, omega (arith, ahead, below), found, new), tt),
                λ h. absurd (omega (arith, h)),
              )
      ]

  ended-Replaced : ltb at end ≡ false → Replaced k c at end (replace_loop (suc n) k c at end)
  unfolding replace_loop
  ended-Replaced over =
      rw (over, replace_loop)
        (
          0,
          [],
          refl,
          (λ h. absurd (omega (arith, h))),
          tt,
          λ h x low high. absurd (ground (arith, over, low, high)),
        )

  hole-Replaced :
      ltb at end ≡ true
      → region_at k at ≡ none
      → Replaced k c at end (replace_loop (suc n) k c at end)
  unfolding replace_loop
  hole-Replaced more hole =
      rw (more, hole, replace_loop)
        (enomem, [], refl, (λ h. absurd (omega (arith, h))), tt, λ h. absurd (omega (arith, h)))

pub replace_loop-Replaced :
    (n : ℕ) (k : Kernel) (c : Calls) (at end : ℕ)
    → Answers k
    → end - at < n
    → Replaced k c at end (replace_loop n k c at end)
replace_loop-Replaced zero k c at end ok h = absurd (omega arith)
replace_loop-Replaced (suc n) k c at end ok h = elim (Bool-cases (ltb at end)) [
  | inr over ↦ ended-Replaced k c n at end over
  | inl more ↦ elim (Option-cases (region_at k at)) [
    | inl hole ↦ hole-Replaced k c n at end more hole
    | inr (r, found) ↦
        let ahead = region_at-ahead k at r ok found in
        let below : at < end = ground (arith, more) in
        let rest = replace_loop-Replaced n k c r.end end ok (omega (arith, ahead, below, h)) in
        elim (Bool-cases r.replace) [
          | inr keep ↦ leaves-Replaced k c n at end r more found keep ahead rest
          | inl new ↦ elim (zero_cases (c.mmap at)) [
            | inr (e, failed) ↦
                stops-Replaced k c n at end r more found new
                  (λ fine. absurd (omega (arith, fine, failed))) ahead
            | inl fine ↦ elim (Bool-cases (restored c at r.basic)) [
              | inl kept ↦ maps-Replaced k c n at end r more found new fine kept ahead rest
              | inr lost ↦ stops-Replaced k c n at end r more found new (λ _. lost) ahead
            ]
          ]
        ]
  ]
]

-- The first pass ends.
pub check_loop-ends :
    (n : ℕ) (k : Kernel) (at end : ℕ)
    → Answers k
    → end - at < n
    → (e : ℕ) × (check_loop n k at end ≡ some e)
unfolding check_loop
check_loop-ends zero k at end ok h = absurd (omega arith)
check_loop-ends (suc n) k at end ok h = elim (Bool-cases (ltb at end)) [
  | inr over ↦ (0, rw (over, check_loop) refl)
  | inl more ↦ elim (Option-cases (region_at k at)) [
    | inl hole ↦ (enomem, rw (more, hole, check_loop) refl)
    | inr (r, found) ↦
        let ahead = region_at-ahead k at r ok found in
        let below : at < end = ground (arith, more) in
        let (e, rest) = check_loop-ends n k r.end end ok (omega (arith, ahead, below, h)) in
        rw (more, found, check_loop)
          (if-either (λ o. (x : ℕ) × (o ≡ some x)) (not (r.basic.user_wired_count == 0)) _ _
            (λ _. (einval, refl))
            λ _.
              if-either (λ o. (x : ℕ) × (o ≡ some x)) (r.replace && is_executable r.basic) _ _
                (λ _. (einval, refl)) λ _. (e, rest))
  ]
]
