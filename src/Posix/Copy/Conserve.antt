-- ===== src/Posix/Copy/Conserve.antt =====
-- What `_sppc_copy_range` copies, and where it leaves the file that it reads.
use Prim.Native.Nat.{min}
use mathlib.Core.List.{append-nil, append_assoc}
use sppc.Common.{
  ℕ, zero, suc, ◌+◌, ◌-◌, ◌≤◌, ◌<◌, ◌≡◌, refl, ap, sym, ◌∙◌, subst, false, Option, none, some, List,
  [], ◌∷◌, ◌++◌, ◌==◌, arith, leb, ltb, if◌then◌else◌, if-either, Bool-cases, inl, inr, length,
  take, drop, drop-drop, length-take, take-take, Bytes, ◌>>=◌,
}
use sppc.Report.{Wrote}
use sppc.Posix.Copy.{Files, Copied, write_loop, copied, copy_range, copy_chunk}

take-split : (n m k : ℕ) (xs : Bytes) → k ≡ n + m → take n xs ++ take m (drop n xs) ≡ take k xs
take-split zero m k xs h = ap (λ j. take j xs) (omega arith)
take-split (suc n) m zero xs h = absurd (omega arith)
take-split (suc n) zero (suc k) [] h = refl
take-split (suc n) (suc m) (suc k) [] h = refl
take-split (suc n) m (suc k) (x ∷ xs) h = ap (λ t. x ∷ t) (take-split n m k xs (omega arith))

-- The writes took the bytes from `done` up to some `d`, in order.
abbrev Written : Bytes → ℕ → Bytes → Option (ℕ × Bytes) → Type 0
Written buf done target o =
    (d : ℕ) × (t : Bytes) × (o ≡ some (d, t))
    × (done ≤ d)
    × (d ≤ length buf)
    × (t ≡ target ++ take (d - done) (drop done buf))

module _ (buf : Bytes) (rest : List Wrote) where
  stopped :
      (done : ℕ) (target : Bytes)
      → done ≤ length buf
      → Written buf done target (some (done, target))
  stopped done target h =
      let none_taken : done - done ≡ 0 = omega arith in
      (
        done,
        target,
        refl,
        omega arith,
        h,
        sym (append-nil target) ∙ ap (λ n. target ++ take n (drop done buf)) (sym none_taken),
      )

  write_loop-Written :
      (ws : List Wrote) (done : ℕ) (target : Bytes)
      → done ≤ length buf
      → Written buf done target (write_loop (ws ++ Wrote.refused ∷ rest) buf done target)
  unfolding write_loop
  write_loop-Written [] done target h = stopped done target h
  write_loop-Written (Wrote.refused ∷ ws) done target h = stopped done target h
  write_loop-Written (Wrote.interrupted ∷ ws) done target h =
      if-either (Written buf done target) (leb (length buf) done) (some (done, target)) _
        (λ _. stopped done target h) λ _. write_loop-Written ws done target h
  write_loop-Written (Wrote.took w ∷ ws) done target h =
      let n = min w (length buf - done) in
      let (d, t, e, up, within, text) =
        write_loop-Written ws (done + n) (target ++ take n (drop done buf)) (omega arith) in
      if-either (Written buf done target) (leb (length buf) done) (some (done, target)) _
        (λ _. stopped done target h)
        λ _. (
          d,
          t,
          e,
          omega (arith, up),
          within,
          text
              ∙ append_assoc target (take n (drop done buf))
                  (take (d - (done + n)) (drop (done + n) buf))
              ∙ ap (λ x. target ++ (take n (drop done buf) ++ take (d - (done + n)) x))
                  (sym (drop-drop done n (done + n) buf refl))
              ∙ ap (λ x. target ++ x)
                  (take-split n (d - (done + n)) (d - done) (drop done buf) (omega (arith, up))),
        )

-- The bytes that a result stands for: none for a failure.
abbrev pub carried : Copied → ℕ
carried (Copied.count n) = n
carried Copied.failed = 0

-- A call's outcome: as many bytes as the result says have gone to the target, the first ones from the position on, and the
-- position stands behind them.
abbrev pub Conserved : ℕ → Files → Option (Copied × Files) → Type 0
Conserved len f o =
    (res : Copied) × (f' : Files) × (o ≡ some (res, f'))
    × (f'.source ≡ f.source)
    × (f'.position ≡ f.position + carried res)
    × (f'.target ≡ f.target ++ take (carried res) (drop f.position f.source))
    × (carried res ≤ len)

unmoved : (len : ℕ) (f : Files) (res : Copied) → carried res ≡ 0 → Conserved len f (some (res, f))
unmoved len f res none_moved = (
  res,
  f,
  refl,
  refl,
  omega (arith, none_moved),
  sym (append-nil f.target)
      ∙ ap (λ n. f.target ++ take n (drop f.position f.source)) (sym none_moved),
  omega (arith, none_moved),
)

copied-Conserved :
    (len d : ℕ) (f : Files) (buf t : Bytes)
    → d ≤ length buf
    → length buf ≤ len
    → t ≡ f.target ++ take d (drop f.position f.source)
    → Conserved len f (some (copied f buf (d, t)))
unfolding copied
copied-Conserved len d f buf t within short text = elim (Bool-cases (ltb d (length buf))) [
  | inl part ↦ rw (part, copied) (by_count d within text (ground (arith, part)))
  | inr all ↦
      rw (all, copied)
        (
          Copied.count d,
          record f { position = f.position + length buf; target = t },
          refl,
          refl,
          ground (arith, all),
          text,
          omega arith,
        )
]
  where
    by_count :
        (d : ℕ)
        → d ≤ length buf
        → t ≡ f.target ++ take d (drop f.position f.source)
        → d < length buf
        → Conserved len f (
            some (
              (if d == 0 then Copied.failed else Copied.count d),
              record f { position = f.position + length buf - (length buf - d); target = t },
            ))
    by_count zero within text part = (
      Copied.failed,
      record f { position = f.position + length buf - (length buf - 0); target = t },
      refl,
      refl,
      omega arith,
      text,
      omega arith,
    )
    by_count (suc d) within text part =
        let some_written : (suc d == 0) ≡ false = ground arith in
        rw some_written (
          Copied.count (suc d),
          record f { position = f.position + length buf - (length buf - suc d); target = t },
          refl,
          refl,
          omega arith,
          text,
          omega arith,
        )

-- Whatever the read answers, and whatever the writes take before one fails, however often they are interrupted, the copy
-- ends: its result counts the bytes that the target has got, which are the ones from the old position on, in order; the
-- position stands behind exactly those; and no more than `len` have gone over. A copy that fails moved nothing.
pub copy_range-Conserved :
    (got : Option ℕ) (ws rest : List Wrote) (len : ℕ) (f : Files)
    → Conserved len f (copy_range got (ws ++ Wrote.refused ∷ rest) len f)
unfolding copy_range
copy_range-Conserved none ws rest len f =
    if-either (Conserved len f) (len == 0) _ _ (λ _. unmoved len f (Copied.count 0) refl)
      λ _. unmoved len f Copied.failed refl
copy_range-Conserved (some got) ws rest len f =
    let m = min got (min len copy_chunk) in
    let ahead = drop f.position f.source in
    let buf = take m ahead in
    let (d, t, e, up, within, text) = write_loop-Written buf rest ws 0 f.target (omega arith) in
    let short : length buf ≤ m = omega (arith, length-take m ahead) in
    let exact : take (d - 0) buf ≡ take d ahead =
      take-take (d - 0) m d ahead (omega (arith, within, short)) in
    let whole =
      copied-Conserved len d f buf t within (omega (arith, short))
        (text ∙ ap (λ x. f.target ++ x) exact) in
    if-either (Conserved len f) (len == 0) _ _ (λ _. unmoved len f (Copied.count 0) refl)
      λ _.
        if-either (Conserved len f) (length buf == 0) _ _ (λ _. unmoved len f (Copied.count 0) refl)
          λ _. subst (λ o. Conserved len f (o >>= λ x. some (copied f buf x))) (sym e) whole
