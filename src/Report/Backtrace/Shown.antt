-- ===== src/Report/Backtrace/Shown.antt =====
-- Which frames `_sppc_bt_print` shows.
use sppc.Common.{
  ℕ, ◌+◌, ◌-◌, Option, none, some, List, [], ◌∷◌, ◌++◌, ◌==◌, if-either, ◌≡◌, ◌≢◌, ap, arith,
  length, take, drop, All,
}
use sppc.Report.Backtrace.{Walk, find_want}

-- The frames that a walk goes over.
abbrev pub shown : Walk → List ℕ
shown w = take (w.count - w.start) (drop w.start w.frames)

-- `want` is found at `i + length above`, behind frames that are not it, or not at all.
abbrev pub Found : List ℕ → ℕ → ℕ → Option ℕ → Type 0
Found fs want i none = All (λ f. f ≢ want) fs
Found fs want i (some k) =
    (above : List ℕ) × (below : List ℕ) × (fs ≡ above ++ want ∷ below)
    × All (λ f. f ≢ want) above
    × (k ≡ i + length above)

pub find_want-Found : (fs : List ℕ) (want i : ℕ) → Found fs want i (find_want fs want i)
unfolding find_want
find_want-Found [] want i = tt
find_want-Found (f ∷ fs) want i =
    if-either (Found (f ∷ fs) want i) (f == want) (some i) (find_want fs want (i + 1))
      (λ e. let e' : f ≡ want = ground (arith, e) in ([], fs, ap (λ x. x ∷ fs) e', tt, omega arith))
      λ e.
        let ne : f ≢ want = ground (arith, e) in
        later ne (find_want fs want (i + 1)) (find_want-Found fs want (i + 1))
  where
    later : f ≢ want → (o : Option ℕ) → Found fs want (i + 1) o → Found (f ∷ fs) want i o
    later ne none all = (ne, all)
    later ne (some k) (above, below, split, before, place) =
        (f ∷ above, below, ap (λ x. f ∷ x) split, (ne, before), omega (arith, place))
