-- ===== src/Strings/Last.antt =====
-- What `_sppc_strrstr` finds.
use sppc.Common.{
  ℕ, zero, suc, ◌+◌, ◌-◌, ◌≤◌, ◌<◌, ◌≡◌, refl, ap, sym, ◌∙◌, true, false, Option, none, some, [],
  ◌∷◌, arith, if-either, length, drop, drop-drop, length-drop, Bytes, dec_lt,
}
use sppc.Strings.{is_prefix, is_at, strstr, strrstr_loop, strrstr}

-- What `strstr` says of a text that starts at the offset `i`.
abbrev Searched : Bytes → Bytes → ℕ → Option ℕ → Type 0
Searched xs needle i none = (j : ℕ) → j ≤ length xs → is_at needle xs j ≡ false
Searched xs needle i (some m) =
    (d : ℕ) × (m ≡ i + d)
    × (d ≤ length xs)
    × (is_at needle xs d ≡ true)
    × ((j : ℕ) → j < d → is_at needle xs j ≡ false)

nothing : (needle : Bytes) (i : ℕ) → is_prefix needle [] ≡ false → Searched [] needle i none
nothing needle i e zero h = e
nothing needle i e (suc j) h = absurd (omega arith)

strstr-Searched : (xs needle : Bytes) (i : ℕ) → Searched xs needle i (strstr xs needle i)
unfolding strstr
strstr-Searched [] needle i =
    if-either (Searched [] needle i) (is_prefix needle []) (some i) none
      (λ e. (0, omega arith, omega arith, e, λ j h. absurd (omega arith))) (nothing needle i)
strstr-Searched (c ∷ cs) needle i =
    if-either (Searched (c ∷ cs) needle i) (is_prefix needle (c ∷ cs)) (some i) _
      (λ e. (0, omega arith, omega arith, e, λ j h. absurd (omega arith)))
      λ e. further (strstr cs needle (i + 1)) e (strstr-Searched cs needle (i + 1))
  where
    missing :
        is_prefix needle (c ∷ cs) ≡ false
        → Searched cs needle (i + 1) none
        → (j : ℕ) → j ≤ suc (length cs)
        → is_at needle (c ∷ cs) j ≡ false
    missing e s zero h = e
    missing e s (suc j) h = s j (omega arith)

    before :
        (d : ℕ)
        → is_prefix needle (c ∷ cs) ≡ false
        → ((j : ℕ) → j < d → is_at needle cs j ≡ false)
        → (j : ℕ) → j < suc d
        → is_at needle (c ∷ cs) j ≡ false
    before d e s zero h = e
    before d e s (suc j) h = s j (omega arith)

    further :
        (o : Option ℕ)
        → is_prefix needle (c ∷ cs) ≡ false
        → Searched cs needle (i + 1) o
        → Searched (c ∷ cs) needle i o
    further none e s = missing e s
    further (some m) e (d, place, inside, here, clear) =
        (suc d, omega (arith, place), omega (arith, inside), here, before d e clear)

-- The last offset below `p` where the needle stands, or none.
abbrev pub IsLast : Bytes → Bytes → ℕ → Option ℕ → Type 0
IsLast needle hay p none = (j : ℕ) → j < p → is_at needle hay j ≡ false
IsLast needle hay p (some i) =
    (i < p) × (is_at needle hay i ≡ true) × ((j : ℕ) → i < j → j < p → is_at needle hay j ≡ false)

clash : false ≡ true → ⊥
clash e = cc

module _ (hay needle : Bytes) where
  shifted : (p d j : ℕ) → j ≡ p + d → is_at needle (drop p hay) d ≡ is_at needle hay j
  shifted p d j e = ap (is_prefix needle) (drop-drop p d j hay e)

  beyond :
      (xs : Bytes) (j : ℕ) → length xs ≤ j → is_prefix needle [] ≡ false → is_at needle xs j ≡ false
  beyond [] zero h e = e
  beyond [] (suc j) h e = e
  beyond (x ∷ xs) zero h e = absurd (omega arith)
  beyond (x ∷ xs) (suc j) h e = beyond xs j (omega arith) e

  -- No match from `p` on leaves the last one below `p` the last of all.
  extend :
      (p : ℕ) (last : Option ℕ)
      → p ≤ length hay + 1
      → IsLast needle hay p last
      → ((j : ℕ) → p ≤ j → j < length hay + 1 → is_at needle hay j ≡ false)
      → IsLast needle hay (length hay + 1) last
  extend p none le l none_after =
      λ j h. elim (dec_lt j p) [ yes under ↦ l j under | no over ↦ none_after j (omega arith) h ]
  extend p (some i) le (under, here, between) none_after = (
    omega arith,
    here,
    λ j above h. elim (dec_lt j p) [
      | yes before ↦ between j above before
      | no over ↦ none_after j (omega arith) h
    ],
  )

  strrstr_loop-IsLast :
      (k p : ℕ) (last : Option ℕ)
      → length hay + 1 < p + k
      → p ≤ length hay + 1
      → IsLast needle hay p last
      → is_prefix needle [] ≡ false
      → (o : Option ℕ) × (strrstr_loop k p last hay needle ≡ some o)
        × IsLast needle hay (length hay + 1) o
  unfolding strrstr_loop
  strrstr_loop-IsLast zero p last enough le l solid = absurd (omega arith)
  strrstr_loop-IsLast (suc k) p last enough le l solid =
      by_search (strstr (drop p hay) needle p) (strstr-Searched (drop p hay) needle p)
        λ i lt here. strrstr_loop-IsLast k (i + 1) (some i) (omega arith) (omega arith) here solid
    where
      by_search :
          (o : Option ℕ)
          → Searched (drop p hay) needle p o
          → ((i : ℕ)
              → (p ≤ i) × (i ≤ length hay)
              → IsLast needle hay (i + 1) (some i)
              → (o' : Option ℕ) × (strrstr_loop k (i + 1) (some i) hay needle ≡ some o')
                × IsLast needle hay (length hay + 1) o')
          → (o' : Option ℕ) × (elim o [
            | none ↦ some last
            | some i ↦ strrstr_loop k (i + 1) (some i) hay needle
          ]
              ≡ some o')
            × IsLast needle hay (length hay + 1) o'
      by_search none s next = (
        last,
        refl,
        extend p last le l (λ j above h.
            sym (shifted p (j - p) j (omega arith)) ∙ s (j - p) (omega (arith, length-drop p hay))),
      )
      by_search (some m) (d, place, inside, here, clear) next =
          next m (omega arith, in_hay)
            (omega arith, sym (shifted p d m place) ∙ here, λ j above h. absurd (omega arith))
        where
          in_hay : m ≤ length hay
          in_hay = elim (dec_lt m (length hay + 1)) [
            | yes small ↦ omega arith
            | no large ↦
                let gone = beyond hay m (omega arith) solid in
                absurd (clash (sym gone ∙ sym (shifted p d m place) ∙ here))
          ]

-- `_sppc_strrstr` ends, and gives the last offset of the haystack where the needle stands, or none where it stands
-- nowhere; for an empty needle that is the end.
pub strrstr-IsLast :
    (hay needle : Bytes)
    → (o : Option ℕ) × (strrstr hay needle ≡ some o) × IsLast needle hay (length hay + 1) o
unfolding strrstr
strrstr-IsLast hay [] =
    (some (length hay), refl, (omega arith, refl, λ j above h. absurd (omega arith)))
strrstr-IsLast hay (c ∷ cs) =
    strrstr_loop-IsLast hay (c ∷ cs) (length hay + 2) 0 none (omega arith) (omega arith)
      (λ j h. absurd (omega arith)) refl
