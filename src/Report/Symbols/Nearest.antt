-- ===== src/Report/Symbols/Nearest.antt =====
-- Which symbol `_sppc_bt_resolve` names an address by.
use sppc.Common.{
  ℕ, zero, suc, ◌+◌, ◌%◌, ◌^◌, ◌≤◌, ◌≡◌, refl, sym, subst, Bool, true, false, not, ◌&&◌, ◌||◌,
  Option, none, some, List, [], ◌∷◌, ◌==◌, ◌⊎◌, inl, inr, All, arith, leb, ltb, if◌then◌else◌,
  if-either, get_elem?, Option-cases,
}
use sppc.Report.Symbols.{Symbol, is_function, reaches, is_nearer, symbol_loop}

module _ (strtab_size addr : ℕ) where
  -- A symbol of type STT_FUNC (2) or STT_GNU_IFUNC (10), in a section (not SHN_UNDEF, 0), whose name the table has.
  abbrev pub is_code : Symbol → Bool
  is_code s = ((s.type_ == 2) || (s.type_ == 10)) && not (s.shndx == 0) && ltb s.name strtab_size

  -- One that starts at the address or below, and ends, as a word of 64 bits, above it.
  abbrev pub covers : Symbol → Bool
  covers s = is_code s && leb s.value addr && ltb addr ((s.value + s.size) % 2 ^ 64)

  -- One without a size that starts at the address or below.
  abbrev pub is_bare : Symbol → Bool
  is_bare s = is_code s && leb s.value addr && (s.size == 0)

  -- The first symbol that covers the address.
  abbrev pub first_cover : List Symbol → Option Symbol
  first_cover [] = none
  first_cover (s ∷ ss) = if covers s then some s else first_cover ss

  abbrev pub start_of : Option Symbol → ℕ
  start_of none = 0
  start_of (some s) = s.value

  -- The best of the bare symbols, and of the one found before.
  abbrev pub Nearest : List Symbol → Option Symbol → Option Symbol → Type 0
  Nearest ss best none = (best ≡ none) × All (λ t. is_bare t ≡ false) ss
  Nearest ss best (some s) =
      ((best ≡ some s) ⊎ ((is_bare s ≡ true) × (i : ℕ) × (get_elem? ss i ≡ some s)))
      × (start_of best ≤ s.value)
      × All (λ t. is_bare t ≡ true → t.value ≤ s.value) ss

  symbol_loop-first_cover :
      (ss : List Symbol) (best : Option Symbol) (s : Symbol)
      → first_cover ss ≡ some s
      → symbol_loop strtab_size addr ss best ≡ some s
  unfolding symbol_loop is_function reaches
  symbol_loop-first_cover [] best s h = absurd (cc)
  symbol_loop-first_cover (x ∷ ss) best s h =
      let rest : first_cover ss ≡ some s → symbol_loop strtab_size addr ss best ≡ some s =
        symbol_loop-first_cover ss best s in
      let taken : first_cover ss ≡ some s → symbol_loop strtab_size addr ss (some x) ≡ some s =
        symbol_loop-first_cover ss (some x) s in
      ground (arith, h, rest, taken)

  skip-Nearest :
      (x : Symbol) (ss : List Symbol) (best o : Option Symbol)
      → (is_bare x ≡ true → x.value ≤ start_of best)
      → (best ≡ none → is_bare x ≡ false)
      → Nearest ss best o
      → Nearest (x ∷ ss) best o
  skip-Nearest x ss best none below unless (e, all) = (e, (unless e, all))
  skip-Nearest x ss best (some s) below unless (from, low, all) = (
    elim from [ inl e ↦ inl e | inr (b, i, e) ↦ inr (b, suc i, e) ],
    low,
    ((λ b. let lower = below b in omega (arith, lower, low)), all),
  )

  take-Nearest :
      (x : Symbol) (ss : List Symbol) (best o : Option Symbol)
      → is_bare x ≡ true
      → start_of best ≤ x.value
      → Nearest ss (some x) o
      → Nearest (x ∷ ss) best o
  take-Nearest x ss best none bare up (e, all) = absurd (cc)
  take-Nearest x ss best (some s) bare up (from, low, all) = (
    elim from [
      | inl e ↦ let same : x ≡ s = cc in inr (rw (sym same) bare, zero, e)
      | inr (b, i, e) ↦ inr (b, suc i, e)
    ],
    omega (arith, up, low),
    ((λ _. low), all),
  )

  is_nearer-start :
      (x : Symbol) (best : Option Symbol) → is_nearer x best ≡ true → start_of best ≤ x.value
  unfolding is_nearer
  is_nearer-start x none h = omega arith
  is_nearer-start x (some b) h = ground (arith, h)

  is_nearer-below :
      (x : Symbol) (best : Option Symbol) → is_nearer x best ≡ false → x.value ≤ start_of best
  unfolding is_nearer
  is_nearer-below x none h = absurd (cc)
  is_nearer-below x (some b) h = ground (arith, h)

  is_nearer-none : (x : Symbol) (best : Option Symbol) → best ≡ none → is_nearer x best ≡ true
  unfolding is_nearer
  is_nearer-none x none e = refl
  is_nearer-none x (some b) e = absurd (cc)

  symbol_loop-cons :
      (x : Symbol) (ss : List Symbol) (best : Option Symbol)
      → covers x ≡ false
      → symbol_loop strtab_size addr (x ∷ ss) best ≡ (
          if is_bare x && is_nearer x best
          then symbol_loop strtab_size addr ss (some x)
          else symbol_loop strtab_size addr ss best)
  unfolding symbol_loop is_function reaches
  symbol_loop-cons x ss best h = ground (arith, h)

  symbol_loop-Nearest :
      (ss : List Symbol) (best : Option Symbol)
      → first_cover ss ≡ none
      → Nearest ss best (symbol_loop strtab_size addr ss best)
  unfolding symbol_loop is_function reaches
  symbol_loop-Nearest [] none h = (refl, tt)
  symbol_loop-Nearest [] (some b) h = (inl refl, omega arith, tt)
  symbol_loop-Nearest (x ∷ ss) best h =
      let past : covers x ≡ false = ground (arith, h) in
      let later : first_cover ss ≡ none = ground (arith, h) in
      subst (Nearest (x ∷ ss) best) (sym (symbol_loop-cons x ss best past)) (
        if-either (Nearest (x ∷ ss) best) (is_bare x && is_nearer x best) _ _
          (λ e.
            take-Nearest x ss best _ (ground (arith, e))
              (is_nearer-start x best (ground (arith, e))) (symbol_loop-Nearest ss (some x) later))
          λ e.
            skip-Nearest x ss best _ (λ b. is_nearer-below x best (ground (arith, e, b)))
              (λ n. let near = is_nearer-none x best n in ground (arith, e, near))
              (symbol_loop-Nearest ss best later))

  -- The symbol that names an address: the first function of the table that starts there or below and whose size, added in 64
  -- bits, takes it in; where there is none, of the functions without a size one that starts nearest below the address,
  -- or none where the table has none there. A function is a symbol of one of two types, defined, and with a name.
  pub symbol_loop-IsBest :
      (ss : List Symbol)
      → ((s : Symbol) × (first_cover ss ≡ some s) × (symbol_loop strtab_size addr ss none ≡ some s))
        ⊎ ((first_cover ss ≡ none) × Nearest ss none (symbol_loop strtab_size addr ss none))
  symbol_loop-IsBest ss = elim (Option-cases (first_cover ss)) [
    | inl e ↦ inr (e, symbol_loop-Nearest ss none e)
    | inr (s, e) ↦ inl (s, e, symbol_loop-first_cover ss none s e)
  ]
