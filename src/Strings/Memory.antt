-- ===== src/Strings/Memory.antt =====
-- What `_sppc_memmem` finds.
use sppc.Common.{
  ℕ, zero, suc, ◌+◌, ◌-◌, ◌≤◌, ◌<◌, ◌≡◌, ◌≢◌, refl, ap, ◌∙◌, true, false, Option, none, some, [],
  ◌∷◌, ◌==◌, arith, if◌then◌else◌, if-either, Bool-cases, inl, inr, leb, ltb, length, take, drop,
  get_or, Bytes, ◌>>=◌, dec_lt, length-take, length-drop,
}
use sppc.Strings.{memchr, is_at, memmem_loop, memmem}

get_or-drop : (h j k : ℕ) (xs : Bytes) → k ≡ h + j → get_or (drop h xs) j 0 ≡ get_or xs k 0
get_or-drop zero j k xs e = ap (λ i. get_or xs i 0) (omega arith)
get_or-drop (suc h) j k [] e = refl
get_or-drop (suc h) j zero (x ∷ xs) e = absurd (omega arith)
get_or-drop (suc h) j (suc k) (x ∷ xs) e = get_or-drop h j k xs (omega arith)

get_or-take : (n j : ℕ) (xs : Bytes) → j < n → get_or (take n xs) j 0 ≡ get_or xs j 0
get_or-take zero j xs h = absurd (omega arith)
get_or-take (suc n) j [] h = refl
get_or-take (suc n) zero (x ∷ xs) h = refl
get_or-take (suc n) (suc j) (x ∷ xs) h = get_or-take n j xs (omega arith)

-- What a search for a byte says of the places before its answer.
abbrev Searched : Bytes → ℕ → Option ℕ → Type 0
Searched xs c none = (j : ℕ) → j < length xs → get_or xs j 0 ≢ c
Searched xs c (some i) = (i < length xs) × ((j : ℕ) → j < i → get_or xs j 0 ≢ c)

memchr-Searched : (xs : Bytes) (c : ℕ) → Searched xs c (memchr xs c)
unfolding memchr
memchr-Searched [] c = λ j h. absurd (omega arith)
memchr-Searched (x ∷ xs) c =
    if-either (Searched (x ∷ xs) c) (x == c) (some 0) _
      (λ e. (omega arith, λ j h. absurd (omega arith)))
      λ e. further (memchr xs c) (ground (arith, e)) (memchr-Searched xs c)
  where
    past : (i : ℕ) → x ≢ c → Searched xs c (some i) → (j : ℕ) → j < suc i → get_or (x ∷ xs) j 0 ≢ c
    past i n s zero h = n
    past i n s (suc j) h = s.1 j (omega arith)

    missing : x ≢ c → Searched xs c none → (j : ℕ) → j < suc (length xs) → get_or (x ∷ xs) j 0 ≢ c
    missing n s zero h = n
    missing n s (suc j) h = s j (omega arith)

    further :
        (o : Option ℕ) → x ≢ c → Searched xs c o → Searched (x ∷ xs) c (o >>= λ i. some (suc i))
    further none n s = missing n s
    further (some i) n s = (omega (arith, s.0), past i n s)

-- Where the needle stands, its first byte does.
is_at-first :
    (f : ℕ) (needle hay : Bytes) (j : ℕ)
    → get_or hay j 0 ≢ f
    → j < length hay
    → is_at (f ∷ needle) hay j ≡ false
is_at-first f needle [] j n h = absurd (omega arith)
is_at-first f needle (x ∷ xs) zero n h = ground (arith, n)
is_at-first f needle (x ∷ xs) (suc j) n h = is_at-first f needle xs j n (omega arith)

-- The first offset up to `last` where the needle stands, or none.
abbrev pub IsFirst : Bytes → Bytes → ℕ → Option ℕ → Type 0
IsFirst needle hay last none = (j : ℕ) → j ≤ last → is_at needle hay j ≡ false
IsFirst needle hay last (some i) =
    (i ≤ last) × (is_at needle hay i ≡ true) × ((j : ℕ) → j < i → is_at needle hay j ≡ false)

abbrev Finds : Bytes → Bytes → ℕ → Option (Option ℕ) → Type 0
Finds needle hay last found = (o : Option ℕ) × (found ≡ some o) × IsFirst needle hay last o

module _ (f : ℕ) (needle hay : Bytes) (last : ℕ)
    (fits : last + suc (length needle) ≡ length hay) where
  -- The bytes of the haystack that the search for the first byte goes over.
  seen :
      (h j : ℕ)
      → j < last - h + 1
      → h ≤ last
      → (get_or (take (last - h + 1) (drop h hay)) j 0 ≡ get_or hay (h + j) 0)
        × (j < length (take (last - h + 1) (drop h hay)))
  seen h j small le = (
    get_or-take (last - h + 1) j (drop h hay) small ∙ get_or-drop h j (h + j) hay refl,
    omega (arith, length-take (last - h + 1) (drop h hay), length-drop h hay),
  )

  -- No match before `h`, and no first byte between `h` and `m`: no match before `m`.
  none_before :
      (h m : ℕ)
      → ((j : ℕ) → j < h → is_at (f ∷ needle) hay j ≡ false)
      → ((j : ℕ) → h + j < m → get_or hay (h + j) 0 ≢ f)
      → m ≤ length hay
      → (j : ℕ) → j < m
      → is_at (f ∷ needle) hay j ≡ false
  none_before h m before between inside j lt = elim (dec_lt j h) [
    | yes under ↦ before j under
    | no over ↦
        let place : h + (j - h) ≡ j = omega arith in
        is_at-first f needle hay j
          (λ e. between (j - h) (omega arith) (ap (λ k. get_or hay k 0) place ∙ e)) (omega arith)
  ]

  memmem_loop-Finds :
      (k h : ℕ)
      → last + 1 < h + k
      → h ≤ last + 1
      → ((j : ℕ) → j < h → is_at (f ∷ needle) hay j ≡ false)
      → Finds (f ∷ needle) hay last (memmem_loop k h last f hay (f ∷ needle))
  unfolding memmem_loop
  memmem_loop-Finds zero h enough le before = absurd (omega arith)
  memmem_loop-Finds (suc k) h enough le before =
      if-either (Finds (f ∷ needle) hay last) (leb h last) _ (some none)
        (λ e.
          by_hit (ground (arith, e)) (memchr (take (last - h + 1) (drop h hay)) f)
            (memchr-Searched (take (last - h + 1) (drop h hay)) f)
            (λ i small clear. memmem_loop-Finds k (h + i + 1) (omega arith) (omega arith) clear))
        λ e.
          let over : last < h = ground (arith, e) in (none, refl, λ j small. before j (omega arith))
    where
      by_hit :
          h ≤ last
          → (o : Option ℕ) → Searched (take (last - h + 1) (drop h hay)) f o
          → ((i : ℕ)
              → h + i ≤ last
              → ((j : ℕ) → j < h + i + 1 → is_at (f ∷ needle) hay j ≡ false)
              → Finds (f ∷ needle) hay last (memmem_loop k (h + i + 1) last f hay (f ∷ needle)))
          → Finds (f ∷ needle) hay last (elim o [
            | none ↦ some none
            | some i ↦
                if is_at (f ∷ needle) hay (h + i)
                then some (some (h + i))
                else memmem_loop k (h + i + 1) last f hay (f ∷ needle)
          ])
      by_hit in_range none s further = (
        none,
        refl,
        λ j small.
            none_before h (last + 1) before
              (λ m lt e.
                let (same, inside) = seen h m (omega arith) in_range in s m inside (same ∙ e))
              (omega (arith, fits)) j (omega arith),
      )
      by_hit in_range (some i) s further =
          let short : i < last - h + 1 =
            omega (arith, s.0, length-take (last - h + 1) (drop h hay)) in
          let clear =
            none_before h (h + i) before
              (λ m lt e.
                let (same, inside) = seen h m (omega arith) in_range in
                s.1 m (omega arith) (same ∙ e))
              (omega (arith, fits)) in
          if-either (Finds (f ∷ needle) hay last) (is_at (f ∷ needle) hay (h + i))
            (some (some (h + i))) (memmem_loop k (h + i + 1) last f hay (f ∷ needle))
            (λ e. (some (h + i), refl, (omega arith, e, clear)))
            λ e. further i (omega arith) λ j lt. elim (dec_lt j (h + i)) [
              | yes under ↦ clear j under
              | no over ↦ let here : j ≡ h + i = omega arith in ap (is_at (f ∷ needle) hay) here ∙ e
            ]

-- `_sppc_memmem` ends, and gives the first offset where the needle stands with all its bytes inside the haystack, or
-- none where there is no such offset; for an empty needle that is the start.
pub memmem-IsFirst :
    (hay needle : Bytes)
    → (o : Option ℕ) × (memmem hay needle ≡ some o)
      × ((length needle ≤ length hay → IsFirst needle hay (length hay - length needle) o)
          × (length hay < length needle → o ≡ none))
unfolding memmem
memmem-IsFirst hay [] = (
  some 0,
  refl,
  ((λ h. (omega arith, refl, λ j lt. absurd (omega arith))), λ h. absurd (omega arith)),
)
memmem-IsFirst hay (f ∷ needle) =
    let filled : (suc (length needle) == 0) ≡ false = ground arith in
    elim (Bool-cases (ltb (length hay) (suc (length needle)))) [
      | inl short ↦
          (none, rw (filled, short) refl, ((λ h. absurd (ground (arith, short))), λ h. refl))
      | inr long ↦
          let last = length hay - suc (length needle) in
          let fits : last + suc (length needle) ≡ length hay = ground (arith, long) in
          let (o, found, first) =
            memmem_loop-Finds f needle hay last fits (length hay + 2) 0 (omega (arith, fits))
              (omega arith) (λ j lt. absurd (omega arith)) in
          (o, rw (filled, long) found, ((λ h. first), λ h. absurd (ground (arith, long))))
    ]
