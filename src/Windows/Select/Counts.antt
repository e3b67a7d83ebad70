-- ===== src/Windows/Select/Counts.antt =====
-- How many descriptors the marks of `sppc_select` of windows.h leave in the sets.
use sppc.Common.{
  ℕ, zero, suc, ◌+◌, ◌≤◌, ◌<◌, ◌≡◌, ◌≢◌, refl, ap, ◌∙◌, false, Option, none, some, List, [], ◌∷◌,
  ◌==◌, inl, inr, arith, Bool-cases, map,
}
use sppc.Windows.Poll.{Entry, one_if}
use sppc.Windows.Poll.Rounds.{asked}
use sppc.Windows.Select.{FdSet, has, Sets, with_fd, mark_one, mark_entry, mark_loop}
use sppc.Windows.Select.Marks.{Which, of, ask_of, meet_of, meets, marked}
use sppc.Windows.Select.Gathers.{Gathered}

-- How many of the descriptors below `n` a set names.
abbrev pub count : FdSet → ℕ → ℕ
count f zero = 0
count f (suc n) = one_if (f n) + count f n

abbrev pub members : ℕ → Option FdSet → ℕ
members n none = 0
members n (some f) = count f n

abbrev pub all_members : ℕ → Sets → ℕ
all_members n s = members n s.reads + members n s.writes + members n s.excepts

count-above : (f : FdSet) (fd n : ℕ) → n ≤ fd → count (with_fd (some fd) f) n ≡ count f n
unfolding with_fd
count-above f fd zero le = refl
count-above f fd (suc n) le =
    let other : (n == fd) ≡ false = ground arith in
    rw other (ap (λ k. one_if (f n) + k) (count-above f fd n (omega arith)))

with_fd-count :
    (f : FdSet) (fd n : ℕ) → f fd ≡ false → fd < n → count (with_fd (some fd) f) n ≡ count f n + 1
unfolding with_fd
with_fd-count f fd zero new lt = omega arith
with_fd-count f fd (suc n) new lt = elim (Bool-cases (n == fd)) [
  | inl e ↦
      let same : n ≡ fd = ground (arith, e) in
      let above : count (with_fd (some fd) f) n ≡ count f n =
        count-above f fd n (omega (arith, same)) in
      let old : f n ≡ false = ap f same ∙ new in rw (e, old) (omega (arith, above))
  | inr e ↦
      let other : n ≢ fd = ground (arith, e) in
      let rest = with_fd-count f fd n new (omega (arith, other)) in rw e (omega (arith, rest))
]

-- A set names nothing from `lo` on.
abbrev pub Below : ℕ → Option FdSet → Type 0
Below lo o = (x : ℕ) → lo ≤ x → has o x ≡ false

-- What a set becomes by one mark: so many members more, and none past the entry's descriptor.
mark_one-counts :
    (ask meet lo n fd : ℕ) (e : Entry) (o : Option FdSet)
    → e.fd ≡ some fd
    → lo ≤ fd
    → fd < n
    → Below lo o
    → (members n (mark_one ask meet e o).0 ≡ members n o + (mark_one ask meet e o).1)
      × Below (fd + 1) (mark_one ask meet e o).0
unfolding mark_one with_fd
mark_one-counts ask meet lo n fd e none at le lt below = (refl, λ x _. refl)
mark_one-counts ask meet lo n fd e (some f) at le lt below = elim (Bool-cases (meets ask meet e)) [
  | inl yes_meets ↦
      rw (yes_meets, at)
        (
          with_fd-count f fd n (below fd le) lt,
          λ x past.
              let other : (x == fd) ≡ false = ground arith in rw other (below x (omega arith)),
        )
  | inr no_meets ↦ rw no_meets (omega arith, λ x past. below x (omega arith))
]

mark_entry-counts :
    (s : Sets) (lo n fd : ℕ) (e : Entry)
    → e.fd ≡ some fd
    → lo ≤ fd
    → fd < n
    → ((w : Which) → Below lo (of w s))
    → (all_members n (mark_entry e s).0 ≡ all_members n s + (mark_entry e s).1)
      × ((w : Which) → Below (fd + 1) (of w (mark_entry e s).0))
unfolding mark_entry
mark_entry-counts s lo n fd e at le lt below =
    let (r, r_below) = one Which.reading in
    let (w, w_below) = one Which.writing in
    let (x, x_below) = one Which.exceptional in
    (
      omega (arith, r, w, x),
      elim [ Which.reading ↦ r_below | Which.writing ↦ w_below | Which.exceptional ↦ x_below ],
    )
  where
    one :
        (w : Which)
        → (members n (marked w e s)
            ≡ members n (of w s) + (mark_one (ask_of w) (meet_of w) e (of w s)).1)
          × Below (fd + 1) (marked w e s)
    one w = mark_one-counts (ask_of w) (meet_of w) lo n fd e (of w s) at le lt (below w)

-- The total counts the members.
pub mark_loop-counts :
    (given : Sets) (lo n : ℕ) (es : List Entry) (s : Sets) (total : ℕ)
    → Gathered given lo n (map asked es)
    → ((w : Which) → Below lo (of w s))
    → total ≡ all_members n s
    → (mark_loop es s total).1 ≡ all_members n (mark_loop es s total).0
unfolding mark_loop
mark_loop-counts given lo n [] s total g below h = h
mark_loop-counts given lo n (e ∷ es) s total (fd, at, le, lt, _, g) below h =
    let (own, below') = mark_entry-counts s lo n fd e at le lt below in
    mark_loop-counts given (fd + 1) n es (mark_entry e s).0 (total + (mark_entry e s).1) g below'
      (omega (arith, own, h))
