-- ===== src/Windows/Select/Reports.antt =====
-- What `sppc_select` of windows.h reports, from what it asks of `sppc_poll` and what that answers.
use sppc.Common.{
  ℕ, zero, suc, ◌≤◌, ◌≡◌, refl, ap, sym, ◌∙◌, subst, Bool, true, false, ◌&&◌, ◌||◌, Option, none,
  some, List, ◌∷◌, ◌++◌, inl, inr, arith, ltb, Bool-cases, map,
}
use sppc.Errno.{einval}
use sppc.Translate.{Pair}
use sppc.Windows.Poll.{Ofd, Entry, Round, poll}
use sppc.Windows.Poll.Rounds.{asked}
use sppc.Windows.Poll.Counts.{poll-Polled}
use sppc.Windows.Select.{
  FdSet, has, Sets, Timeval, gather, want_ms, ms_of, is_improper, any_nval, cleared, mark_loop,
  Selected, report, of_poll, failure, select,
}
use sppc.Windows.Select.Marks.{Which, of, ask_of, meet_of, is_set, told, mark_loop-names}
use sppc.Windows.Select.Gathers.{Gathered, gather-Gathered, told-has}
use sppc.Windows.Select.Counts.{members, all_members, mark_loop-counts}

cleared-is_set : (o : Option FdSet) → is_set (cleared o) ≡ is_set o
unfolding cleared
cleared-is_set none = refl
cleared-is_set (some f) = refl

cleared-names : (o : Option FdSet) (x : ℕ) → has (cleared o) x ≡ false
unfolding cleared
cleared-names none x = refl
cleared-names (some f) x = refl

has-is_set : (o : Option FdSet) (x : ℕ) → has o x ≡ true → is_set o ≡ true
has-is_set none x h = cc
has-is_set (some f) x h = refl

abbrev empty : Sets → Sets
empty s = record { reads = cleared s.reads; writes = cleared s.writes; excepts = cleared s.excepts }

of-empty : (w : Which) (s : Sets) → of w (empty s) ≡ cleared (of w s)
of-empty Which.reading s = refl
of-empty Which.writing s = refl
of-empty Which.exceptional s = refl

-- After the marks, a set names what the entries report of its descriptors.
marks-told :
    (w : Which) (s : Sets) (es : List Entry) (x : ℕ)
    → has (of w (mark_loop es (empty s) 0).0) x
      ≡ (is_set (of w s) && told (ask_of w) (meet_of w) es x)
marks-told w s es x =
    let nothing = ap (λ o. has o x) (of-empty w s) ∙ cleared-names (of w s) x in
    let set = ap is_set (of-empty w s) ∙ cleared-is_set (of w s) in
    mark_loop-names w es (empty s) 0 x
    ∙ ap (λ b. b || (is_set (of w (empty s)) && told (ask_of w) (meet_of w) es x)) nothing
    ∙ ap (λ b. b && told (ask_of w) (meet_of w) es x) set

members-cleared : (n : ℕ) (o : Option FdSet) → members n (cleared o) ≡ 0
unfolding cleared
members-cleared n none = refl
members-cleared zero (some f) = refl
members-cleared (suc n) (some f) = omega (arith, members-cleared n (some f))

marks-count :
    (s : Sets) (n : ℕ) (es : List Entry)
    → Gathered s 0 n (map asked es)
    → (mark_loop es (empty s) 0).1 ≡ all_members n (mark_loop es (empty s) 0).0
marks-count s n es g =
    mark_loop-counts s 0 n es (empty s) 0 g
      (λ w x _. ap (λ o. has o x) (of-empty w s) ∙ cleared-names (of w s) x)
      (omega
        (arith, members-cleared n s.reads, members-cleared n s.writes, members-cleared n s.excepts))

and_second : (a b : Bool) → (a && b) ≡ true → b ≡ true
and_second true b h = h
and_second false b h = cc

and_first : (a b : Bool) → a ≡ true → (a && b) ≡ b
and_first true b h = refl
and_first false b h = cc

-- What a set names that was asked for, and what is asked for that it names.
abbrev pub Tells : Sets → List Entry → Sets → Type 0
Tells given es now =
    (w : Which) (x : ℕ)
    → (has (of w now) x ≡ true → has (of w given) x ≡ true)
      × (has (of w given) x ≡ true → has (of w now) x ≡ told (ask_of w) (meet_of w) es x)

marks-Tells :
    (s : Sets) (n : ℕ) (es : List Entry)
    → Gathered s 0 n (map asked es)
    → Tells s es (mark_loop es (empty s) 0).0
marks-Tells s n es g w x = (
  λ h. told-has w s 0 n es x g (and_second _ _ (sym (marks-told w s es x) ∙ h)),
  λ h. marks-told w s es x ∙ and_first _ _ (has-is_set (of w s) x h),
)

-- How a call ends that asked `sppc_poll` for `asks` and got `answer`.
abbrev pub EndsAs :
    ℕ → Sets → Option Timeval → Option ((ℕ × Option ℕ) × List Entry) → Selected → Option ℕ → Type 0
EndsAs nfds given timeout answer r none = (r.sets ≡ given) × (r.timeout ≡ timeout)
EndsAs nfds given timeout answer r (some n) =
    (r.err ≡ 0)
    × (n ≡ all_members nfds r.sets)
    × (es : List Entry) × (got : Option ℕ) × (answer ≡ some ((0, got), es))
    × Tells given es r.sets

of_poll-EndsAs :
    (gone nfds : ℕ) (given : Sets) (timeout : Option Timeval) (err : ℕ) (got : Option ℕ)
    (es : List Entry)
    → map asked es ≡ map asked (gather given 0 nfds)
    → EndsAs nfds given timeout
        (some ((err, got), es))
        (of_poll gone given timeout ((err, got), es))
        (of_poll gone given timeout ((err, got), es)).total
unfolding of_poll report
of_poll-EndsAs gone nfds given timeout (suc e) got es asks = (refl, refl)
of_poll-EndsAs gone nfds given timeout zero got es asks = elim (Bool-cases (any_nval es)) [
  | inl closed ↦ rw closed (refl, refl)
  | inr all_open ↦
      let g =
        subst (Gathered given 0 nfds) (sym asks)
          (gather-Gathered given 0 nfds 0 nfds (omega arith) (omega arith)) in
      rw all_open (refl, marks-count given nfds es g, es, got, refl, marks-Tells given nfds es g)
]

-- A call whose timeout goes by returns. Where it fails, the sets and the timeout are as they were; where it succeeds, the count
-- is of the descriptors the three sets name then, each of which it was asked about, and a descriptor that was asked about is
-- in its set just where the events that `sppc_poll` found of it are the set's.
pub select-EndsAs :
    (table : List Pair) (os_pollin : ℕ) (find : ℕ → Option Ofd) (room : Bool) (before : List Round)
    (r : Round) (after : List Round) (gone nfds : ℕ) (given : Sets) (t : Timeval)
    → want_ms t ≤ r.gone
    → (x : Selected) × (select table os_pollin find room
          (before ++ r ∷ after)
          gone
          (some nfds)
          given
          (some t)
        ≡ some x)
      × EndsAs nfds given
          (some t)
          (poll table os_pollin
            (some (want_ms t))
            find
            room
            (before ++ r ∷ after)
            (gather given 0 nfds))
          x
          x.total
unfolding select ms_of
select-EndsAs table os_pollin find room before r after gone nfds given t late =
    elim (Bool-cases (ltb 1024 nfds || is_improper (some t))) [
      | inl bad ↦ rw bad (failure einval given (some t), refl, (refl, refl))
      | inr good ↦
          let (err, got, es, ran, asks, _) =
            poll-Polled table os_pollin (want_ms t) find room before r after (gather given 0 nfds)
              late in
          rw (good, ran)
            (
              of_poll gone given (some t) ((err, got), es),
              refl,
              of_poll-EndsAs gone nfds given (some t) err got es asks,
            )
    ]
