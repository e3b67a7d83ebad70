-- ===== src/Windows/Threads/Counted.antt =====
-- What every step of a thread of windows.h and of its callers keeps: the references count who holds the object.
use sppc.Common.{
  ℕ, ◌+◌, ◌≤◌, ◌<◌, ◌≡◌, refl, ap, sym, ◌∙◌, subst, true, false, not, Option, none, some, List,
  ◌==◌, arith, if◌then◌else◌, Bool-cases, inl, inr, get_elem?, set, sum, sum-set, le-sum,
}
use sppc.Windows.{Code}
use sppc.Windows.Threads.{Thread, release, take_join, join_start, join_end, detach_start}
use sppc.Windows.Threads.Steps.{
  Runner, Place, World, Step, IsCounted, is_alive, is_pending, is_taker, is_joined, is_misled, owed,
  after_start, pending-le-taker, none-misled, release-parts,
}

-- What a step of the caller `i` from `p` to `q` does to each sum.
abbrev Moves : List Place → ℕ → Place → Place → Type 0
Moves ps i p q = (f : Place → ℕ) → sum f (set ps i q) + f p ≡ sum f ps + f q

few_refs : (w : World) → IsCounted w → w.thread.refs ≤ 2
few_refs w c = let taker = pending-le-taker w.callers in ground (arith, c.count, c.single, taker)

unfreed : (w : World) → IsCounted w → 0 < w.thread.refs → w.thread.freed ≡ 0
unfreed w c h = ground (arith, c.freed)

returns-IsCounted :
    (v : ℕ) (w : World)
    → w.runner ≡ Runner.running
    → IsCounted w
    → IsCounted (record w { thread = record w.thread { retval = v }; runner = Runner.finishing })
returns-IsCounted v w here c =
    let alive : is_alive w.runner ≡ 1 = rw here refl in
    let nobody = c.alone (omega (arith, alive)) in
    record {
      count = omega (arith, c.count, alive);
      freed = c.freed;
      single = c.single;
      alone = λ _. nobody;
      told = none-misled v w.callers nobody;
    }

ends-IsCounted :
    (w : World)
    → w.runner ≡ Runner.finishing
    → IsCounted w
    → IsCounted (record w { thread = release w.thread; runner = Runner.over })
ends-IsCounted w here c =
    let alive : is_alive w.runner ≡ 1 = rw here refl in
    let held : 0 < w.thread.refs = omega (arith, c.count, alive) in
    let (refs, freed, join, result) =
      release-parts w.thread held (few_refs w c) (unfreed w c held) in
    let same : owed (release w.thread) ≡ owed w.thread = rw join refl in
    record {
      count = omega (arith, refs, c.count, alive, same);
      freed = freed ∙ ap (λ n. if n == 0 then 1 else 0) (sym refs);
      single = omega (arith, c.single, same);
      alone = λ h. absurd (omega (arith, h));
      told = ap (λ r. sum (is_misled r) w.callers) result ∙ c.told;
    }

-- A caller whose start of a call fails.
refused-IsCounted :
    (i : ℕ) (e : Code) (w : World)
    → get_elem? w.callers i ≡ some Place.idle
    → IsCounted w
    → IsCounted (record w { callers = set w.callers i (Place.refused e) })
refused-IsCounted i e w here c =
    let m : Moves w.callers i Place.idle (Place.refused e) =
      λ f. sum-set f w.callers i Place.idle (Place.refused e) here in
    record {
      count = omega (arith, c.count, m is_pending);
      freed = c.freed;
      single = omega (arith, c.single, m is_taker);
      alone = λ h. omega (arith, c.alone h, m is_joined);
      told = omega (arith, c.told, m (is_misled w.thread.retval));
    }

-- A caller that takes the join that is owed.
takes-IsCounted :
    (i : ℕ) (p : Place) (w : World)
    → get_elem? w.callers i ≡ some Place.idle
    → w.thread.joinable ≡ true
    → is_pending p ≡ 1
    → is_taker p ≡ 1
    → ((r : ℕ) → is_misled r p ≡ 0)
    → is_joined p ≡ 0
    → IsCounted w
    → IsCounted
        (record w { thread = record w.thread { joinable = false }; callers = set w.callers i p })
takes-IsCounted i p w here free pending taker misled joined c =
    let m : Moves w.callers i Place.idle p = λ f. sum-set f w.callers i Place.idle p here in
    let one : owed w.thread ≡ 1 = rw free refl in
    record {
      count = omega (arith, c.count, m is_pending, one, pending);
      freed = c.freed;
      single = omega (arith, c.single, m is_taker, one, taker);
      alone = λ h. omega (arith, c.alone h, m is_joined, joined);
      told = omega (arith, c.told, m (is_misled w.thread.retval), misled w.thread.retval);
    }

-- A caller that is done and releases the object.
releases-IsCounted :
    (i : ℕ) (p q : Place) (w : World)
    → get_elem? w.callers i ≡ some p
    → is_pending p ≡ 1
    → is_taker p ≡ 1
    → is_joined p ≡ 0
    → is_misled w.thread.retval p ≡ 0
    → is_pending q ≡ 0
    → is_taker q ≡ 1
    → is_misled w.thread.retval q ≡ 0
    → is_joined q + is_alive w.runner ≤ 1
    → IsCounted w
    → IsCounted (record w { thread = release w.thread; callers = set w.callers i q })
releases-IsCounted i p q w here pp pt pj pm qp qt qm late c =
    let m : Moves w.callers i p q = λ f. sum-set f w.callers i p q here in
    let held : 0 < w.thread.refs =
      omega (arith, c.count, le-sum is_pending w.callers i p here, pp) in
    let (refs, freed, join, result) =
      release-parts w.thread held (few_refs w c) (unfreed w c held) in
    let same : owed (release w.thread) ≡ owed w.thread = rw join refl in
    record {
      count = omega (arith, refs, c.count, same, m is_pending, pp, qp);
      freed = freed ∙ ap (λ n. if n == 0 then 1 else 0) (sym refs);
      single = omega (arith, c.single, same, m is_taker, pt, qt);
      alone = λ h. omega (arith, c.alone h, m is_joined, pj, late, h);
      told =
          ap (λ r. sum (is_misled r) (set w.callers i q)) result
          ∙ omega (arith, c.told, m (is_misled w.thread.retval), pm, qm);
    }

alive_bound : (r : Runner) → is_alive r ≤ 1
alive_bound Runner.running = omega arith
alive_bound Runner.finishing = omega arith
alive_bound Runner.over = omega arith

-- How a join of another thread and a detach start.
abbrev start_of : Thread → Option Code × Thread
start_of t =
    if not t.joinable
    then (some Code.einval, record t { joinable = false })
    else (none, record t { joinable = false })

asks-IsCounted :
    (i : ℕ) (p : Place) (w : World)
    → get_elem? w.callers i ≡ some Place.idle
    → is_pending p ≡ 1
    → is_taker p ≡ 1
    → ((r : ℕ) → is_misled r p ≡ 0)
    → is_joined p ≡ 0
    → IsCounted w
    → IsCounted (record w {
      thread = (start_of w.thread).1;
      callers = set w.callers i (after_start p (start_of w.thread).0);
    })
asks-IsCounted i p w here pending taker misled joined c = elim (Bool-cases w.thread.joinable) [
  | inl free ↦ rw free (takes-IsCounted i p w here free pending taker misled joined c)
  | inr taken ↦
      let same : w.thread ≡ record w.thread { joinable = false } =
        ap (λ b. record w.thread { joinable = b }) taken in
      rw taken (
        subst
          (λ t.
            IsCounted
              (record w { thread = t; callers = set w.callers i (Place.refused Code.einval) }))
          same (refused-IsCounted i Code.einval w here c))
]

pub Step-IsCounted : (w v : World) → Step w v → IsCounted w → IsCounted v
unfolding join_start detach_start take_join join_end
Step-IsCounted w _ (Step.returns v _ here) c = returns-IsCounted v w here c
Step-IsCounted w _ (Step.ends _ here) c = ends-IsCounted w here c
Step-IsCounted w _ (Step.asks_join i _ here good) c =
    asks-IsCounted i Place.waiting w here refl refl (λ _. refl) refl c
Step-IsCounted w _ (Step.asks_detach i _ here good) c =
    asks-IsCounted i Place.letting_go w here refl refl (λ _. refl) refl c
Step-IsCounted w _ (Step.joins i _ here behind) c =
    let gone : is_alive w.runner ≡ 0 = rw behind refl in
    releases-IsCounted i Place.waiting (Place.joined w.thread.retval) w here refl refl refl refl
      refl refl (ground arith) (omega (arith, gone)) c
Step-IsCounted w _ (Step.detaches i _ here) c =
    releases-IsCounted i Place.letting_go Place.detached w here refl refl refl refl refl refl refl
      (omega (arith, alive_bound w.runner)) c
