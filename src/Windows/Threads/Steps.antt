-- ===== src/Windows/Threads/Steps.antt =====
-- A thread of windows.h and any number of callers that join or detach it.
use sppc.Common.{
  ℕ, ◌+◌, ◌-◌, ◌≤◌, ◌<◌, ◌≡◌, refl, false, Option, none, some, List, [], ◌∷◌, ◌==◌, arith,
  if◌then◌else◌, get_elem?, set, sum,
}
use sppc.Windows.{Code}
use sppc.Windows.Threads.{Thread, release, join_start, join_end, detach_start}

-- Where the thread itself is: in its function, behind it, or over.
pub data Runner : Type 0 where
  running finishing over : Runner

-- Where a caller is: before its call, in the wait of a join, before the release of a detach, or back.
pub data Place : Type 0 where
  idle waiting letting_go detached : Place
  refused : Code → Place
  joined : ℕ → Place

pub record World : Type 0 where
  pub thread : Thread
  pub runner : Runner
  pub callers : List Place

-- Where the start of a call leaves its caller.
abbrev pub after_start : Place → Option Code → Place
after_start p none = p
after_start p (some e) = Place.refused e

-- A call is made with a handle that is still good, and not by the thread itself.
pub data Step : World → World → Type 0 where
  returns :
      (v : ℕ) (w : World)
      → w.runner ≡ Runner.running
      → Step w (record w { thread = record w.thread { retval = v }; runner = Runner.finishing })
  ends :
      (w : World)
      → w.runner ≡ Runner.finishing
      → Step w (record w { thread = release w.thread; runner = Runner.over })
  asks_join :
      (i : ℕ) (w : World)
      → get_elem? w.callers i ≡ some Place.idle
      → w.thread.freed ≡ 0
      → Step w (record w {
        thread = (join_start false w.thread).1;
        callers = set w.callers i (after_start Place.waiting (join_start false w.thread).0);
      })
  asks_detach :
      (i : ℕ) (w : World)
      → get_elem? w.callers i ≡ some Place.idle
      → w.thread.freed ≡ 0
      → Step w (record w {
        thread = (detach_start w.thread).1;
        callers = set w.callers i (after_start Place.letting_go (detach_start w.thread).0);
      })
  joins :
      (i : ℕ) (w : World)
      → get_elem? w.callers i ≡ some Place.waiting
      → w.runner ≡ Runner.over
      → Step w (record w {
        thread = (join_end w.thread).1;
        callers = set w.callers i (Place.joined (join_end w.thread).0);
      })
  detaches :
      (i : ℕ) (w : World)
      → get_elem? w.callers i ≡ some Place.letting_go
      → Step w (record w { thread = release w.thread; callers = set w.callers i Place.detached })

pub data Steps : World → World → Type 0 where
  stop : (w : World) → Steps w w
  then_step : (w v u : World) → Steps w v → Step v u → Steps w u

abbrev pub is_alive : Runner → ℕ
is_alive Runner.over = 0
is_alive _ = 1

-- A caller that will touch the object again.
abbrev pub is_pending : Place → ℕ
is_pending Place.waiting = 1
is_pending Place.letting_go = 1
is_pending _ = 0

-- A caller that the join fell to.
abbrev pub is_taker : Place → ℕ
is_taker Place.waiting = 1
is_taker Place.letting_go = 1
is_taker Place.detached = 1
is_taker (Place.joined v) = 1
is_taker _ = 0

abbrev pub is_joined : Place → ℕ
is_joined (Place.joined v) = 1
is_joined _ = 0

-- A caller that was handed another result.
abbrev pub is_misled : ℕ → Place → ℕ
is_misled r (Place.joined v) = if v == r then 0 else 1
is_misled r _ = 0

abbrev pub owed : Thread → ℕ
owed t = if t.joinable then 1 else 0

-- The count is that of the thread itself, the join still owed, and the callers that are not done; the object is
-- freed once the count is down to nothing.
pub record IsCounted (w : World) : Type 0 where
  pub count : w.thread.refs ≡ is_alive w.runner + owed w.thread + sum is_pending w.callers
  pub freed : w.thread.freed ≡ (if w.thread.refs == 0 then 1 else 0)
  pub single : owed w.thread + sum is_taker w.callers ≤ 1
  pub alone : 0 < is_alive w.runner → sum is_joined w.callers ≡ 0
  pub told : sum (is_misled w.thread.retval) w.callers ≡ 0

pub pending-le-taker : (ps : List Place) → sum is_pending ps ≤ sum is_taker ps
pending-le-taker [] = omega arith
pending-le-taker (Place.idle ∷ ps) = omega (arith, pending-le-taker ps)
pending-le-taker (Place.waiting ∷ ps) = omega (arith, pending-le-taker ps)
pending-le-taker (Place.letting_go ∷ ps) = omega (arith, pending-le-taker ps)
pending-le-taker (Place.detached ∷ ps) = omega (arith, pending-le-taker ps)
pending-le-taker (Place.refused e ∷ ps) = omega (arith, pending-le-taker ps)
pending-le-taker (Place.joined v ∷ ps) = omega (arith, pending-le-taker ps)

pub none-misled : (r : ℕ) (ps : List Place) → sum is_joined ps ≡ 0 → sum (is_misled r) ps ≡ 0
none-misled r [] h = refl
none-misled r (Place.idle ∷ ps) h = omega (arith, none-misled r ps)
none-misled r (Place.waiting ∷ ps) h = omega (arith, none-misled r ps)
none-misled r (Place.letting_go ∷ ps) h = omega (arith, none-misled r ps)
none-misled r (Place.detached ∷ ps) h = omega (arith, none-misled r ps)
none-misled r (Place.refused e ∷ ps) h = omega (arith, none-misled r ps)
none-misled r (Place.joined v ∷ ps) h = absurd (omega arith)

-- A release with a count of at least one.
pub release-parts :
    (t : Thread)
    → 0 < t.refs
    → t.refs ≤ 2
    → t.freed ≡ 0
    → ((release t).refs ≡ t.refs - 1)
      × ((release t).freed ≡ (if t.refs - 1 == 0 then 1 else 0))
      × ((release t).joinable ≡ t.joinable)
      × ((release t).retval ≡ t.retval)
unfolding release
release-parts t some_left few kept = ground arith
