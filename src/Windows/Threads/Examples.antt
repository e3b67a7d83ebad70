-- ===== src/Windows/Threads/Examples.antt =====
-- A thread that one caller joins and another is too late for.
use sppc.Common.{ℕ, ◌+◌, ◌≤◌, ◌≡◌, ◌==◌, if◌then◌else◌, refl, Bool, true, false, some, [], ◌∷◌, sum}
use sppc.Windows.{Code}
use sppc.Windows.Threads.{
  Thread, Created, attr_init, setdetachstate, setstacksize, release, join_start, join_end,
  detach_start, create, adopt, create_detached,
}
use sppc.Windows.Threads.Steps.{
  Runner, Place, World, Step, Steps, is_alive, is_pending, is_taker, is_misled, owed,
}
use sppc.Windows.Threads.Freed.{start, thread-freed_once}

abbrev thread : ℕ → Bool → ℕ → ℕ → Thread
thread refs joinable retval freed = record {
  handle = true;
  retval = retval;
  refs = refs;
  joinable = joinable;
  closed = freed;
  freed = freed;
}

new : create (some attr_init) true true true ≡ Created.created (thread 2 true 0 0)
unfolding create
new = refl

abbrev asked : World
asked = record {
  thread = thread 2 false 0 0;
  runner = Runner.running;
  callers = Place.waiting ∷ Place.idle ∷ [];
}

abbrev late : World
late = record asked { callers = Place.waiting ∷ Place.refused Code.einval ∷ [] }

abbrev returned : World
returned = record late { thread = thread 2 false 42 0; runner = Runner.finishing }

abbrev ended : World
ended = record late { thread = thread 1 false 42 0; runner = Runner.over }

abbrev gone : World
gone = record ended {
  thread = thread 0 false 42 1;
  callers = Place.joined 42 ∷ Place.refused Code.einval ∷ [];
}

life : Steps (start 2 (thread 2 true 0 0)) gone
unfolding join_start detach_start release join_end
life =
    let first = start 2 (thread 2 true 0 0) in
    let s1 =
      Steps.then_step first first asked (Steps.stop first) (Step.asks_join 0 first refl refl) in
    let s2 = Steps.then_step first asked late s1 (Step.asks_detach 1 asked refl refl) in
    let s3 = Steps.then_step first late returned s2 (Step.returns 42 late refl) in
    let s4 = Steps.then_step first returned ended s3 (Step.ends returned refl) in
    Steps.then_step first ended gone s4 (Step.joins 0 ended refl refl)

thread-freed_once_example :
    (gone.thread.freed ≡ (
      if is_alive gone.runner + owed gone.thread + sum is_pending gone.callers == 0 then 1 else 0))
    × (sum is_taker gone.callers ≤ 1)
    × (sum (is_misled gone.thread.retval) gone.callers ≡ 0)
thread-freed_once_example =
    thread-freed_once 2 (some attr_init) true true true (thread 2 true 0 0) gone new life

unresumed :
    create (some (setdetachstate create_detached attr_init).1) true true false
    ≡ Created.eagain (some (record (thread 1 false 0 1) { closed = 1 }))
unfolding create setdetachstate
unresumed = refl

too_small : setstacksize 16384 100 attr_init ≡ (Code.einval, attr_init)
unfolding setstacksize
too_small = refl

adopted_ends :
    (t : Thread) × (adopt true ≡ some t) × ((release t).freed ≡ 1) × ((release t).closed ≡ 0)
unfolding adopt release
adopted_ends = (record (thread 1 false 0 0) { handle = false }, refl, refl, refl)
