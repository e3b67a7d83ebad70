-- ===== src/Posix/Once.antt =====
-- headers/sppc/platform/posix.h, `_sppc_pthread_once` of Darwin and FreeBSD: a word that is not run,
-- running or done. A thread goes through its atomic operations, its naps and its call of the function,
-- each of them a function here.
pub mod Runs
pub mod Steps
mod Examples
use sppc.Common.{ℕ, ◌+◌, ◌*◌, Bool, true, false, ◌==◌, ltb, if◌then◌else◌}

abbrev pub once_init : ℕ
once_init = 0

abbrev pub once_running : ℕ
once_running = 1

abbrev pub once_done : ℕ
once_done = 2

abbrev pub backoff_min_ns : ℕ
backoff_min_ns = 50000

abbrev pub backoff_max_ns : ℕ
backoff_max_ns = 1000000

-- The compare-exchange: whether it took, and the word it leaves.
unfoldable pub once_claim : ℕ → Bool × ℕ
once_claim state = if state == once_init then (true, once_running) else (false, state)

-- The pause after a nap of `pause` nanoseconds.
unfoldable pub next_pause : ℕ → ℕ
next_pause pause = if ltb pause backoff_max_ns then pause * 2 else pause

-- Where a thread is: before the call, the one that runs the function, the one that has run it, one that
-- waits, with the length of its next nap, or back from the call.
pub data Place : Type 0 where
  before : Place
  running : Place
  ran : Place
  napping : ℕ → Place
  returned : Place

-- Where the compare-exchange leaves a thread.
unfoldable pub claimed : Bool → Place
claimed true = running
claimed false = napping backoff_min_ns

-- A waiting thread's look at the word: it returns, or naps once more.
unfoldable pub once_look : ℕ → ℕ → Place
unfolding next_pause
once_look state pause = if state == once_done then returned else napping (next_pause pause)
