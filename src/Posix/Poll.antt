-- ===== src/Posix/Poll.antt =====
-- headers/sppc/platform/posix.h, `sppc_poll` and `_sppc_poll_translated`, for any table of event flags. An
-- `int` or a short is its bit pattern. What the system's `poll` answers for an array, with the time it
-- is given, is an argument; so is whether `malloc` has room.
pub mod Answers
mod Examples
use sppc.Common.{
  ℕ, ◌+◌, ◌-◌, ◌%◌, ◌^◌, Bool, true, false, not, ◌&&◌, ◌||◌, Option, none, some, List, [], ◌∷◌,
  length, leb, ltb, if◌then◌else◌, ◌>>=◌,
}
use sppc.Errno.{einval, enomem}
use sppc.Errors.{Name, errno}
use sppc.Translate.{Pair, to_os_flags, from_os_flags, table_is_identity}

-- `sppc_pollfd`, and the platform's.
pub record Pollfd : Type 0 where
  pub fd : ℕ
  pub events : ℕ
  pub revents : ℕ

-- What the system answers: a count and what it has written as the events of each entry, or an errno.
pub data Answer : Type 0 where
  ready : ℕ → (ℕ → ℕ) → Answer
  failed : ℕ → Answer

-- What a call leaves: its result, the count (none for -1), the array, and the blocks that are allocated.
pub record Polled : Type 0 where
  pub err : ℕ
  pub count : Option ℕ
  pub fds : List Pollfd
  pub live : ℕ

-- A short as an int, and back.
unfoldable pub widen : ℕ → ℕ
widen v = if ltb v (2 ^ 15) then v else v + (2 ^ 32 - 2 ^ 16)

unfoldable pub narrow : ℕ → ℕ
narrow v = v % 2 ^ 16

-- The first loop of `_sppc_poll_translated`: none where an entry has a flag that the table lacks.
unfoldable pub to_os_fds : List Pair → List Pollfd → Option (List Pollfd)
unfolding widen narrow
to_os_fds table [] = some []
to_os_fds table (p ∷ ps) = to_os_flags (widen p.events) table >>= λ events.
    to_os_fds table ps >>= λ rest.
    some (record { fd = p.fd; events = narrow events; revents = 0 } ∷ rest)

-- Its second loop, from the entry `i` on.
unfoldable pub from_os_fds : List Pair → (ℕ → ℕ) → ℕ → List Pollfd → List Pollfd
unfolding widen narrow
from_os_fds table revents i [] = []
from_os_fds table revents i (p ∷ ps) =
    record p { revents = narrow (from_os_flags (widen (revents i)) table) }
    ∷ from_os_fds table revents (i + 1) ps

-- The array as the system leaves it, from the entry `i` on.
unfoldable pub written : (ℕ → ℕ) → ℕ → List Pollfd → List Pollfd
written revents i [] = []
written revents i (p ∷ ps) = record p { revents = revents i } ∷ written revents (i + 1) ps

-- A call that ends before the system is asked.
abbrev pub refused : ℕ → List Pollfd → ℕ → Polled
refused e fds live = record { err = e; count = none; fds = fds; live = live }

-- Whether `_sppc_to_os_flags` takes the flags.
abbrev pub is_known : Option ℕ → Bool
is_known none = false
is_known (some _) = true

-- The check at the start of `sppc_poll`.
unfoldable pub are_known : List Pair → List Pollfd → Bool
unfolding widen
are_known table [] = true
are_known table (p ∷ ps) =
    if is_known (to_os_flags (widen p.events) table) then are_known table ps else false

-- `os` has the platform's error numbers, `ask` is the system's `poll`.
module _ (os : Name → Option ℕ) (ask : List Pollfd → Answer) (table : List Pair) where
  -- What follows the system's answer in `_sppc_poll_translated`.
  unfoldable pub translated : List Pollfd → ℕ → Answer → Polled
  unfolding from_os_fds
  translated fds live (Answer.ready n revents) = record {
    err = 0;
    count = some n;
    fds = from_os_fds table revents 0 fds;
    live = live;
  }
  translated fds live (Answer.failed e) = refused (errno os e) fds live

  -- The part of `_sppc_poll_translated` that has its array, which is `heap` blocks of those allocated.
  unfoldable pub poll_array : List Pollfd → ℕ → ℕ → Option (List Pollfd) → Polled
  unfolding translated
  poll_array fds live heap none = refused einval fds (live - heap)
  poll_array fds live heap (some os_fds) = translated fds (live - heap) (ask os_fds)

  -- `_sppc_poll_translated`: an array of more than 64 entries is allocated.
  unfoldable pub poll_translated : Bool → ℕ → List Pollfd → Polled
  unfolding poll_array to_os_fds
  poll_translated room live fds =
      if leb (length fds) 64
      then poll_array fds live 0 (to_os_fds table fds)
      else if room
      then poll_array fds (live + 1) 1 (to_os_fds table fds)
      else refused enomem fds live

  -- The answer where the array goes to the system as it is.
  unfoldable pub direct : List Pollfd → ℕ → Answer → Polled
  unfolding written
  direct fds live (Answer.ready n revents) = record {
    err = 0;
    count = some n;
    fds = written revents 0 fds;
    live = live;
  }
  direct fds live (Answer.failed e) = refused (errno os e) fds live

  -- `sppc_poll`.
  unfoldable pub poll : Bool → ℕ → List Pollfd → Polled
  unfolding direct poll_translated are_known
  poll room live fds =
      if not (are_known table fds)
      then refused einval fds live
      else if table_is_identity table
      then direct fds live (ask fds)
      else poll_translated room live fds
