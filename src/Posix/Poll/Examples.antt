-- ===== src/Posix/Poll/Examples.antt =====
-- A table whose platform has other values, and two descriptors.
use sppc.Common.{ℕ, ◌≡◌, refl, false, if◌then◌else◌, ◌==◌, Option, none, List, [], ◌∷◌}
use sppc.Errors.{Name}
use sppc.Translate.{
  Pair, to_os_flags, to_os_flags_loop, from_os_flags, from_os_flags_loop, table_is_identity,
}
use sppc.Posix.Poll.{
  Pollfd, Answer, widen, narrow, to_os_fds, from_os_fds, translated, poll_array, poll_translated,
  are_known, poll,
}

abbrev swapped : List Pair
swapped = record { sppc = 1; os = 4 } ∷ record { sppc = 4; os = 1 } ∷ []

abbrev no_names : Name → Option ℕ
no_names _ = none

-- The first entry is ready for what the platform calls 4.
abbrev first_ready : List Pollfd → Answer
first_ready [] = Answer.failed 22
first_ready (p ∷ ps) = Answer.ready 1 λ i. if i == 0 then p.events else 0

abbrev two : List Pollfd
two = record { fd = 7; events = 1; revents = 0 } ∷ record { fd = 9; events = 5; revents = 3 } ∷ []

reported :
    (poll no_names first_ready swapped false 0 two).fds
    ≡ record { fd = 7; events = 1; revents = 1 } ∷ record { fd = 9; events = 5; revents = 0 } ∷ []
unfolding poll poll_translated poll_array translated from_os_fds to_os_fds are_known widen narrow
    to_os_flags to_os_flags_loop from_os_flags from_os_flags_loop table_is_identity
reported = refl
