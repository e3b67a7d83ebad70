-- ===== src/Windows/Poll/Examples.antt =====
-- A console, a socket and a closed descriptor, watched for 20 milliseconds.
use sppc.Common.{
  ℕ, ◌≡◌, refl, true, false, Option, none, some, List, [], ◌∷◌, ◌++◌, ◌==◌, if◌then◌else◌, arith,
}
use sppc.Translate.{
  Pair, to_os_flags, to_os_flags_loop, from_os_flags, from_os_flags_loop, table_is_identity,
}
use sppc.Posix.Poll.{widen, narrow, is_known}
use sppc.Windows.Poll.{
  Kind, Ofd, Entry, Found, Round, win_ready, watch, watch_open, watch_entry, look_entry, look_at,
  look_loop, socket_events, socket_loop, has_sockets, left_of, slice_of, round_end, poll_sockets,
  poll_round, poll_loop, are_known, poll,
}
use sppc.Windows.Poll.Counts.{Polled, poll-Polled}

abbrev winsock : List Pair
winsock = record { sppc = 1; os = 768 } ∷ record { sppc = 4; os = 16 } ∷ []

abbrev find_fd : ℕ → Option Ofd
find_fd fd =
    if fd == 0
    then some (record { kind = Kind.console_in; reads = true; writes = false })
    else if fd == 4
    then some (record { kind = Kind.socket; reads = true; writes = true })
    else none

abbrev quiet : ℕ → Round
quiet gone = record { seen = λ _. some 0; gone = gone; winsock = Found.found λ _. 0 }

-- The socket can be written after the timeout.
abbrev last_look : Round
last_look = record {
  seen = λ _. some 0;
  gone = 23;
  winsock = Found.found λ i. if i == 1 then 16 else 0;
}

abbrev three : List Entry
three =
    record { fd = some 0; events = 1; revents = 9 }
    ∷ record { fd = some 4; events = 4; revents = 9 }
    ∷ record { fd = none; events = 1; revents = 9 }
    ∷ []

looked :
    poll winsock 768 (some 20) find_fd true (quiet 0 ∷ quiet 11 ∷ last_look ∷ []) three
    ≡ some (
      (0, some 1),
      record { fd = some 0; events = 1; revents = 0 }
          ∷ record { fd = some 4; events = 4; revents = 4 }
          ∷ record { fd = none; events = 1; revents = 0 }
          ∷ [],
    )
unfolding poll poll_loop poll_round poll_sockets round_end watch watch_open watch_entry look_loop
    look_at look_entry win_ready socket_events socket_loop has_sockets left_of slice_of are_known
    is_known widen narrow to_os_flags to_os_flags_loop from_os_flags from_os_flags_loop
    table_is_identity
looked = refl

poll-Polled_example :
    Polled three
      (poll winsock 768 (some 20) find_fd true ((quiet 0 ∷ quiet 11 ∷ []) ++ last_look ∷ []) three)
poll-Polled_example =
    poll-Polled winsock 768 20 find_fd true (quiet 0 ∷ quiet 11 ∷ []) last_look [] three
      (omega arith)
