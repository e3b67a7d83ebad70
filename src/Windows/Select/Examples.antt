-- ===== src/Windows/Select/Examples.antt =====
-- A console to read and a socket to write, for 1.5 milliseconds.
use sppc.Common.{
  ℕ, ◌≡◌, refl, Bool, true, false, ◌||◌, Option, none, some, List, [], ◌∷◌, ◌++◌, ◌==◌,
  if◌then◌else◌, arith,
}
use sppc.Translate.{
  Pair, to_os_flags, to_os_flags_loop, from_os_flags, from_os_flags_loop, table_is_identity,
}
use sppc.Posix.Poll.{widen, narrow}
use sppc.Windows.Poll.{
  Kind, Ofd, Found, Round, win_ready, watch, watch_open, watch_entry, look_entry, look_at,
  look_loop, socket_events, socket_loop, has_sockets, left_of, slice_of, round_end, poll_sockets,
  poll_round, poll_loop, are_known, poll,
}
use sppc.Windows.Select.{
  has, Sets, Timeval, events_of, gather, want_ms, ms_of, any_nval, cleared, with_fd, mark_one,
  mark_entry, mark_loop, time_left, Selected, left_in, report, of_poll, select,
}
use sppc.Windows.Select.Reports.{EndsAs, select-EndsAs}

abbrev winsock : List Pair
winsock = record { sppc = 1; os = 768 } ∷ record { sppc = 4; os = 16 } ∷ []

abbrev find_fd : ℕ → Option Ofd
find_fd fd =
    if fd == 0
    then some (record { kind = Kind.console_in; reads = true; writes = false })
    else if fd == 4
    then some (record { kind = Kind.socket; reads = true; writes = true })
    else none

abbrev writable : Round
writable = record {
  seen = λ _. some 0;
  gone = 2;
  winsock = Found.found λ i. if i == 1 then 16 else 0;
}

abbrev given : Sets
given = record {
  reads = some λ fd. (fd == 0) || (fd == 4);
  writes = some λ fd. fd == 4;
  excepts = none;
}

abbrev wait : Timeval
wait = record { sec = 0; usec = 1500 }

abbrev answer : Option Selected
answer = select winsock 768 find_fd true (writable ∷ []) 1 (some 5) given (some wait)

abbrev name_of : Option Selected → Bool × Bool × Option ℕ × Option Timeval
name_of none = (false, false, none, none)
name_of (some s) =
    (has s.sets.reads 0 || has s.sets.reads 4, has s.sets.writes 4, s.total, s.timeout)

socket_only : name_of answer ≡ (false, true, some 1, some (record { sec = 0; usec = 1000 }))
unfolding select of_poll report ms_of want_ms left_in time_left any_nval gather events_of cleared
    with_fd mark_one mark_entry mark_loop poll poll_loop poll_round poll_sockets round_end watch
    watch_open watch_entry look_loop look_at look_entry win_ready socket_events socket_loop
    has_sockets left_of slice_of are_known widen narrow to_os_flags to_os_flags_loop from_os_flags
    from_os_flags_loop table_is_identity
socket_only = refl

-- 2 ^ 61 seconds are a multiple of 2 ^ 64 milliseconds, and wait for none.
wrapped : want_ms (record { sec = 2305843009213693952; usec = 0 }) ≡ 0
unfolding want_ms
wrapped = refl

wait_ms : want_ms wait ≡ 2
unfolding want_ms
wait_ms = refl

select-EndsAs_example :
    (x : Selected) × (select winsock 768 find_fd true
        ([] ++ writable ∷ [])
        1
        (some 5)
        given
        (some wait)
      ≡ some x)
    × EndsAs 5 given
        (some wait)
        (poll winsock 768
          (some (want_ms wait))
          find_fd
          true
          ([] ++ writable ∷ [])
          (gather given 0 5))
        x
        x.total
select-EndsAs_example =
    select-EndsAs winsock 768 find_fd true [] writable [] 1 5 given wait (omega (arith, wait_ms))
