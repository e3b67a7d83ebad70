-- ===== src/Windows/Poll.antt =====
-- headers/sppc/platform/windows.h, readiness: `_sppc_win_ready` and `sppc_poll`. What the fd table finds,
-- what the system sees of each descriptor, and what the clock and Winsock answer are arguments, a round
-- of the loop for each. Events are bit patterns.
pub mod Counts
pub mod Rounds
mod Examples
use Prim.Native.Nat.{bit_and, bit_or}
use sppc.Common.{
  ℕ, zero, suc, ◌+◌, ◌-◌, ◌%◌, ◌^◌, Bool, true, false, not, ◌&&◌, ◌||◌, Option, none, some, List,
  [], ◌∷◌, ◌==◌, ltb, leb, length, if◌then◌else◌, ◌>>=◌,
}
use sppc.Errno.{einval, enomem}
use sppc.Translate.{Pair, to_os_flags, from_os_flags}
use sppc.Posix.Poll.{widen, narrow, is_known}

-- SPPC_POLLIN, SPPC_POLLOUT, SPPC_POLLHUP, SPPC_POLLNVAL, SPPC_POLLRDNORM and SPPC_POLLWRNORM.
abbrev pub pollin : ℕ
pollin = 1

abbrev pub pollout : ℕ
pollout = 4

abbrev pub pollhup : ℕ
pollhup = 16

abbrev pub pollnval : ℕ
pollnval = 32

abbrev pub pollrdnorm : ℕ
pollrdnorm = 64

abbrev pub pollwrnorm : ℕ
pollwrnorm = 256

-- What kind of description it is.
pub data Kind : Type 0 where
  socket disk console_in console_out pipe : Kind

pub record Ofd : Type 0 where
  pub kind : Kind
  pub reads : Bool
  pub writes : Bool

-- `sppc_pollfd`; a negative fd is none.
pub record Entry : Type 0 where
  pub fd : Option ℕ
  pub events : ℕ
  pub revents : ℕ

-- An entry and the description that it was found to be.
pub record Watched : Type 0 where
  pub entry : Entry
  pub ofd : Option Ofd

-- `_sppc_win_ready`: the events, and whether one may still come. `seen` is how many of a console's events
-- are pending, or bytes of a pipe there, or none where the system has failed.
unfoldable pub win_ready : Ofd → ℕ → Option ℕ → ℕ × Bool
win_ready o events seen =
    let wants_in = bit_and events (pollin + pollrdnorm) in
    let wants_out = bit_and events (pollout + pollwrnorm) in
    let waits = not (wants_in == 0) in
    elim o.kind [
      | Kind.disk ↦ (bit_or wants_in wants_out, false)
      | Kind.console_in ↦ elim seen [ some (suc n) ↦ (wants_in, false) | _ ↦ (0, waits) ]
      | Kind.console_out ↦ (wants_out, false)
      | _ ↦
          let read : ℕ × Bool = elim seen [
            | none ↦ (pollhup, false)
            | some zero ↦ (0, waits)
            | some (suc n) ↦ (wants_in, false)
          ] in
          let (ready, more) = (if o.reads then read else (0, false)) in
          ((if o.writes then bit_or ready wants_out else ready), more)
    ]

-- The first loop of `sppc_poll`: the entries with their descriptions.
unfoldable pub watch_open : Option Ofd → Entry → Watched
watch_open none e = record { entry = record e { revents = pollnval }; ofd = none }
watch_open (some o) e = record { entry = record e { revents = 0 }; ofd = some o }

unfoldable pub watch_entry : (ℕ → Option Ofd) → Option ℕ → Entry → Watched
unfolding watch_open
watch_entry find none e = record { entry = record e { revents = 0 }; ofd = none }
watch_entry find (some fd) e = watch_open (find fd) e

unfoldable pub watch : (ℕ → Option Ofd) → List Entry → List Watched
unfolding watch_entry
watch find [] = []
watch find (e ∷ es) = watch_entry find e.fd e ∷ watch find es

abbrev pub is_socket : Option Ofd → Bool
is_socket none = false
is_socket (some o) = elim o.kind [ Kind.socket ↦ true | _ ↦ false ]

-- An entry that is looked at: its events, and whether it waits.
unfoldable pub look_entry : Option Ofd → Option ℕ → Entry → Entry × Bool
unfolding win_ready
look_entry none seen e = (e, false)
look_entry (some o) seen e =
    let (ready, waits) = win_ready o e.events seen in
    if is_socket (some o) then (e, false) else (record e { revents = narrow ready }, waits)

unfoldable pub look_at : Option ℕ → Watched → Watched × Bool
unfolding look_entry
look_at seen w = let (e, waits) = look_entry w.ofd seen w.entry in (record w { entry = e }, waits)

abbrev pub one_if : Bool → ℕ
one_if true = 1
one_if false = 0

-- The look at all of them, from the entry `i` on: how many are ready, and whether one waits.
unfoldable pub look_loop : (ℕ → Option ℕ) → ℕ → List Watched → List Watched × ℕ × Bool
unfolding look_at
look_loop seen i [] = ([], 0, false)
look_loop seen i (w ∷ ws) =
    let (x, waits) = look_at (seen i) w in
    let (xs, n, more) = look_loop seen (i + 1) ws in
    (x ∷ xs, one_if (not (x.entry.revents == 0)) + n, waits || more)

-- A socket's events from Winsock's: either half of its POLLIN is POLLIN.
unfoldable pub socket_events : List Pair → ℕ → ℕ → ℕ → ℕ
socket_events table os_pollin events os =
    let revents = narrow (from_os_flags (widen os) table) in
    if not (bit_and os os_pollin == 0) then bit_or revents (bit_and events pollin) else revents

-- What Winsock has found of the sockets, from the entry `i` on, and how many of them are ready.
unfoldable pub socket_loop : List Pair → ℕ → (ℕ → ℕ) → ℕ → List Watched → List Watched × ℕ
unfolding socket_events
socket_loop table os_pollin found i [] = ([], 0)
socket_loop table os_pollin found i (w ∷ ws) =
    let (xs, n) = socket_loop table os_pollin found (i + 1) ws in
    let revents = socket_events table os_pollin w.entry.events (found i) in
    if is_socket w.ofd
    then (
      record w { entry = record w.entry { revents = revents } } ∷ xs,
      one_if (not (revents == 0)) + n,
    )
    else (w ∷ xs, n)

unfoldable pub has_sockets : List Watched → Bool
has_sockets [] = false
has_sockets (w ∷ ws) = is_socket w.ofd || has_sockets ws

-- A round: what is seen, the milliseconds gone, and what Winsock finds, or its error as sppc's.
pub data Found : Type 0 where
  found : (ℕ → ℕ) → Found
  wsa_error : ℕ → Found

pub record Round : Type 0 where
  pub seen : ℕ → Option ℕ
  pub gone : ℕ
  pub winsock : Found

abbrev pub int_max : ℕ
int_max = 2 ^ 31 - 1

-- What is left of the timeout, which is none where it is negative.
unfoldable pub left_of : Option ℕ → ℕ → ℕ
left_of none gone = int_max
left_of (some t) gone = if leb t gone then 0 else t - gone

-- How long the round waits; none is for ever.
unfoldable pub slice_of : ℕ → Bool → Option ℕ → ℕ → Option ℕ
slice_of ready waits timeout left =
    if ltb 0 ready
    then some 0
    else if waits
    then some (if ltb left 10 then left else 10)
    else elim timeout [ none ↦ none | some t ↦ some left ]

abbrev pub is_zero : Option ℕ → Bool
is_zero none = false
is_zero (some n) = n == 0

-- How a call ends: an error, or the count, with the entries.
pub data Result : Type 0 where
  failed : ℕ → List Watched → Result
  counted : ℕ → List Watched → Result

-- A round's end: the call's, or the entries for the next one.
pub data RoundEnd : Type 0 where
  ends : Result → RoundEnd
  goes_on : List Watched → RoundEnd

unfoldable pub round_end : Bool → Bool → ℕ → Option ℕ → ℕ → List Watched → RoundEnd
round_end sockets waits left slice ready ws =
    if ltb 0 ready || (left == 0) || (not waits && sockets) || (not waits && not (is_zero slice))
    then RoundEnd.ends (Result.counted ready ws)
    else RoundEnd.goes_on ws

module _ (table : List Pair) (os_pollin : ℕ) (timeout : Option ℕ) where
  -- The sockets' part of a round.
  unfoldable pub poll_sockets : Bool → Found → Bool → ℕ → Option ℕ → ℕ → List Watched → RoundEnd
  unfolding round_end socket_loop
  poll_sockets false f waits left slice ready ws = round_end false waits left slice ready ws
  poll_sockets true (Found.wsa_error e) waits left slice ready ws =
      RoundEnd.ends (Result.failed e ws)
  poll_sockets true (Found.found f) waits left slice ready ws =
      let (xs, n) = socket_loop table os_pollin f 0 ws in
      round_end true waits left slice (ready + n) xs

  unfoldable pub poll_round : Round → List Watched → RoundEnd
  unfolding look_loop left_of slice_of poll_sockets has_sockets
  poll_round r ws =
      let (xs, ready, waits) = look_loop r.seen 0 ws in
      let left = left_of timeout r.gone in
      poll_sockets (has_sockets ws) r.winsock waits left (slice_of ready waits timeout left) ready
        xs

  -- The loop of `sppc_poll`; none where the rounds run out.
  unfoldable pub poll_loop : List Round → List Watched → Option Result
  unfolding poll_round
  poll_loop [] ws = none
  poll_loop (r ∷ rs) ws = elim (poll_round r ws) [
    | RoundEnd.ends x ↦ some x
    | RoundEnd.goes_on xs ↦ poll_loop rs xs
  ]

unfoldable pub are_known : List Pair → List Entry → Bool
are_known table [] = true
are_known table (e ∷ es) =
    if is_known (to_os_flags (widen e.events) table) then are_known table es else false

abbrev pub entries : List Watched → List Entry
entries [] = []
entries (w ∷ ws) = w.entry ∷ entries ws

-- What a call gives: an error, or the count, with the entries as they are then.
abbrev pub answer_of : Result → (ℕ × Option ℕ) × List Entry
answer_of (Result.failed e ws) = ((e, none), entries ws)
answer_of (Result.counted n ws) = ((0, some n), entries ws)

-- `sppc_poll`: its result, the count (none for -1), and the entries.
unfoldable pub poll :
    List Pair
    → ℕ
    → Option ℕ
    → (ℕ → Option Ofd)
    → Bool
    → List Round
    → List Entry
    → Option ((ℕ × Option ℕ) × List Entry)
unfolding poll_loop watch are_known
poll table os_pollin timeout find room rounds es =
    if ltb 65536 (length es) || not (are_known table es)
    then some ((einval, none), es)
    else if ltb 0 (length es) && not room
    then some ((enomem, none), es)
    else poll_loop table os_pollin timeout rounds (watch find es) >>= λ x. some (answer_of x)
