-- ===== src/Windows/Select.antt =====
-- headers/sppc/platform/windows.h, readiness: `sppc_select`, which asks `sppc_poll` of the same file.
-- A set of descriptors is which of them it names; a null pointer is none.
pub mod Counts
pub mod Gathers
pub mod Marks
pub mod Reports
mod Examples
use Prim.Native.Nat.{bit_and, bit_or}
use sppc.Common.{
  ℕ, zero, suc, ◌+◌, ◌-◌, ◌*◌, ◌/◌, ◌%◌, ◌^◌, Bool, true, false, not, ◌&&◌, ◌||◌, Option, none,
  some, List, [], ◌∷◌, ◌==◌, ltb, leb, if◌then◌else◌, ◌>>=◌,
}
use sppc.Errno.{einval, ebadf}
use sppc.Translate.{Pair}
use sppc.Windows.Poll.{
  Ofd, Entry, Round, pollin, pollout, pollhup, pollnval, pollrdnorm, pollwrnorm, int_max, one_if,
  poll,
}

-- SPPC_POLLPRI, SPPC_POLLERR and SPPC_POLLRDBAND.
abbrev pub pollpri : ℕ
pollpri = 2

abbrev pub pollerr : ℕ
pollerr = 8

abbrev pub pollrdband : ℕ
pollrdband = 128

-- The `meets` of readable, writable and exceptional descriptors.
abbrev pub read_events : ℕ
read_events = pollin + pollrdnorm + pollhup + pollerr

abbrev pub write_events : ℕ
write_events = pollout + pollwrnorm + pollerr

abbrev pub except_events : ℕ
except_events = pollpri + pollrdband

-- `sppc_fd_set`.
abbrev pub FdSet : Type 0
FdSet = ℕ → Bool

abbrev pub has : Option FdSet → ℕ → Bool
has none fd = false
has (some f) fd = f fd

pub record Sets : Type 0 where
  pub reads : Option FdSet
  pub writes : Option FdSet
  pub excepts : Option FdSet

-- `sppc_timeval`.
pub record Timeval : Type 0 where
  pub sec : ℕ
  pub usec : ℕ

abbrev pub any_of : ℕ → ℕ → Bool
any_of a b = not (bit_and a b == 0)

unfoldable pub events_of : Bool → Bool → Bool → ℕ
events_of r w x =
    bit_or (bit_or (if r then pollin else 0) (if w then pollout else 0)) (if x then pollpri else 0)

-- The entries for `sppc_poll`, of the `n` descriptors from `fd` on.
unfoldable pub gather : Sets → ℕ → ℕ → List Entry
unfolding events_of
gather sets fd zero = []
gather sets fd (suc n) =
    let rest = gather sets (fd + 1) n in
    let events = events_of (has sets.reads fd) (has sets.writes fd) (has sets.excepts fd) in
    if events == 0 then rest else record { fd = some fd; events = events; revents = 0 } ∷ rest

-- The milliseconds of a timeout, in a uint64_t and then an int.
unfoldable pub want_ms : Timeval → ℕ
want_ms t =
    let want = (t.sec * 1000 % 2 ^ 64 + (t.usec + 999) % 2 ^ 64 / 1000) % 2 ^ 64 in
    if ltb int_max want then int_max else want

abbrev pub is_improper : Option Timeval → Bool
is_improper none = false
is_improper (some t) = leb 1000000 t.usec

unfoldable pub any_nval : List Entry → Bool
any_nval [] = false
any_nval (e ∷ es) = any_of e.revents pollnval || any_nval es

-- The `memset` of each set.
unfoldable pub cleared : Option FdSet → Option FdSet
cleared none = none
cleared (some f) = some λ _. false

unfoldable pub with_fd : Option ℕ → FdSet → FdSet
with_fd none f = f
with_fd (some fd) f = λ x. if x == fd then true else f x

-- One entry and one set: the set, and what comes to the total.
unfoldable pub mark_one : ℕ → ℕ → Entry → Option FdSet → Option FdSet × ℕ
unfolding with_fd
mark_one ask meet e none = (none, 0)
mark_one ask meet e (some f) =
    if any_of e.events ask && any_of e.revents meet then (some (with_fd e.fd f), 1) else (some f, 0)

-- One entry and the three sets.
unfoldable pub mark_entry : Entry → Sets → Sets × ℕ
unfolding mark_one
mark_entry e s =
    let (r, i) = mark_one pollin read_events e s.reads in
    let (w, j) = mark_one pollout write_events e s.writes in
    let (x, k) = mark_one pollpri except_events e s.excepts in
    (record { reads = r; writes = w; excepts = x }, i + j + k)

unfoldable pub mark_loop : List Entry → Sets → ℕ → Sets × ℕ
unfolding mark_entry
mark_loop [] s total = (s, total)
mark_loop (e ∷ es) s total = let (t, n) = mark_entry e s in mark_loop es t (total + n)

-- The time left, of `ms` milliseconds.
unfoldable pub time_left : ℕ → ℕ → Timeval
time_left ms gone =
    let left = if ltb gone ms then ms - gone else 0 in
    record { sec = left / 1000; usec = left % 1000 * 1000 }

-- What a call gives and leaves: its result, the count (none for -1), the sets and the timeout.
pub record Selected : Type 0 where
  pub err : ℕ
  pub total : Option ℕ
  pub sets : Sets
  pub timeout : Option Timeval

unfoldable pub ms_of : Option Timeval → Option ℕ
unfolding want_ms
ms_of none = none
ms_of (some t) = some (want_ms t)

unfoldable pub left_in : Option Timeval → ℕ → Option Timeval
unfolding time_left want_ms
left_in none gone = none
left_in (some t) gone = some (time_left (want_ms t) gone)

unfoldable pub report : ℕ → Sets → Option Timeval → List Entry → Selected
unfolding mark_loop any_nval left_in cleared
report gone sets timeout es =
    if any_nval es
    then record { err = ebadf; total = none; sets = sets; timeout = timeout }
    else let (marked, n) =
        mark_loop es
          (record {
            reads = cleared sets.reads;
            writes = cleared sets.writes;
            excepts = cleared sets.excepts;
          })
          0 in
      record { err = 0; total = some n; sets = marked; timeout = left_in timeout gone }

abbrev pub failure : ℕ → Sets → Option Timeval → Selected
failure e sets timeout = record { err = e; total = none; sets = sets; timeout = timeout }

-- What the call makes of `sppc_poll`'s answer.
unfoldable pub of_poll : ℕ → Sets → Option Timeval → (ℕ × Option ℕ) × List Entry → Selected
unfolding report
of_poll gone sets timeout ((zero, n), es) = report gone sets timeout es
of_poll gone sets timeout ((suc e, n), es) = failure (suc e) sets timeout

-- `sppc_select`; a negative `nfds` is none, `gone` are the milliseconds it has taken.
unfoldable pub select :
    List Pair
    → ℕ
    → (ℕ → Option Ofd)
    → Bool
    → List Round
    → ℕ
    → Option ℕ
    → Sets
    → Option Timeval
    → Option Selected
unfolding gather ms_of poll of_poll
select table os_pollin find room rounds gone none sets timeout = some (failure einval sets timeout)
select table os_pollin find room rounds gone (some nfds) sets timeout =
    if ltb 1024 nfds || is_improper timeout
    then some (failure einval sets timeout)
    else poll table os_pollin (ms_of timeout) find room rounds (gather sets 0 nfds) >>= λ x.
        some (of_poll gone sets timeout x)
