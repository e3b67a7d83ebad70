-- ===== src/Windows/Fds.antt =====
-- headers/sppc/platform/windows.h, FD TABLE and FILE DESCRIPTORS: the table from fds to open file
-- descriptions, and their reference counts. `_sppc_fds` is a list as long as `_sppc_fds_cap`; an
-- `_sppc_ofd *` is the description's number, NULL is `none`. Each function here is a section under
-- the table's lock, or a whole call with no other thread in it; whether `realloc` finds memory is an
-- argument. The table is up (`_sppc_fds_ready` gives true).
pub mod Count
pub mod Lowest
pub mod Calls
pub mod Install
use sppc.Common.{
  ℕ, zero, suc, ◌+◌, ◌-◌, ◌*◌, Bool, true, false, not, ◌&&◌, ◌||◌, Option, none, some, List, [],
  ◌∷◌, ◌++◌, ◌==◌, ltb, leb, if◌then◌else◌, length, get_elem?, set, replicate, update,
}
use sppc.Errno.{ebadf, emfile, enomem}

abbrev pub fd_max : ℕ
fd_max = 65536

-- `_sppc_fd_slot`.
pub record Slot : Type 0 where
  pub ofd : Option ℕ
  pub cloexec : Bool

-- The table, the count `refs` of each description, and what the process has done to its handles:
-- the descriptions whose handle was closed, and the calls of `SetStdHandle` (fd and description),
-- the latest first.
pub record Fds : Type 0 where
  pub slots : List Slot
  pub refs : ℕ → ℕ
  pub closed : List ℕ
  pub std : List (ℕ × Option ℕ)

-- `_sppc_ofd_retain`.
unfoldable pub ofd_retain : ℕ → Fds → Fds
ofd_retain d s = record s { refs = update s.refs d (s.refs d + 1) }

-- `_sppc_ofd_release`, of a description or NULL. The count is a LONG that no caller takes below 0.
unfoldable pub ofd_release : Option ℕ → Fds → Fds
ofd_release none s = s
ofd_release (some d) s =
    let t = record s { refs = update s.refs d (s.refs d - 1) } in
    if t.refs d == 0 then record t { closed = d ∷ t.closed } else t

-- What an fd names: nothing out of the table.
abbrev pub named : List Slot → ℕ → Option ℕ
named slots fd = elim (get_elem? slots fd) [ none ↦ none | some x ↦ x.ofd ]

-- What `_sppc_fd_get` does with what the fd names: a reference for the caller.
unfoldable pub get_named : Option ℕ → Fds → Option ℕ × Fds
unfolding ofd_retain
get_named none s = (none, s)
get_named (some d) s = (some d, ofd_retain d s)

-- `_sppc_fd_get`. A negative fd is none here.
unfoldable pub fd_get : Option ℕ → Fds → Option ℕ × Fds
unfolding get_named
fd_get none s = (none, s)
fd_get (some fd) s = get_named (named s.slots fd) s

-- The doubling loop of `_sppc_fds_reserve`, on fuel; `none` when it runs out.
unfoldable pub double_past : ℕ → ℕ → ℕ → Option ℕ
double_past zero fd cap = none
double_past (suc k) fd cap =
    let rest = double_past k fd (cap * 2) in if leb cap fd then rest else some cap

abbrev pub blank_slot : Slot
blank_slot = record { ofd = none; cloexec = false }

-- `_sppc_fds_reserve` once the new capacity is known.
unfoldable pub grow : Bool → Option ℕ → Fds → Bool × Fds
grow realloc_ok none s = (false, s)
grow realloc_ok (some doubled) s =
    let cap = if ltb fd_max doubled then fd_max else doubled in
    if realloc_ok
    then (true, record s { slots = s.slots ++ replicate (cap - length s.slots) blank_slot })
    else (false, s)

-- `_sppc_fds_reserve`.
unfoldable pub fds_reserve : Bool → ℕ → Fds → Bool × Fds
unfolding grow double_past
fds_reserve realloc_ok fd s =
    if ltb fd (length s.slots)
    then (true, s)
    else grow realloc_ok (double_past (fd + 1) fd (length s.slots)) s

-- `_sppc_fds_set`: what was there, and the table.
unfoldable pub fds_set : ℕ → Option ℕ → Bool → Fds → Option ℕ × Fds
fds_set fd ofd cloexec s = (
  named s.slots fd,
  record s {
    slots = set s.slots fd (record { ofd = ofd; cloexec = cloexec });
    std = if ltb fd 3 then (fd, ofd) ∷ s.std else s.std;
  },
)

-- The lowest fd from `fd` on that names nothing, among the `n` candidates: the loop of
-- `_sppc_fd_install` up to where it stops.
unfoldable pub lowest_free : ℕ → ℕ → List Slot → Option ℕ
lowest_free zero fd slots = none
lowest_free (suc n) fd slots = elim (named slots fd) [
  | none ↦ some fd
  | some _ ↦ lowest_free n (fd + 1) slots
]

-- What an install comes to: the error, or the fd.
pub data Installed : Type 0 where
  failed : ℕ → Installed
  at : ℕ → Installed

-- The body of that loop at the fd where it stops.
unfoldable pub install_at : Bool → ℕ → Bool → Option ℕ → Fds → Installed × Fds
unfolding fds_reserve fds_set ofd_release
install_at realloc_ok d cloexec none s = (Installed.failed emfile, ofd_release (some d) s)
install_at realloc_ok d cloexec (some fd) s =
    let (room, t) = fds_reserve realloc_ok fd s in
    if room
    then (Installed.at fd, (fds_set fd (some d) cloexec t).1)
    else (Installed.failed enomem, ofd_release (some d) t)

-- `_sppc_fd_install`.
unfoldable pub fd_install : Bool → ℕ → ℕ → Bool → Fds → Installed × Fds
unfolding lowest_free install_at
fd_install realloc_ok d lowest cloexec s =
    install_at realloc_ok d cloexec (lowest_free (fd_max - lowest) lowest s.slots) s

-- What `sppc_close` does with what the fd names.
unfoldable pub close_named : ℕ → Option ℕ → Fds → ℕ × Fds
unfolding fds_set ofd_release
close_named fd none s = (ebadf, s)
close_named fd (some d) s = let (old, t) = fds_set fd none false s in (0, ofd_release old t)

-- `sppc_close` of an fd that is not negative.
unfoldable pub close : ℕ → Fds → ℕ × Fds
unfolding close_named
close fd s = close_named fd (named s.slots fd) s

-- `sppc_dup` once it has asked for the description.
unfoldable pub dup_got : Bool → Option ℕ → Fds → Installed × Fds
unfolding fd_install
dup_got realloc_ok none s = (Installed.failed ebadf, s)
dup_got realloc_ok (some d) s = fd_install realloc_ok d 0 false s

-- `sppc_dup`.
unfoldable pub dup : Bool → Option ℕ → Fds → Installed × Fds
unfolding fd_get dup_got
dup realloc_ok fd s = let (ofd, t) = fd_get fd s in dup_got realloc_ok ofd t

-- The end of `sppc_dup2`, with the reference to `d` that it took.
unfoldable pub dup2_onto : Bool → ℕ → ℕ → Fds → ℕ × Fds
unfolding fds_reserve fds_set ofd_release
dup2_onto realloc_ok d target s =
    let (room, t) = fds_reserve realloc_ok target s in
    if room
    then (let (old, u) = fds_set target (some d) false t in (0, ofd_release old u))
    else (enomem, ofd_release (some d) t)

-- `sppc_dup2` once it has asked for the description of `fd`; `none` is a negative `target_fd`.
unfoldable pub dup2_got : Bool → ℕ → Option ℕ → Option ℕ → Fds → ℕ × Fds
unfolding ofd_release dup2_onto
dup2_got realloc_ok fd target none s = (ebadf, s)
dup2_got realloc_ok fd none (some d) s = (ebadf, ofd_release (some d) s)
dup2_got realloc_ok fd (some x) (some d) s =
    if leb fd_max x
    then (ebadf, ofd_release (some d) s)
    else if x == fd
    then (0, ofd_release (some d) s)
    else dup2_onto realloc_ok d x s

-- `sppc_dup2` of an fd that is not negative.
unfoldable pub dup2 : Bool → ℕ → Option ℕ → Fds → ℕ × Fds
unfolding fd_get dup2_got
dup2 realloc_ok fd target s =
    let (ofd, t) = fd_get (some fd) s in dup2_got realloc_ok fd target ofd t
