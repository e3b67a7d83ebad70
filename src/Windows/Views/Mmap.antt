-- ===== src/Windows/Views/Mmap.antt =====
-- headers/sppc/platform/windows.h: `_sppc_win_mmap_file` and `_sppc_win_mmap`. A fd is looked up by the
-- fd table, so what it finds is an argument.
use Prim.Native.Nat.{min, bit_and}
use sppc.Common.{
  ℕ, ◌+◌, ◌-◌, ◌*◌, ◌/◌, ◌%◌, ◌^◌, Bool, true, false, not, ◌&&◌, ◌||◌, Option, none, some, ◌==◌,
  ltb, leb, if◌then◌else◌,
}
use sppc.Windows.Views.{Memory, holds, Protect, writes_to, executes, page_protect, System, map_view}

-- What is read of an open file description: whether it is a file of a disk, how it was opened, its handle, and its size
-- where the system tells it.
pub record Ofd : Type 0 where
  pub is_disk : Bool
  pub reads : Bool
  pub writes : Bool
  pub handle : ℕ
  pub size : Option ℕ

-- The handles that the system gives: one to execute the file by, and a duplicate of one.
pub record Given : Type 0 where
  pub reopened : Option ℕ
  pub duplicate : Option ℕ

-- The bytes of a file that may be mapped at all, and the pages that hold them.
unfoldable pub mappable : Ofd → Bool → ℕ → Option ℕ
mappable o shared prot =
    if o.is_disk && o.reads && not (shared && writes_to prot && not (shared && o.writes))
    then o.size
    else none

unfoldable pub pages_of : ℕ → ℕ → ℕ
pages_of page bytes = bytes / page * page + (if not (bytes % page == 0) then page else 0)

abbrev pub is_handle : ℕ → Option ℕ → Bool
is_handle h none = false
is_handle h (some k) = h == k

-- The handle that a mapping keeps for MS_SYNC.
unfoldable pub kept : Given → Ofd → Bool → ℕ → Option ℕ
kept g o writes file =
    if writes && not (file == o.handle) then some file else if writes then g.duplicate else none

-- The mapping by a handle of the file, which is closed again if it is the mapping's own and not kept.
unfoldable pub map_by : System → Given → Ofd → Bool → ℕ → ℕ → ℕ → ℕ → Memory → Option ℕ × Memory
unfolding kept map_view
map_by sys g o shared prot at in_file file m =
    let writes = shared && o.writes in
    let keep = kept g o writes file in
    let duplicated = if writes && (file == o.handle) then holds keep else 0 in
    let opened = record m { handles = m.handles + duplicated } in
    let (p, q) =
      (if not writes || (holds keep == 1)
        then map_view sys (some file) shared writes prot at in_file keep opened
        else (none, opened)) in
    let closed = if not (file == o.handle) && not (is_handle file keep) then 1 else 0 in
    (p, record q { handles = q.handles - closed })

-- The mapping of bytes that the file has.
unfoldable pub map_part : System → Given → Ofd → Bool → ℕ → ℕ → ℕ → Memory → Option ℕ × Memory
unfolding map_by
map_part sys g o shared prot at in_file m =
    if executes prot
    then (elim g.reopened [
      | none ↦ (none, m)
      | some file ↦
          map_by sys g o shared prot at in_file file (record m { handles = m.handles + 1 })
    ])
    else map_by sys g o shared prot at in_file o.handle m

-- `_sppc_win_mmap_file`.
unfoldable pub mmap_file :
    System → Given → ℕ → Option Ofd → ℕ → ℕ → Bool → ℕ → Memory → Option ℕ × Memory
unfolding mappable pages_of map_part
mmap_file sys g page none length prot shared at m = (none, m)
mmap_file sys g page (some o) length prot shared at m =
    let held = record m { held = m.held + 1 } in
    let (p, q) : Option ℕ × Memory = elim (mappable o shared prot) [
      | none ↦ (none, held)
      | some bytes ↦
          if ltb at bytes && leb length (pages_of page bytes - at)
          then map_part sys g o shared prot at (min (bytes - at) length) held
          else (none, held)
    ] in
    (p, record q { held = q.held - 1 })

-- What a mapping comes to: refused, private memory of a protection, or a view.
pub data Mapping : Type 0 where
  refused : Mapping
  private_memory : ℕ → Protect → Mapping
  view : Option ℕ → Mapping

abbrev pub map_shared : ℕ
map_shared = 1

abbrev pub map_private : ℕ
map_private = 2

abbrev pub map_anonymous : ℕ
map_anonymous = 32

abbrev pub map_noreserve : ℕ
map_noreserve = 16384

-- `_sppc_win_mmap`, of an offset that is not negative.
unfoldable pub mmap : System → Given → ℕ → Option Ofd → ℕ → ℕ → ℕ → ℕ → Memory → Mapping × Memory
unfolding mmap_file map_view
mmap sys g page ofd length prot flags at m =
    let known = map_shared + map_private + map_anonymous + map_noreserve in
    let sharing = bit_and flags (map_shared + map_private) in
    let shared = sharing == map_shared in
    let anonymous = map_view sys none true true prot 0 length none m in
    let of_file = mmap_file sys g page ofd length prot shared at m in
    if leb 8 prot
      || not (bit_and flags (2 ^ 32 - 1 - known) == 0)
      || (length == 0)
      || (not (sharing == map_shared) && not (sharing == map_private))
      || not (at % page == 0)
    then (Mapping.refused, m)
    else if not (bit_and flags map_anonymous == 0)
    then (if not shared
        then (Mapping.private_memory length (page_protect prot false), m)
        else (Mapping.view anonymous.0, anonymous.1))
    else (Mapping.view of_file.0, of_file.1)
