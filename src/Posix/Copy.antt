-- ===== src/Posix/Copy.antt =====
-- headers/sppc/platform/posix.h, `_sppc_copy_range`. The files are lists of bytes: the one that is read
-- with its position, the other where it is written. What `read` and `write` answer is an argument;
-- neither moves more bytes than it was asked for.
pub mod Conserve
mod Examples
use Prim.Native.Nat.{min}
use sppc.Common.{
  ℕ, zero, suc, ◌+◌, ◌-◌, Bool, true, false, Option, none, some, List, [], ◌∷◌, ◌++◌, ◌==◌, leb,
  ltb, if◌then◌else◌, length, take, drop, Bytes, ◌>>=◌,
}
use sppc.Report.{Wrote}

abbrev pub copy_chunk : ℕ
copy_chunk = 4096

pub record Files : Type 0 where
  pub source : Bytes
  pub position : ℕ
  pub target : Bytes

-- The result of the call: a count, or -1.
pub data Copied : Type 0 where
  count : ℕ → Copied
  failed : Copied

-- The writes of `_sppc_copy_range`, of the bytes `buf` from `done` on; `none` where the answers run out.
unfoldable pub write_loop : List Wrote → Bytes → ℕ → Bytes → Option (ℕ × Bytes)
write_loop [] buf done target = if leb (length buf) done then some (done, target) else none
write_loop (Wrote.interrupted ∷ ws) buf done target =
    let rest = write_loop ws buf done target in
    if leb (length buf) done then some (done, target) else rest
write_loop (Wrote.refused ∷ ws) buf done target = some (done, target)
write_loop (Wrote.took w ∷ ws) buf done target =
    let n = min w (length buf - done) in
    let rest = write_loop ws buf (done + n) (target ++ take n (drop done buf)) in
    if leb (length buf) done then some (done, target) else rest

-- What follows the writes: a position that is put back by what was not written.
unfoldable pub copied : Files → Bytes → ℕ × Bytes → Copied × Files
copied f buf (done, target) =
    let read_on = f.position + length buf in
    if ltb done (length buf)
    then (
      (if done == 0 then Copied.failed else Copied.count done),
      record f { position = read_on - (length buf - done); target = target },
    )
    else (Copied.count done, record f { position = read_on; target = target })

-- `_sppc_copy_range`: `got` is the count that `read` answers, or none for -1.
unfoldable pub copy_range : Option ℕ → List Wrote → ℕ → Files → Option (Copied × Files)
unfolding write_loop copied
copy_range none ws len f = if len == 0 then some (Copied.count 0, f) else some (Copied.failed, f)
copy_range (some got) ws len f =
    let buf = take (min got (min len copy_chunk)) (drop f.position f.source) in
    let written = write_loop ws buf 0 f.target >>= λ x. some (copied f buf x) in
    if len == 0
    then some (Copied.count 0, f)
    else if length buf == 0
    then some (Copied.count 0, f)
    else written
