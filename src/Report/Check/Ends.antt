-- ===== src/Report/Check/Ends.antt =====
-- How a failed check ends the process.
use sppc.Common.{◌+◌, ◌-◌, ◌^◌, ◌≤◌, Option, some, List, [], ◌++◌, ◌≡◌, length, Bytes, All}
use sppc.Report.{Report, Wrote, buf_size}
use sppc.Report.Contents.{Says}
use sppc.Report.Flush.{MovesOn, total}
use sppc.Report.Backtrace.{Walk}
use sppc.Report.Backtrace.Prints.{IsWord}
use sppc.Report.Check.{Process, Failed, fail_status}

-- The writes of a flush that takes the whole buffer, however full.
abbrev pub TakesAll : List Wrote → Type 0
TakesAll ws = All MovesOn ws × (buf_size ≤ total ws)

abbrev WalkFits : Walk → Type 0
WalkFits w = All IsWord w.frames × (w.start + (w.count - w.start) ≤ 2 ^ 32)

-- What a failure finds is in order: addresses of 64 bits on a stack of at most 128 frames, and writes that take whatever
-- the buffer holds.
pub record IsReady (p : Process) : Type 0 where
  pub words : All IsWord p.frames
  pub few : length p.frames ≤ 128
  pub first : TakesAll p.first_writes
  pub last : TakesAll p.last_writes

abbrev Printed : Bytes → Option Report → Type 0
Printed err o = (r : Report) × (more : Bytes) × (o ≡ some r) × Says r more × (r.err ≡ err)

-- The process ends with the status, the buffer is empty, and the standard error has had `head` and more.
abbrev pub Ends : Bytes → Option Failed → Type 0
Ends head o =
    (rest : Bytes) × (o ≡ some (Failed.exits fail_status (record { buf = []; err = head ++ rest })))
