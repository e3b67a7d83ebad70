-- ===== src/Report/Backtrace.antt =====
-- headers/sppc/backtrace/common.h, BACKTRACE: `_sppc_bt_print` on POSIX, where an address is its own
-- return address (neither ARM's thumb bit nor SPARC's calls). The unwinder and the symbol tables are
-- the object format's: the frames and their names are arguments.
pub mod Prints
pub mod Shown
use Prim.Native.Nat.{min}
use sppc.Common.{
  ℕ, zero, suc, ◌+◌, ◌-◌, ◌%◌, ◌^◌, Bool, true, false, not, ◌&&◌, Option, none, some, List, [], ◌∷◌,
  ◌==◌, ltb, if◌then◌else◌, length, drop, get_or, Bytes, codes, ◌>>=◌,
}
use sppc.Report.{Report, Wrote, put, put_symbol, put_dec, put_hex, flush}

-- What `_sppc_bt_resolve` answers for an address: the function, its start, and the object's file.
pub record Resolved : Type 0 where
  pub name : Option Bytes
  pub start : ℕ
  pub object : Option Bytes

-- `strrchr`, from the place `i` on, with the last match so far.
abbrev pub strrchr_from : Bytes → ℕ → ℕ → Option ℕ → Option ℕ
strrchr_from [] c i last = last
strrchr_from (x ∷ s) c i last = strrchr_from s c (i + 1) (if x == c then some i else last)

-- The part of a path behind its last slash.
unfoldable pub file_part : Bytes → Bytes
file_part object = elim (strrchr_from object b'/' 0 none) [
  | some slash ↦ drop (slash + 1) object
  | none ↦ object
]

-- The loop of `_sppc_bt_print` that looks for `want`: the place it is found at.
unfoldable pub find_want : List ℕ → ℕ → ℕ → Option ℕ
find_want [] want i = none
find_want (f ∷ fs) want i =
    let rest = find_want fs want (i + 1) in if f == want then some i else rest

-- The frames that `_sppc_bt_print` goes over: the array, the first and the count.
pub record Walk : Type 0 where
  pub frames : List ℕ
  pub start : ℕ
  pub count : ℕ

-- `first_pc` is 0 for NULL.
unfoldable pub walk : List ℕ → ℕ → Walk
unfolding find_want
walk frames first_pc = elim (find_want frames first_pc 0) [
  | some i ↦ record { frames = frames; start = i; count = length frames }
  | none ↦
      if first_pc == 0
      then record { frames = frames; start = 0; count = length frames }
      else record { frames = first_pc ∷ drop 1 frames; start = 0; count = 1 }
]

-- A symbol and the offset into it, or the address alone.
unfoldable pub put_place : ℕ → Resolved → Report → Option Report
unfolding put put_symbol put_hex
put_place pc found r = elim found.name [
  | some name ↦ put_hex ((pc + 2 ^ 64 - found.start) % 2 ^ 64) (put (codes "+") (put_symbol name r))
  | none ↦ put_hex pc (put (codes "?? ") r)
]

unfoldable pub put_object : Option Bytes → Report → Report
unfolding put file_part
put_object none r = r
put_object (some []) r = r
put_object (some (c ∷ cs)) r = put (codes ")") (put (file_part (c ∷ cs)) (put (codes "  (") r))

-- One round of the loop of `_sppc_bt_print`, for the frame `pc` at the place `i` behind the first.
unfoldable pub print_frame : (ℕ → Resolved) → Bool → ℕ → ℕ → Report → Option Report
unfolding put put_dec put_place put_object
print_frame resolve exact i pc r = do
  let lookup = if (i == 0) && exact then pc else (pc + 2 ^ 64 - 1) % 2 ^ 64
  numbered ← put_dec i (put (codes "  #") r)
  placed ← put_place pc (resolve lookup) (put (if ltb i 10 then codes "  " else codes " ") numbered)
  some (put (codes "\n") (put_object (resolve lookup).object placed))

-- The loop of `_sppc_bt_print`, over the rounds left.
unfoldable pub print_loop : (ℕ → Resolved) → Bool → Walk → ℕ → ℕ → Report → Option Report
unfolding print_frame
print_loop resolve exact w zero i r = some r
print_loop resolve exact w (suc k) i r =
    print_frame resolve exact (i - w.start) (get_or w.frames i 0) r >>= λ next.
    print_loop resolve exact w k (i + 1) next

-- `_sppc_bt_print`, with the answers of `write` to its flush, and whether there is a fault's context.
unfoldable pub print : List Wrote → List ℕ → (ℕ → Resolved) → Bool → ℕ → Report → Option Report
unfolding flush walk print_loop put
print ws frames resolve is_fault first_pc r = do
  flushed ← flush ws r
  let w = walk frames first_pc
  print_loop resolve (is_fault && not (first_pc == 0)) w (w.count - w.start) w.start
      (put (codes "stack backtrace:\n") flushed)
