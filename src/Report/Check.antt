-- ===== src/Report/Check.antt =====
-- headers/sppc/platform/common.h, `sppc_check_failed` and `sppc_abort`, and headers/sppc/backtrace/
-- common.h, FAILURE: how a failed check ends the process, on POSIX.
pub mod Ends
pub mod Says
use sppc.Common.{
  ℕ, Bool, true, false, Option, none, some, List, [], ◌∷◌, ◌==◌, if◌then◌else◌, Bytes, codes, ◌>>=◌,
}
use sppc.Report.{Report, Wrote, put, put_dec, flush}
use sppc.Report.Backtrace.{Resolved, print}

abbrev pub fail_status : ℕ
fail_status = 134

-- The checks, by their numbers.
abbrev pub check_index : ℕ
check_index = 1

abbrev pub check_conversion : ℕ
check_conversion = 2

abbrev pub check_generator_send : ℕ
check_generator_send = 3

abbrev pub check_slice_order : ℕ
check_slice_order = 4

abbrev pub check_slice_end : ℕ
check_slice_end = 5

abbrev pub check_float_to_int : ℕ
check_float_to_int = 6

abbrev pub check_ffi_unwind : ℕ
check_ffi_unwind = 7

abbrev pub check_signed_add : ℕ
check_signed_add = 16

abbrev pub check_unsigned_add : ℕ
check_unsigned_add = 17

abbrev pub check_signed_sub : ℕ
check_signed_sub = 18

abbrev pub check_unsigned_sub : ℕ
check_unsigned_sub = 19

abbrev pub check_signed_mul : ℕ
check_signed_mul = 20

abbrev pub check_unsigned_mul : ℕ
check_unsigned_mul = 21

-- A number with a text behind it.
unfoldable pub put_numbered : ℕ → Bytes → Report → Option Report
unfolding put put_dec
put_numbered n after r = do numbered ← put_dec n r; some (put after numbered)

-- The cases of `sppc_check_failed` that print a text and no number.
unfoldable pub plain_text : ℕ → Option Bytes
plain_text check =
    if check == check_conversion
    then some (codes "integer conversion reached for a width pair it is not defined for")
    else if check == check_generator_send
    then some
        (codes "generator 'send' was reached directly; it is lowered through the '.res()' operator")
    else if check == check_signed_add
    then some (codes "signed add overflowed")
    else if check == check_unsigned_add
    then some (codes "unsigned add overflowed")
    else if check == check_signed_sub
    then some (codes "signed subtract overflowed")
    else if check == check_unsigned_sub
    then some (codes "unsigned subtract underflowed")
    else if check == check_signed_mul
    then some (codes "signed multiply overflowed")
    else if check == check_unsigned_mul
    then some (codes "unsigned multiply overflowed")
    else none

-- The cases that print numbers, or the name of the foreign function, which `a` points to.
unfoldable pub put_values : (ℕ → Bytes) → ℕ → ℕ → ℕ → Report → Option Report
unfolding put put_dec put_numbered
put_values string_at check a b r =
    if check == check_index
    then put_numbered a (codes " out of bounds for length ") (put (codes "index ") r) >>= put_dec b
    else if check == check_slice_order
    then put_numbered a (codes "..") (put (codes "slice ") r)
      >>= put_numbered b (codes " ends before it starts")
    else if check == check_slice_end
    then put_numbered a (codes " out of bounds for length ") (put (codes "slice end ") r)
      >>= put_dec b
    else if check == check_float_to_int
    then put_numbered a (codes ", or NaN")
        (put (if b == 0 then codes "U" else codes "S") (put (codes "float out of range for ") r))
    else if check == check_ffi_unwind
    then some (
        put (codes "'; foreign code must not unwind through s++ frames")
          (put (string_at a) (put (codes "an exception unwound into s++ from '") r)))
    else put_dec check (put (codes "unknown check ") r)

-- The switch of `sppc_check_failed`.
unfoldable pub put_check : (ℕ → Bytes) → ℕ → ℕ → ℕ → Report → Option Report
unfolding put plain_text put_values
put_check string_at check a b r = elim (plain_text check) [
  | some text ↦ some (put text r)
  | none ↦ put_values string_at check a b r
]

-- What a failure finds: whether the report is taken and backtraces are on, the note where they are
-- not, the stack, its names, the strings in memory, and the answers of `write` to the two flushes.
pub record Process : Type 0 where
  pub busy : Bool
  pub enabled : Bool
  pub off_note : Bytes
  pub frames : List ℕ
  pub resolve : ℕ → Resolved
  pub string_at : ℕ → Bytes
  pub first_writes : List Wrote
  pub last_writes : List Wrote

-- A failing thread waits for the one that reports, or ends the process with a status.
pub data Failed : Type 0 where
  waits : Failed
  exits : ℕ → Report → Failed

-- `_sppc_bt_fail_end`.
unfoldable pub fail_end : Process → ℕ → Report → Option Failed
unfolding put print flush
fail_end p caller_pc r = do
  traced ←
      (if p.enabled
        then print p.first_writes p.frames p.resolve false caller_pc r
        else some (put p.off_note r))
  flushed ← flush p.last_writes traced
  some (Failed.exits fail_status flushed)

-- `sppc_check_failed`; `_sppc_bt_fail_begin` is its test of the flag.
unfoldable pub check_failed : Process → ℕ → ℕ → ℕ → ℕ → Report → Option Failed
unfolding put put_check fail_end
check_failed p check a b caller_pc r =
    let report =
      put_check p.string_at check a b (put (codes "\n[sppc] check failed: ") r) >>= λ said.
      fail_end p caller_pc (put (codes "\n") said) in
    if p.busy then some Failed.waits else report

-- `sppc_abort`.
unfoldable pub abort : Process → ℕ → Report → Option Failed
unfolding put fail_end
abort p caller_pc r =
    let report = fail_end p caller_pc (put (codes "\n[sppc] aborted\n") r) in
    if p.busy then some Failed.waits else report
