-- ===== src/Report/Examples.antt =====
-- The report on concrete failures.
use sppc.Common.{
  ℕ, ◌≤◌, ◌≡◌, refl, arith, true, false, none, some, List, [], ◌∷◌, ◌++◌, ◌==◌, length, Bytes,
  codes, if◌then◌else◌,
}
use sppc.Report.{
  Report, Wrote, buf_size, put_n, put, is_hashed, all_hex_loop, put_symbol, put_dec, dec_loop,
  put_hex, hex_loop, hex_prefix, flush, flush_loop,
}
use sppc.Report.Contents.{Says, put_all, joined, puts-refine_text}
use sppc.Report.Flush.{flush-delivers}
use sppc.Report.Backtrace.{
  Resolved, find_want, walk, print, print_loop, print_frame, put_place, put_object, file_part,
}
use sppc.Report.Check.{
  Process, Failed, fail_end, check_failed, check_index, put_check, plain_text, put_values,
  put_numbered,
}
use sppc.Report.Check.Ends.{Ends}

abbrev blank : Report
blank = record { buf = []; err = [] }

abbrev writes : List Wrote
writes = Wrote.interrupted ∷ Wrote.took 3 ∷ Wrote.took 65536 ∷ []

-- Two frames with names, and one without.
abbrev names : ℕ → Resolved
names pc =
    if pc == 4099
    then record {
      name = some (codes "f$h0123456789abcdef");
      start = 4096;
      object = some (codes "/bin/app");
    }
    else record { name = none; start = 0; object = none }

abbrev failing : Process
failing = record {
  busy = false;
  enabled = true;
  off_note = codes "off";
  frames = 50 ∷ 4100 ∷ 26 ∷ [];
  resolve = names;
  string_at = λ _. [];
  first_writes = writes;
  last_writes = writes;
}

hashed : put_symbol (codes "f$h0123456789abcdef") blank ≡ record { buf = codes "f"; err = [] }
unfolding put_symbol is_hashed all_hex_loop put_n
hashed = refl

index_report :
    check_failed failing check_index 7 3 4100 blank
    ≡ some (
        Failed.exits 134 (record {
          buf = [];
          err =
              codes
                "\n[sppc] check failed: index 7 out of bounds for length 3\nstack backtrace:\n  #0  f+0x4  (app)\n  #1  ?? 0x1a\n";
        }))
unfolding check_failed put_check plain_text put_values put_numbered put_dec dec_loop put put_n
    fail_end print flush flush_loop walk find_want print_loop print_frame put_place put_object
    file_part put_symbol is_hashed all_hex_loop put_hex hex_loop hex_prefix
index_report = refl

abbrev pieces : List Bytes
pieces = codes "slice " ∷ codes "3" ∷ codes ".." ∷ []

puts-refine_text_example :
    Says (put_all pieces blank) ([] ++ joined pieces)
    × (length (put_all pieces blank).buf ≤ buf_size)
puts-refine_text_example = puts-refine_text pieces [] blank refl

flush-delivers_example :
    flush writes (record { buf = codes "five!"; err = codes "x" })
    ≡ some (record { buf = []; err = codes "x" ++ codes "five!" })
flush-delivers_example =
    flush-delivers writes (record { buf = codes "five!"; err = codes "x" })
      (tt, (omega arith, (omega arith, tt))) (omega arith)
