-- ===== src/Posix/Copy/Examples.antt =====
-- A copy that is interrupted, taken in part, and then refused.
use sppc.Common.{◌≡◌, refl, some, List, [], ◌∷◌, ◌++◌}
use sppc.Report.{Wrote}
use sppc.Posix.Copy.{Files, Copied, copy_range, write_loop, copied}
use sppc.Posix.Copy.Conserve.{Conserved, copy_range-Conserved}

abbrev letters : Files
letters = record { source = 97 ∷ 98 ∷ 99 ∷ 100 ∷ []; position = 1; target = 120 ∷ [] }

abbrev answers : List Wrote
answers = Wrote.interrupted ∷ Wrote.took 2 ∷ []

part :
    copy_range (some 3) (answers ++ Wrote.refused ∷ []) 5 letters
    ≡ some (Copied.count 2, record letters { position = 3; target = 120 ∷ 98 ∷ 99 ∷ [] })
unfolding copy_range write_loop copied
part = refl

copy_range-Conserved_example :
    Conserved 5 letters (copy_range (some 3) (answers ++ Wrote.refused ∷ []) 5 letters)
copy_range-Conserved_example = copy_range-Conserved (some 3) answers [] 5 letters
