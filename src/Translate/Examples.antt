-- ===== src/Translate/Examples.antt =====
-- A table of two values, as of a clock on a platform that numbers it otherwise.
use sppc.Common.{ℕ, List, [], ◌∷◌}
use sppc.Translate.{Pair}

abbrev clocks : List Pair
clocks = record { sppc = 0; os = 0 } ∷ record { sppc = 1; os = 6 } ∷ []

abbrev monotonic : ℕ
monotonic = 6
