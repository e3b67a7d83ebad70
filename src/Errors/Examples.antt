-- ===== src/Errors/Examples.antt =====
-- The translation of headers/sppc/errors.h on a platform whose EAGAIN is 35.
use sppc.Common.{Option, none, some, ℕ}
use sppc.Errors.{Name}

abbrev bsd : Name → Option ℕ
bsd n = elim n [
  | Name.os_eperm ↦ some 1
  | Name.os_eagain ↦ some 35
  | Name.os_ewouldblock ↦ some 35
  | _ ↦ none
]

abbrev try_again : ℕ
try_again = 35
