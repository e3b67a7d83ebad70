-- ===== src/Windows/Rwlock/Examples.antt =====
-- A read-write lock that thread 5 holds for reading.
use sppc.Common.{refl, none, [], ◌∷◌}
use sppc.Windows.Rwlock.{rwlock_tryrdlock}
use sppc.Windows.Rwlock.Holders.{World, Call, Calls, Says, start, rwlock-holders}

abbrev read_once : World
read_once = record start { lock = (rwlock_tryrdlock start.lock).1; reading = 5 ∷ [] }

reached : Calls start read_once
unfolding rwlock_tryrdlock
reached = Calls.next start read_once read_once (Call.read 5 start refl) (Calls.stop read_once)

rwlock-holders_example : Says read_once.lock (5 ∷ []) none
rwlock-holders_example = rwlock-holders read_once reached
