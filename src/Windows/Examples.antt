-- ===== src/Windows/Examples.antt =====
-- The POSIX interfaces of headers/sppc/platform/windows.h at work on written-out states.
use sppc.Common.{
  ℕ, ◌≤◌, ◌<◌, ◌≡◌, ◌≢◌, ◌⊎◌, refl, true, false, Option, none, some, [], ◌∷◌, ◌++◌, ◌==◌, arith,
  if◌then◌else◌,
}
use sppc.Errno.{emfile, enomem}
use sppc.Windows.Mutex.{Kind, Mutex, compare_exchange}
use sppc.Windows.Mutex.Steps.{Place, World, Step, Steps, is_inside, move}
use sppc.Windows.Mutex.Steps.Exclusion.{start, mutual-exclusion}
use sppc.Windows.Mutex.Steps.Wakeups.{IsAwake, no-lost_wakeup}
use sppc.Windows.Console.{Console, utf8_len, console_write}
use sppc.Windows.Console.Conserve.{console_write-conserves}
use sppc.Windows.Console.Parts.{IsPending}
use sppc.Windows.Fds.{Slot, Fds, Installed, named, fd_install, fd_max, close, dup, dup2}
use sppc.Windows.Fds.Count.{IsCounted}
use sppc.Windows.Fds.Calls.{calls-IsCounted}
use sppc.Windows.Fds.Install.{fd_install-lowest}

abbrev fresh : Mutex
fresh = record { state = 0; owner = 0; count = 0; kind = Kind.normal }

abbrev taken : Mutex
taken = record { state = 1; owner = 5; count = 1; kind = Kind.errorcheck }

-- Thread 3 has called lock and taken the mutex.
abbrev arrived : World
arrived = move 3 Place.arriving fresh (start fresh)

abbrev inside : World
inside = move 3 Place.taking (record fresh { state = 1 }) arrived

inside-reached : Steps (start fresh) inside
unfolding compare_exchange
inside-reached =
    Steps.next (start fresh) arrived inside (Step.arrive 3 (start fresh) refl)
      (Steps.next arrived inside inside (Step.try 3 arrived refl) (Steps.stop inside))

mutual-exclusion_example :
    ((i j : ℕ) → is_inside (inside.at i) ≡ true → is_inside (inside.at j) ≡ true → i ≡ j)
    × (inside.mutex.state ≡ 0 → (i : ℕ) → is_inside (inside.at i) ≡ false)
mutual-exclusion_example = mutual-exclusion fresh inside inside-reached

no-lost_wakeup_example : IsAwake inside
no-lost_wakeup_example = no-lost_wakeup fresh inside inside-reached

abbrev open_at : Option ℕ → Slot
open_at o = record { ofd = o; cloexec = false }

-- fds 0 and 2 name the description 7, fd 3 names 9, and fd 1 is free; a call on another thread has a
-- reference to 9.
abbrev table : Fds
table = record {
  slots = open_at (some 7) ∷ open_at none ∷ open_at (some 7) ∷ open_at (some 9) ∷ [];
  refs = λ d. if d == 7 then 2 else if d == 9 then 2 else 0;
  closed = [];
  std = [];
}

abbrev reading : ℕ → ℕ
reading d = if d == 9 then 1 else 0

table-IsCounted : IsCounted table reading
table-IsCounted = record { exact = λ d. ground arith; gone = λ d m. cc }

calls-IsCounted_example :
    IsCounted (close 3 table).1 reading
    × IsCounted (dup true (some 3) table).1 reading
    × IsCounted (dup2 true 3 (some 0) table).1 reading
calls-IsCounted_example =
    calls-IsCounted true 3 (some 0) table reading (omega arith, omega arith) table-IsCounted

fd_install-lowest_example :
    ((x : ℕ)
      → (fd_install true 9 0 true table).0 ≡ Installed.at x
      → (0 ≤ x)
        × (x < fd_max)
        × (named table.slots x ≡ none)
        × ((y : ℕ) → 0 ≤ y → y < x → named table.slots y ≢ none)
        × (named (fd_install true 9 0 true table).1.slots x ≡ some 9))
    × ((e : ℕ)
        → (fd_install true 9 0 true table).0 ≡ Installed.failed e
        → ((e ≡ emfile) × ((y : ℕ) → 0 ≤ y → y < fd_max → named table.slots y ≢ none))
          ⊎ ((e ≡ enomem) × (true ≡ false)))
fd_install-lowest_example = fd_install-lowest true 9 0 true table (omega arith, omega arith)

-- The console holds back the first byte of a two-byte character.
abbrev half : Console
half = record { shown = 65 ∷ []; pending = 0xC3 ∷ []; until_nul = λ _. [] }

console_write-conserves_example :
    let out = console_write true true (0xA9 ∷ 66 ∷ 0xE2 ∷ []) half in
    (out.0 ≡ true)
    × (out.1.shown ++ out.1.pending ≡ 65 ∷ 0xC3 ∷ 0xA9 ∷ 66 ∷ 0xE2 ∷ [])
    × IsPending out.1.pending
unfolding utf8_len
console_write-conserves_example =
    console_write-conserves (0xA9 ∷ 66 ∷ 0xE2 ∷ []) half (omega arith) (omega arith, omega arith)
