-- ===== src/Time/Passing.antt =====
-- When a deadline passes, and how long a wait for it is.
use sppc.Common.{
  ℕ, ◌+◌, ◌-◌, ◌*◌, ◌/◌, ◌≤◌, ◌<◌, true, some, ◌≡◌, refl, ◌⊎◌, inl, inr, ltb, leb, arith, ◌↔◌,
  if-either,
}
use sppc.Time.{Timespec, second, deadline, remaining, passed, infinite, ms_up, wait_ms}

-- A time in nanoseconds.
abbrev pub ns : Timespec → ℕ
ns t = t.sec * second + t.nsec

-- Its nanoseconds are below a second.
abbrev pub IsProper : Timespec → Type 0
IsProper t = t.nsec < second

pub deadline-IsProper :
    (now timeout : Timespec)
    → IsProper now
    → IsProper timeout
    → IsProper (deadline now timeout) × (ns (deadline now timeout) ≡ ns now + ns timeout)
unfolding deadline
deadline-IsProper now timeout hn ht = (ground arith, ground arith)

remaining-ns :
    (now d : Timespec)
    → IsProper now
    → IsProper d
    → (ns (remaining now d) ≡ ns d - ns now) × IsProper (remaining now d)
unfolding remaining
remaining-ns now d hn hd = (ground arith, ground arith)

passed_iff : (now d : Timespec) → (passed now d ≡ true) ↔ (ns (remaining now d) ≡ 0)
unfolding passed
passed_iff now d = ground arith

-- A deadline set at `start` has passed at `now` exactly when the timeout has gone by since, where the nanoseconds of
-- each time are below a second; until then what remains is the rest of the timeout.
pub deadline-passes :
    (start timeout now : Timespec)
    → IsProper start
    → IsProper timeout
    → IsProper now
    → ((passed now (deadline start timeout) ≡ true) ↔ (ns start + ns timeout ≤ ns now))
      × (ns (remaining now (deadline start timeout)) ≡ ns start + ns timeout - ns now)
deadline-passes start timeout now hs ht hn =
    let (proper, sum) = deadline-IsProper start timeout hs ht in
    let (left, _) = remaining-ns now (deadline start timeout) hn proper in
    (ground (arith, passed_iff now (deadline start timeout), left, sum), omega (arith, left, sum))

-- What a wait of `ms` milliseconds at `now` is for a deadline.
abbrev pub WaitFits : Timespec → Timespec → ℕ → Type 0
WaitFits now d ms =
    (ms < infinite)
    × ((ms ≡ 0) ↔ (ns d ≤ ns now))
    × (((ns d ≤ ns now + ms * 1000000) × (ms * 1000000 < ns d - ns now + 1000000))
        ⊎ ((ms ≡ infinite - 1) × (now.sec + infinite / 1000 ≤ d.sec)))

ms_up-WaitFits :
    (now d : Timespec)
    → IsProper now
    → IsProper d
    → now.sec ≤ d.sec
    → d.sec - now.sec < infinite / 1000
    → WaitFits now d (ms_up (d.sec - now.sec) d.nsec now.nsec)
unfolding ms_up
ms_up-WaitFits now d hn hd order near =
    if-either (WaitFits now d) (leb ((d.sec - now.sec) * second + d.nsec) now.nsec) 0
      (((d.sec - now.sec) * second + d.nsec - now.nsec + 999999) / 1000000)
      (λ e.
        let gone : ns d ≤ ns now = ground (arith, e) in
        (omega arith, (λ _. gone, λ _. refl), inl (omega arith, omega arith)))
      λ e.
        let more : ns now < ns d = ground (arith, e) in
        (omega arith, (λ z. omega arith, λ h. omega arith), inl (omega arith, omega arith))

-- A wait for a deadline, with the nanoseconds of both times below a second: it is finite, it is 0 exactly when the
-- deadline has passed, and it ends at or after the deadline and less than a millisecond late, unless it is the longest
-- finite wait, for a deadline whose seconds are at least 4294967 on.
pub wait_ms-WaitFits :
    (now d : Timespec) → IsProper now → IsProper d → WaitFits now d (wait_ms now (some d))
unfolding wait_ms
wait_ms-WaitFits now d hn hd =
    if-either (WaitFits now d) (ltb d.sec now.sec) 0 _
      (λ e.
        let gone : ns d ≤ ns now = ground (arith, e) in
        (omega arith, (λ _. gone, λ _. refl), inl (omega arith, omega arith)))
      λ e.
        let order : now.sec ≤ d.sec = ground (arith, e) in
        if-either (WaitFits now d) (leb (infinite / 1000) (d.sec - now.sec)) (infinite - 1) _
          (λ far.
            let far' : now.sec + infinite / 1000 ≤ d.sec = ground (arith, far) in
            (omega arith, (λ z. absurd (omega arith), λ h. absurd (omega arith)), inr (refl, far')))
          λ near. ms_up-WaitFits now d hn hd order (ground (arith, near))
