-- ===== src/Windows/Sleep/Ends.antt =====
-- That a sleep of windows.h ends, and when.
use sppc.Common.{
  ℕ, zero, suc, ◌+◌, ◌-◌, ◌*◌, ◌≤◌, ◌<◌, ◌≡◌, refl, subst, true, false, not, ◌||◌, Option, none,
  some, List, [], ◌∷◌, ◌⊎◌, inl, inr, arith, ltb, leb, if-either, Option-cases, length, get_elem?,
  dec_le, All, sum,
}
use sppc.Time.{Timespec, second, Clock, is_timed, deadline}
use sppc.Time.Passing.{ns, IsProper, deadline-IsProper}
use sppc.Windows.Sleep.{day_ticks, sleep_look, sleep_loop, Slept, clock_nanosleep}

-- What a look finds: the deadline is there, or it sleeps up to it, for a day at most and less than a second past it.
abbrev Look : Timespec → Timespec → Option ℕ → Type 0
Look d now none = ns d ≤ ns now
Look d now (some ticks) =
    (ns now < ns d)
    × (ticks ≤ day_ticks)
    × (ticks * 100 < ns d - ns now + second)
    × ((ns d ≤ ns now + ticks * 100) ⊎ (ticks ≡ day_ticks))

sleep_look-Look : (d now : Timespec) → IsProper d → IsProper now → Look d now (sleep_look d now)
unfolding sleep_look
sleep_look-Look d now hd hn =
    if-either (Look d now) (ltb d.sec now.sec) none _ (λ e. ground (arith, e))
      λ e.
        if-either (Look d now) (leb 86400 (d.sec - now.sec)) (some day_ticks) _
          (λ far.
            let apart : now.sec + 86400 ≤ d.sec = ground (arith, e, far) in
            (omega arith, omega arith, omega arith, inr refl))
          λ near.
            let close : d.sec - now.sec < 86400 = ground (arith, near) in
            let order : now.sec ≤ d.sec = ground (arith, e) in
            if-either (Look d now) (leb ((d.sec - now.sec) * second + d.nsec) now.nsec) none _
              (λ gone. let past : ns d ≤ ns now = ground (arith, gone) in past)
              λ more.
                let left : ns now < ns d = ground (arith, more) in
                (left, omega arith, omega arith, inl (omega arith))

-- The readings of a clock that moves on by at least each sleep.
abbrev pub Lasts : Timespec → List Timespec → Type 0
Lasts d [] = Unit
Lasts d (now ∷ []) = Unit
Lasts d (now ∷ next ∷ later) =
    ((ticks : ℕ) → sleep_look d now ≡ some ticks → ns now + ticks * 100 ≤ ns next)
    × Lasts d (next ∷ later)

-- The loop ends at the reading behind the last sleep, the deadline has passed there, and all its sleeps together are
-- less than a second longer than it was off.
abbrev pub Ends : Timespec → Timespec → List Timespec → List ℕ → Type 0
Ends d now later naps =
    (end : Timespec) × (get_elem? (now ∷ later) (length naps) ≡ some end)
    × (ns d ≤ ns end)
    × (sum (λ t. t) naps * 100 < ns d - ns now + second)

-- So it does, and it does not sleep at all where the deadline has passed.
abbrev Looped : Timespec → Timespec → List Timespec → Option (List ℕ) → Type 0
Looped d now later o =
    (naps : List ℕ) × (o ≡ some naps)
    × Ends d now later naps
    × (ns d ≤ ns now → sum (λ t. t) naps ≡ 0)

sleep_loop-some :
    (d now : Timespec) (later : List Timespec) (ticks : ℕ) (naps : List ℕ)
    → sleep_look d now ≡ some ticks
    → sleep_loop d later ≡ some naps
    → sleep_loop d (now ∷ later) ≡ some (ticks ∷ naps)
unfolding sleep_loop
sleep_loop-some d now later ticks naps e ran = rw (e, sleep_loop) (rw ran refl)

sleep_loop-Looped :
    (days : ℕ) (d now : Timespec) (later : List Timespec)
    → IsProper d
    → All IsProper (now ∷ later)
    → Lasts d (now ∷ later)
    → ns d ≤ ns now + days * (day_ticks * 100)
    → days ≤ length later
    → Looped d now later (sleep_loop d (now ∷ later))
unfolding sleep_loop
sleep_loop-Looped zero d now later hd hn l near fits = elim (Option-cases (sleep_look d now)) [
  | inl e ↦
      rw (e, sleep_loop) ([], refl, (now, refl, omega (arith, near), omega arith), (λ _. refl))
  | inr (ticks, e) ↦
      let look : Look d now (some ticks) = subst (Look d now) e (sleep_look-Look d now hd hn.0) in
      absurd (omega (arith, look.0, near))
]
sleep_loop-Looped (suc days) d now [] hd hn l near fits = absurd (omega arith)
sleep_loop-Looped (suc days) d now (next ∷ later) hd hn l near fits =
    elim (Option-cases (sleep_look d now)) [
      | inl e ↦
          let gone : ns d ≤ ns now = subst (Look d now) e (sleep_look-Look d now hd hn.0) in
          rw (e, sleep_loop) ([], refl, (now, refl, gone, omega arith), (λ _. refl))
      | inr (ticks, e) ↦
          let (more, _, short, whole) = subst (Look d now) e (sleep_look-Look d now hd hn.0) in
          let moved = l.0 ticks e in
          let closer : ns d ≤ ns next + days * (day_ticks * 100) = elim whole [
            | inl up ↦ omega (arith, up, moved)
            | inr day ↦ omega (arith, day, moved, near)
          ] in
          let (naps, ran, (end, at, reached, total), none_left) =
            sleep_loop-Looped days d next later hd hn.1 l.1 closer (omega arith) in
          (
            ticks ∷ naps,
            sleep_loop-some d now (next ∷ later) ticks naps e ran,
            (end, at, reached, together ticks naps more short moved total none_left),
            λ past. absurd (omega (arith, past, more)),
          )
    ]
  where
    together :
        (ticks : ℕ) (naps : List ℕ)
        → ns now < ns d
        → ticks * 100 < ns d - ns now + second
        → ns now + ticks * 100 ≤ ns next
        → sum (λ t. t) naps * 100 < ns d - ns next + second
        → (ns d ≤ ns next → sum (λ t. t) naps ≡ 0)
        → (ticks + sum (λ t. t) naps) * 100 < ns d - ns now + second
    together ticks naps more short moved total none_left = elim (dec_le (ns d) (ns next)) [
      | yes past ↦ omega (arith, none_left past, short)
      | no ahead ↦ omega (arith, total, moved, ahead)
    ]

-- A relative sleep on a clock that can be slept on, with nanoseconds below a second, ends, if the clock moves on by at least each
-- sleep and is read once more than there are days up to the deadline: not before its deadline has passed, and having
-- slept less than a second more than was left.
pub clock_nanosleep-Ends :
    (clock : Clock) (days : ℕ) (request start now : Timespec) (later : List Timespec)
    → is_timed clock ≡ true
    → IsProper request
    → IsProper start
    → All IsProper (now ∷ later)
    → Lasts (deadline start request) (now ∷ later)
    → ns start + ns request ≤ ns now + days * (day_ticks * 100)
    → days ≤ length later
    → (naps : List ℕ) × (clock_nanosleep clock false request start (now ∷ later)
        ≡ some (Slept.slept naps))
      × Ends (deadline start request) now later naps
unfolding clock_nanosleep
clock_nanosleep-Ends clock days request start now later timed hr hs hn l near fits =
    let (proper, total) = deadline-IsProper start request hs hr in
    let (naps, ran, ends, _) =
      sleep_loop-Looped days (deadline start request) now later proper hn l
        (omega (arith, total, near)) fits in
    let allowed : (not (is_timed clock) || leb second request.nsec) ≡ false =
      ground (arith, timed) in
    (naps, rw allowed (rw ran refl), ends)
