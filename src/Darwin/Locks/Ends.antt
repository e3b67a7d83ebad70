-- ===== src/Darwin/Locks/Ends.antt =====
-- That a timed lock of darwin.h ends, how, and how long it naps.
use sppc.Common.{
  ℕ, zero, suc, ◌+◌, ◌-◌, ◌*◌, ◌≤◌, ◌<◌, ◌≡◌, refl, true, false, Option, some, List, [], ◌∷◌, ◌==◌,
  ◌&&◌, ◌||◌, ◌⊎◌, inl, inr, arith, ltb, if◌then◌else◌, if-either, Bool-cases, length, get_elem?,
  All, map,
}
use sppc.Time.{Timespec, second}
use sppc.Time.Passing.{ns, IsProper}
use sppc.Posix.Once.{next_pause, backoff_min_ns}
use sppc.Darwin.Locks.{Err, Left, time_left, nap_for, Try, Locked, is_busy, timed_loop, timed_lock}

-- A round whose clock is read.
abbrev pub round : Err × Timespec → Try
round r = record { answer = r.0; now = some r.1 }

-- What is left: the time up to the deadline, or none of it.
abbrev LeftOf : Timespec → Timespec → Left → Type 0
LeftOf d now (Left.left t) = (ns now + ns t ≡ ns d) × (0 < ns t)
LeftOf d now (Left.no_time e) = (e ≡ Err.etimedout) × (ns d ≤ ns now)

time_left-LeftOf :
    (now d : Timespec) → IsProper now → IsProper d → LeftOf d now (time_left (some now) d)
unfolding time_left
time_left-LeftOf now d hn hd =
    let borrowed = if ltb d.nsec now.nsec then 1 else 0 in
    let sec = d.sec - (now.sec + borrowed) in
    let nsec = d.nsec + borrowed * second - now.nsec in
    if-either (LeftOf d now) (ltb d.sec (now.sec + borrowed) || (sec == 0 && nsec == 0)) _ _
      (λ e. (refl, ground (arith, e))) λ e. (ground (arith, e), ground (arith, e))

-- A nap is of the pause or up to the deadline, and never past it.
nap_for-bounds :
    (t : Timespec) (pause : ℕ)
    → pause < second
    → (ns (nap_for t pause) ≤ ns t)
      × ((ns (nap_for t pause) ≡ pause) ⊎ (ns (nap_for t pause) ≡ ns t))
unfolding nap_for
nap_for-bounds t pause h = elim (Bool-cases (t.sec == 0 && ltb t.nsec pause)) [
  | inl e ↦ rw e (omega arith, inr refl)
  | inr e ↦ rw e (ground (arith, e), inl (omega arith))
]

next_pause-bounds :
    (p : ℕ)
    → backoff_min_ns ≤ p
    → p < 2000000
    → (backoff_min_ns ≤ next_pause p) × (next_pause p < 2000000)
unfolding next_pause
next_pause-bounds p low high = ground arith

-- A clock that moves on by at least each nap.
abbrev pub Lasts : Timespec → ℕ → List (Err × Timespec) → Type 0
Lasts d pause [] = Unit
Lasts d pause (r ∷ []) = Unit
Lasts d pause (r ∷ next ∷ rs) =
    ((t : Timespec)
      → time_left (some r.1) d ≡ Left.left t
      → ns r.1 + ns (nap_for t pause) ≤ ns next.1)
    × Lasts d (next_pause pause) (next ∷ rs)

-- No nap goes past the deadline.
abbrev pub Within : Timespec → List (Err × Timespec) → List Timespec → Type 0
Within d rs [] = Unit
Within d [] (nap ∷ naps) = ⊥
Within d (r ∷ rs) (nap ∷ naps) = (ns r.1 + ns nap ≤ ns d) × Within d rs naps

-- How a lock ended in a round: with what its try answered, which is not that the lock is held, or in time.
abbrev pub EndsIn : Timespec → Err × Timespec → Err → Type 0
EndsIn d r e =
    ((e ≡ r.0) × (is_busy r.0 ≡ false))
    ⊎ ((e ≡ Err.etimedout) × (is_busy r.0 ≡ true) × (ns d ≤ ns r.1))

-- It ended in the round behind its last nap, and no nap went past the deadline.
abbrev pub Ended : Timespec → List (Err × Timespec) → Option Locked → Type 0
Ended d rs o =
    (l : Locked) × (o ≡ some l)
    × (last : Err × Timespec) × (get_elem? rs (length l.naps) ≡ some last)
    × EndsIn d last l.err
    × Within d rs l.naps

timed_loop-got :
    (d : Timespec) (pause : ℕ) (r : Err × Timespec) (rs : List (Err × Timespec))
    → is_busy r.0 ≡ false
    → Ended d (r ∷ rs) (timed_loop (map round (r ∷ rs)) d pause)
unfolding timed_loop
timed_loop-got d pause r rs free =
    rw (free, timed_loop) (record { err = r.0; naps = [] }, refl, r, refl, inl (refl, free), tt)

timed_loop-late :
    (d : Timespec) (pause : ℕ) (r : Err × Timespec) (rs : List (Err × Timespec))
    → is_busy r.0 ≡ true
    → time_left (some r.1) d ≡ Left.no_time Err.etimedout
    → ns d ≤ ns r.1
    → Ended d (r ∷ rs) (timed_loop (map round (r ∷ rs)) d pause)
unfolding timed_loop
timed_loop-late d pause r rs busy e late =
    rw (busy, e, timed_loop)
      (record { err = Err.etimedout; naps = [] }, refl, r, refl, inr (refl, busy, late), tt)

timed_loop-naps :
    (d t : Timespec) (pause : ℕ) (r : Err × Timespec) (rs : List (Err × Timespec))
    → is_busy r.0 ≡ true
    → time_left (some r.1) d ≡ Left.left t
    → ns r.1 + ns (nap_for t pause) ≤ ns d
    → Ended d rs (timed_loop (map round rs) d (next_pause pause))
    → Ended d (r ∷ rs) (timed_loop (map round (r ∷ rs)) d pause)
unfolding timed_loop
timed_loop-naps d t pause r rs busy e fits (l, ran, last, at, ends, within) =
    rw (busy, e, timed_loop)
      (record l { naps = nap_for t pause ∷ l.naps }, rw ran refl, last, at, ends, (fits, within))

-- What a round with a lock that is held finds.
busy-cases :
    (d now : Timespec)
    → IsProper now
    → IsProper d
    → ((time_left (some now) d ≡ Left.no_time Err.etimedout) × (ns d ≤ ns now))
      ⊎ ((t : Timespec) × (time_left (some now) d ≡ Left.left t)
          × (ns now + ns t ≡ ns d)
          × (0 < ns t))
busy-cases d now hn hd = go (time_left (some now) d) refl (time_left-LeftOf now d hn hd)
  where
    go :
        (l : Left)
        → time_left (some now) d ≡ l
        → LeftOf d now l
        → ((time_left (some now) d ≡ Left.no_time Err.etimedout) × (ns d ≤ ns now))
          ⊎ ((t : Timespec) × (time_left (some now) d ≡ Left.left t)
              × (ns now + ns t ≡ ns d)
              × (0 < ns t))
    go (Left.left t) e (sum, more) = inr (t, e, sum, more)
    go (Left.no_time x) e (same, late) = inl (rw (← same) e, late)

timed_loop-Ended :
    (k pause : ℕ) (d : Timespec) (r : Err × Timespec) (rs : List (Err × Timespec))
    → backoff_min_ns ≤ pause
    → pause < 2000000
    → IsProper d
    → All (λ x. IsProper x.1) (r ∷ rs)
    → Lasts d pause (r ∷ rs)
    → ns d ≤ ns r.1 + k * backoff_min_ns
    → k ≤ length rs
    → Ended d (r ∷ rs) (timed_loop (map round (r ∷ rs)) d pause)
timed_loop-Ended zero pause d r rs low high hd hn l near fits = elim (Bool-cases (is_busy r.0)) [
  | inr free ↦ timed_loop-got d pause r rs free
  | inl busy ↦ elim (busy-cases d r.1 hn.0 hd) [
    | inl (e, late) ↦ timed_loop-late d pause r rs busy e late
    | inr (t, e, total, more) ↦ absurd (omega (arith, total, more, near))
  ]
]
timed_loop-Ended (suc k) pause d r [] low high hd hn l near fits = absurd (omega arith)
timed_loop-Ended (suc k) pause d r (next ∷ rs) low high hd hn l near fits =
    elim (Bool-cases (is_busy r.0)) [
      | inr free ↦ timed_loop-got d pause r (next ∷ rs) free
      | inl busy ↦ elim (busy-cases d r.1 hn.0 hd) [
        | inl (e, late) ↦ timed_loop-late d pause r (next ∷ rs) busy e late
        | inr (t, e, total, more) ↦
            let (short, exact) = nap_for-bounds t pause (omega arith) in
            let moved = l.0 t e in
            let (low', high') = next_pause-bounds pause low high in
            let closer : ns d ≤ ns next.1 + k * backoff_min_ns = elim exact [
              | inl whole ↦ omega (arith, whole, moved, near)
              | inr rest ↦ omega (arith, rest, moved, total)
            ] in
            timed_loop-naps d t pause r (next ∷ rs) busy e (omega (arith, short, total)) (
              timed_loop-Ended k (next_pause pause) d next rs low' high' hd hn.1 l.1 closer
                (omega arith))
      ]
    ]

-- A timed lock ends, if its clock moves on by at least each nap and there are rounds for every 50 microseconds up to its
-- deadline: in the round behind its last nap, with what the try answers there if that is not that the lock is held, and
-- with ETIMEDOUT only if it is held still and the deadline has passed; and no nap goes past the deadline.
pub timed_lock-Ended :
    (k : ℕ) (d : Timespec) (r : Err × Timespec) (rs : List (Err × Timespec))
    → IsProper d
    → All (λ x. IsProper x.1) (r ∷ rs)
    → Lasts d backoff_min_ns (r ∷ rs)
    → ns d ≤ ns r.1 + k * backoff_min_ns
    → k ≤ length rs
    → Ended d (r ∷ rs) (timed_lock (map round (r ∷ rs)) d)
unfolding timed_lock
timed_lock-Ended k d r rs hd hn l near fits =
    timed_loop-Ended k backoff_min_ns d r rs (omega arith) (omega arith) hd hn l near fits
