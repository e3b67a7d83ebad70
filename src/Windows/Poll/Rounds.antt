-- ===== src/Windows/Poll/Rounds.antt =====
-- A round of `sppc_poll` of windows.h: what it counts, and when it is the last.
use sppc.Common.{
  ℕ, ◌+◌, ◌≤◌, ◌≡◌, refl, ap, ◌∙◌, Bool, true, false, not, ◌&&◌, ◌||◌, Option, none, some, List, [],
  ◌∷◌, ◌==◌, ◌⊎◌, inl, inr, arith, ltb, if-either, Bool-cases, map, sum,
}
use sppc.Translate.{Pair}
use sppc.Windows.Poll.{
  Ofd, Entry, Watched, is_socket, look_entry, look_at, one_if, look_loop, socket_loop, has_sockets,
  Found, Round, left_of, slice_of, is_zero, Result, RoundEnd, round_end, poll_sockets, poll_round,
}

-- What an entry asks for.
abbrev pub asked : Entry → Option ℕ × ℕ
asked e = (e.fd, e.events)

abbrev pub is_ready : Watched → ℕ
is_ready w = one_if (not (w.entry.revents == 0))

-- A socket with events.
abbrev pub loud_entry : Option Ofd → Entry → ℕ
loud_entry o e = one_if (is_socket o && not (e.revents == 0))

abbrev pub is_loud : Watched → ℕ
is_loud w = loud_entry w.ofd w.entry

abbrev pub all_asked : List Watched → List (Option ℕ × ℕ)
all_asked ws = map (λ w. asked w.entry) ws

look_entry-keeps :
    (o : Option Ofd) (seen : Option ℕ) (e : Entry)
    → (asked (look_entry o seen e).0 ≡ asked e)
      × (loud_entry o (look_entry o seen e).0 ≡ loud_entry o e)
unfolding look_entry
look_entry-keeps none seen e = (refl, refl)
look_entry-keeps (some o) seen e = elim (Bool-cases (is_socket (some o))) [
  | inl s ↦ rw s (refl, refl)
  | inr s ↦ rw s (refl, refl)
]

-- What a loop leaves: the same questions, and so many entries with events.
abbrev pub Counted : List Watched → List Watched → ℕ → Type 0
Counted ws xs n = (all_asked xs ≡ all_asked ws) × (n ≡ sum is_ready xs)

look_loop-Counted :
    (seen : ℕ → Option ℕ) (i : ℕ) (ws : List Watched)
    → Counted ws (look_loop seen i ws).0 (look_loop seen i ws).1
      × (sum is_loud (look_loop seen i ws).0 ≡ sum is_loud ws)
unfolding look_loop look_at
look_loop-Counted seen i [] = ((refl, refl), refl)
look_loop-Counted seen i (w ∷ ws) =
    let ((same, n), quiet) = look_loop-Counted seen (i + 1) ws in
    let (own, loud) = look_entry-keeps w.ofd (seen i) w.entry in
    ((cc, ap (λ k. is_ready (look_at (seen i) w).0 + k) n), omega (arith, loud, quiet))

silent : (w : Watched) → is_socket w.ofd ≡ true → is_loud w ≡ 0 → is_ready w ≡ 0
silent w s h = let plain : is_ready w ≡ 0 = (rw s at h) in plain

loud-le_ready : (ws : List Watched) → sum is_loud ws ≤ sum is_ready ws
loud-le_ready [] = omega arith
loud-le_ready (w ∷ ws) = elim (Bool-cases (is_socket w.ofd)) [
  | inl s ↦ rw s (omega (arith, loud-le_ready ws))
  | inr s ↦ rw s (omega (arith, loud-le_ready ws))
]

-- Where no socket has events yet, the sockets' events are the ones that come on top.
socket_loop-Counted :
    (table : List Pair) (os_pollin : ℕ) (found : ℕ → ℕ) (i : ℕ) (ws : List Watched)
    → sum is_loud ws ≡ 0
    → Counted ws
        (socket_loop table os_pollin found i ws).0
        (sum is_ready ws + (socket_loop table os_pollin found i ws).1)
unfolding socket_loop
socket_loop-Counted table os_pollin found i [] h = (refl, refl)
socket_loop-Counted table os_pollin found i (w ∷ ws) h =
    let (same, n) = socket_loop-Counted table os_pollin found (i + 1) ws (omega arith) in
    elim (Bool-cases (is_socket w.ofd)) [
      | inl s ↦
          let own : is_ready w ≡ 0 = silent w s (omega arith) in
          rw s (ap (λ t. asked w.entry ∷ t) same, omega (arith, own, n))
      | inr s ↦ rw s (ap (λ t. asked w.entry ∷ t) same, omega (arith, n))
    ]

abbrev pub Answered : List Watched → Result → Type 0
Answered ws (Result.failed e xs) = all_asked xs ≡ all_asked ws
Answered ws (Result.counted n xs) = Counted ws xs n

-- A round that is not the last leaves no socket with events.
abbrev pub EndsWell : List Watched → RoundEnd → Type 0
EndsWell ws (RoundEnd.ends x) = Answered ws x
EndsWell ws (RoundEnd.goes_on xs) = (all_asked xs ≡ all_asked ws) × (sum is_loud xs ≡ 0)

round_end-EndsWell :
    (sockets waits : Bool) (left : ℕ) (slice : Option ℕ) (n : ℕ) (ws xs : List Watched)
    → Counted ws xs n
    → EndsWell ws (round_end sockets waits left slice n xs)
unfolding round_end
round_end-EndsWell sockets waits left slice n ws xs (same, count) =
    if-either (EndsWell ws)
      (ltb 0 n || (left == 0) || (not waits && sockets) || (not waits && not (is_zero slice))) _ _
      (λ _. (same, count))
      λ e.
        let none_ready : n ≡ 0 = ground (arith, e) in
        (same, omega (arith, loud-le_ready xs, none_ready, count))

round_end-ends :
    (sockets waits : Bool) (left : ℕ) (slice : Option ℕ) (n : ℕ) (xs : List Watched)
    → left ≡ 0
    → round_end sockets waits left slice n xs ≡ RoundEnd.ends (Result.counted n xs)
unfolding round_end
round_end-ends sockets waits left slice n xs h = ground arith

pub RoundEnd-cases :
    (e : RoundEnd)
    → ((x : Result) × (e ≡ RoundEnd.ends x)) ⊎ ((xs : List Watched) × (e ≡ RoundEnd.goes_on xs))
RoundEnd-cases (RoundEnd.ends x) = inl (x, refl)
RoundEnd-cases (RoundEnd.goes_on xs) = inr (xs, refl)

pub Answered-trans :
    (ws xs : List Watched) (x : Result)
    → all_asked xs ≡ all_asked ws
    → Answered xs x
    → Answered ws x
Answered-trans ws xs (Result.failed e ys) same h = h ∙ same
Answered-trans ws xs (Result.counted n ys) same (h, n') = (h ∙ same, n')

module _ (table : List Pair) (os_pollin : ℕ) (timeout : Option ℕ) where
  pub poll_round-EndsWell :
      (r : Round) (ws : List Watched)
      → sum is_loud ws ≡ 0
      → EndsWell ws (poll_round table os_pollin timeout r ws)
  unfolding poll_round
  poll_round-EndsWell r ws h =
      let ((same, n), quiet) = look_loop-Counted r.seen 0 ws in
      let xs = (look_loop r.seen 0 ws).0 in
      let silence : sum is_loud xs ≡ 0 = omega (arith, quiet, h) in
      go (has_sockets ws) r.winsock same n silence
    where
      xs : List Watched
      xs = (look_loop r.seen 0 ws).0

      k : ℕ
      k = (look_loop r.seen 0 ws).1

      waits : Bool
      waits = (look_loop r.seen 0 ws).2

      left : ℕ
      left = left_of timeout r.gone

      go :
          (sockets : Bool) (f : Found)
          → all_asked xs ≡ all_asked ws
          → k ≡ sum is_ready xs
          → sum is_loud xs ≡ 0
          → EndsWell ws (
              poll_sockets table os_pollin timeout sockets f waits left
                (slice_of k waits timeout left)
                k
                xs)
      go false f same n silence =
          round_end-EndsWell false waits left (slice_of k waits timeout left) k ws xs (same, n)
      go true (Found.wsa_error e) same n silence = same
      go true (Found.found f) same n silence =
          let (same', n') = socket_loop-Counted table os_pollin f 0 xs silence in
          let ys = (socket_loop table os_pollin f 0 xs).0 in
          let found_ready = (socket_loop table os_pollin f 0 xs).1 in
          round_end-EndsWell true waits left (slice_of k waits timeout left) (k + found_ready) ws ys
            (same' ∙ same, omega (arith, n, n'))

  -- A round at whose look the timeout has gone by is the last.
  pub poll_round-last :
      (r : Round) (ws : List Watched)
      → left_of timeout r.gone ≡ 0
      → (x : Result) × (poll_round table os_pollin timeout r ws ≡ RoundEnd.ends x)
  unfolding poll_round
  poll_round-last r ws gone =
      go (has_sockets ws) r.winsock (look_loop r.seen 0 ws).2
        (slice_of (look_loop r.seen 0 ws).1 (look_loop r.seen 0 ws).2 timeout
          (left_of timeout r.gone))
        (look_loop r.seen 0 ws).1 (look_loop r.seen 0 ws).0
    where
      go :
          (sockets : Bool) (f : Found) (waits : Bool) (slice : Option ℕ) (k : ℕ) (xs : List Watched)
          → (x : Result) × (poll_sockets table os_pollin timeout sockets f waits
                (left_of timeout r.gone)
                slice
                k
                xs
              ≡ RoundEnd.ends x)
      go false f waits slice k xs =
          (Result.counted k xs, round_end-ends false waits (left_of timeout r.gone) slice k xs gone)
      go true (Found.wsa_error e) waits slice k xs = (Result.failed e xs, refl)
      go true (Found.found f) waits slice k xs =
          let (ys, m) = socket_loop table os_pollin f 0 xs in
          (
            Result.counted (k + m) ys,
            round_end-ends true waits (left_of timeout r.gone) slice (k + m) ys gone,
          )
