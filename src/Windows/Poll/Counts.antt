-- ===== src/Windows/Poll/Counts.antt =====
-- What `sppc_poll` of windows.h counts, and that it ends.
use sppc.Common.{
  ℕ, ◌+◌, ◌≤◌, ◌≡◌, refl, ap, ◌∙◌, subst, Bool, not, ◌&&◌, ◌||◌, Option, none, some, List, [], ◌∷◌,
  ◌++◌, ◌==◌, inl, inr, arith, ltb, if-either, Bool-cases, map, sum, length,
}
use sppc.Errno.{einval, enomem}
use sppc.Translate.{Pair}
use sppc.Windows.Poll.Rounds.{
  asked, is_ready, is_loud, all_asked, Answered, EndsWell, RoundEnd-cases, Answered-trans,
  poll_round-EndsWell, poll_round-last,
}
use sppc.Windows.Poll.{
  Ofd, Entry, Watched, watch_open, watch_entry, watch, is_socket, one_if, Round, left_of, Result,
  RoundEnd, poll_round, poll_loop, are_known, entries, answer_of, poll,
}

module _ (table : List Pair) (os_pollin : ℕ) (timeout : Option ℕ) where
  -- The loop ends, and its result counts the entries that have events.
  abbrev Done : List Watched → Option Result → Type 0
  Done ws o = (x : Result) × (o ≡ some x) × Answered ws x

  poll_loop-ends :
      (r : Round) (rs : List Round) (ws : List Watched) (x : Result)
      → poll_round table os_pollin timeout r ws ≡ RoundEnd.ends x
      → sum is_loud ws ≡ 0
      → Done ws (poll_loop table os_pollin timeout (r ∷ rs) ws)
  unfolding poll_loop
  poll_loop-ends r rs ws x e h =
      rw (e, poll_loop)
        (x, refl, subst (EndsWell ws) e (poll_round-EndsWell table os_pollin timeout r ws h))

  poll_loop-goes_on :
      (r : Round) (rs : List Round) (ws xs : List Watched)
      → poll_round table os_pollin timeout r ws ≡ RoundEnd.goes_on xs
      → all_asked xs ≡ all_asked ws
      → Done xs (poll_loop table os_pollin timeout rs xs)
      → Done ws (poll_loop table os_pollin timeout (r ∷ rs) ws)
  unfolding poll_loop
  poll_loop-goes_on r rs ws xs e same (x, ran, answered) =
      rw (e, poll_loop) (x, ran, Answered-trans ws xs x same answered)

  poll_loop-Done :
      (before : List Round) (r : Round) (after : List Round) (ws : List Watched)
      → sum is_loud ws ≡ 0
      → left_of timeout r.gone ≡ 0
      → Done ws (poll_loop table os_pollin timeout (before ++ r ∷ after) ws)
  poll_loop-Done [] r after ws h gone =
      let (x, e) = poll_round-last table os_pollin timeout r ws gone in
      poll_loop-ends r after ws x e h
  poll_loop-Done (b ∷ before) r after ws h gone =
      elim (RoundEnd-cases (poll_round table os_pollin timeout b ws)) [
        | inl (x, e) ↦ poll_loop-ends b (before ++ r ∷ after) ws x e h
        | inr (xs, e) ↦
            let (same, quiet) =
              subst (EndsWell ws) e (poll_round-EndsWell table os_pollin timeout b ws h) in
            poll_loop-goes_on b (before ++ r ∷ after) ws xs e same
              (poll_loop-Done before r after xs quiet gone)
      ]

-- How many entries have events.
abbrev pub ready_entries : List Entry → ℕ
ready_entries es = sum (λ e. one_if (not (e.revents == 0))) es

-- An error, or success with the count.
abbrev pub CountIs : ℕ → Option ℕ → List Entry → Type 0
CountIs err none es = Unit
CountIs err (some n) es = (err ≡ 0) × (n ≡ ready_entries es)

abbrev pub Polled : List Entry → Option ((ℕ × Option ℕ) × List Entry) → Type 0
Polled es o =
    (err : ℕ) × (count : Option ℕ) × (now : List Entry) × (o ≡ some ((err, count), now))
    × (map asked now ≡ map asked es)
    × CountIs err count now

abbrev Quiet : Entry → Watched → Type 0
Quiet e w = (is_loud w ≡ 0) × (asked w.entry ≡ asked e)

watch_open-Quiet : (o : Option Ofd) (e : Entry) → Quiet e (watch_open o e)
unfolding watch_open
watch_open-Quiet none e = (refl, refl)
watch_open-Quiet (some o) e = elim (Bool-cases (is_socket (some o))) [
  | inl s ↦ (rw s refl, refl)
  | inr s ↦ (rw s refl, refl)
]

watch_entry-Quiet :
    (find : ℕ → Option Ofd) (fd : Option ℕ) (e : Entry) → Quiet e (watch_entry find fd e)
unfolding watch_entry
watch_entry-Quiet find none e = (refl, refl)
watch_entry-Quiet find (some fd) e = watch_open-Quiet (find fd) e

watch_quiet :
    (find : ℕ → Option Ofd) (es : List Entry)
    → (sum is_loud (watch find es) ≡ 0) × (all_asked (watch find es) ≡ map asked es)
unfolding watch
watch_quiet find [] = (refl, refl)
watch_quiet find (e ∷ es) =
    let (loud, same) = watch_entry-Quiet find e.fd e in
    let (louds, sames) = watch_quiet find es in (omega (arith, loud, louds), cc)

ready-entries : (ws : List Watched) → sum is_ready ws ≡ ready_entries (entries ws)
ready-entries [] = refl
ready-entries (w ∷ ws) = ap (λ k. is_ready w + k) (ready-entries ws)

asked-entries : (ws : List Watched) → map asked (entries ws) ≡ all_asked ws
asked-entries [] = refl
asked-entries (w ∷ ws) = ap (λ t. asked w.entry ∷ t) (asked-entries ws)

answer_of-Polled :
    (es : List Entry) (ws : List Watched) (x : Result)
    → all_asked ws ≡ map asked es
    → Answered ws x
    → Polled es (some (answer_of x))
answer_of-Polled es ws (Result.failed e xs) asks same =
    (e, none, entries xs, refl, asked-entries xs ∙ same ∙ asks, tt)
answer_of-Polled es ws (Result.counted n xs) asks (same, count) =
    (0, some n, entries xs, refl, asked-entries xs ∙ same ∙ asks, (refl, count ∙ ready-entries xs))

-- With a timeout, a call ends at the latest in the round at whose look it has gone by, whatever is found until then: every
-- entry still asks what it did, and where the call succeeds its count is of the entries that have events.
pub poll-Polled :
    (table : List Pair) (os_pollin t : ℕ) (find : ℕ → Option Ofd) (room : Bool)
    (before : List Round) (r : Round) (after : List Round) (es : List Entry)
    → t ≤ r.gone
    → Polled es (poll table os_pollin (some t) find room (before ++ r ∷ after) es)
unfolding poll left_of
poll-Polled table os_pollin t find room before r after es late =
    if-either (Polled es) (ltb 65536 (length es) || not (are_known table es)) _ _
      (λ _. (einval, none, es, refl, refl, tt))
      λ _.
        if-either (Polled es) (ltb 0 (length es) && not room) _ _
          (λ _. (enomem, none, es, refl, refl, tt))
          λ _.
            let (quiet, asks) = watch_quiet find es in
            let (x, ran, answered) =
              poll_loop-Done table os_pollin (some t) before r after (watch find es) quiet
                (ground arith) in
            rw ran (answer_of-Polled es (watch find es) x asks answered)
