-- ===== src/Async/Idle/Picks.antt =====
-- `_gt_pick` ends, and finds nothing only at a deadlock.
use sppc.Common.{
  ℕ, ◌≡◌, ◌≢◌, refl, ap, sym, ◌∙◌, Option, none, some, List, [], ◌∷◌, ◌==◌, arith, if◌then◌else◌,
  Bool-cases, Option-cases, inl, inr, ◌↔◌, ◌⊎◌, ◌>>=◌,
}
use sppc.Async.{State, Runtime, set_task}
use sppc.Async.Queue.{rq_push, rq_pop}
use sppc.Async.Tasks.{complete, poll, switch_to}
use sppc.Async.Idle.{Polls, pick, Blocked, block, pick_popped}

-- A queue with no head has no tail.
abbrev pub IsEnded : Runtime → Type 0
IsEnded r = r.rq_head ≡ none → r.rq_tail ≡ none

-- Nothing is ready, and no operation is outstanding.
abbrev pub IsDead : Runtime → Type 0
IsDead r = (r.rq_head ≡ none) × (r.inflight ≡ 0)

rq_push-head_some : (t : ℕ) (r : Runtime) → IsEnded r → (rq_push t r).rq_head ≢ none
unfolding rq_push
rq_push-head_some t r h e = elim (Option-cases r.rq_tail) [
  | inl nobody ↦ ground (arith, e, nobody)
  | inr (l, last) ↦ ground (arith, e, last, h)
]

complete-head_some :
    (t : ℕ) (ts : List ℕ) (r : Runtime) → IsEnded r → (complete (t ∷ ts) r).rq_head ≢ none
unfolding complete
complete-head_some t [] r h = rq_push-head_some t r h
complete-head_some t (u ∷ ts) r h =
    complete-head_some u ts _ (λ e. absurd (rq_push-head_some t r h e))

-- A poll that leaves nothing ready changed nothing.
poll-nothing :
    (now : List ℕ) (r : Runtime) → IsEnded r → (poll now r).rq_head ≡ none → poll now r ≡ r
unfolding poll complete
poll-nothing [] r h e = ground arith
poll-nothing (t ∷ ts) r h e = elim (Bool-cases (r.inflight == 0)) [
  | inl idle ↦ rw idle refl
  | inr busy ↦ absurd (complete-head_some t ts r h (rw busy at e))
]

rq_pop-head_none : (r : Runtime) → r.rq_head ≡ none → rq_pop r ≡ (none, r)
unfolding rq_pop
rq_pop-head_none r e = ground (arith, e)

rq_pop-head_some : (t : ℕ) (r : Runtime) → r.rq_head ≡ some t → (rq_pop r).0 ≡ some t
unfolding rq_pop
rq_pop-head_some t r e = ground (arith, e)

module _ (p : Polls) (ps : List Polls) (r : Runtime) where
  pick-ready :
      (t : ℕ)
      → (poll p.now r).rq_head ≡ some t
      → pick (p ∷ ps) r ≡ some (some t, (rq_pop (poll p.now r)).1)
  unfolding pick pick_popped
  pick-ready t e =
      let popped : rq_pop (poll p.now r) ≡ (some t, (rq_pop (poll p.now r)).1) =
        λ i. (rq_pop-head_some t (poll p.now r) e i, (rq_pop (poll p.now r)).1) in
      ap (λ x. pick_popped x (λ q. pick ps (complete p.later q))) popped

  pick-idle :
      IsEnded r
      → (poll p.now r).rq_head ≡ none
      → pick (p ∷ ps) r ≡ (if r.inflight == 0 then some (none, r) else pick ps (complete p.later r))
  unfolding pick pick_popped
  pick-idle h e =
      let same = poll-nothing p.now r h e in
      let popped : rq_pop (poll p.now r) ≡ (none, r) =
        ap rq_pop same ∙ rq_pop-head_none r (ap (λ s. s.rq_head) (sym same) ∙ e) in
      ap (λ x. pick_popped x (λ q. pick ps (complete p.later q))) popped

  -- What is dead stays dead through a poll.
  poll-IsDead : IsDead r → poll p.now r ≡ r
  unfolding poll
  poll-IsDead (e, z) = rw (z, poll) refl

-- What one round gives: a task where one is ready, nothing at a deadlock, and otherwise what the next round gives.
abbrev Round : Polls → List Polls → Runtime → Option (Option ℕ × Runtime) → Type 0
Round p ps r found =
    ((t : ℕ) × (q : Runtime) × (found ≡ some (some t, q)) × (IsDead r → ⊥))
    ⊎ ((found ≡ some (none, r)) × IsDead r)
    ⊎ ((found ≡ pick ps (complete p.later r)) × (r.rq_head ≡ none) × (IsDead r → ⊥))

pick-Round :
    (p : Polls) (ps : List Polls) (r : Runtime) → IsEnded r → Round p ps r (pick (p ∷ ps) r)
pick-Round p ps r h = elim (Option-cases (poll p.now r).rq_head) [
  | inr (t, e) ↦ inl (
    t,
    (rq_pop (poll p.now r)).1,
    pick-ready p ps r t e,
    λ dead. some_none t (sym e ∙ ap (λ s. s.rq_head) (poll-IsDead p ps r dead) ∙ dead.0),
  )
  | inl e ↦
      let here : r.rq_head ≡ none = ap (λ s. s.rq_head) (sym (poll-nothing p.now r h e)) ∙ e in
      let round = pick-idle p ps r h e in
      elim (Bool-cases (r.inflight == 0)) [
        | inl z ↦ inr (inl (rw z at round, (here, ground (arith, z))))
        | inr m ↦ inr (inr (rw m at round, here, λ dead. ground (arith, m, dead.1)))
      ]
]
  where
    some_none : (t : ℕ) → some t ≡ none → ⊥
    some_none t e = cc

-- With the wait of the first round bringing at least one completion, two rounds of `_gt_pick` are enough: it gives a
-- task, or none exactly where the queue is empty and no operation is outstanding.
pub pick-ends :
    (p p' : Polls) (ps : List Polls) (r : Runtime)
    → IsEnded r
    → p.later ≢ []
    → (o : Option ℕ) × (q : Runtime) × (pick (p ∷ p' ∷ ps) r ≡ some (o, q))
      × ((o ≡ none) ↔ IsDead r)
pick-ends p p' ps r h more = elim (pick-Round p (p' ∷ ps) r h) [
  | inl (t, q, e, alive) ↦ (some t, q, e, (λ n. cc, λ d. absurd (alive d)))
  | inr (inl (e, dead)) ↦ (none, r, e, (λ n. dead, λ d. refl))
  | inr (inr (e, here, alive)) ↦
      let next = complete p.later r in
      let filled : next.rq_head ≢ none = waited p.later more in
      elim (pick-Round p' ps next (λ n. absurd (filled n))) [
        | inl (t, q, e', _) ↦ (some t, q, e ∙ e', (λ n. cc, λ d. absurd (alive d)))
        | inr (inl (_, dead)) ↦ absurd (filled dead.0)
        | inr (inr (_, empty, _)) ↦ absurd (filled empty)
      ]
]
  where
    waited : (ts : List ℕ) → ts ≢ [] → (complete ts r).rq_head ≢ none
    waited [] n = absurd (n refl)
    waited (t ∷ ts) n = complete-head_some t ts r h

-- On a thread whose run queue has no tail when it has no head, where the wait of the first round brings at least one
-- completion, two rounds of `_gt_pick` are enough for a task that blocks: the process ends with the deadlock of that
-- task exactly where the queue is empty and no operation is outstanding, as it stands when the task blocks, and
-- otherwise the thread switches to a task, which may be the same one.
pub block-deadlock :
    (state : State) (p p' : Polls) (ps : List Polls) (r : Runtime)
    → IsEnded r
    → p.later ≢ []
    → ((block state (p ∷ p' ∷ ps) r ≡ some (Blocked.deadlock r.current)) × IsDead r)
      ⊎ ((t : ℕ) × (q : Runtime) × (block state (p ∷ p' ∷ ps) r
            ≡ some (Blocked.switched (switch_to t q)))
          × (IsDead r → ⊥))
unfolding block
block-deadlock state p p' ps r h more =
    let parked = set_task r r.current (record (r.task r.current) { state = state }) in
    let (o, q, e, dead) = pick-ends p p' ps parked h more in by_pick o q e dead
  where
    parked : Runtime
    parked = set_task r r.current (record (r.task r.current) { state = state })

    answer : Option (Option ℕ × Runtime) → Option Blocked
    answer o = o >>= λ x. some (elim x.0 [
      | none ↦ Blocked.deadlock r.current
      | some t ↦ Blocked.switched (switch_to t x.1)
    ])

    by_pick :
        (o : Option ℕ) (q : Runtime)
        → pick (p ∷ p' ∷ ps) parked ≡ some (o, q)
        → ((o ≡ none) ↔ IsDead r)
        → ((block state (p ∷ p' ∷ ps) r ≡ some (Blocked.deadlock r.current)) × IsDead r)
          ⊎ ((t : ℕ) × (s : Runtime) × (block state (p ∷ p' ∷ ps) r
                ≡ some (Blocked.switched (switch_to t s)))
              × (IsDead r → ⊥))
    by_pick none q e dead = inl (ap answer e, dead.0 refl)
    by_pick (some t) q e dead = inr (t, q, ap answer e, λ d. cc)
