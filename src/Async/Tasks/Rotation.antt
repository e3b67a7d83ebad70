-- ===== src/Async/Tasks/Rotation.antt =====
-- A yield hands control to the task at the head of the run queue, and the caller joins its end.
use mathlib.Core.List.{append-nil, append_assoc}
use sppc.Common.{
  ℕ, ◌-◌, ◌≡◌, refl, ap, sym, ◌∙◌, subst, false, none, List, [], ◌∷◌, ◌++◌, arith, ◌==◌,
  if◌then◌else◌, Bool-cases, inl, inr,
}
use sppc.Async.{State, Runtime}
use sppc.Async.Chain.{has, IsDistinct, distinct-front}
use sppc.Async.Queue.{rq_push, rq_pop}
use sppc.Async.Queue.Order.{IsQueue, IsQueue-frame, rq_push-IsQueue, rq_pop-cons, rq_push-current}
use sppc.Async.Tasks.{switch_to, complete, poll, yield}

pub switch_to-IsQueue :
    (n : ℕ) (r : Runtime) (xs : List ℕ) → IsQueue r xs → IsQueue (switch_to n r) xs
unfolding switch_to
switch_to-IsQueue n r xs q =
    IsQueue-frame r (switch_to n r) xs (ground arith) (ground arith) (λ y. ground arith) q

pub switch_to-current : (n : ℕ) (r : Runtime) → (switch_to n r).current ≡ n
unfolding switch_to
switch_to-current n r = ground arith

switch_to-running : (n : ℕ) (r : Runtime) → ((switch_to n r).task n).state ≡ State.running
unfolding switch_to
switch_to-running n r = ground arith

-- The i/o backend finishes operations of tasks that are not on the queue: they join it in order.
complete-IsQueue :
    (ts : List ℕ) (r : Runtime) (xs : List ℕ)
    → IsDistinct (xs ++ ts)
    → IsQueue r xs
    → IsQueue (complete ts r) (xs ++ ts)
unfolding complete
complete-IsQueue [] r xs d q = subst (IsQueue r) (sym (append-nil xs)) q
complete-IsQueue (t ∷ ts) r xs d q =
    let p = rq_push t r in
    subst (IsQueue (complete (t ∷ ts) r)) (append_assoc xs (t ∷ []) ts) (
      complete-IsQueue ts (record p { inflight = p.inflight - 1 }) (xs ++ t ∷ [])
        (subst IsDistinct (sym (append_assoc xs (t ∷ []) ts)) d)
        (IsQueue-frame p (record p { inflight = p.inflight - 1 }) (xs ++ t ∷ []) refl refl
          (λ y. refl) (rq_push-IsQueue t r xs q (distinct-front xs t ts d))))

complete-current : (ts : List ℕ) (r : Runtime) → (complete ts r).current ≡ r.current
unfolding complete
complete-current [] r = refl
complete-current (t ∷ ts) r = complete-current ts _ ∙ rq_push-current t r

-- The tasks that a poll of the backend puts on the queue.
abbrev pub arrivals : List ℕ → Runtime → List ℕ
arrivals done r = if r.inflight == 0 then [] else done

poll-IsQueue :
    (done : List ℕ) (r : Runtime) (xs : List ℕ)
    → IsDistinct (xs ++ arrivals done r)
    → IsQueue r xs
    → IsQueue (poll done r) (xs ++ arrivals done r)
unfolding poll
poll-IsQueue done r xs d q = elim (Bool-cases (r.inflight == 0)) [
  | inl idle ↦ rw idle (subst (IsQueue r) (sym (append-nil xs)) q)
  | inr busy ↦ rw busy (complete-IsQueue done r xs (rw busy at d) q)
]

poll-current : (done : List ℕ) (r : Runtime) → (poll done r).current ≡ r.current
unfolding poll
poll-current done r = ground (arith, complete-current done r)

-- With the distinct tasks `n ∷ ns` ready once the backend has been polled, and the caller not among `ns`, a yield makes
-- `n` the running task and leaves `ns` with the caller behind.
pub yield-rotates :
    (done : List ℕ) (r : Runtime) (xs ns : List ℕ) (n : ℕ)
    → IsQueue r xs
    → IsDistinct (xs ++ arrivals done r)
    → xs ++ arrivals done r ≡ n ∷ ns
    → has r.current ns ≡ false
    → IsQueue (yield done r) (ns ++ r.current ∷ [])
      × ((yield done r).current ≡ n)
      × (((yield done r).task n).state ≡ State.running)
unfolding yield
yield-rotates done r xs ns n q d e h =
    let (first, rest) =
      rq_pop-cons (poll done r) n ns
        (subst (IsQueue (poll done r)) e (poll-IsQueue done r xs d q)) in
    let pushed = rq_push-IsQueue r.current (rq_pop (poll done r)).1 ns rest h in
    let ready = rq_push r.current (rq_pop (poll done r)).1 in
    rw (first, yield)
      (
        switch_to-IsQueue n ready (ns ++ r.current ∷ []) pushed,
        switch_to-current n ready,
        switch_to-running n ready,
      )

poll-idle : (done : List ℕ) (r : Runtime) → arrivals done r ≡ [] → poll done r ≡ r
unfolding poll complete
poll-idle [] r e = ground arith
poll-idle (t ∷ ts) r e = ground arith

rq_pop-none : (r : Runtime) → r.rq_head ≡ none → rq_pop r ≡ (none, r)
unfolding rq_pop
rq_pop-none r e = ground arith

-- With the queue empty and no task made ready by the poll, a yield changes nothing.
pub yield-alone :
    (done : List ℕ) (r : Runtime) → IsQueue r [] → arrivals done r ≡ [] → yield done r ≡ r
unfolding yield
yield-alone done r q e =
    let p : rq_pop (poll done r) ≡ (none, r) =
      ap rq_pop (poll-idle done r e) ∙ rq_pop-none r q.chain in
    ground (arith, p)
