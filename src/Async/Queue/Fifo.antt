-- ===== src/Async/Queue/Fifo.antt =====
-- The run queue under any sequence of its calls, against a first-in first-out list.
use mathlib.Core.Path.{ap₂}
use sppc.Common.{
  ℕ, arith, ◌≡◌, refl, ap, sym, subst, false, Option, none, some, List, [], ◌∷◌, ◌++◌,
}
use sppc.Async.{Runtime}
use sppc.Async.Chain.{has}
use sppc.Async.Queue.{rq_push, rq_pop}
use sppc.Async.Queue.Order.{IsQueue, rq_push-IsQueue, rq_pop-cons}

-- The calls on the run queue.
pub data Op : Type 0 where
  push : ℕ → Op
  pop : Op

-- The first-in first-out list.
abbrev pub first : List ℕ → Option ℕ
first [] = none
first (x ∷ xs) = some x

abbrev pub rest : List ℕ → List ℕ
rest [] = []
rest (x ∷ xs) = xs

-- What the pops among the calls answer, and the list after all of them.
abbrev pub run_list : List Op → List ℕ → List (Option ℕ) × List ℕ
run_list [] xs = ([], xs)
run_list (Op.push t ∷ ops) xs = run_list ops (xs ++ t ∷ [])
run_list (Op.pop ∷ ops) xs = let (outs, end) = run_list ops (rest xs) in (first xs ∷ outs, end)

-- The same of the runtime.
abbrev pub run : List Op → Runtime → List (Option ℕ) × Runtime
run [] r = ([], r)
run (Op.push t ∷ ops) r = run ops (rq_push t r)
run (Op.pop ∷ ops) r = let (outs, end) = run ops (rq_pop r).1 in ((rq_pop r).0 ∷ outs, end)

-- Every task that is pushed is off the queue at the time.
abbrev pub IsFresh : List Op → List ℕ → Type 0
IsFresh [] xs = Unit
IsFresh (Op.push t ∷ ops) xs = (has t xs ≡ false) × IsFresh ops (xs ++ t ∷ [])
IsFresh (Op.pop ∷ ops) xs = IsFresh ops (rest xs)

rq_pop-nobody : (r : Runtime) → r.rq_head ≡ none → rq_pop r ≡ (none, r)
unfolding rq_pop
rq_pop-nobody r e = ground (arith, e)

rq_pop-first :
    (r : Runtime) (xs : List ℕ)
    → IsQueue r xs
    → ((rq_pop r).0 ≡ first xs) × IsQueue (rq_pop r).1 (rest xs)
rq_pop-first r [] q =
    let e = rq_pop-nobody r q.chain in (ap (λ x. x.0) e, subst (λ x. IsQueue x.1 []) (sym e) q)
rq_pop-first r (x ∷ xs) q = rq_pop-cons r x xs q

-- Any sequence of pushes and pops on the run queue, each push of a task that is off it, answers as the first-in
-- first-out list does, and leaves the queue that the list has become.
pub run-refines_list :
    (ops : List Op) (r : Runtime) (xs : List ℕ)
    → IsQueue r xs
    → IsFresh ops xs
    → ((run ops r).0 ≡ (run_list ops xs).0) × IsQueue (run ops r).1 (run_list ops xs).1
run-refines_list [] r xs q fresh = (refl, q)
run-refines_list (Op.push t ∷ ops) r xs q fresh =
    run-refines_list ops (rq_push t r) (xs ++ t ∷ []) (rq_push-IsQueue t r xs q fresh.0) fresh.1
run-refines_list (Op.pop ∷ ops) r xs q fresh =
    let (out, left) = rq_pop-first r xs q in
    let (outs, end) = run-refines_list ops (rq_pop r).1 (rest xs) left fresh in
    (ap₂ ◌∷◌ out outs, end)
