-- ===== src/Async/Queue/Order.antt =====
-- headers/sppc/async/sched.h: the run queue as a list, at its two ends.
use sppc.Common.{
  ℕ, ◌≡◌, ap, sym, subst, ◌∙◌, true, false, none, some, List, [], ◌∷◌, ◌++◌, arith, ◌==◌,
  if◌then◌else◌,
}
use sppc.Async.{Runtime}
use sppc.Async.Chain.{
  has, IsDistinct, last?, Chain, Chain-frame, Chain-snoc, has-last, last?-snoc, last?-cons,
  IsDistinct-snoc,
}
use sppc.Async.Queue.{tail_after, rq_push, rq_pop}

-- The run queue of `r` holds the tasks `xs`, the next to run first.
pub record IsQueue (r : Runtime) (xs : List ℕ) : Type 0 where
  pub chain : Chain r.task r.rq_head xs
  pub tail : r.rq_tail ≡ last? xs
  pub distinct : IsDistinct xs

rq_push-tail : (t : ℕ) (r : Runtime) → (rq_push t r).rq_tail ≡ some t
unfolding rq_push
rq_push-tail t r = ground arith

module _ (t l : ℕ) (r : Runtime) (e : r.rq_tail ≡ some l) where
  rq_push-head : (rq_push t r).rq_head ≡ r.rq_head
  unfolding rq_push
  rq_push-head = ground arith

  rq_push-next :
      (y : ℕ)
      → ((rq_push t r).task y).next
        ≡ (if y == l then some t else if y == t then none else (r.task y).next)
  unfolding rq_push
  rq_push-next y = ground arith

rq_push-Chain :
    (t : ℕ) (r : Runtime) (xs : List ℕ)
    → IsQueue r xs
    → has t xs ≡ false
    → Chain (rq_push t r).task (rq_push t r).rq_head (xs ++ t ∷ [])
unfolding rq_push
rq_push-Chain t r [] q h = let e : r.rq_tail ≡ none = q.tail in (ground arith, ground arith)
rq_push-Chain t r (x ∷ xs) q h =
    let (l, end) = last?-cons x xs in
    let e : r.rq_tail ≡ some l = q.tail ∙ end in
    let member : has l (x ∷ xs) ≡ true = has-last (x ∷ xs) l end in
    subst (λ p. Chain (rq_push t r).task p (x ∷ xs ++ t ∷ [])) (sym (rq_push-head t l r e))
      (Chain-snoc r.task (rq_push t r).task r.rq_head x xs l t end q.chain q.distinct
        (λ y m n. ground (arith, rq_push-next t l r e y, h))
        (ground (arith, rq_push-next t l r e l)) (ground (arith, rq_push-next t l r e t)))

-- A task that is not on the queue `xs` and is pushed stands behind all of it: the queue is then
-- `xs` followed by the task, head and tail pointers included.
pub rq_push-IsQueue :
    (t : ℕ) (r : Runtime) (xs : List ℕ)
    → IsQueue r xs
    → has t xs ≡ false
    → IsQueue (rq_push t r) (xs ++ t ∷ [])
rq_push-IsQueue t r xs q h = record {
  chain = rq_push-Chain t r xs q h;
  tail = rq_push-tail t r ∙ sym (last?-snoc xs t);
  distinct = IsDistinct-snoc xs t q.distinct h;
}

tail_after_chain :
    (r : Runtime) (x : ℕ) (xs : List ℕ)
    → IsQueue r (x ∷ xs)
    → tail_after (r.task x).next r.rq_tail ≡ last? xs
tail_after_chain r x [] q = ap (λ n. tail_after n r.rq_tail) q.chain.1
tail_after_chain r x (y ∷ xs) q = ap (λ n. tail_after n r.rq_tail) q.chain.1.0 ∙ q.tail

module _ (r : Runtime) (x : ℕ) (e : r.rq_head ≡ some x) where
  rq_pop-head : ((rq_pop r).0 ≡ some x) × ((rq_pop r).1.rq_head ≡ (r.task x).next)
  unfolding rq_pop
  rq_pop-head = ground arith

  rq_pop-tail : (rq_pop r).1.rq_tail ≡ tail_after (r.task x).next r.rq_tail
  unfolding rq_pop
  rq_pop-tail = ground arith

  rq_pop-next : (y : ℕ) → ((rq_pop r).1.task y).next ≡ (if y == x then none else (r.task y).next)
  unfolding rq_pop
  rq_pop-next y = ground arith

-- On a queue that holds `x` first and `xs` behind it, a pop gives `x` and leaves the queue `xs`.
pub rq_pop-cons :
    (r : Runtime) (x : ℕ) (xs : List ℕ)
    → IsQueue r (x ∷ xs)
    → ((rq_pop r).0 ≡ some x) × IsQueue (rq_pop r).1 xs
rq_pop-cons r x xs q =
    let e = q.chain.0 in
    (
      (rq_pop-head r x e).0,
      record {
        chain =
            subst (λ p. Chain (rq_pop r).1.task p xs) (sym (rq_pop-head r x e).1)
              (Chain-frame r.task (rq_pop r).1.task (r.task x).next xs
                (λ y m. ground (arith, rq_pop-next r x e y, q.distinct.0)) q.chain.1);
        tail = rq_pop-tail r x e ∙ tail_after_chain r x xs q;
        distinct = q.distinct.1;
      },
    )

-- The queue is read from these parts of the runtime.
pub IsQueue-frame :
    (r s : Runtime) (xs : List ℕ)
    → s.rq_head ≡ r.rq_head
    → s.rq_tail ≡ r.rq_tail
    → ((y : ℕ) → (s.task y).next ≡ (r.task y).next)
    → IsQueue r xs
    → IsQueue s xs
IsQueue-frame r s xs head tail same q = record {
  chain =
      subst (λ p. Chain s.task p xs) (sym head)
        (Chain-frame r.task s.task r.rq_head xs (λ y m. same y) q.chain);
  tail = tail ∙ q.tail;
  distinct = q.distinct;
}

pub rq_push-current : (t : ℕ) (r : Runtime) → (rq_push t r).current ≡ r.current
unfolding rq_push
rq_push-current t r = ground arith

pub rq_pop-current : (r : Runtime) → (rq_pop r).1.current ≡ r.current
unfolding rq_pop
rq_pop-current r = ground arith
