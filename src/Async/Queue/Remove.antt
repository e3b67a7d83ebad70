-- ===== src/Async/Queue/Remove.antt =====
-- headers/sppc/async/sched.h: `_gt_rq_remove` on the run queue as a list.
use mathlib.Core.List.{append-nil, append_assoc}
use sppc.Common.{
  ℕ, zero, suc, ◌<◌, ◌≡◌, refl, ap, sym, ◌∙◌, subst, Bool, true, false, Option, none, some, List,
  [], ◌∷◌, ◌++◌, arith, ◌==◌, if◌then◌else◌, Bool-cases, inl, inr, length,
}
use sppc.Async.{Task, Runtime}
use sppc.Async.Chain.{
  has, IsDistinct, last?, Chain, Chain-frame, has-append, distinct-behind, last?-snoc, last?-cons,
  has-last,
}
use sppc.Async.Queue.{is_at, unlink, remove_loop, rq_remove}
use sppc.Async.Queue.Order.{IsQueue}

abbrev pub erase : ℕ → List ℕ → List ℕ
erase t [] = []
erase t (x ∷ xs) = if x == t then xs else x ∷ erase t xs

IsDistinct-remove :
    (ys : List ℕ) (t : ℕ) (zs : List ℕ) → IsDistinct (ys ++ t ∷ zs) → IsDistinct (ys ++ zs)
IsDistinct-remove [] t zs d = d.1
IsDistinct-remove (y ∷ ys) t zs d = (
  ground (arith, has-append y ys zs, has-append y ys (t ∷ zs), d.0),
  IsDistinct-remove ys t zs d.1,
)

last?-append : (ys : List ℕ) (z : ℕ) (zs : List ℕ) → last? (ys ++ z ∷ zs) ≡ last? (z ∷ zs)
last?-append [] z zs = refl
last?-append (y ∷ []) z zs = refl
last?-append (y ∷ x ∷ ys) z zs = last?-append (x ∷ ys) z zs

-- Past the last member of `ys`, whose `next` becomes that of `t`, the chain goes on with `zs`.
Chain-unlink :
    (f g : ℕ → Task) (p : Option ℕ) (y : ℕ) (ys : List ℕ) (l t : ℕ) (zs : List ℕ)
    → last? (y ∷ ys) ≡ some l
    → Chain f p (y ∷ ys ++ t ∷ zs)
    → IsDistinct (y ∷ ys ++ t ∷ zs)
    → ((x : ℕ) → (x == l) ≡ false → (x == t) ≡ false → (g x).next ≡ (f x).next)
    → (g l).next ≡ (f t).next
    → Chain g p (y ∷ ys ++ zs)
Chain-unlink f g p y [] l t zs e c d same end =
    let here : y ≡ l = ground arith in
    (
      c.0,
      Chain-frame f g (g y).next zs (λ x m. same x (ground arith) (ground arith))
          (subst (λ q. Chain f q zs) (ground arith) c.1.1),
    )
Chain-unlink f g p y (x ∷ ys) l t zs e c d same end =
    let apart : (y == l) ≡ false =
      ground (arith, has-last (x ∷ ys) l e, d.0, has-append y (x ∷ ys) (t ∷ zs)) in
    let other : (y == t) ≡ false = ground (arith, d.0, has-append y (x ∷ ys) (t ∷ zs)) in
    (
      c.0,
      Chain-unlink f g (g y).next x ys l t zs e
          (subst (λ q. Chain f q (x ∷ ys ++ t ∷ zs)) (sym (same y apart other)) c.1) d.1 same end,
    )

distinct-apart :
    (ys : List ℕ) (t : ℕ) (zs : List ℕ)
    → IsDistinct (ys ++ t ∷ zs)
    → (l : ℕ) → has l ys ≡ true
    → (l == t) ≡ false
distinct-apart [] t zs d l m = cc
distinct-apart (y ∷ ys) t zs d l m = elim (Bool-cases (l == y)) [
  | inl e ↦ ground (arith, d.0, has-append y ys (t ∷ zs))
  | inr e ↦ distinct-apart ys t zs d.1 l (rw e at m)
]

module _ (prev : Option ℕ) (t : ℕ) (r : Runtime) where
  tail-unlink : (unlink prev t r).rq_tail ≡ (if is_at r.rq_tail t then prev else r.rq_tail)
  unfolding unlink
  tail-unlink = ground arith

  head-unlink : (l : ℕ) → prev ≡ some l → (unlink prev t r).rq_head ≡ r.rq_head
  unfolding unlink
  head-unlink l e = ground arith

  next-unlink :
      (l : ℕ)
      → prev ≡ some l
      → (y : ℕ)
      → ((unlink prev t r).task y).next
        ≡ (if y == t then none else if y == l then (r.task t).next else (r.task y).next)
  unfolding unlink
  next-unlink l e y = ground arith

unlink-tail :
    (ys : List ℕ) (t : ℕ) (zs : List ℕ) (r : Runtime)
    → IsQueue r (ys ++ t ∷ zs)
    → (unlink (last? ys) t r).rq_tail ≡ last? (ys ++ zs)
unlink-tail ys t [] r q =
    let e : r.rq_tail ≡ some t = q.tail ∙ last?-snoc ys t in
    let n : ys ++ [] ≡ ys = append-nil ys in ground (arith, tail-unlink (last? ys) t r, ap last? n)
unlink-tail ys t (z ∷ zs) r q =
    let (m, end) = last?-cons z zs in
    let e : r.rq_tail ≡ some m = q.tail ∙ last?-append ys t (z ∷ zs) ∙ end in
    let fresh : has t (z ∷ zs) ≡ false = distinct-behind ys t (z ∷ zs) q.distinct in
    let member : has m (z ∷ zs) ≡ true = has-last (z ∷ zs) m end in
    let apart : (m == t) ≡ false = ground arith in
    ground (arith, tail-unlink (last? ys) t r, last?-append ys z zs)

unlink-Chain :
    (ys : List ℕ) (t : ℕ) (zs : List ℕ) (r : Runtime)
    → IsQueue r (ys ++ t ∷ zs)
    → Chain (unlink (last? ys) t r).task (unlink (last? ys) t r).rq_head (ys ++ zs)
unfolding unlink
unlink-Chain [] t zs r q =
    Chain-frame r.task (unlink none t r).task (r.task t).next zs
      (λ x m. ground (arith, q.distinct.0)) q.chain.1
unlink-Chain (y ∷ ys) t zs r q =
    let (l, end) = last?-cons y ys in
    let apart : (l == t) ≡ false =
      distinct-apart (y ∷ ys) t zs q.distinct l (has-last (y ∷ ys) l end) in
    subst (λ p. Chain (unlink (last? (y ∷ ys)) t r).task p (y ∷ ys ++ zs))
      (sym (head-unlink (last? (y ∷ ys)) t r l end))
      (Chain-unlink r.task (unlink (last? (y ∷ ys)) t r).task r.rq_head y ys l t zs end q.chain
        q.distinct (λ x m n. next-unlink _ t r l end x ∙ ground arith)
        (next-unlink _ t r l end l ∙ ground arith))

unlink-IsQueue :
    (ys : List ℕ) (t : ℕ) (zs : List ℕ) (r : Runtime)
    → IsQueue r (ys ++ t ∷ zs)
    → IsQueue (unlink (last? ys) t r) (ys ++ zs)
unlink-IsQueue ys t zs r q = record {
  chain = unlink-Chain ys t zs r q;
  tail = unlink-tail ys t zs r q;
  distinct = IsDistinct-remove ys t zs q.distinct;
}

-- What the loop leaves, `ys` behind it and `xs` ahead.
abbrev Removed : ℕ → List ℕ → List ℕ → Option (Bool × Runtime) → Type 0
Removed t ys xs out = (r' : Runtime) × (out ≡ some (has t xs, r')) × IsQueue r' (ys ++ erase t xs)

remove_loop-Removed :
    (k t : ℕ) (ys xs : List ℕ) (r : Runtime) (cur : Option ℕ)
    → length xs < k
    → IsQueue r (ys ++ xs)
    → Chain r.task cur xs
    → Removed t ys xs (remove_loop k t (last? ys) cur r)
unfolding remove_loop
remove_loop-Removed zero t ys xs r cur h q c = absurd (omega arith)
remove_loop-Removed (suc k) t ys [] r cur h q c = (r, rw c, q)
remove_loop-Removed (suc k) t ys (x ∷ xs) r cur h q c =
    subst (λ p. Removed t ys (x ∷ xs) (remove_loop (suc k) t (last? ys) p r)) (sym c.0)
      (elim (Bool-cases (x == t)) [
        | inl e ↦ (unlink (last? ys) x r, ground arith, rw e (unlink-IsQueue ys x xs r q))
        | inr e ↦
            let (r', out, q') =
              remove_loop-Removed k t (ys ++ x ∷ []) xs r (r.task x).next (omega arith)
                (subst (IsQueue r) (sym (append_assoc ys (x ∷ []) xs)) q) c.1 in
            (
              r',
              ground (arith, out, last?-snoc ys x),
              rw e (subst (IsQueue r') (append_assoc ys (x ∷ []) (erase t xs)) q'),
            )
      ])

-- On a queue `xs`, with more rounds than it has members, `rq_remove` ends, tells whether the task
-- was on the queue, and leaves the queue less that task, in order.
pub rq_remove-erase :
    (rounds t : ℕ) (r : Runtime) (xs : List ℕ)
    → length xs < rounds
    → IsQueue r xs
    → (r' : Runtime) × (rq_remove rounds t r ≡ some (has t xs, r')) × IsQueue r' (erase t xs)
unfolding rq_remove
rq_remove-erase rounds t r xs h q = remove_loop-Removed rounds t [] xs r r.rq_head h q q.chain

unlink-current : (prev : Option ℕ) (t : ℕ) (r : Runtime) → (unlink prev t r).current ≡ r.current
unfolding unlink
unlink-current prev t r = ground arith

pair_parts :
    {b b' : Bool} {x x' : Runtime}
    → ◌≡◌ {A = Option (Bool × Runtime)} (some (b, x)) (some (b', x'))
    → (b ≡ b') × (x ≡ x')
pair_parts e = (cc, cc)

-- A removal that does not find the task changes nothing, and none changes the current task.
remove_loop-frame :
    (k t : ℕ) (prev cur : Option ℕ) (r : Runtime) (b : Bool) (r' : Runtime)
    → remove_loop k t prev cur r ≡ some (b, r')
    → (b ≡ false → r' ≡ r) × (r'.current ≡ r.current)
unfolding remove_loop
remove_loop-frame zero t prev cur r b r' e = cc
remove_loop-frame (suc k) t prev none r b r' e = (λ f. cc, cc)
remove_loop-frame (suc k) t prev (some cur) r b r' e = elim (Bool-cases (cur == t)) [
  | inl here ↦
      let (found, last) = pair_parts (rw here at e) in
      (λ f. cc, ap (λ s. s.current) (sym last) ∙ unlink-current prev cur r)
  | inr further ↦ remove_loop-frame k t (some cur) (r.task cur).next r b r' (rw further at e)
]

pub rq_remove-frame :
    (rounds t : ℕ) (r : Runtime) (b : Bool) (r' : Runtime)
    → rq_remove rounds t r ≡ some (b, r')
    → (b ≡ false → r' ≡ r) × (r'.current ≡ r.current)
unfolding rq_remove
rq_remove-frame rounds t r = remove_loop-frame rounds t none r.rq_head r

pub has-erase : (a t : ℕ) (xs : List ℕ) → has a xs ≡ false → has a (erase t xs) ≡ false
has-erase a t [] h = refl
has-erase a t (x ∷ xs) h = ground (arith, h, has-erase a t xs)
