-- ===== src/Report/Flush.antt =====
-- What `_sppc_bt_flush` gives the standard error.
use mathlib.Core.List.{append-nil, append_assoc}
use sppc.Common.{
  ℕ, zero, suc, ◌+◌, ◌≤◌, ◌<◌, inl, inr, some, List, [], ◌∷◌, ◌++◌, ◌≡◌, refl, ap, sym, ◌∙◌, arith,
  length, leb, take, drop, drop-drop, take-append-drop, Bytes, All, Bool-cases,
}
use sppc.Report.{Report, Wrote, flush_loop, flush}

-- A write that is to be tried again, or that took some bytes.
abbrev pub MovesOn : Wrote → Type 0
MovesOn (Wrote.took w) = 0 < w
MovesOn Wrote.interrupted = Unit
MovesOn Wrote.refused = ⊥

-- The bytes that the writes were ready to take.
abbrev pub total : List Wrote → ℕ
total [] = 0
total (Wrote.took w ∷ ws) = w + total ws
total (_ ∷ ws) = total ws

-- What the report is once it is flushed.
abbrev pub flushed : Report → Bytes → Report
flushed r rest = record { buf = []; err = r.err ++ rest }

drop-beyond : (n : ℕ) (xs : Bytes) → length xs ≤ n → drop n xs ≡ []
drop-beyond zero [] h = refl
drop-beyond zero (x ∷ xs) h = absurd (omega arith)
drop-beyond (suc n) [] h = refl
drop-beyond (suc n) (x ∷ xs) h = drop-beyond n xs (omega arith)

finished :
    (done : ℕ) (r : Report)
    → length r.buf ≤ done
    → some (record r { buf = [] }) ≡ some (flushed r (drop done r.buf))
finished done r h =
    ap (λ e. some (record r { buf = []; err = e }))
      (sym (append-nil r.err) ∙ ap (λ d. r.err ++ d) (sym (drop-beyond done r.buf h)))

flush_loop-delivers :
    (ws : List Wrote) (done : ℕ) (r : Report)
    → All MovesOn ws
    → length r.buf ≤ done + total ws
    → flush_loop ws done r ≡ some (flushed r (drop done r.buf))
unfolding flush_loop
flush_loop-delivers [] done r moves h = elim (Bool-cases (leb (length r.buf) done)) [
  | inl over ↦ rw over (finished done r (omega arith))
  | inr more ↦ absurd (ground (arith, more))
]
flush_loop-delivers (Wrote.refused ∷ ws) done r moves h = absurd moves.0
flush_loop-delivers (Wrote.took zero ∷ ws) done r moves h = absurd (omega (arith, moves.0))
flush_loop-delivers (Wrote.interrupted ∷ ws) done r moves h =
    elim (Bool-cases (leb (length r.buf) done)) [
      | inl over ↦ rw over (finished done r (ground (arith, over)))
      | inr more ↦ rw more (flush_loop-delivers ws done r moves.1 h)
    ]
flush_loop-delivers (Wrote.took (suc w) ∷ ws) done r moves h =
    elim (Bool-cases (leb (length r.buf) done)) [
      | inl over ↦ rw over (finished done r (ground (arith, over)))
      | inr more ↦ rw more (
          flush_loop-delivers ws (done + suc w)
            (record r { err = r.err ++ take (suc w) (drop done r.buf) }) moves.1 (omega (arith, h))
          ∙ ap (λ e. some (record r { buf = []; err = e })) whole)
    ]
  where
    whole :
        (r.err ++ take (suc w) (drop done r.buf)) ++ drop (done + suc w) r.buf
        ≡ r.err ++ drop done r.buf
    whole =
        append_assoc r.err (take (suc w) (drop done r.buf)) (drop (done + suc w) r.buf)
        ∙ ap (λ d. r.err ++ (take (suc w) (drop done r.buf) ++ d))
            (sym (drop-drop done (suc w) (done + suc w) r.buf refl))
        ∙ ap (λ d. r.err ++ d) (take-append-drop (suc w) (drop done r.buf))

-- With writes that take bytes or are interrupted, and take as many in all as the buffer has, the flush ends, the
-- standard error has had every byte of the buffer once and in order, and the buffer is empty.
pub flush-delivers :
    (ws : List Wrote) (r : Report)
    → All MovesOn ws
    → length r.buf ≤ total ws
    → flush ws r ≡ some (record { buf = []; err = r.err ++ r.buf })
unfolding flush
flush-delivers ws r moves h = flush_loop-delivers ws 0 r moves (omega arith)
