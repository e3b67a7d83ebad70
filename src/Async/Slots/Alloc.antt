-- ===== src/Async/Slots/Alloc.antt =====
-- headers/sppc/async/sched.h: `_gt_slot_alloc` on the table of slots.
use sppc.Common.{
  ℕ, ◌+◌, ◌≤◌, ◌<◌, ◌^◌, ◌≡◌, ap, sym, ◌∙◌, subst, Bool, Option, none, some, arith, List, [], ◌∷◌,
  ◌==◌, if◌then◌else◌, inl, inr, if-either, Option-cases,
}
use sppc.Async.{Runtime}
use sppc.Async.Chain.{Chain, Chain-frame}
use sppc.Async.Slots.{slot_alloc, slot_append}
use sppc.Async.Slots.Table.{IsTable, FitsGen}

module _ (rk ck : Bool) (t : ℕ) (r : Runtime) (e : r.free_slots ≡ some t) where
  pub slot_alloc-free :
      ((slot_alloc rk ck r).0 ≡ some t)
      × ((slot_alloc rk ck r).1.free_slots ≡ (r.task t).next)
      × ((slot_alloc rk ck r).1.live ≡ r.live + 1)
      × ((slot_alloc rk ck r).1.nslots ≡ r.nslots)
      × ((slot_alloc rk ck r).1.cslots ≡ r.cslots)
  unfolding slot_alloc
  slot_alloc-free = (ground arith, ground arith, ground arith, ground arith, ground arith)

  slot_alloc-free_task :
      (y : ℕ)
      → ((((slot_alloc rk ck r).1.task y).next ≡ (if y == t then none else (r.task y).next))
          × (((slot_alloc rk ck r).1.task y).gen ≡ (
              if y == t
              then if (r.task t).gen == 0 then 1 else (r.task t).gen
              else (r.task y).gen)))
  unfolding slot_alloc
  slot_alloc-free_task y = (ground arith, ground arith)

module _ (rk ck : Bool) (r : Runtime) (e : r.free_slots ≡ none) where
  slot_alloc-refused :
      (slot_alloc rk ck r).0 ≡ none
      → ((slot_alloc rk ck r).1.free_slots ≡ none)
        × ((slot_alloc rk ck r).1.live ≡ r.live)
        × ((slot_alloc rk ck r).1.nslots ≡ r.nslots)
  unfolding slot_alloc slot_append
  slot_alloc-refused o = (ground arith, ground arith, ground arith)

  slot_alloc-refused_gen :
      (slot_alloc rk ck r).0 ≡ none → (y : ℕ) → ((slot_alloc rk ck r).1.task y).gen ≡ (r.task y).gen
  unfolding slot_alloc slot_append
  slot_alloc-refused_gen o y = ground arith

  slot_alloc-appended :
      (t : ℕ)
      → (slot_alloc rk ck r).0 ≡ some t
      → (t ≡ r.nslots)
        × ((slot_alloc rk ck r).1.free_slots ≡ none)
        × ((slot_alloc rk ck r).1.live ≡ r.live + 1)
        × ((slot_alloc rk ck r).1.nslots ≡ r.nslots + 1)
  unfolding slot_alloc slot_append
  slot_alloc-appended t o = (ground arith, ground arith, ground arith, ground arith)

  slot_alloc-appended_gen :
      (t y : ℕ)
      → (slot_alloc rk ck r).0 ≡ some t
      → ((slot_alloc rk ck r).1.task y).gen ≡ (if y == r.nslots then 1 else (r.task y).gen)
  unfolding slot_alloc slot_append
  slot_alloc-appended_gen t y o = ground arith

  slot_alloc-room :
      r.nslots ≤ r.cslots
      → r.cslots < 2 ^ 20
      → ((slot_alloc rk ck r).1.nslots ≤ (slot_alloc rk ck r).1.cslots)
        × ((slot_alloc rk ck r).1.cslots < 2 ^ 20)
  unfolding slot_alloc slot_append
  slot_alloc-room h k = (ground arith, ground arith)

-- What an allocation does to the free slots `fs`: it takes the first; with none free it takes the
-- slot behind the end of the table, or fails.
pub data Allocation (r : Runtime) : Option ℕ → List ℕ → List ℕ → Type 0 where
  first : (t : ℕ) (fs : List ℕ) → Allocation r (some t) (t ∷ fs) fs
  append : Allocation r (some r.nslots) [] []
  fails : Allocation r none [] []

FitsGen-first : (g : ℕ) → FitsGen g → FitsGen (if g == 0 then 1 else g)
FitsGen-first g h = (ground arith, ground arith)

allocate-first :
    (rk ck : Bool) (r : Runtime) (t : ℕ) (fs : List ℕ)
    → IsTable r (t ∷ fs)
    → IsTable (slot_alloc rk ck r).1 fs
allocate-first rk ck r t fs i =
    let s = (slot_alloc rk ck r).1 in
    let e = i.chain.0 in
    let n = slot_alloc-free rk ck t r e in
    let same = slot_alloc-free_task rk ck t r e in
    record {
      chain =
          subst (λ p. Chain s.task p fs) (sym n.1)
            (Chain-frame r.task s.task (r.task t).next fs
              (λ y m. ground (arith, (same y).0, i.distinct.0)) i.chain.1);
      distinct = i.distinct.1;
      inside = λ y m. omega (arith, i.inside y (ground arith), n.3);
      count = omega (arith, i.count, n.2, n.3);
      room = omega (arith, i.room, n.3, n.4);
      bound = omega (arith, i.bound, n.4);
      gens = λ y h. subst FitsGen (sym (same y).1) (
          if-either FitsGen (y == t) (if (r.task t).gen == 0 then 1 else (r.task t).gen)
            (r.task y).gen
            (λ e. FitsGen-first (r.task t).gen (i.gens t (i.inside t (ground arith))))
            (λ e. i.gens y (omega (arith, h, n.3))));
    }

allocate-none :
    (rk ck : Bool) (r : Runtime)
    → IsTable r []
    → (slot_alloc rk ck r).0 ≡ none
    → IsTable (slot_alloc rk ck r).1 []
allocate-none rk ck r i o =
    let n = slot_alloc-refused rk ck r i.chain o in
    let room = slot_alloc-room rk ck r i.chain i.room i.bound in
    record {
      chain = n.0;
      distinct = tt;
      inside = λ y m. cc;
      count = omega (arith, i.count, n.1, n.2);
      room = room.0;
      bound = room.1;
      gens = λ y h.
          subst FitsGen (sym (slot_alloc-refused_gen rk ck r i.chain o y))
            (i.gens y (omega (arith, h, n.2)));
    }

allocate-append :
    (rk ck : Bool) (r : Runtime) (t : ℕ)
    → IsTable r []
    → (slot_alloc rk ck r).0 ≡ some t
    → IsTable (slot_alloc rk ck r).1 []
allocate-append rk ck r t i o =
    let n = slot_alloc-appended rk ck r i.chain t o in
    let room = slot_alloc-room rk ck r i.chain i.room i.bound in
    record {
      chain = n.1;
      distinct = tt;
      inside = λ y m. cc;
      count = omega (arith, i.count, n.2, n.3);
      room = room.0;
      bound = room.1;
      gens = λ y h. subst FitsGen (sym (slot_alloc-appended_gen rk ck r i.chain t y o)) (
          if-either FitsGen (y == r.nslots) 1 (r.task y).gen (λ e. (omega arith, omega arith))
            (λ e. i.gens y (ground (arith, h, n.3))));
    }

-- Allocating on a well-formed table with the free slots `fs`, whatever memory the system has: the
-- table is well formed after it, with the free slots and the result that `Allocation` allows: the
-- first free slot and the rest of `fs`; only with none free, the slot at the end of the table or a
-- failure. The capacity stays below 2^20, so every index fits a handle.
pub slot_alloc-IsTable :
    (rk ck : Bool) (r : Runtime) (fs : List ℕ)
    → IsTable r fs
    → (gs : List ℕ) × Allocation r (slot_alloc rk ck r).0 fs gs × IsTable (slot_alloc rk ck r).1 gs
slot_alloc-IsTable rk ck r [] i = elim (Option-cases (slot_alloc rk ck r).0) [
  | inl o ↦
      ([], subst (λ a. Allocation r a [] []) (sym o) Allocation.fails, allocate-none rk ck r i o)
  | inr (t, o) ↦
      let place = o ∙ ap some (slot_alloc-appended rk ck r i.chain t o).0 in
      (
        [],
        subst (λ a. Allocation r a [] []) (sym place) Allocation.append,
        allocate-append rk ck r t i o,
      )
]
slot_alloc-IsTable rk ck r (t ∷ fs) i = (
  fs,
  subst (λ a. Allocation r a (t ∷ fs) fs) (sym (slot_alloc-free rk ck t r i.chain.0).0)
      (Allocation.first t fs),
  allocate-first rk ck r t fs i,
)
