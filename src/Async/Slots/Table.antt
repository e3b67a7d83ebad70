-- ===== src/Async/Slots/Table.antt =====
-- headers/sppc/async/sched.h: the table of slots, and `_gt_slot_free` on it.
use sppc.Common.{
  ℕ, ◌+◌, ◌-◌, ◌^◌, ◌≤◌, ◌<◌, ◌≡◌, refl, sym, subst, true, false, some, arith, List, ◌∷◌, ◌==◌,
  if◌then◌else◌, length, Bool-cases, inl, inr, ◌⊎◌, if-either,
}
use sppc.Common.Bits.{bit_and-low_mask}
use sppc.Async.{Runtime}
use sppc.Async.Chain.{has, IsDistinct, Chain, Chain-frame}
use sppc.Async.Slots.{slot_free, next_gen}

-- A generation that a handle can hold, and that leaves no handle 0.
abbrev pub FitsGen : ℕ → Type 0
FitsGen g = (0 < g) × (g < 2 ^ 11)

-- The free slots of `r` are `fs`, the next to be used first: each is a slot of the table, and all
-- others are alive. A handle can hold every index and every generation.
pub record IsTable (r : Runtime) (fs : List ℕ) : Type 0 where
  pub chain : Chain r.task r.free_slots fs
  pub distinct : IsDistinct fs
  pub inside : (y : ℕ) → has y fs ≡ true → y < r.nslots
  pub count : r.live + length fs ≡ r.nslots
  pub room : r.nslots ≤ r.cslots
  pub bound : r.cslots < 2 ^ 20
  pub gens : (y : ℕ) → y < r.nslots → FitsGen (r.task y).gen

pub next_gen-bounds : (g : ℕ) → FitsGen (next_gen g)
unfolding next_gen
next_gen-bounds g = let e = bit_and-low_mask 11 (g + 1) in (ground (arith, e), ground (arith, e))

slot_free-free_slots : (t : ℕ) (r : Runtime) → (slot_free t r).free_slots ≡ some t
unfolding slot_free
slot_free-free_slots t r = refl

slot_free-next :
    (t : ℕ) (r : Runtime) (y : ℕ)
    → ((slot_free t r).task y).next ≡ (if y == t then r.free_slots else (r.task y).next)
unfolding slot_free
slot_free-next t r y = ground arith

slot_free-gen :
    (t : ℕ) (r : Runtime) (y : ℕ)
    → ((slot_free t r).task y).gen ≡ (if y == t then next_gen (r.task t).gen else (r.task y).gen)
unfolding slot_free
slot_free-gen t r y = ground arith

slot_free-counts :
    (t : ℕ) (r : Runtime)
    → ((slot_free t r).live ≡ r.live - 1)
      × ((slot_free t r).nslots ≡ r.nslots)
      × ((slot_free t r).cslots ≡ r.cslots)
unfolding slot_free
slot_free-counts t r = (refl, refl, refl)

has-cons : (t y : ℕ) (fs : List ℕ) → has y (t ∷ fs) ≡ true → (y ≡ t) ⊎ (has y fs ≡ true)
has-cons t y fs m = elim (Bool-cases (y == t)) [
  | inl e ↦ inl (ground arith)
  | inr e ↦ inr (ground arith)
]

-- Freeing a slot `t` of the table that is alive, with the free slots `fs`: the free slots are then
-- `t ∷ fs`, and the table is well formed again.
pub slot_free-IsTable :
    (t : ℕ) (r : Runtime) (fs : List ℕ)
    → IsTable r fs
    → has t fs ≡ false
    → t < r.nslots
    → 0 < r.live
    → IsTable (slot_free t r) (t ∷ fs)
slot_free-IsTable t r fs i out below alive =
    let s = slot_free t r in
    let n = slot_free-counts t r in
    let head : (s.task t).next ≡ r.free_slots = ground (arith, slot_free-next t r t) in
    record {
      chain = (
        slot_free-free_slots t r,
        subst (λ p. Chain s.task p fs) (sym head)
            (Chain-frame r.task s.task r.free_slots fs
              (λ y m. ground (arith, slot_free-next t r y, out)) i.chain),
      );
      distinct = (out, i.distinct);
      inside = λ y m. elim (has-cons t y fs m) [
        | inl e ↦ omega (arith, e, n.1, below)
        | inr e ↦ omega (arith, i.inside y e, n.1)
      ];
      count = omega (arith, i.count, alive, n.0, n.1);
      room = omega (arith, i.room, n.1, n.2);
      bound = omega (arith, i.bound, n.2);
      gens = λ y h. subst FitsGen (sym (slot_free-gen t r y)) (
          if-either FitsGen (y == t) (next_gen (r.task t).gen) (r.task y).gen
            (λ e. next_gen-bounds (r.task t).gen) (λ e. i.gens y (omega (arith, h, n.1))));
    }
