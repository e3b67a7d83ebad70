-- ===== src/Async/Handle/Fresh.antt =====
-- headers/sppc/async/sched.h, `_gt_resolve`: the handles of tasks that are there.
use Prim.Native.Nat.{bit_or}
use mathlib.Core.Path.{ap₂}
use sppc.Common.{
  ℕ, ◌+◌, ◌*◌, ◌/◌, ◌%◌, ◌^◌, ◌≤◌, ◌<◌, ◌≡◌, refl, ap, sym, ◌∙◌, ◌↔◌, false, some, arith,
}
use sppc.Common.Bits.{bit_and-low_mask, bit_or-fields}
use sppc.Async.{Runtime}
use sppc.Async.Handle.{is_free, handle, resolve_at, resolve}

-- A slot in use: within the table, its generation of 11 bits and not 0, and its task not retired.
pub record IsLive (r : Runtime) (t : ℕ) : Type 0 where
  pub index : t < r.nslots
  pub table : r.nslots ≤ 2 ^ 20
  pub gen_pos : 0 < (r.task t).gen
  pub gen_small : (r.task t).gen < 2 ^ 11
  pub used : is_free (r.task t).state ≡ false

-- The packing as arithmetic.
pub handle_value :
    (t : ℕ) (r : Runtime)
    → t < 2 ^ 20
    → (r.task t).gen < 2 ^ 11
    → handle t r ≡ (r.task t).gen * 2 ^ 20 + t
unfolding handle
handle_value t r h g = ap (λ x. bit_or x t) (omega arith) ∙ bit_or-fields 20 (r.task t).gen t h

-- The unpacking as arithmetic.
pub resolve_value :
    (h : ℕ) (r : Runtime) → resolve h r ≡ resolve_at h (h % 2 ^ 20) (h / 2 ^ 20 % 2 ^ 11) r
unfolding resolve
resolve_value h r =
    ap₂ (λ i g. resolve_at h i g r) (bit_and-low_mask 20 h) (bit_and-low_mask 11 (h / 2 ^ 20))

module _ (h i g t : ℕ) (r : Runtime) where
  resolve_at-some :
      resolve_at h i g r ≡ some t
      → (i ≡ t)
        × (0 < h)
        × (h < 2 ^ 31)
        × (t < r.nslots)
        × ((r.task t).gen ≡ g)
        × (is_free (r.task t).state ≡ false)
  unfolding resolve_at
  resolve_at-some e = ground arith

  resolve_at-live :
      i ≡ t
      → 0 < h
      → h < 2 ^ 31
      → t < r.nslots
      → (r.task t).gen ≡ g
      → is_free (r.task t).state ≡ false
      → resolve_at h i g r ≡ some t
  unfolding resolve_at
  resolve_at-live e pos small index same used = ground arith

-- For a 32-bit pattern `h`, a table of at most 2^20 slots, and a slot `t` whose generation is not 0:
-- `h` resolves to `t` exactly when `t` is live and `h` is its handle.
pub resolve-iff_handle :
    (h t : ℕ) (r : Runtime)
    → h < 2 ^ 32
    → r.nslots ≤ 2 ^ 20
    → 0 < (r.task t).gen
    → (resolve h r ≡ some t) ↔ (IsLive r t × (handle t r ≡ h))
resolve-iff_handle h t r width table pos = (sound, complete)
  where
    sound : resolve h r ≡ some t → IsLive r t × (handle t r ≡ h)
    sound e =
        let f =
          resolve_at-some h (h % 2 ^ 20) (h / 2 ^ 20 % 2 ^ 11) t r (sym (resolve_value h r) ∙ e) in
        (
          record { index = f.3; table = table; gen_pos = pos; gen_small = omega arith; used = f.5 },
          handle_value t r (omega arith) (omega arith) ∙ omega arith,
        )

    complete : IsLive r t × (handle t r ≡ h) → resolve h r ≡ some t
    complete (l, e) =
        let v : h ≡ (r.task t).gen * 2 ^ 20 + t =
          sym e ∙ handle_value t r (omega (arith, l.index)) l.gen_small in
        resolve_value h r
        ∙ resolve_at-live h (h % 2 ^ 20) (h / 2 ^ 20 % 2 ^ 11) t r (omega arith) (omega arith)
            (omega arith) l.index (omega arith) l.used

-- The handle of a live task is a positive `int`, and resolves to that task.
pub resolve-handle :
    (t : ℕ) (r : Runtime)
    → IsLive r t
    → (0 < handle t r) × (handle t r < 2 ^ 31) × (resolve (handle t r) r ≡ some t)
resolve-handle t r l =
    let v = handle_value t r (omega (arith, l.index, l.table)) l.gen_small in
    (
      omega (arith, l.gen_pos),
      omega (arith, l.index, l.table, l.gen_small),
      (resolve-iff_handle (handle t r) t r (omega (arith, l.index, l.table, l.gen_small)) l.table
            l.gen_pos).1
          (l, refl),
    )
