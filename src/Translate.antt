-- ===== src/Translate.antt =====
-- headers/sppc/platform/shared.h: sppc's values and flags as the platform's, through tables of pairs.
-- An `int` is its 32-bit pattern. What the platform's constants are is for the caller's table.
pub mod Values
mod Examples
use Prim.Native.Nat.{bit_and, bit_or}
use sppc.Common.{
  ℕ, ◌-◌, ◌^◌, Bool, true, false, not, ◌&&◌, Option, none, some, List, [], ◌∷◌, ◌==◌, if◌then◌else◌,
}

-- `_sppc_pair`.
pub record Pair : Type 0 where
  pub sppc : ℕ
  pub os : ℕ

-- `_sppc_to_os_value`; `none` is SPPC_EINVAL.
unfoldable pub to_os_value : ℕ → List Pair → Option ℕ
to_os_value value [] = none
to_os_value value (p ∷ ps) =
    let rest = to_os_value value ps in if p.sppc == value then some p.os else rest

-- `_sppc_from_os_value`.
unfoldable pub from_os_value : ℕ → List Pair → ℕ → ℕ
from_os_value value [] fallback = fallback
from_os_value value (p ∷ ps) fallback =
    let rest = from_os_value value ps fallback in if p.os == value then p.sppc else rest

-- `flags & ~mask`.
abbrev pub without : ℕ → ℕ → ℕ
without flags mask = bit_and flags (2 ^ 32 - 1 - mask)

-- The loop of `_sppc_to_os_flags`: the flags that are left, and those of the platform.
unfoldable pub to_os_flags_loop : ℕ → ℕ → List Pair → ℕ × ℕ
to_os_flags_loop flags os [] = (flags, os)
to_os_flags_loop flags os (p ∷ ps) =
    let taken = to_os_flags_loop (without flags p.sppc) (bit_or os p.os) ps in
    let passed = to_os_flags_loop flags os ps in
    if flags == 0
    then (flags, os)
    else if not (p.sppc == 0) && (bit_and flags p.sppc == p.sppc)
    then taken
    else passed

-- `_sppc_to_os_flags`; `none` is SPPC_EINVAL.
unfoldable pub to_os_flags : ℕ → List Pair → Option ℕ
unfolding to_os_flags_loop
to_os_flags flags table =
    let (left, os) = to_os_flags_loop flags 0 table in if not (left == 0) then none else some os

-- `_sppc_from_os_flags`, with what it has found so far.
unfoldable pub from_os_flags_loop : ℕ → ℕ → List Pair → ℕ
from_os_flags_loop flags out [] = out
from_os_flags_loop flags out (p ∷ ps) =
    let taken = from_os_flags_loop (without flags p.os) (bit_or out p.sppc) ps in
    let passed = from_os_flags_loop flags out ps in
    if flags == 0
    then out
    else if not (p.os == 0) && (bit_and flags p.os == p.os)
    then taken
    else passed

-- `_sppc_from_os_flags`.
unfoldable pub from_os_flags : ℕ → List Pair → ℕ
unfolding from_os_flags_loop
from_os_flags flags table = from_os_flags_loop flags 0 table

-- `_sppc_table_is_identity`.
unfoldable pub table_is_identity : List Pair → Bool
table_is_identity [] = true
table_is_identity (p ∷ ps) = if not (p.sppc == p.os) then false else table_is_identity ps
