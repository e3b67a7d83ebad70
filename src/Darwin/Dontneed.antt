-- ===== src/Darwin/Dontneed.antt =====
-- headers/sppc/platform/darwin.h, MEMORY: Linux's MADV_DONTNEED on Darwin. What the kernel says of the
-- address space, in the first pass and in the second, and what its calls answer are arguments; the page
-- size is a power of two. The loops go on by at least a byte where each region is behind its start, and
-- run on as many rounds as there are bytes.
pub mod Fresh
pub mod Passes
mod Examples
use Prim.Native.Nat.{min}
use sppc.Common.{
  ℕ, zero, suc, ◌+◌, ◌-◌, ◌*◌, ◌/◌, ◌%◌, ◌^◌, Bool, true, false, not, ◌&&◌, ◌||◌, Option, none,
  some, List, [], ◌∷◌, ◌==◌, leb, ltb, if◌then◌else◌, ◌>>=◌,
}
use sppc.Errno.{eio, einval, enomem}

-- VM_INHERIT_SHARE, VM_INHERIT_COPY (the default) and VM_INHERIT_NONE.
pub data Inheritance : Type 0 where
  inherit_share inherit_copy inherit_none : Inheritance

-- SM_PRIVATE, SM_COW, SM_PRIVATE_ALIASED, SM_EMPTY, and the modes of memory that is shared.
pub data ShareMode : Type 0 where
  sm_private sm_cow sm_private_aliased sm_empty sm_shared : ShareMode

-- `vm_region_basic_info_64` with where the region starts; its size is the second query's.
pub record Basic : Type 0 where
  pub start : ℕ
  pub protection : ℕ
  pub max_protection : ℕ
  pub inheritance : Inheritance
  pub user_wired_count : ℕ

-- `vm_region_extended_info` with where the region is, by the second query.
pub record Extended : Type 0 where
  pub start : ℕ
  pub size : ℕ
  pub external_pager : Bool
  pub share_mode : ShareMode
  pub user_tag : ℕ

-- What `vm_region_64` answers for an address.
pub record Kernel : Type 0 where
  pub basic : ℕ → Option Basic
  pub extended : ℕ → Option Extended

-- `_sppc_dontneed_region`.
pub record Region : Type 0 where
  pub start : ℕ
  pub end : ℕ
  pub basic : Basic
  pub extended : Extended
  pub replace : Bool

abbrev pub is_share : Inheritance → Bool
is_share Inheritance.inherit_share = true
is_share _ = false

abbrev pub is_private : ShareMode → Bool
is_private ShareMode.sm_shared = false
is_private _ = true

unfoldable pub region_of : Basic → Extended → Region
region_of b x = record {
  start = b.start;
  end = b.start + x.size;
  basic = b;
  extended = x;
  replace = not (is_share b.inheritance) && not x.external_pager && is_private x.share_mode;
}

-- `_sppc_dontneed_region_at`; none for SPPC_ENOMEM.
unfoldable pub region_at : Kernel → ℕ → Option Region
unfolding region_of
region_at k at = k.basic at >>= λ b.
    if ltb at b.start
    then none
    else k.extended b.start >>= λ x. if not (x.start == b.start) then none else some (region_of b x)

abbrev pub is_executable : Basic → Bool
is_executable b = b.protection / 4 % 2 == 1

-- The first pass, from `at` to `end`: 0, or one of sppc's errors; none where the rounds run out.
unfoldable pub check_loop : ℕ → Kernel → ℕ → ℕ → Option ℕ
check_loop zero k at end = none
check_loop (suc n) k at end = elim (ltb at end) [
  | false ↦ some 0
  | true ↦ elim (region_at k at) [
    | none ↦ some enomem
    | some r ↦
        let rest = check_loop n k r.end end in
        if not (r.basic.user_wired_count == 0)
        then some einval
        else if r.replace && is_executable r.basic
        then some einval
        else rest
  ]
]

-- A new mapping: its place, and what it keeps of the old one.
pub record Mapped : Type 0 where
  pub from : ℕ
  pub len : ℕ
  pub old : Region

abbrev pub prot_all : ℕ
prot_all = 7

abbrev pub is_default : Inheritance → Bool
is_default Inheritance.inherit_copy = true
is_default _ = false

-- What the calls of the second pass answer at an address: 0 or the error of `mmap`, as sppc's, and whether `vm_protect`
-- and `vm_inherit` succeed.
pub record Calls : Type 0 where
  pub mmap : ℕ → ℕ
  pub protect : ℕ → Bool
  pub inherit : ℕ → Bool

-- What follows a mapping at `at`: the ceiling and the inheritance that it is given again.
unfoldable pub restored : Calls → ℕ → Basic → Bool
restored c at b =
    (b.max_protection == prot_all || c.protect at) && (is_default b.inheritance || c.inherit at)

-- The second pass: its result, and the mappings it has made.
unfoldable pub replace_loop : ℕ → Kernel → Calls → ℕ → ℕ → Option (ℕ × List Mapped)
unfolding restored
replace_loop zero k c at end = none
replace_loop (suc n) k c at end = elim (ltb at end) [
  | false ↦ some (0, [])
  | true ↦ elim (region_at k at) [
    | none ↦ some (enomem, [])
    | some r ↦
        let m : Mapped = record { from = at; len = min r.end end - at; old = r } in
        elim r.replace [
          | false ↦ replace_loop n k c r.end end
          | true ↦ elim (c.mmap at) [
            | suc e ↦ some (suc e, [])
            | zero ↦ elim (restored c at r.basic) [
              | false ↦ some (eio, m ∷ [])
              | true ↦ replace_loop n k c r.end end >>= λ x. some (x.0, m ∷ x.1)
            ]
          ]
        ]
  ]
]

-- The end of the pages of a range, as a word.
unfoldable pub page_end : ℕ → ℕ → ℕ → ℕ
page_end page start length = (start + length + page - 1) % 2 ^ 64 / page * page

-- The second pass, where the first has found nothing against it.
abbrev pub passed : Option (ℕ × List Mapped) → ℕ → Option (ℕ × List Mapped)
passed second zero = second
passed second (suc e) = some (suc e, [])

-- The passes, where Darwin's own call has not failed.
abbrev pub hinted : ℕ → Option (ℕ × List Mapped) → Option (ℕ × List Mapped)
hinted zero passes = passes
hinted (suc e) passes = some (suc e, [])

-- `_sppc_madvise_dontneed`: `hint` is 0 or the error of Darwin's own call, as sppc's.
unfoldable pub madvise_dontneed : ℕ → ℕ → Kernel → Kernel → Calls → ℕ → ℕ → Option (ℕ × List Mapped)
unfolding page_end check_loop replace_loop
madvise_dontneed page hint first second c start length =
    let end = page_end page start length in
    let rounds = suc (end - start) in
    let passes =
      check_loop rounds first start end >>= passed (replace_loop rounds second c start end) in
    if not (start % page == 0)
    then some (einval, [])
    else if length == 0
    then some (0, [])
    else if leb end start
    then some (einval, [])
    else hinted hint passes
