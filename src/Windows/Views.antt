-- ===== src/Windows/Views.antt =====
-- headers/sppc/platform/windows.h, MEMORY MAPPINGS: the list of views, and how a file or memory to share is
-- mapped. What the system's calls answer is an argument. A handle, like an address, is a number, and
-- NULL and INVALID_HANDLE_VALUE are none.
pub mod Handles
pub mod Whole
pub mod Mmap
mod Examples
use Prim.Native.Nat.{min}
use sppc.Common.{
  ℕ, zero, suc, ◌+◌, ◌-◌, ◌*◌, ◌/◌, ◌%◌, ◌^◌, Bool, true, false, not, ◌&&◌, ◌||◌, Option, none,
  some, List, [], ◌∷◌, ◌==◌, ltb, leb, if◌then◌else◌,
}

-- `_sppc_win_view`.
pub record View : Type 0 where
  pub base : ℕ
  pub start : ℕ
  pub file : Option ℕ

-- The list of views, the views that are mapped, the handles that are open, and the descriptions held.
pub record Memory : Type 0 where
  pub views : List View
  pub mapped : ℕ
  pub handles : ℕ
  pub held : ℕ

-- How many handles an option is.
abbrev pub holds : Option ℕ → ℕ
holds none = 0
holds (some h) = 1

-- `_sppc_win_view_add`: whether there was memory for it.
unfoldable pub view_add : Bool → View → Memory → Bool × Memory
view_add room v m = if not room then (false, m) else (true, record m { views = v ∷ m.views })

-- `_sppc_win_view_start`.
unfoldable pub view_start : ℕ → List View → ℕ
view_start base [] = base
view_start base (v ∷ vs) = if v.base == base then v.start else view_start base vs

-- The view at a base, and the list without it: the loop of `_sppc_win_view_forget`.
unfoldable pub take_view : ℕ → List View → Option View × List View
take_view base [] = (none, [])
take_view base (v ∷ vs) =
    let rest = take_view base vs in if v.base == base then (some v, vs) else (rest.0, v ∷ rest.1)

-- `_sppc_win_view_forget`.
unfoldable pub view_forget : ℕ → Memory → Memory
unfolding take_view
view_forget base m =
    let (found, rest) = take_view base m.views in
    elim found [ none ↦ m | some v ↦ record m { views = rest; handles = m.handles - holds v.file } ]

-- `_sppc_win_view_flush_file`: `flush` is the error of `FlushFileBuffers`, 0 for none.
unfoldable pub view_flush_file : (ℕ → ℕ) → ℕ → List View → ℕ
view_flush_file flush base [] = 0
view_flush_file flush base (v ∷ vs) =
    let rest = view_flush_file flush base vs in
    if v.base == base then elim v.file [ none ↦ 0 | some h ↦ flush h ] else rest

-- The page protections of Windows that are used here, and the accesses of a view.
pub data Protect : Type 0 where
  page_noaccess page_readonly page_readwrite page_execute page_execute_read : Protect
  page_execute_readwrite page_writecopy page_execute_writecopy : Protect

pub data Access : Type 0 where
  map_copy map_write map_read : Access

-- SPPC_PROT_READ, SPPC_PROT_WRITE and SPPC_PROT_EXEC are the bits of a number below 8.
abbrev pub writes_to : ℕ → Bool
writes_to prot = prot / 2 % 2 == 1

abbrev pub executes : ℕ → Bool
executes prot = prot / 4 % 2 == 1

abbrev pub protect_of : ℕ → Protect
protect_of zero = Protect.page_noaccess
protect_of (suc zero) = Protect.page_readonly
protect_of (suc (suc zero)) = Protect.page_readwrite
protect_of (suc (suc (suc zero))) = Protect.page_readwrite
protect_of (suc (suc (suc (suc zero)))) = Protect.page_execute
protect_of (suc (suc (suc (suc (suc zero))))) = Protect.page_execute_read
protect_of _ = Protect.page_execute_readwrite

abbrev pub copied_as : Protect → Protect
copied_as Protect.page_readwrite = Protect.page_writecopy
copied_as Protect.page_execute_readwrite = Protect.page_execute_writecopy
copied_as p = p

-- `_sppc_win_page_protect`.
unfoldable pub page_protect : ℕ → Bool → Protect
page_protect prot copy = let p = protect_of (prot % 8) in if copy then copied_as p else p

-- The protection of a section and the access of its view, in `_sppc_win_map_view`.
unfoldable pub section_of : Bool → Bool → Bool → Protect × Access
section_of shared writes exec =
    if not shared
    then (
      (if exec then Protect.page_execute_writecopy else Protect.page_writecopy),
      Access.map_copy,
    )
    else if writes
    then (
      (if exec then Protect.page_execute_readwrite else Protect.page_readwrite),
      Access.map_write,
    )
    else ((if exec then Protect.page_execute_read else Protect.page_readonly), Access.map_read)

-- What a view asks of the system: a section of a file or of so many bytes, its protection and the view's
-- access, where in it and how long the view is, and the pages' protection.
pub record Ask : Type 0 where
  pub file : Option ℕ
  pub section_size : ℕ
  pub section : Protect × Access
  pub exec : Bool
  pub from : ℕ
  pub size : ℕ
  pub pages : Protect

-- What it answers: the view's base, if there are a section and a view of it, whether the pages took their
-- protection, and whether there was memory for the list.
pub record System : Type 0 where
  pub granularity : ℕ
  pub view : Ask → Option ℕ
  pub protects : Ask → Bool
  pub room : Bool

-- The view that a mapping asks for.
unfoldable pub ask_of : System → Option ℕ → Bool → Bool → ℕ → ℕ → ℕ → Ask
unfolding section_of page_protect
ask_of sys file shared writes prot offset length =
    let start = offset - offset % sys.granularity in
    record {
      file = file;
      section_size = elim file [ none ↦ length | some _ ↦ 0 ];
      section = section_of shared writes (executes prot);
      exec = executes prot;
      from = start;
      size = offset - start + length;
      pages = page_protect prot (not shared);
    }

-- A view that was mapped, listed or unmapped again; `keep` is the list's, or closed.
unfoldable pub list_view : System → Ask → Option ℕ → ℕ → ℕ → Memory → Option ℕ × Memory
unfolding view_add
list_view sys ask keep at base m =
    let mapped = record m { mapped = m.mapped + 1 } in
    let v : View = record { base = base; start = base + at; file = keep } in
    let (listed, q) = view_add sys.room v mapped in
    if sys.protects ask && listed
    then (some (base + at), q)
    else (none, record m { mapped = mapped.mapped - 1; handles = m.handles - holds keep })

-- `_sppc_win_map_view`.
unfoldable pub map_view :
    System → Option ℕ → Bool → Bool → ℕ → ℕ → ℕ → Option ℕ → Memory → Option ℕ × Memory
unfolding ask_of list_view
map_view sys file shared writes prot offset length keep m =
    let ask = ask_of sys file shared writes prot offset length in
    elim (sys.view ask) [
      | none ↦ (none, record m { handles = m.handles - holds keep })
      | some base ↦ list_view sys ask keep (offset % sys.granularity) base m
    ]
