-- ===== src/Report/Symbols.antt =====
-- headers/sppc/backtrace/elf.h: the symbol that an address is named by, on a 64-bit platform whose function
-- symbols stand for their code. What `dladdr` finds and the table of an object's file are arguments.
pub mod Nearest
mod Examples
use sppc.Common.{
  ℕ, ◌+◌, ◌-◌, ◌%◌, ◌^◌, Bool, true, false, not, ◌&&◌, ◌||◌, Option, none, some, List, [], ◌∷◌,
  ◌==◌, leb, ltb, if◌then◌else◌,
}

-- `ElfW(Sym)`: the type that `st_info` holds and the other members that are read.
pub record Symbol : Type 0 where
  pub type_ : ℕ
  pub shndx : ℕ
  pub name : ℕ
  pub value : ℕ
  pub size : ℕ

-- `_sppc_bt_object`, less its traps; its table is none without one.
pub record Object : Type 0 where
  pub bias : ℕ
  pub syms : Option (List Symbol)
  pub strtab_size : ℕ

-- STT_FUNC, STT_GNU_IFUNC and SHN_UNDEF of <elf.h>.
abbrev pub stt_func : ℕ
stt_func = 2

abbrev pub stt_gnu_ifunc : ℕ
stt_gnu_ifunc = 10

abbrev pub shn_undef : ℕ
shn_undef = 0

-- A defined function whose name is in the table.
unfoldable pub is_function : ℕ → Symbol → Bool
is_function strtab_size s =
    (s.type_ == stt_func || s.type_ == stt_gnu_ifunc)
    && not (s.shndx == shn_undef)
    && ltb s.name strtab_size

unfoldable pub reaches : ℕ → Symbol → Bool
reaches addr s = ltb addr ((s.value + s.size) % 2 ^ 64)

unfoldable pub is_nearer : Symbol → Option Symbol → Bool
is_nearer s none = true
is_nearer s (some best) = ltb best.value s.value

-- The loop of `_sppc_bt_resolve`, with the best symbol so far.
unfoldable pub symbol_loop : ℕ → ℕ → List Symbol → Option Symbol → Option Symbol
unfolding is_function reaches is_nearer
symbol_loop strtab_size addr [] best = best
symbol_loop strtab_size addr (s ∷ ss) best =
    let rest = symbol_loop strtab_size addr ss best in
    let taken = symbol_loop strtab_size addr ss (some s) in
    if not (is_function strtab_size s)
    then rest
    else if ltb addr s.value
    then rest
    else if reaches addr s
    then some s
    else if s.size == 0 && is_nearer s best
    then taken
    else rest

-- What an address is named by: a name of the table or the loader's, with where the function starts.
pub data Named : Type 0 where
  symbol : ℕ → ℕ → Named
  exported : ℕ → Named
  unnamed : Named

-- The answer once the loop has ended.
unfoldable pub named_by : ℕ → Option ℕ → Option Symbol → Named
named_by bias (some start) none = Named.exported start
named_by bias none none = Named.unnamed
named_by bias loader (some s) = Named.symbol s.name ((s.value + bias) % 2 ^ 64)

-- The loop's result for an object, none without a table.
unfoldable pub best_of : ℕ → Object → Option (List Symbol) → Option Symbol
unfolding symbol_loop
best_of pc obj none = none
best_of pc obj (some syms) =
    symbol_loop obj.strtab_size ((pc + 2 ^ 64 - obj.bias) % 2 ^ 64) syms none

-- `_sppc_bt_resolve`, of an address that `dladdr` knows; `loader` is the start of the exported symbol that it names.
unfoldable pub bt_resolve : ℕ → Option Object → Option ℕ → Named
unfolding named_by best_of
bt_resolve pc none loader = named_by 0 loader none
bt_resolve pc (some obj) loader = named_by obj.bias loader (best_of pc obj obj.syms)
