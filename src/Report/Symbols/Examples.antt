-- ===== src/Report/Symbols/Examples.antt =====
-- A table of two functions with sizes, one without, and one that is not defined.
use sppc.Common.{ℕ, ◌≡◌, refl, none, some, List, [], ◌∷◌, ◌⊎◌}
use sppc.Report.Symbols.{
  Symbol, Object, Named, is_function, reaches, is_nearer, symbol_loop, named_by, best_of,
  bt_resolve,
}
use sppc.Report.Symbols.Nearest.{first_cover, Nearest, symbol_loop-IsBest}

abbrev function_at : ℕ → ℕ → ℕ → Symbol
function_at name value size = record {
  type_ = 2;
  shndx = 1;
  name = name;
  value = value;
  size = size;
}

abbrev table : List Symbol
table =
    function_at 1 0 16
    ∷ function_at 2 64 0
    ∷ record { type_ = 2; shndx = 0; name = 3; value = 96; size = 32 }
    ∷ function_at 4 128 8
    ∷ []

abbrev at_home : Object
at_home = record { bias = 4096; syms = some table; strtab_size = 10 }

inside : bt_resolve 4228 (some at_home) none ≡ Named.symbol 4 4224
unfolding bt_resolve best_of named_by symbol_loop is_function reaches is_nearer
inside = refl

past_bare : bt_resolve 4200 (some at_home) none ≡ Named.symbol 2 4160
unfolding bt_resolve best_of named_by symbol_loop is_function reaches is_nearer
past_bare = refl

symbol_loop-IsBest_example :
    ((s : Symbol) × (first_cover 10 104 table ≡ some s) × (symbol_loop 10 104 table none ≡ some s))
    ⊎ ((first_cover 10 104 table ≡ none)
        × Nearest 10 104 table none (symbol_loop 10 104 table none))
symbol_loop-IsBest_example = symbol_loop-IsBest 10 104 table
