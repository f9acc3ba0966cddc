-- ===== src/Sym/Examples.antt =====
-- sym.c: runs of the operations on a table with the names "a" and "b".
use script_basic.Common.{[], ◌∷◌, true}
use script_basic.Memory.Counting.{counting}
use script_basic.Sym.Name.{Name}
use script_basic.Sym.Tree.{Symbol, null, node}
use script_basic.Sym.Table.{SymbolTable, lookup_symbol, delete_symbol}
use script_basic.Sym.Laws.{IsValid, there, there-IsValid}
use script_basic.Sym.Fresh.{empty_table, empty_table-IsValid}
use script_basic.Sym.Lookup.{LookupResult, lookup_symbol-LookupResult}
use script_basic.Sym.Removal.{DeleteResult, delete_symbol-DeleteResult}

abbrev name_a : Name
name_a = b'a' ∷ []

abbrev capital_a : Name
capital_a = b'A' ∷ []

abbrev symbol_a : Symbol
symbol_a = record { self = 100; name_at = 200; name = name_a; value = 7 }

-- A table in which "a" has the value 7.
abbrev sample : SymbolTable
sample = there (empty_table 1) (empty_table-IsValid 1) name_a (node symbol_a null null)

sample-IsValid : IsValid sample
sample-IsValid =
    there-IsValid (empty_table 1) (empty_table-IsValid 1) name_a (node symbol_a null null)
      (tt, tt, tt, tt)

-- Asked for in capitals.
lookup_symbol-LookupResult_example :
    LookupResult counting sample sample-IsValid capital_a true 5
      (lookup_symbol counting capital_a sample true 5)
lookup_symbol-LookupResult_example =
    lookup_symbol-LookupResult counting sample sample-IsValid capital_a true 5

delete_symbol-DeleteResult_example :
    DeleteResult counting sample sample-IsValid capital_a
      (delete_symbol counting capital_a sample 5)
      5
delete_symbol-DeleteResult_example =
    delete_symbol-DeleteResult counting sample sample-IsValid capital_a 5
