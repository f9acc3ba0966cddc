-- ===== src/Sym/Fresh.antt =====
-- sym.c: sym_NewSymbolTable gives a valid table without symbols, or NULL where there is no memory.
use script_basic.Common.{
  ℕ, ◌*◌, ◌≡◌, refl, sym, ap, none, some, replicate, length-replicate, get_or-replicate, Bool-cases,
  inl, inr, ◌⊎◌, ◌==◌, ==_iff,
}
use mathlib.Core.Path.{subst}
use script_basic.Memory.{Allocator}
use script_basic.Sym.Name.{Name, to_lower, hashpjw, prime}
use script_basic.Sym.Tree.{null, find, value_of, root_value}
use script_basic.Sym.Order.{IsOrdered}
use script_basic.Sym.Table.{SymbolTable, sizeof_tree, bucket, symbols, new_symbol_table}
use script_basic.Sym.Laws.{IsValid}

abbrev pub empty_table : ℕ → SymbolTable
empty_table address = record { self = address; buckets = replicate prime null }

empty-bucket : (address k : ℕ) → bucket (empty_table address) k ≡ null
empty-bucket address k = get_or-replicate prime k null

pub empty_table-IsValid : (address : ℕ) → IsValid (empty_table address)
empty_table-IsValid address = record {
  sized = length-replicate prime null;
  ordered = λ k. subst IsOrdered (sym (empty-bucket address k)) tt;
}

pub symbols-empty_table : (address : ℕ) (s : Name) → symbols (empty_table address) s ≡ none
unfolding symbols value_of find root_value
symbols-empty_table address s =
    ap (value_of (to_lower s)) (empty-bucket address (hashpjw (to_lower s)))

-- Without memory sym_NewSymbolTable returns NULL; with memory it returns a valid table in which no
-- name is found.
pub new_symbol_table-IsValid :
    (a : Allocator) (m : a.Segment)
    → ((a.alloc (prime * sizeof_tree) m).0 ≡ 0) × ((new_symbol_table a m).0 ≡ none)
      ⊎ (t : SymbolTable) × ((new_symbol_table a m).0 ≡ some t)
        × IsValid t
        × ((s : Name) → symbols t s ≡ none)
unfolding new_symbol_table
new_symbol_table-IsValid a m = elim (Bool-cases (address == 0)) [
  | inl e ↦ inl ((==_iff address 0).0 e, rw (e, new_symbol_table) refl)
  | inr e ↦ inr (
    empty_table address,
    rw (e, new_symbol_table) refl,
    empty_table-IsValid address,
    symbols-empty_table address,
  )
]
  where
    address : ℕ
    address = (a.alloc (prime * sizeof_tree) m).0
