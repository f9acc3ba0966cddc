-- ===== src/Sym/Removal.antt =====
-- sym.c: what sym_DeleteSymbol answers and leaves.
use mathlib.Core.Path.{subst}
use script_basic.Common.{ℕ, ◌≡◌, refl, ◌∙◌, ◌≢◌, Option, none, some}
use script_basic.Memory.{Allocator}
use script_basic.Sym.Name.{Name, to_lower, hashpjw}
use script_basic.Sym.Tree.{Tree, null, released, node, find, value_of, root_value}
use script_basic.Sym.Order.{IsOrdered, find-IsOrdered}
use script_basic.Sym.Delete.{unhook-Deleted}
use script_basic.Sym.Laws.{IsValid, Changed, there-IsValid, symbols-there, symbols-there_self}
use script_basic.Sym.Table.{SymbolTable, bucket, symbols, delete_symbol}

module _ (a : Allocator) (t : SymbolTable) (valid : IsValid t) (s : Name) where
  open a use {Segment, alloc, free}

  home : Tree
  home = bucket t (hashpjw (to_lower s))

  home-IsOrdered : IsOrdered home
  unfolding home
  home-IsOrdered = valid.ordered (hashpjw (to_lower s))

  found-IsOrdered : IsOrdered (find (to_lower s) home)
  found-IsOrdered = find-IsOrdered (to_lower s) home home-IsOrdered

  -- What a deletion answers and leaves.
  pub data DeleteResult (r : Option (ℕ × SymbolTable × Segment)) (m : Segment) : Type 0 where
    absent : symbols t s ≡ none → r ≡ some (1, t, m) → DeleteResult r m
    deleted :
        {t' : SymbolTable} {m' : Segment}
        → symbols t s ≢ none
        → r ≡ some (0, t', m')
        → Changed t t' s none
        → DeleteResult r m

  -- On a valid table sym_DeleteSymbol returns 1 and changes nothing where the name has no symbol in
  -- any spelling, else it returns 0, keeps the table valid, removes the name in every spelling and
  -- leaves every other name as it was.
  pub delete_symbol-DeleteResult : (m : Segment) → DeleteResult (delete_symbol a s t m) m
  unfolding delete_symbol symbols value_of home root_value
  delete_symbol-DeleteResult m = go (find (to_lower s) home) refl
    where
      go : (r : Tree) → find (to_lower s) home ≡ r → DeleteResult (delete_symbol a s t m) m
      go null e = absent (rw (e, value_of)) (rw (e, delete_symbol))
      go released e = absurd (subst IsOrdered e found-IsOrdered)
      go (node y small big) e =
          let d = unhook-Deleted (to_lower s) home y small big home-IsOrdered e in
          deleted {m' = free y.self (free y.name_at m)} (rw (e, value_of) (λ q. cc))
            (rw (e, delete_symbol))
            (record {
              valid = there-IsValid t valid (to_lower s) _ d.ordered;
              now = λ p q. symbols-there_self t valid (to_lower s) _ p q ∙ d.gone;
              others = λ p q. symbols-there t valid (to_lower s) _ d.kept p q;
            })
