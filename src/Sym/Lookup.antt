-- ===== src/Sym/Lookup.antt =====
-- sym.c: what sym_LookupSymbol answers and leaves.
use mathlib.Core.Path.{subst}
use script_basic.Common.{
  ℕ, ◌+◌, Bool, ◌≡◌, refl, ap, ◌∙◌, ◌≢◌, true, false, Option, none, some, length,
}
use script_basic.Common.{Bool-cases, inl, inr, ◌==◌, ==_iff}
use script_basic.Memory.{Allocator}
use script_basic.Sym.Name.{Name, to_lower, hashpjw}
use script_basic.Sym.Tree.{Symbol, Tree, null, released, node, find, hook, value_of, root_value}
use script_basic.Sym.Order.{IsOrdered, find-IsOrdered}
use script_basic.Sym.Laws.{
  IsValid, Changed, bucket_self, there-IsValid, symbols-there, symbols-there_self,
}
use script_basic.Sym.Insert.{Planted, hook-Planted, find-hook_released, value_of-free}
use script_basic.Sym.Table.{
  SymbolTable, sizeof_symbol, bucket, set_bucket, symbols, create, lookup_symbol,
}

module _ (a : Allocator) (t : SymbolTable) (valid : IsValid t) (s : Name) where
  open a use {Segment, alloc, free}

  home : Tree
  home = bucket t (hashpjw (to_lower s))

  home-IsOrdered : IsOrdered home
  unfolding home
  home-IsOrdered = valid.ordered (hashpjw (to_lower s))

  found-IsOrdered : IsOrdered (find (to_lower s) home)
  found-IsOrdered = find-IsOrdered (to_lower s) home home-IsOrdered

  -- What a search answers and leaves. A symbol is made only where `insert` asks for one, with the
  -- value NULL; without memory for it the answer is NULL, and without memory for its name the bucket
  -- keeps the address of a symbol that was given back.
  pub data LookupResult (insert : Bool) (m : Segment)
      (r : Option (Option Name × SymbolTable × Segment)) : Type 0 where
    found : symbols t s ≢ none → r ≡ some (some (to_lower s), t, m) → LookupResult insert m r
    not_found :
        symbols t s ≡ none → insert ≡ false → r ≡ some (none, t, m) → LookupResult insert m r
    made :
        {t' : SymbolTable} {m' : Segment}
        → symbols t s ≡ none
        → insert ≡ true
        → r ≡ some (some (to_lower s), t', m')
        → Changed t t' s (some 0)
        → LookupResult insert m r
    no_memory :
        {m' : Segment}
        → symbols t s ≡ none
        → insert ≡ true
        → (alloc sizeof_symbol m).0 ≡ 0
        → r ≡ some (none, t, m')
        → LookupResult insert m r
    dangling :
        {t' : SymbolTable} {m' : Segment}
        → symbols t s ≡ none
        → insert ≡ true
        → (alloc sizeof_symbol m).0 ≢ 0
        → (alloc (length (to_lower s) + 1) (alloc sizeof_symbol m).1).0 ≡ 0
        → r ≡ some (none, t', m')
        → find (to_lower s) (bucket t' (hashpjw (to_lower s))) ≡ released
        → LookupResult insert m r

  -- The three ends of the making of a symbol at a free place.
  create-LookupResult :
      (m : Segment)
      → find (to_lower s) home ≡ null
      → LookupResult true m (some (create a (to_lower s) (hashpjw (to_lower s)) t m))
  unfolding create symbols value_of home
  create-LookupResult m e = elim (Bool-cases (address == 0)) [
    | inl oom ↦ no_memory {m' = m'} none_there refl ((==_iff address 0).0 oom) (rw (oom, create))
    | inr got ↦ elim (Bool-cases (name_at == 0)) [
      | inl short ↦
          dangling {t' = set_bucket t (hashpjw (to_lower s)) (hook (to_lower s) released home)}
            {m' = free address m''} none_there refl (λ q. cc) ((==_iff name_at 0).0 short)
            (rw (got, short, create))
            (ap (find (to_lower s)) (bucket_self t valid (to_lower s) _ (to_lower s) refl)
              ∙ find-hook_released (to_lower s) home e)
      | inr long ↦ made {m' = m''} none_there refl (rw (got, long, create)) (record {
        valid = there-IsValid t valid (to_lower s) _ planted.ordered;
        now = λ p q. symbols-there_self t valid (to_lower s) _ p q ∙ planted.now;
        others = λ p q. symbols-there t valid (to_lower s) _ planted.kept p q;
      })
    ]
  ]
    where
      address : ℕ
      address = (alloc sizeof_symbol m).0

      m' : Segment
      m' = (alloc sizeof_symbol m).1

      name_at : ℕ
      name_at = (alloc (length (to_lower s) + 1) m').0

      m'' : Segment
      m'' = (alloc (length (to_lower s) + 1) m').1

      none_there : symbols t s ≡ none
      none_there = value_of-free (to_lower s) home e

      y : Symbol
      y = record { self = address; name_at = name_at; name = to_lower s; value = 0 }

      planted : Planted y home (hook (to_lower s) (node y null null) home)
      planted = hook-Planted y home home-IsOrdered e

  -- On a valid table sym_LookupSymbol finds a symbol under every spelling of its name; where there
  -- is none it returns NULL unless it is to insert one; a symbol that it inserts has the value NULL,
  -- keeps the table valid and leaves every other name as it was; without memory for the symbol it
  -- returns NULL and leaves the table, and without memory for the name the bucket keeps the address
  -- of the released symbol.
  pub lookup_symbol-LookupResult :
      (insert : Bool) (m : Segment) → LookupResult insert m (lookup_symbol a s t insert m)
  unfolding lookup_symbol symbols value_of home root_value
  lookup_symbol-LookupResult insert m = go insert (find (to_lower s) home) refl
    where
      go :
          (insert : Bool) (r : Tree)
          → find (to_lower s) home ≡ r
          → LookupResult insert m (lookup_symbol a s t insert m)
      go insert released e = absurd (subst IsOrdered e found-IsOrdered)
      go insert (node y small big) e = found (rw (e, value_of) (λ q. cc)) (rw (e, lookup_symbol))
      go false null e = not_found (rw (e, value_of)) refl (rw (e, lookup_symbol))
      go true null e = rw (e, lookup_symbol) (create-LookupResult m e)
