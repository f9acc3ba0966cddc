-- ===== src/Sym/Table.antt =====
-- sym.c: the operations on a whole symbol table. `none` as the result of an operation means that
-- the code reads memory that was given back, so that its behaviour is undefined.
use script_basic.Common.{
  ℕ, ◌+◌, ◌*◌, Bool, Option, none, some, List, [], ◌∷◌, ◌==◌, if◌then◌else◌, get_or, set, replicate,
  length,
}
use script_basic.Memory.{Allocator}
use script_basic.Sym.Name.{Name, to_lower, hashpjw, prime}
use script_basic.Sym.Tree.{Symbol, Tree, null, released, node, find, hook, unhook, value_of}

-- `sizeof(pSymbol)` and `sizeof(Symbol)` of a 64-bit build
abbrev pub sizeof_tree : ℕ
sizeof_tree = 8

abbrev pub sizeof_symbol : ℕ
sizeof_symbol = 32

-- A `SymbolTable` that is not NULL: its address and its buckets.
pub record SymbolTable : Type 0 where
  pub self : ℕ
  pub buckets : List Tree

abbrev pub bucket : SymbolTable → ℕ → Tree
bucket t k = get_or t.buckets k null

abbrev pub set_bucket : SymbolTable → ℕ → Tree → SymbolTable
set_bucket t k b = record t { buckets = set t.buckets k b }

-- The value under a name, in any spelling: the map that the table stands for.
unfoldable pub symbols : SymbolTable → Name → Option ℕ
symbols t s = let name = to_lower s in value_of name (bucket t (hashpjw name))

-- sym_TraverseSymbolTableSub: the sons first; the call-back function works on a state.
unfoldable pub traverse_sub : {S : Type 0} → (Name → ℕ → S → S) → Tree → S → S
traverse_sub f null st = st
traverse_sub f released st = st
traverse_sub f (node y small big) st =
    let sons = traverse_sub f big (traverse_sub f small st) in
    if y.name_at == 0 then sons else f y.name y.value sons

traverse_buckets : {S : Type 0} → (Name → ℕ → S → S) → List Tree → S → S
traverse_buckets f [] st = st
traverse_buckets f (b ∷ bs) st = traverse_buckets f bs (traverse_sub f b st)

unfoldable pub traverse_symbol_table :
    {S : Type 0} → (Name → ℕ → S → S) → Option SymbolTable → S → S
unfolding traverse_buckets traverse_sub
traverse_symbol_table f none st = st
traverse_symbol_table f (some t) st = traverse_buckets f t.buckets st

module _ (a : Allocator) where
  open a use {Segment, alloc, free}

  unfoldable pub new_symbol_table : Segment → Option SymbolTable × Segment
  new_symbol_table m =
      let (address, m') = alloc (prime * sizeof_tree) m in
      if address == 0
      then (none, m')
      else (some (record { self = address; buckets = replicate prime null }), m')

  unfoldable pub free_symbol_sub : Tree → Segment → Segment
  free_symbol_sub null m = m
  free_symbol_sub released m = m
  free_symbol_sub (node y small big) m =
      let sons = free_symbol_sub big (free_symbol_sub small m) in
      free y.self (if y.name_at == 0 then sons else free y.name_at sons)

  free_buckets : List Tree → Segment → Segment
  free_buckets [] m = m
  free_buckets (b ∷ bs) m = free_buckets bs (free_symbol_sub b m)

  unfoldable pub free_symbol_table : SymbolTable → Segment → Segment
  unfolding free_buckets free_symbol_sub
  free_symbol_table t m = free t.self (free_buckets t.buckets m)

  -- A new symbol at the free place of a bucket. Without memory for the copy of the name, the symbol
  -- is given back, but the place keeps its address.
  unfoldable pub create : Name → ℕ → SymbolTable → Segment → Option Name × SymbolTable × Segment
  create name k t m =
      let (address, m') = alloc sizeof_symbol m in
      let (name_at, m'') = alloc (length name + 1) m' in
      let y : Symbol = record { self = address; name_at = name_at; name = name; value = 0 } in
      if address == 0
      then (none, t, m')
      else if name_at == 0
      then (none, set_bucket t k (hook name released (bucket t k)), free address m'')
      else (some name, set_bucket t k (hook name (node y null null) (bucket t k)), m'')

  -- The answer `some name` is the address of the value of the symbol with that name; `none` is NULL.
  unfoldable pub lookup_symbol :
      Name → SymbolTable → Bool → Segment → Option (Option Name × SymbolTable × Segment)
  lookup_symbol s t insert m =
      let name = to_lower s in
      let k = hashpjw name in
      elim (find name (bucket t k)) [
        | node y small big ↦ some (some name, t, m)
        | released ↦ none
        | null ↦ if insert then some (create name k t m) else some (none, t, m)
      ]

  -- Returns 0, or 1 where there is no such symbol.
  unfoldable pub delete_symbol : Name → SymbolTable → Segment → Option (ℕ × SymbolTable × Segment)
  delete_symbol s t m =
      let name = to_lower s in
      let k = hashpjw name in
      elim (find name (bucket t k)) [
        | null ↦ some (1, t, m)
        | released ↦ none
        | node y small big ↦
            some (
              0,
              set_bucket t k (unhook name small big (bucket t k)),
              free y.self (free y.name_at m),
            )
      ]
