-- ===== src/Options/Value.antt =====
-- options.c: the pointer under a name of a symbol table is written, where the name is in the table.
use Prim.Native.Nat.Ordering.{lt, eq, gt}
use script_basic.Common.{ℕ, ◌≡◌, ◌≢◌, refl, ◌∙◌, none, some, arith}
use script_basic.Sym.Name.{Name, strcmp, eq_of_strcmp, to_lower, hashpjw}
use script_basic.Sym.Tree.{Tree, null, released, node, find, value_of, root_value}
use script_basic.Sym.Order.{All, IsOrdered}
use script_basic.Sym.Table.{SymbolTable, bucket, set_bucket, symbols}
use script_basic.Sym.Laws.{IsValid, Changed, there-IsValid, symbols-there, symbols-there_self}

unfoldable pub set_value : Name → ℕ → Tree → Tree
set_value s v null = null
set_value s v released = released
set_value s v (node y small big) = elim (strcmp s y.name) [
  | lt ↦ node y (set_value s v small) big
  | eq ↦ node (record y { value = v }) small big
  | gt ↦ node y small (set_value s v big)
]

-- `*p = v` at the place that sym_LookupSymbol gives for this name.
unfoldable pub put_value : Name → ℕ → SymbolTable → SymbolTable
put_value s v t = set_bucket t (hashpjw s) (set_value s v (bucket t (hashpjw s)))

All-set_value :
    (P : Name → Type 0) (s : Name) (v : ℕ) (t : Tree) → All P t → All P (set_value s v t)
unfolding set_value
All-set_value P s v null h = tt
All-set_value P s v released h = tt
All-set_value P s v (node y small big) h =
    ground (arith, All-set_value P s v small, All-set_value P s v big)

set_value-IsOrdered : (s : Name) (v : ℕ) (t : Tree) → IsOrdered t → IsOrdered (set_value s v t)
unfolding set_value
set_value-IsOrdered s v null o = tt
set_value-IsOrdered s v released o = o
set_value-IsOrdered s v (node y small big) o = ground (
  arith,
  set_value-IsOrdered s v small,
  set_value-IsOrdered s v big,
  All-set_value (λ x. strcmp x y.name ≡ lt) s v small,
  All-set_value (λ x. strcmp y.name x ≡ lt) s v big,
)

value_of-set_value_self :
    (s : Name) (v : ℕ) (t : Tree) → value_of s t ≢ none → value_of s (set_value s v t) ≡ some v
unfolding set_value value_of find root_value
value_of-set_value_self s v null n = absurd (n refl)
value_of-set_value_self s v released n = absurd (n refl)
value_of-set_value_self s v (node y small big) n =
    ground (arith, value_of-set_value_self s v small, value_of-set_value_self s v big)

value_of-set_value :
    (p s : Name) (v : ℕ) (t : Tree) → p ≢ s → value_of p (set_value s v t) ≡ value_of p t
unfolding set_value value_of find root_value
value_of-set_value p s v null n = refl
value_of-set_value p s v released n = refl
value_of-set_value p s v (node y small big) n = ground (
  arith,
  value_of-set_value p s v small,
  value_of-set_value p s v big,
  eq_of_strcmp s y.name,
  eq_of_strcmp p y.name,
)

pub put_value-Changed :
    (t : SymbolTable) (s : Name) (v : ℕ)
    → IsValid t
    → symbols t s ≢ none
    → Changed t (put_value (to_lower s) v t) s (some v)
unfolding put_value symbols
put_value-Changed t s v valid n = record {
  valid =
      there-IsValid t valid name new
        (set_value-IsOrdered name v home (valid.ordered (hashpjw name)));
  now = λ p e. symbols-there_self t valid name new p e ∙ value_of-set_value_self name v home n;
  others = λ p e. symbols-there t valid name new (λ q d. value_of-set_value q name v home d) p e;
}
  where
    name : Name
    name = to_lower s

    home : Tree
    home = bucket t (hashpjw name)

    new : Tree
    new = set_value name v home
