-- ===== src/Sym/Tree.antt =====
-- sym.c: the tree of one bucket.
use Prim.Native.Nat.Ordering.{lt, eq, gt}
use script_basic.Common.{ℕ, Option, none, some}
use script_basic.Sym.Name.{Name, strcmp}

-- `struct _symbol` without its sons: its address and its name's, the name, and the caller's value.
pub record Symbol : Type 0 where
  pub self : ℕ
  pub name_at : ℕ
  pub name : Name
  pub value : ℕ

-- A `pSymbol`: NULL, a pointer to memory that was given back, or a symbol with its small and big son.
pub data Tree : Type 0 where
  null : Tree
  released : Tree
  node : Symbol → Tree → Tree → Tree

-- The loop of sym_LookupSymbol and sym_DeleteSymbol: `find` is what stands at the place where it
-- stops, and `hook` is the tree when that place is given another content. What the code does at
-- released memory is undefined; here the loop stops.
unfoldable pub find : Name → Tree → Tree
find s null = null
find s released = released
find s (node y small big) = elim (strcmp s y.name) [
  | lt ↦ find s small
  | eq ↦ node y small big
  | gt ↦ find s big
]

unfoldable pub hook : Name → Tree → Tree → Tree
hook s new null = new
hook s new released = new
hook s new (node y small big) = elim (strcmp s y.name) [
  | lt ↦ node y (hook s new small) big
  | eq ↦ new
  | gt ↦ node y small (hook s new big)
]

-- The value stored under a name, if the name is in the tree.
unfoldable pub root_value : Tree → Option ℕ
root_value null = none
root_value released = none
root_value (node y small big) = some y.value

unfoldable pub value_of : Name → Tree → Option ℕ
unfolding root_value
value_of s t = root_value (find s t)

-- The symbol at the place of `s` goes, with these sons: the big son takes its place, or the small
-- one where there is no big son; with both, the small son is hooked in from the root again.
unfoldable pub unhook : Name → Tree → Tree → Tree → Tree
unhook s small null t = hook s small t
unhook s null big t = hook s big t
unhook s (node y l r) big t = hook y.name (node y l r) (hook s big t)
unhook s released big t = hook s big t
