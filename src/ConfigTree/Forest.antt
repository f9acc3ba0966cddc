-- ===== src/ConfigTree/Forest.antt =====
-- conftree.c: the tree of keys that the nodes of a configuration stand for, and the search in it
-- that a key such as `a.b.c` asks for.
use script_basic.Common.{
  ℕ, suc, ◌+◌, ◌≡◌, ◌≢◌, List, [], ◌∷◌, ◌++◌, some, true, false, if◌then◌else◌,
}
use script_basic.Common.Int.{ℤ}
use script_basic.ConfigTree.{
  ConfigNode, ConfigTree, is_branch, type_of, type_string, type_integer, type_real, signed, node_at,
  string_at,
}
use script_basic.Common.Text.{same}
use script_basic.ConfigTree.Text.{IsPart, Reads}

-- The value of a leaf: a string is the memory where it starts.
pub data Value : Type 0 where
  string : List ℕ → Value
  long : ℤ → Value
  real : ℕ → Value
  untyped : Value

-- The nodes of one level, each with its id and its name, and those below a branch.
pub data Forest : Type 0 where
  empty : Forest
  branch : ℕ → List ℕ → Forest → Forest → Forest
  leaf : ℕ → List ℕ → Value → Forest → Forest

pub data Item : Type 0 where
  absent : Item
  subtree : ℕ → Forest → Item
  value : ℕ → Value → Item

abbrev pub id_of : Item → ℕ
id_of absent = 0
id_of (subtree i c) = i
id_of (value i v) = i

-- The item on the path of the names: the first of its level that has the name.
unfoldable pub find : List ℕ → List (List ℕ) → Forest → Item
find p ps empty = absent
find p ps (branch i w c r) =
    if same p w then elim ps [ [] ↦ subtree i c | q ∷ qs ↦ find q qs c ] else find p ps r
find p ps (leaf i w v r) =
    if same p w then elim ps [ [] ↦ value i v | q ∷ qs ↦ absent ] else find p ps r

unfoldable pub size : Forest → ℕ
size empty = 0
size (branch i w c r) = suc (size c + size r)
size (leaf i w v r) = suc (size r)

-- The ids of one level, in order.
unfoldable pub ids : Forest → List ℕ
ids empty = []
ids (branch i w c r) = i ∷ ids r
ids (leaf i w v r) = i ∷ ids r

-- A path as a key: the names with the separator between them, and the zero byte.
unfoldable pub spelled : ℕ → List ℕ → List (List ℕ) → List ℕ
spelled tc p [] = p ++ 0 ∷ []
spelled tc p (q ∷ qs) = p ++ tc ∷ spelled tc q qs

abbrev pub ArePlain : ℕ → List (List ℕ) → Type 0
ArePlain tc [] = Unit
ArePlain tc (p ∷ ps) = IsPart tc p × ArePlain tc ps

abbrev pub HasValue : ConfigTree → ConfigNode → Value → Type 0
HasValue t n (string s) = (type_of n ≡ type_string) × (string_at (some t) n.val ≡ s)
HasValue t n (long v) = (type_of n ≡ type_integer) × (signed n.val ≡ v)
HasValue t n (real w) = (type_of n ≡ type_real) × (n.val ≡ w)
HasValue t n untyped = type_of n ≡ 0

-- The node with this id is there, and has this name.
abbrev pub HasNode : ConfigTree → ℕ → List ℕ → ConfigNode → Type 0
HasNode t i w n =
    (i ≢ 0) × (node_at t.nodes i ≡ some n) × Reads t.separator w (string_at (some t) n.key)

-- The level that starts at a node id stands for the forest.
abbrev pub Stands : ConfigTree → ℕ → Forest → Type 0
Stands t i empty = i ≡ 0
Stands t i (branch j w c r) =
    (j ≡ i)
    × ((n : ConfigNode) × HasNode t i w n
        × (is_branch n ≡ true)
        × Stands t n.val c
        × Stands t n.next r)
Stands t i (leaf j w v r) =
    (j ≡ i)
    × ((n : ConfigNode) × HasNode t i w n
        × (is_branch n ≡ false)
        × HasValue t n v
        × Stands t n.next r)

-- The configuration stands for the forest: it has been read, and its separator is no zero byte.
pub record StandsFor (t : ConfigTree) (f : Forest) : Type 0 where
  pub read : t.root ≢ 0
  pub separates : t.separator ≢ 0
  pub levels : Stands t 1 f
