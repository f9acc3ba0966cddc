-- ===== src/ConfigTree/Items.antt =====
-- conftree.c: the item that a path leads to is a node of the configuration.
use script_basic.Common.{
  ℕ, ◌≤◌, ◌≡◌, ◌≢◌, inl, inr, List, [], ◌∷◌, some, true, false, Bool-cases, arith,
}
use script_basic.ConfigTree.{ConfigNode, ConfigTree, is_branch, node_at}
use script_basic.Common.Text.{same}
use script_basic.ConfigTree.Forest.{
  Forest, empty, branch, leaf, Item, absent, subtree, value, find, size, HasValue, Stands,
}

-- The node that the item's id names is the item.
abbrev pub ItemStands : ConfigTree → Item → Type 0
ItemStands t absent = Unit
ItemStands t (subtree i c) =
    (n : ConfigNode) × (i ≢ 0)
    × (node_at t.nodes i ≡ some n)
    × (is_branch n ≡ true)
    × Stands t n.val c
ItemStands t (value i v) =
    (n : ConfigNode) × (i ≢ 0)
    × (node_at t.nodes i ≡ some n)
    × (is_branch n ≡ false)
    × HasValue t n v

pub find-ItemStands :
    (t : ConfigTree) (f : Forest) (i : ℕ) (p : List ℕ) (ps : List (List ℕ))
    → Stands t i f
    → ItemStands t (find p ps f)
unfolding find
find-ItemStands t empty i p ps st = tt
find-ItemStands t (branch j w c r) i p [] (e, (n, h, b, below, after)) =
    elim (Bool-cases (same p w)) [
      | inl s ↦ rw s (rw e (n, h.0, h.1, b, below))
      | inr s ↦ rw s (find-ItemStands t r n.next p [] after)
    ]
find-ItemStands t (branch j w c r) i p (q ∷ qs) (e, (n, h, b, below, after)) =
    elim (Bool-cases (same p w)) [
      | inl s ↦ rw s (find-ItemStands t c n.val q qs below)
      | inr s ↦ rw s (find-ItemStands t r n.next p (q ∷ qs) after)
    ]
find-ItemStands t (leaf j w v r) i p [] (e, (n, h, b, hv, after)) = elim (Bool-cases (same p w)) [
  | inl s ↦ rw s (rw e (n, h.0, h.1, b, hv))
  | inr s ↦ rw s (find-ItemStands t r n.next p [] after)
]
find-ItemStands t (leaf j w v r) i p (q ∷ qs) (e, (n, h, b, hv, after)) =
    elim (Bool-cases (same p w)) [
      | inl s ↦ rw s tt
      | inr s ↦ rw s (find-ItemStands t r n.next p (q ∷ qs) after)
    ]

-- The level below the item.
abbrev pub sub_level : Item → Forest
sub_level absent = empty
sub_level (subtree i c) = c
sub_level (value i v) = empty

pub size-find :
    (f : Forest) (p : List ℕ) (ps : List (List ℕ)) → size (sub_level (find p ps f)) ≤ size f
unfolding find size
size-find empty p ps = omega arith
size-find (branch j w c r) p [] = elim (Bool-cases (same p w)) [
  | inl s ↦ rw s (omega arith)
  | inr s ↦ rw s (omega (arith, size-find r p []))
]
size-find (branch j w c r) p (q ∷ qs) = elim (Bool-cases (same p w)) [
  | inl s ↦ rw s (omega (arith, size-find c q qs))
  | inr s ↦ rw s (omega (arith, size-find r p (q ∷ qs)))
]
size-find (leaf j w v r) p [] = elim (Bool-cases (same p w)) [
  | inl s ↦ rw s (omega arith)
  | inr s ↦ rw s (omega (arith, size-find r p []))
]
size-find (leaf j w v r) p (q ∷ qs) = elim (Bool-cases (same p w)) [
  | inl s ↦ rw s (omega arith)
  | inr s ↦ rw s (omega (arith, size-find r p (q ∷ qs)))
]
