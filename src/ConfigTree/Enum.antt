-- ===== src/ConfigTree/Enum.antt =====
-- conftree.c: cft_EnumFirst, cft_EnumNext and cft_GetKey, and the loop that lists sub-keys with them.
use script_basic.Common.{
  ℕ, zero, suc, ◌<◌, ◌≡◌, ◌≢◌, refl, sym, List, [], ◌∷◌, Option, none, some, if◌then◌else◌, arith,
}
use script_basic.ConfigTree.{ConfigNode, ConfigTree, is_branch, node_at, string_at}
use script_basic.ConfigTree.Forest.{
  Value, Forest, empty, branch, leaf, Item, absent, subtree, value, id_of, find, size, Stands,
  StandsFor,
}
use script_basic.ConfigTree.Items.{ItemStands, find-ItemStands, sub_level, size-find}
use script_basic.ConfigTree.Text.{Reads}

unfoldable pub enum_first : ConfigTree → ℕ → Option ℕ
enum_first t zero = some 1
enum_first t (suc i) = elim (node_at t.nodes (suc i)) [
  | none ↦ none
  | some n ↦ some (if is_branch n then n.val else 0)
]

unfoldable pub enum_next : ConfigTree → ℕ → Option ℕ
enum_next t i = elim (node_at t.nodes i) [ none ↦ none | some n ↦ some n.next ]

-- `none` within the result is NULL.
unfoldable pub get_key : ConfigTree → ℕ → Option (Option (List ℕ))
get_key t zero = some none
get_key t (suc i) = elim (node_at t.nodes (suc i)) [
  | none ↦ none
  | some n ↦ some (some (string_at (some t) n.key))
]

-- A caller's loop: the id and the key of each node from this one on, until the id is zero.
unfoldable pub enumerate : ℕ → ConfigTree → ℕ → Option (List (ℕ × List ℕ))
enumerate zero t i = none
enumerate (suc fuel) t zero = some []
enumerate (suc fuel) t (suc i) = elim (get_key t (suc i)) [
  | none ↦ none
  | some none ↦ none
  | some (some key) ↦ elim (enum_next t (suc i)) [
    | none ↦ none
    | some j ↦ elim (enumerate fuel t j) [ none ↦ none | some rest ↦ some ((suc i, key) ∷ rest) ]
  ]
]

unfoldable pub enumerate_below : ℕ → ConfigTree → ℕ → Option (List (ℕ × List ℕ))
enumerate_below fuel t i = elim (enum_first t i) [ none ↦ none | some j ↦ enumerate fuel t j ]

-- The list has the ids and the names of the level, in order.
abbrev pub Lists : ℕ → List (ℕ × List ℕ) → Forest → Type 0
Lists tc [] empty = Unit
Lists tc [] (branch i w c r) = ⊥
Lists tc [] (leaf i w v r) = ⊥
Lists tc (x ∷ xs) empty = ⊥
Lists tc (x ∷ xs) (branch i w c r) = (x.0 ≡ i) × Reads tc w x.1 × Lists tc xs r
Lists tc (x ∷ xs) (leaf i w v r) = (x.0 ≡ i) × Reads tc w x.1 × Lists tc xs r

-- The loop has ended, with the level's ids and names.
abbrev pub Enumerated : ℕ → Forest → Option (List (ℕ × List ℕ)) → Type 0
Enumerated tc f none = ⊥
Enumerated tc f (some xs) = Lists tc xs f

abbrev added : ℕ × List ℕ → Option (List (ℕ × List ℕ)) → Option (List (ℕ × List ℕ))
added x none = none
added x (some xs) = some (x ∷ xs)

enumerate_next :
    (fuel : ℕ) (t : ConfigTree) (i : ℕ) (n : ConfigNode)
    → i ≢ 0
    → node_at t.nodes i ≡ some n
    → enumerate (suc fuel) t i ≡ added (i, string_at (some t) n.key) (enumerate fuel t n.next)
unfolding enumerate get_key enum_next
enumerate_next fuel t zero n nz e = absurd (nz refl)
enumerate_next fuel t (suc i) n nz e = rw (e, enumerate, get_key, enum_next) (rw e refl)

added-branch :
    (tc i j : ℕ) (w key : List ℕ) (c r : Forest) (o : Option (List (ℕ × List ℕ)))
    → j ≡ i
    → Reads tc w key
    → Enumerated tc r o
    → Enumerated tc (branch j w c r) (added (i, key) o)
added-branch tc i j w key c r none e m h = h
added-branch tc i j w key c r (some xs) e m h = (sym e, m, h)

added-leaf :
    (tc i j : ℕ) (w key : List ℕ) (v : Value) (r : Forest) (o : Option (List (ℕ × List ℕ)))
    → j ≡ i
    → Reads tc w key
    → Enumerated tc r o
    → Enumerated tc (leaf j w v r) (added (i, key) o)
added-leaf tc i j w key v r none e m h = h
added-leaf tc i j w key v r (some xs) e m h = (sym e, m, h)

pub enumerate-Enumerated :
    (fuel : ℕ) (t : ConfigTree) (f : Forest) (i : ℕ)
    → Stands t i f
    → size f < fuel
    → Enumerated t.separator f (enumerate fuel t i)
unfolding enumerate size
enumerate-Enumerated zero t f i st lt = absurd (omega arith)
enumerate-Enumerated (suc fuel) t empty i st lt = rw st tt
enumerate-Enumerated (suc fuel) t (branch j w c r) i (e, (n, h, b, below, after)) lt =
    rw (enumerate_next fuel t i n h.0 h.1) (
      added-branch t.separator i j w (string_at (some t) n.key) c r (enumerate fuel t n.next) e h.2
        (enumerate-Enumerated fuel t r n.next after (omega arith)))
enumerate-Enumerated (suc fuel) t (leaf j w v r) i (e, (n, h, b, hv, after)) lt =
    rw (enumerate_next fuel t i n h.0 h.1) (
      added-leaf t.separator i j w (string_at (some t) n.key) v r (enumerate fuel t n.next) e h.2
        (enumerate-Enumerated fuel t r n.next after (omega arith)))

enum_first-node :
    (t : ConfigTree) (i : ℕ) (n : ConfigNode)
    → i ≢ 0
    → node_at t.nodes i ≡ some n
    → enum_first t i ≡ some (if is_branch n then n.val else 0)
unfolding enum_first
enum_first-node t zero n nz e = absurd (nz refl)
enum_first-node t (suc i) n nz e = rw (e, enum_first) refl

enumerate_below-node :
    (fuel : ℕ) (t : ConfigTree) (i : ℕ) (n : ConfigNode)
    → i ≢ 0
    → node_at t.nodes i ≡ some n
    → enumerate_below fuel t i ≡ enumerate fuel t (if is_branch n then n.val else 0)
unfolding enumerate_below
enumerate_below-node fuel t i n nz e = rw (enum_first-node t i n nz e, enumerate_below) refl

enumerate_below-item :
    (fuel : ℕ) (t : ConfigTree) (o : Item)
    → ItemStands t o
    → o ≢ absent
    → size (sub_level o) < fuel
    → Enumerated t.separator (sub_level o) (enumerate_below fuel t (id_of o))
enumerate_below-item fuel t absent s h lt = absurd (h refl)
enumerate_below-item fuel t (subtree i c) (n, nz, e, b, below) h lt =
    rw (enumerate_below-node fuel t i n nz e) (rw b (enumerate-Enumerated fuel t c n.val below lt))
enumerate_below-item fuel t (value i v) (n, nz, e, b, hv) h lt =
    rw (enumerate_below-node fuel t i n nz e) (rw b (enumerate-Enumerated fuel t empty 0 refl lt))

-- In a configuration that stands for a tree of keys, the loop over cft_EnumFirst and cft_EnumNext
-- below the node of an item that is there ends, and gives the ids of the sub-keys of the item in
-- order, with what cft_GetKey gives for each starting with its name; below a leaf it gives none.
-- Fuel above the size of the tree is enough.
pub enumerate_below-find :
    (fuel : ℕ) (t : ConfigTree) (f : Forest) (p : List ℕ) (ps : List (List ℕ))
    → StandsFor t f
    → find p ps f ≢ absent
    → size f < fuel
    → Enumerated t.separator
        (sub_level (find p ps f))
        (enumerate_below fuel t (id_of (find p ps f)))
enumerate_below-find fuel t f p ps s h lt =
    enumerate_below-item fuel t (find p ps f) (find-ItemStands t f 1 p ps s.levels) h
      (omega (arith, size-find f p ps))
