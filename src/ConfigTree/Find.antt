-- ===== src/ConfigTree/Find.antt =====
-- conftree.c: cft_FindNode walks the nodes to the item that the key spells.
use script_basic.Common.{
  ℕ, zero, suc, ◌<◌, ◌≡◌, ◌≢◌, refl, ◌∙◌, sym, inl, inr, List, [], ◌∷◌, ◌++◌, some, true, false,
  ◌==◌, Bool-cases, arith,
}
use script_basic.ConfigTree.{
  ConfigNode, ConfigTree, is_branch, node_at, string_at, strmyeq, end_of_part, find_from, find_node,
}
use script_basic.Common.Text.{same}
use script_basic.ConfigTree.Text.{IsPart, IsEnd, strmyeq-same, end_of_part-skips}
use script_basic.ConfigTree.Forest.{
  Forest, empty, branch, leaf, id_of, find, size, spelled, ArePlain, HasNode, Stands, StandsFor,
}

-- The steps of the loop at a node: on to the next one, the end of the key, the level below, and a
-- leaf where the key goes on.
module _ (fuel : ℕ) (t : ConfigTree) (key : List ℕ) (n : ConfigNode) where
  find_next :
      (i : ℕ)
      → i ≢ 0
      → node_at t.nodes i ≡ some n
      → strmyeq t.separator key (string_at (some t) n.key) ≡ some false
      → find_from (suc fuel) t i key ≡ find_from fuel t n.next key
  unfolding find_from
  find_next zero h e s = absurd (h refl)
  find_next (suc i) h e s = rw (e, find_from) (rw s refl)

  find_here :
      (i : ℕ)
      → i ≢ 0
      → node_at t.nodes i ≡ some n
      → strmyeq t.separator key (string_at (some t) n.key) ≡ some true
      → end_of_part t.separator key ≡ 0 ∷ []
      → find_from (suc fuel) t i key ≡ some i
  unfolding find_from
  find_here zero h e s k = absurd (h refl)
  find_here (suc i) h e s k = rw (e, find_from) (rw s (rw k refl))

  find_below :
      (i : ℕ) (key' : List ℕ)
      → t.separator ≢ 0
      → i ≢ 0
      → node_at t.nodes i ≡ some n
      → strmyeq t.separator key (string_at (some t) n.key) ≡ some true
      → end_of_part t.separator key ≡ t.separator ∷ key'
      → find_from (suc fuel) t i key
        ≡ elim (is_branch n) [ true ↦ find_from fuel t n.val key' | false ↦ some 0 ]
  unfolding find_from
  find_below zero key' z h e s k = absurd (h refl)
  find_below (suc i) key' z h e s k =
      let separator : (t.separator == 0) ≡ false = ground arith in
      rw (e, find_from) (rw s (rw k (rw separator refl)))

-- A part of a path and what follows it in the key
compared :
    (t : ConfigTree) (i : ℕ) (w : List ℕ) (n : ConfigNode) (p : List ℕ) (c : ℕ) (r : List ℕ)
    → HasNode t i w n
    → IsPart t.separator p
    → IsEnd t.separator c
    → strmyeq t.separator (p ++ c ∷ r) (string_at (some t) n.key) ≡ some (same p w)
compared t i w n p c r (nz, e, (hw, (d, rest, hd, m))) hp hc =
    rw m (strmyeq-same t.separator p w c d r rest hp hw hc hd)

compared_path :
    (t : ConfigTree) (i : ℕ) (w : List ℕ) (n : ConfigNode) (p : List ℕ) (ps : List (List ℕ))
    → HasNode t i w n
    → IsPart t.separator p
    → strmyeq t.separator (spelled t.separator p ps) (string_at (some t) n.key) ≡ some (same p w)
unfolding spelled
compared_path t i w n p [] h hp = compared t i w n p 0 [] h hp (inl refl)
compared_path t i w n p (q ∷ qs) h hp = compared t i w n p t.separator _ h hp (inr refl)

-- The node has another name.
passed :
    (fuel : ℕ) (t : ConfigTree) (i : ℕ) (w : List ℕ) (n : ConfigNode) (p : List ℕ)
    (ps : List (List ℕ))
    → HasNode t i w n
    → IsPart t.separator p
    → same p w ≡ false
    → find_from (suc fuel) t i (spelled t.separator p ps)
      ≡ find_from fuel t n.next (spelled t.separator p ps)
passed fuel t i w n p ps h hp e =
    find_next fuel t (spelled t.separator p ps) n i h.0 h.1
      (rw (sym e) (compared_path t i w n p ps h hp))

-- The node has the last name of the path.
reached :
    (fuel : ℕ) (t : ConfigTree) (i : ℕ) (w : List ℕ) (n : ConfigNode) (p : List ℕ)
    → HasNode t i w n
    → IsPart t.separator p
    → same p w ≡ true
    → find_from (suc fuel) t i (spelled t.separator p []) ≡ some i
unfolding spelled
reached fuel t i w n p h hp e =
    find_here fuel t (p ++ 0 ∷ []) n i h.0 h.1 (rw (sym e) (compared_path t i w n p [] h hp))
      (end_of_part-skips t.separator p 0 [] hp (inl refl))

-- The node has a name of the path that others follow.
entered :
    (fuel : ℕ) (t : ConfigTree) (i : ℕ) (w : List ℕ) (n : ConfigNode) (p q : List ℕ)
    (qs : List (List ℕ))
    → t.separator ≢ 0
    → HasNode t i w n
    → IsPart t.separator p
    → same p w ≡ true
    → find_from (suc fuel) t i (spelled t.separator p (q ∷ qs)) ≡ elim (is_branch n) [
      | true ↦ find_from fuel t n.val (spelled t.separator q qs)
      | false ↦ some 0
    ]
unfolding spelled
entered fuel t i w n p q qs z h hp e =
    find_below fuel t (p ++ t.separator ∷ spelled t.separator q qs) n i (spelled t.separator q qs) z
      h.0 h.1 (rw (sym e) (compared_path t i w n p (q ∷ qs) h hp))
      (end_of_part-skips t.separator p t.separator (spelled t.separator q qs) hp (inr refl))

find_from-find :
    (fuel : ℕ) (t : ConfigTree) (f : Forest) (i : ℕ) (p : List ℕ) (ps : List (List ℕ))
    → t.separator ≢ 0
    → Stands t i f
    → IsPart t.separator p
    → ArePlain t.separator ps
    → size f < fuel
    → find_from fuel t i (spelled t.separator p ps) ≡ some (id_of (find p ps f))
unfolding find_from find size
find_from-find zero t f i p ps z st hp hps lt = absurd (omega arith)
find_from-find (suc fuel) t empty i p ps z st hp hps lt = rw st refl
find_from-find (suc fuel) t (branch j w c r) i p [] z (e, (n, h, b, below, after)) hp hps lt =
    elim (Bool-cases (same p w)) [
      | inl s ↦ rw s (rw e (reached fuel t i w n p h hp s))
      | inr s ↦ rw s (
          passed fuel t i w n p [] h hp s
          ∙ find_from-find fuel t r n.next p [] z after hp hps (omega arith))
    ]
find_from-find (suc fuel) t (branch j w c r) i p (q ∷ qs) z (e, (n, h, b, below, after)) hp hps lt =
    elim (Bool-cases (same p w)) [
      | inl s ↦ rw s (
          entered fuel t i w n p q qs z h hp s
          ∙ rw b (find_from-find fuel t c n.val q qs z below hps.0 hps.1 (omega arith)))
      | inr s ↦ rw s (
          passed fuel t i w n p (q ∷ qs) h hp s
          ∙ find_from-find fuel t r n.next p (q ∷ qs) z after hp hps (omega arith))
    ]
find_from-find (suc fuel) t (leaf j w v r) i p [] z (e, (n, h, b, hv, after)) hp hps lt =
    elim (Bool-cases (same p w)) [
      | inl s ↦ rw s (rw e (reached fuel t i w n p h hp s))
      | inr s ↦ rw s (
          passed fuel t i w n p [] h hp s
          ∙ find_from-find fuel t r n.next p [] z after hp hps (omega arith))
    ]
find_from-find (suc fuel) t (leaf j w v r) i p (q ∷ qs) z (e, (n, h, b, hv, after)) hp hps lt =
    elim (Bool-cases (same p w)) [
      | inl s ↦ rw s (entered fuel t i w n p q qs z h hp s ∙ rw b refl)
      | inr s ↦ rw s (
          passed fuel t i w n p (q ∷ qs) h hp s
          ∙ find_from-find fuel t r n.next p (q ∷ qs) z after hp hps (omega arith))
    ]

-- In a configuration that stands for a tree of keys, cft_FindNode from node 1 with the names of a
-- path, none of which has a zero byte or the separator, gives the id of the item that a search by
-- whole names finds in the tree, and 0 where there is none; fuel above the size of the tree is
-- enough.
pub find_node-find :
    (fuel : ℕ) (t : ConfigTree) (f : Forest) (p : List ℕ) (ps : List (List ℕ))
    → StandsFor t f
    → IsPart t.separator p
    → ArePlain t.separator ps
    → size f < fuel
    → find_node fuel (some t) 1 (spelled t.separator p ps) ≡ some (id_of (find p ps f))
unfolding find_node
find_node-find fuel t f p ps s hp hps lt =
    let read : (t.root == 0) ≡ false = ground (arith, s.read) in
    rw read (find_from-find fuel t f 1 p ps s.separates s.levels hp hps lt)
