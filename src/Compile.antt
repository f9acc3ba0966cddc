-- ===== src/Compile.antt =====
-- confpile.c: a configuration in its text form, a LISP list, made into a configuration tree. The lists
-- are those that the reader makes, with NULL at their end.
mod Sizes
mod Link
mod Frame
mod Leaf
mod Stands
mod Examples
use script_basic.Common.{
  ℕ, zero, suc, ◌+◌, ◌-◌, ◌*◌, List, [], ◌∷◌, ◌++◌, length, set, get_or, Option, none, some, Bool,
  true, false, ◌==◌, if◌then◌else◌,
}
use script_basic.Memory.{Allocator}
use script_basic.ConfigTree.{
  ConfigNode, ConfigTree, node_branch, type_string, type_integer, type_real,
}
use script_basic.ConfigTree.File.{error_file, error_memory, error_empty, table_size}

abbrev pub error_syntax : ℕ
error_syntax = 2

-- A node of a LISP list that is no list: a symbol, a string, a float by the word that stores it, an
-- integer, a character.
pub data Atom : Type 0 where
  symbol : List ℕ → Atom
  string : List ℕ → Atom
  float : ℕ → Atom
  integer : ℕ → Atom
  character : ℕ → Atom

-- NULL, or a list whose first element is an atom, or a list (NULL among them).
pub data Lval : Type 0 where
  nil : Lval
  atom : Atom → Lval → Lval
  sub : Lval → Lval → Lval

-- The elements from the second on; `consp` of the second element is told apart by the cases.
unfoldable pub remove_nil : Lval → Lval
remove_nil nil = nil
remove_nil (atom a nil) = nil
remove_nil (atom a (atom v rest)) = atom a (atom v (remove_nil rest))
remove_nil (atom a (sub nil rest)) = remove_nil rest
remove_nil (atom a (sub (atom v q) rest)) = atom a (sub (remove_nil (atom v q)) (remove_nil rest))
remove_nil (atom a (sub (sub v q) rest)) = atom a (sub (remove_nil (sub v q)) (remove_nil rest))
remove_nil (sub k nil) = nil
remove_nil (sub k (atom v rest)) = sub k (atom v (remove_nil rest))
remove_nil (sub k (sub nil rest)) = remove_nil rest
remove_nil (sub k (sub (atom v q) rest)) = sub k (sub (remove_nil (atom v q)) (remove_nil rest))
remove_nil (sub k (sub (sub v q) rest)) = sub k (sub (remove_nil (sub v q)) (remove_nil rest))

-- What CountSubTree returns, and the two counters.
pub record Count : Type 0 where
  pub code : ℕ
  pub nodes : ℕ
  pub strings : ℕ

abbrev pub counts : ℕ → ℕ → ℕ → Count
counts c n s = record { code = c; nodes = n; strings = s }

-- The next round of the loop, or the return with an error
abbrev pub count_on : (ℕ → ℕ → Count) → Count → Count
count_on next c =
    if c.code == 0 then next c.nodes c.strings else counts error_syntax c.nodes c.strings

-- The value of a key that is no list
abbrev pub count_value : Atom → ℕ → ℕ → Count
count_value (symbol v) n s = counts 0 n (s + suc (length v))
count_value (string v) n s = counts 0 n (s + suc (length v))
count_value (float w) n s = counts 0 n s
count_value (integer w) n s = counts 0 n s
count_value (character c) n s = counts error_syntax n s

unfoldable pub count_sub_tree : Lval → ℕ → ℕ → Count
count_sub_tree nil n s = counts 0 n s
count_sub_tree (sub k rest) n s = counts error_syntax (suc n) s
count_sub_tree (atom (string k) rest) n s = counts error_syntax (suc n) s
count_sub_tree (atom (float k) rest) n s = counts error_syntax (suc n) s
count_sub_tree (atom (integer k) rest) n s = counts error_syntax (suc n) s
count_sub_tree (atom (character k) rest) n s = counts error_syntax (suc n) s
count_sub_tree (atom (symbol k) nil) n s = counts error_syntax (suc n) (s + suc (length k))
count_sub_tree (atom (symbol k) (atom v rest)) n s =
    count_on (count_sub_tree rest) (count_value v (suc n) (s + suc (length k)))
count_sub_tree (atom (symbol k) (sub nil rest)) n s =
    counts error_syntax (suc n) (s + suc (length k))
count_sub_tree (atom (symbol k) (sub (atom v q) rest)) n s =
    count_on (count_sub_tree rest) (count_sub_tree (atom v q) (suc n) (s + suc (length k)))
count_sub_tree (atom (symbol k) (sub (sub v q) rest)) n s =
    count_on (count_sub_tree rest) (count_sub_tree (sub v q) (suc n) (s + suc (length k)))

-- What is written of the two tables so far; the next indices are one more than the number of the nodes
-- and the number of the characters.
pub record Tables : Type 0 where
  pub nodes : List ConfigNode
  pub text : List ℕ

abbrev pub no_tables : Tables
no_tables = record { nodes = []; text = [] }

-- `if( prev )pCT->Root[prev-1].lNext = *plNindex;`
abbrev pub linked : ℕ → ConfigNode → List ConfigNode → List ConfigNode
linked prev default nodes =
    if prev == 0
    then nodes
    else set nodes (prev - 1)
        (record (get_or nodes (prev - 1) default) { next = suc (length nodes) })

-- The characters of an atom that is a symbol; `getsymbol` of another one is not called.
abbrev pub characters : Atom → List ℕ
characters (symbol v) = v
characters (string v) = v
characters (float w) = []
characters (integer w) = []
characters (character c) = []

-- The value that is set in the node of the key, and the text that is copied for it.
abbrev pub fill_value : Atom → ℕ → ConfigNode → ConfigNode
fill_value (symbol v) at n = record n { val = at; flag = type_string }
fill_value (string v) at n = record n { val = at; flag = type_string }
fill_value (float w) at n = record n { val = w; flag = type_real }
fill_value (integer w) at n = record n { val = w; flag = type_integer }
fill_value (character c) at n = n

abbrev pub value_text : Atom → List ℕ
value_text (symbol v) = v ++ 0 ∷ []
value_text (string v) = v ++ 0 ∷ []
value_text (float w) = []
value_text (integer w) = []
value_text (character c) = []

module _ (fresh : ℕ → ConfigNode) where
  -- The node of a key: linked, put at the next index, its key copied. `fresh` is what the allocated
  -- memory has there.
  abbrev pub add_key : Atom → ℕ → (ℕ → ConfigNode → ConfigNode) → Tables → Tables
  add_key k prev fill t =
      let i = suc (length t.nodes) in
      record {
        nodes =
            linked prev (fresh 0) t.nodes
            ++ fill i (record (fresh i) { key = length t.text; next = 0 }) ∷ [];
        text = t.text ++ characters k ++ 0 ∷ [];
      }

  abbrev pub add_leaf : Atom → Atom → ℕ → Tables → Tables
  add_leaf k v prev t =
      let at = length t.text + suc (length (characters k)) in
      let t' = add_key k prev (λ i n. fill_value v at n) t in
      record t' { text = t'.text ++ value_text v }

  -- The branch's `lVal` is the index of the first node below it.
  abbrev pub add_branch : Atom → ℕ → Tables → Tables
  add_branch k prev t = add_key k prev (λ i n. record n { val = suc i; flag = node_branch }) t

  -- BuildSubTree, on a list that CountSubTree has taken: its keys are atoms, with values.
  unfoldable pub build_sub_tree : Lval → ℕ → Tables → Tables
  build_sub_tree nil prev t = t
  build_sub_tree (sub k rest) prev t = t
  build_sub_tree (atom k nil) prev t = t
  build_sub_tree (atom k (atom v rest)) prev t =
      build_sub_tree rest (suc (length t.nodes)) (add_leaf k v prev t)
  build_sub_tree (atom k (sub q rest)) prev t =
      build_sub_tree rest (suc (length t.nodes)) (build_sub_tree q 0 (add_branch k prev t))

module _ (a : Allocator) where
  open a use {Segment, alloc, free}

  -- The part of cft_ReadTextConfig after the counting.
  unfoldable pub make_tables :
      (ℕ → ConfigNode) → Lval → ConfigTree → Segment → ℕ × ConfigTree × Segment
  make_tables fresh q t seg =
      let (root, seg') = alloc (table_size t.node_count) seg in
      let (strings, seg'') = alloc t.text_size seg' in
      let built = build_sub_tree fresh q 0 no_tables in
      let t' : ConfigTree = record t { root = root; nodes = [] } in
      let t'' : ConfigTree = record t' { strings = strings; text = [] } in
      if t.node_count == 0
      then (error_empty, t, seg)
      else (if root == 0
          then (error_memory, t', seg')
          else (if strings == 0
              then (error_memory, t'', free root seg'')
              else (0, record t'' { nodes = built.nodes; text = built.text }, seg'')))

  -- cft_ReadTextConfig, with the list that the reader makes of the file, if there is one.
  unfoldable pub read_text_config :
      (ℕ → ConfigNode) → Option Lval → ConfigTree → Segment → ℕ × ConfigTree × Segment
  read_text_config fresh none t seg = (error_file, t, seg)
  read_text_config fresh (some q) t seg =
      let q' = remove_nil q in
      let c = count_sub_tree q' 0 0 in
      let t' : ConfigTree = record t { node_count = c.nodes; text_size = c.strings } in
      if c.code == 0 then make_tables fresh q' t' seg else (c.code, t', seg)
