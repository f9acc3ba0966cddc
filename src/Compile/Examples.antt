-- ===== src/Compile/Examples.antt =====
-- confpile.c: the text `a (b "x") c 7`, and lists that are refused.
use script_basic.Common.{ℕ, ◌≡◌, ◌≢◌, refl, [], ◌∷◌, some, none, false, ◌==◌, arith}
use script_basic.Memory.Counting.{counting}
use script_basic.ConfigTree.{ConfigNode, ConfigTree}
use script_basic.Compile.{
  symbol, string, integer, Lval, nil, atom, sub, counts, error_syntax, remove_nil, count_sub_tree,
  build_sub_tree, no_tables, read_text_config,
}
use script_basic.ConfigTree.Forest.{Forest, Stands}
use script_basic.Compile.Sizes.{Compiled, read_text_config-Compiled}
use script_basic.Compile.Stands.{Matches, AreKeys, build_sub_tree-Stands}

abbrev fresh : ℕ → ConfigNode
fresh i = record { key = 0; next = 0; val = 0; flag = 255; padding = 0 }

abbrev source : Lval
source = atom (symbol (b'a' ∷ [])) (
    sub (atom (symbol (b'b' ∷ [])) (atom (string (b'x' ∷ [])) nil))
      (atom (symbol (b'c' ∷ [])) (atom (integer 7) nil)))

abbrev node : ℕ → ℕ → ℕ → ℕ → ConfigNode
node k n v f = record { key = k; next = n; val = v; flag = f; padding = 0 }

source_nodes : build_sub_tree fresh source 0 no_tables ≡ record {
  nodes = node 0 3 2 1 ∷ node 2 0 4 2 ∷ node 6 0 7 4 ∷ [];
  text = b'a' ∷ 0 ∷ b'b' ∷ 0 ∷ b'x' ∷ 0 ∷ b'c' ∷ 0 ∷ [];
}
unfolding build_sub_tree
source_nodes = refl

-- RemoveNil empties the value of `r`, but leaves `r` with it; CountSubTree refuses that.
abbrev emptied : Lval
emptied = atom (symbol (b'r' ∷ [])) (sub (atom (symbol (b's' ∷ [])) (sub nil nil)) nil)

emptied_refused : count_sub_tree (remove_nil emptied) 0 0 ≡ counts error_syntax 1 2
unfolding count_sub_tree remove_nil
emptied_refused = refl

abbrev old : ConfigTree
old = record {
  root = 0;
  nodes = [];
  node_count = 0;
  strings = 0;
  text = [];
  text_size = 0;
  separator = 46;
  file_name = none;
}

read_text_config-Compiled_example : Compiled (read_text_config counting fresh (some source) old 5)
read_text_config-Compiled_example = read_text_config-Compiled counting fresh (some source) old 5

abbrev compiled : ConfigTree
compiled = record old {
  nodes = (build_sub_tree fresh source 0 no_tables).nodes;
  text = (build_sub_tree fresh source 0 no_tables).text;
}

differ : (x y : ℕ) → (x == y) ≡ false → x ≢ y
differ x y h = ground arith

source-AreKeys : AreKeys 46 source
source-AreKeys = (
  (differ b'a' 0 refl, differ b'a' 46 refl, tt),
  tt,
  ((differ b'b' 0 refl, differ b'b' 46 refl, tt), tt),
  ((differ b'c' 0 refl, differ b'c' 46 refl, tt), tt),
)

build_sub_tree-Stands_example : (f : Forest) × Stands compiled 1 f × Matches source f
build_sub_tree-Stands_example =
    build_sub_tree-Stands fresh source compiled ((tt, tt), (tt, tt)) tt source-AreKeys refl refl
