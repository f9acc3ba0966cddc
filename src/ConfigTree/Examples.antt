-- ===== src/ConfigTree/Examples.antt =====
-- conftree.c: a configuration with `a.b = "hi"` and `c = 7`, and the file of it.
use script_basic.Common.{
  ℕ, ◌≤◌, ◌<◌, ◌≡◌, ◌≢◌, refl, inl, Option, none, some, Bool, true, false, ◌&&◌, and_left,
  and_right, ltb, List, [], ◌∷◌, length, ◌==◌, arith,
}
use script_basic.Common.Int.{pos}
use script_basic.Memory.Counting.{counting}
use script_basic.ConfigTree.{
  ConfigNode, ConfigTree, node_at, string_at, find_node, unset, Request, get_ex,
}
use script_basic.ConfigTree.Text.{IsPart}
use script_basic.ConfigTree.Forest.{
  string, long, Forest, empty, branch, leaf, absent, id_of, find, size, spelled, HasNode, ArePlain,
  StandsFor, Stands,
}
use script_basic.ConfigTree.Bytes.{Fits, AreBytes, bytes_of, node_bytes}
use script_basic.ConfigTree.Items.{sub_level}
use script_basic.ConfigTree.Find.{find_node-find}
use script_basic.ConfigTree.Value.{get_string, string_of, report, get_ex-report}
use script_basic.ConfigTree.Enum.{Enumerated, enumerate_below, enumerate_below-find}
use script_basic.ConfigTree.File.{read_config, joined_nodes}
use script_basic.ConfigTree.Written.{IsStored, image}
use script_basic.ConfigTree.RoundTrip.{ReadBack, root_of, strings_of, read_config-write_config}
use script_basic.ConfigTree.Accepted.{Accepted, read_config-Accepted}
use script_basic.ConfigTree.Start.{
  dot, after_name, copy_name, start_config, start_config-get_string,
}

abbrev node : ℕ → ℕ → ℕ → ℕ → ConfigNode
node k n v f = record { key = k; next = n; val = v; flag = f; padding = 0 }

abbrev text : List ℕ
text = 97 ∷ 0 ∷ 98 ∷ 0 ∷ 104 ∷ 105 ∷ 0 ∷ 99 ∷ 0 ∷ []

abbrev nodes : List ConfigNode
nodes = node 0 3 2 1 ∷ node 2 0 4 2 ∷ node 7 0 7 4 ∷ []

abbrev tree : ConfigTree
tree = record {
  root = 1000;
  nodes = nodes;
  node_count = 3;
  strings = 2000;
  text = text;
  text_size = 9;
  separator = dot;
  file_name = none;
}

abbrev fresh : ConfigTree
fresh = record {
  root = 0;
  nodes = [];
  node_count = 0;
  strings = 0;
  text = [];
  text_size = 0;
  separator = dot;
  file_name = none;
}

abbrev name_a : List ℕ
name_a = 97 ∷ []

abbrev name_b : List ℕ
name_b = 98 ∷ []

abbrev hi : List ℕ
hi = 104 ∷ 105 ∷ 0 ∷ 99 ∷ 0 ∷ []

abbrev forest : Forest
forest = branch 1 name_a (leaf 2 name_b (string hi) empty) (leaf 3 (99 ∷ []) (long (pos 7)) empty)

differ : (m n : ℕ) → (m == n) ≡ false → m ≢ n
differ m n e = ground arith

node_here :
    (i : ℕ) (c : ℕ) (rest : List ℕ) (n : ConfigNode)
    → (i == 0) ≡ false
    → node_at tree.nodes i ≡ some n
    → (c == 0) ≡ false
    → (c == dot) ≡ false
    → string_at (some tree) n.key ≡ c ∷ 0 ∷ rest
    → HasNode tree i (c ∷ []) n
node_here i c rest n z e x y m =
    (differ i 0 z, e, ((differ c 0 x, differ c dot y, tt), (0, rest, inl refl, m)))

tree-levels : Stands tree 1 forest
unfolding string_at node_at
tree-levels = (
  refl,
  (
    node 0 3 2 1,
    node_here 1 97 _ (node 0 3 2 1) refl refl refl refl refl,
    refl,
    (
      refl,
      (
        node 2 0 4 2,
        node_here 2 98 _ (node 2 0 4 2) refl refl refl refl refl,
        refl,
        (refl, refl),
        refl,
      ),
    ),
    (
      refl,
      (
        node 7 0 7 4,
        node_here 3 99 _ (node 7 0 7 4) refl refl refl refl refl,
        refl,
        (refl, refl),
        refl,
      ),
    ),
  ),
)

tree-StandsFor : StandsFor tree forest
tree-StandsFor = record {
  read = differ 1000 0 refl;
  separates = differ dot 0 refl;
  levels = tree-levels;
}

tree-IsStored : IsStored tree
unfolding Fits
tree-IsStored = record {
  some_node = differ 3 0 refl;
  node_count = refl;
  size_fits = omega arith;
  nodes = (
    (refl, refl, refl, refl, refl),
    ((refl, refl, refl, refl, refl), ((refl, refl, refl, refl, refl), tt)),
  );
  text_size = refl;
  text_fits = omega arith;
}

plain_a : IsPart dot name_a
plain_a = (differ 97 0 refl, differ 97 dot refl, tt)

plain_b : ArePlain dot (name_b ∷ [])
plain_b = ((differ 98 0 refl, differ 98 dot refl, tt), tt)

size_forest : size forest < 4
unfolding size
size_forest = omega arith

find_node-find_example :
    find_node 4 (some tree) 1 (spelled dot name_a (name_b ∷ []))
    ≡ some (id_of (find name_a (name_b ∷ []) forest))
find_node-find_example =
    find_node-find 4 tree forest name_a (name_b ∷ []) tree-StandsFor plain_a plain_b size_forest

abbrev request : Request
request = record {
  key = some (spelled dot name_a (name_b ∷ []));
  id = unset;
  wants_string = true;
  wants_long = false;
  wants_real = false;
  wants_type = true;
}

get_ex-report_example :
    get_ex 4 (some tree) request ≡ some (report request (find name_a (name_b ∷ []) forest))
get_ex-report_example =
    get_ex-report 4 tree forest name_a (name_b ∷ []) request tree-StandsFor plain_a plain_b
      size_forest refl

branch_found : find name_a [] forest ≢ absent
unfolding find
branch_found e = cc

enumerate_below-find_example :
    Enumerated dot
      (sub_level (find name_a [] forest))
      (enumerate_below 4 tree (id_of (find name_a [] forest)))
enumerate_below-find_example =
    enumerate_below-find 4 tree forest name_a [] tree-StandsFor branch_found size_forest

image_fits : length (image tree) ≤ 1000
unfolding image bytes_of node_bytes joined_nodes
image_fits = omega arith

read_config-write_config_example : ReadBack counting tree fresh 5 1000
read_config-write_config_example =
    read_config-write_config counting tree fresh 5 1000 tree-IsStored image_fits
      (differ 5000 0 refl) (differ 4000 0 refl)

abbrev all_bytes : List ℕ → Bool
all_bytes [] = true
all_bytes (b ∷ bs) = ltb b 256 && all_bytes bs

all_bytes-AreBytes : (bs : List ℕ) → all_bytes bs ≡ true → AreBytes bs
all_bytes-AreBytes [] e = tt
all_bytes-AreBytes (b ∷ bs) e = (
  ground (arith, and_left (ltb b 256) (all_bytes bs) e),
  all_bytes-AreBytes bs (and_right (ltb b 256) (all_bytes bs) e),
)

file-AreBytes : AreBytes (image tree)
unfolding image bytes_of node_bytes joined_nodes
file-AreBytes = all_bytes-AreBytes (image tree) refl

read_config-Accepted_example :
    Accepted counting (image tree) (read_config counting (some (image tree)) fresh 5)
read_config-Accepted_example = read_config-Accepted counting (image tree) fresh 5 file-AreBytes

abbrev open_file : List ℕ → Option (List ℕ)
open_file name = some (image tree)

root_there : (root_of counting tree (after_name counting name_a 5)).0 ≢ 0
unfolding copy_name
root_there = differ 4000 0 refl

strings_there : (strings_of counting tree (after_name counting name_a 5)).0 ≢ 0
unfolding copy_name
strings_there = differ 3000 0 refl

start_config-get_string_example :
    ((start_config counting open_file none [] (some name_a) fresh 5).0 ≡ 0)
    × (get_string 4
          (some (start_config counting open_file none [] (some name_a) fresh 5).1)
          (spelled dot name_a (name_b ∷ []))
        ≡ some (string_of (find name_a (name_b ∷ []) forest)))
start_config-get_string_example =
    start_config-get_string counting open_file none [] name_a tree fresh 5 forest 4 name_a
      (name_b ∷ []) refl (omega arith) tree-IsStored refl tree-levels root_there strings_there
      plain_a plain_b size_forest
