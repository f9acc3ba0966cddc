-- ===== src/ConfigTree/RoundTrip.antt =====
-- conftree.c: what cft_WriteConfig has written cft_ReadConfig reads again.
use script_basic.Common.{
  ℕ, ◌/◌, ◌≤◌, ◌<◌, ◌≡◌, ◌≢◌, refl, sym, ap, ◌∙◌, some, true, false, List, [], ◌∷◌, ◌++◌, length,
  take-append, drop-append, take-all, leb, ◌==◌, long_mod, arith,
}
use script_basic.Memory.{Allocator}
use script_basic.ConfigTree.{ConfigNode, ConfigTree}
use script_basic.ConfigTree.Bytes.{
  bytes_of, word_of, node_bytes, sizeof_node, length-node_bytes, Fits-long, word_of-bytes_of,
  bytes_node-node_bytes,
}
use script_basic.ConfigTree.File.{
  table_size, joined_nodes, split_nodes, overwritten, read_text, read_nodes, read_tables,
  read_counts, read_config, write_config,
}
use script_basic.ConfigTree.Written.{
  AreNodes, IsStored, image, length-joined_nodes, write_config-written,
}

split_nodes-joined_nodes :
    (ns : List ConfigNode) → AreNodes ns → split_nodes (length ns) (joined_nodes ns) ≡ ns
unfolding split_nodes joined_nodes
split_nodes-joined_nodes [] h = refl
split_nodes-joined_nodes (n ∷ ns) (hn, hs) = rw (bytes_node-node_bytes n (joined_nodes ns) hn) (
    rw (drop-append sizeof_node (node_bytes n) (joined_nodes ns) (length-node_bytes n))
      (ap (λ l. n ∷ l) (split_nodes-joined_nodes ns hs)))

module _ {ℓ} {S : Type ℓ} (t t' : ConfigTree) (seg : S) where
  read_text-text :
      length t.text ≡ t'.text_size → read_text t.text t' seg ≡ (0, record t' { text = t.text }, seg)
  unfolding read_text
  read_text-text e =
      let whole : (length t.text == t'.text_size) ≡ true = ground (arith, e) in
      rw (take-all t'.text_size t.text e) (rw whole refl)

-- The two tables are read from the bytes of the tables.
read_nodes-tables {ℓ} :
    {S : Type ℓ} (t t' : ConfigTree) (seg : S)
    → IsStored t
    → t'.node_count ≡ t.node_count
    → t'.text_size ≡ t.text_size
    → read_nodes (joined_nodes t.nodes ++ t.text) t' seg
      ≡ (0, record t' { nodes = t.nodes; text = t.text }, seg)
unfolding read_nodes
read_nodes-tables t t' seg s c z =
    let size : length (joined_nodes t.nodes) ≡ table_size t'.node_count =
      omega (arith, length-joined_nodes t.nodes, s.node_count, s.size_fits, c) in
    let whole : (length (joined_nodes t.nodes) == table_size t'.node_count) ≡ true =
      ground (arith, size) in
    let number : length (joined_nodes t.nodes) / sizeof_node ≡ length t.nodes =
      omega (arith, length-joined_nodes t.nodes) in
    rw (take-append _ (joined_nodes t.nodes) t.text size) (
      rw (drop-append _ (joined_nodes t.nodes) t.text size) (
        rw whole (
          rw number (
            rw (split_nodes-joined_nodes t.nodes s.nodes)
              (read_text-text t (record t' { nodes = t.nodes }) seg (s.text_size ∙ sym z))))))

-- The tree with what the file of another has, and its tables at these addresses.
abbrev pub loaded : ConfigTree → ConfigTree → ℕ → ℕ → ConfigTree
loaded t old root strings = record old {
  root = root;
  nodes = t.nodes;
  node_count = t.node_count;
  strings = strings;
  text = t.text;
  text_size = t.text_size;
}

overwritten-bytes_of : (w old : ℕ) → w < long_mod → overwritten (bytes_of 8 w) old ≡ w
unfolding overwritten bytes_of
overwritten-bytes_of w old h = word_of-bytes_of 8 w (Fits-long w h)

module _ (a : Allocator) where
  open a use {Segment, alloc}

  -- The two allocations of a table of so many nodes and a text of this size
  abbrev pub root_of : ConfigTree → Segment → ℕ × Segment
  root_of t seg = alloc (table_size t.node_count) seg

  abbrev pub strings_of : ConfigTree → Segment → ℕ × Segment
  strings_of t seg = alloc t.text_size (root_of t seg).1

  -- The tree with the counts of another.
  abbrev counted : ConfigTree → ConfigTree → ConfigTree
  counted t old = record old { node_count = t.node_count; text_size = t.text_size }

  read_tables-tables :
      (t old : ConfigTree) (seg : Segment)
      → IsStored t
      → (root_of t seg).0 ≢ 0
      → (strings_of t seg).0 ≢ 0
      → read_tables a (joined_nodes t.nodes ++ t.text) (counted t old) seg
        ≡ (0, loaded t old (root_of t seg).0 (strings_of t seg).0, (strings_of t seg).1)
  unfolding read_tables
  read_tables-tables t old seg s h k =
      let root : ((root_of t seg).0 == 0) ≡ false = ground (arith, h) in
      let strings : ((strings_of t seg).0 == 0) ≡ false = ground (arith, k) in
      let t' : ConfigTree = record (counted t old) {
        root = (root_of t seg).0;
        nodes = [];
        strings = (strings_of t seg).0;
        text = [];
      } in
      rw root (rw strings (read_nodes-tables t t' (strings_of t seg).1 s refl refl))

  pub read_config-image :
      (t old : ConfigTree) (seg : Segment)
      → IsStored t
      → (root_of t seg).0 ≢ 0
      → (strings_of t seg).0 ≢ 0
      → read_config a (some (image t)) old seg
        ≡ (0, loaded t old (root_of t seg).0 (strings_of t seg).0, (strings_of t seg).1)
  unfolding read_config read_counts image bytes_of word_of
  read_config-image t old seg s h k =
      let count = overwritten-bytes_of t.node_count old.node_count (omega (arith, s.size_fits)) in
      let size = overwritten-bytes_of t.text_size old.text_size s.text_fits in
      let some_node : (t.node_count == 0) ≡ false = ground (arith, s.some_node) in
      rw count (rw size (rw some_node (read_tables-tables t old seg s h k)))

-- A tree that was written, read back into another: the file, and what the reader has made of it.
pub record ReadBack (a : Allocator) (t old : ConfigTree) (seg : a.Segment) (room : ℕ) : Type 0 where
  pub file : List ℕ
  pub wrote : write_config (some room) t ≡ some (0, some file)
  pub read :
      read_config a (some file) old seg
      ≡ (0, loaded t old (root_of a t seg).0 (strings_of a t seg).0, (strings_of a t seg).1)

-- A configuration whose tables are as long as its counts say, with a node at least and its numbers
-- in their ranges, is written by cft_WriteConfig with the code 0 when the file has room, and
-- cft_ReadConfig, when its two allocations succeed, reads the same nodes, text and counts from that
-- file, with the code 0.
pub read_config-write_config :
    (a : Allocator) (t old : ConfigTree) (seg : a.Segment) (room : ℕ)
    → IsStored t
    → length (image t) ≤ room
    → (root_of a t seg).0 ≢ 0
    → (strings_of a t seg).0 ≢ 0
    → ReadBack a t old seg room
read_config-write_config a t old seg room s r h k =
    let fits : leb (length (image t)) room ≡ true = ground (arith, r) in
    record {
      file = image t;
      wrote = write_config-written t room s ∙ rw fits refl;
      read = read_config-image a t old seg s h k;
    }
