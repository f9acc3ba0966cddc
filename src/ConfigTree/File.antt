-- ===== src/ConfigTree/File.antt =====
-- conftree.c: cft_ReadConfig and cft_WriteConfig, on a file that is a list of bytes.
use script_basic.Common.{
  ℕ, zero, suc, ◌-◌, ◌*◌, ◌/◌, ◌%◌, Option, none, some, true, false, not, ◌||◌, List, [], ◌∷◌, ◌++◌,
  length, take, drop, leb, ◌==◌, if◌then◌else◌, long_mod,
}
use script_basic.Memory.{Allocator}
use script_basic.ConfigTree.{ConfigNode, ConfigTree}
use script_basic.Common.Text.{same}
use script_basic.ConfigTree.Bytes.{bytes_of, word_of, node_bytes, bytes_node, sizeof_node}

abbrev pub error_file : ℕ
error_file = 1

abbrev pub error_memory : ℕ
error_memory = 3

abbrev pub error_empty : ℕ
error_empty = 4

abbrev pub sizeof_long : ℕ
sizeof_long = 8

abbrev pub magic : List ℕ
magic = 0x43 ∷ 0x46 ∷ 0x47 ∷ 0x1A ∷ []

-- `pCT->cNode*sizeof(tConfigNode)`
abbrev pub table_size : ℕ → ℕ
table_size node_count = node_count * sizeof_node % long_mod

-- The nodes in so many times 32 bytes.
unfoldable pub split_nodes : ℕ → List ℕ → List ConfigNode
split_nodes zero bs = []
split_nodes (suc k) bs = bytes_node bs ∷ split_nodes k (drop sizeof_node bs)

-- The bytes that a short read leaves are those of the old value.
unfoldable pub overwritten : List ℕ → ℕ → ℕ
overwritten got old = word_of (got ++ drop (length got) (bytes_of sizeof_long old))

module _ {ℓ} {S : Type ℓ} where
  unfoldable pub read_text : List ℕ → ConfigTree → S → ℕ × ConfigTree × S
  read_text bs t seg =
      let got = take t.text_size bs in
      (if length got == t.text_size then 0 else error_file, record t { text = got }, seg)

  unfoldable pub read_nodes : List ℕ → ConfigTree → S → ℕ × ConfigTree × S
  read_nodes bs t seg =
      let size = table_size t.node_count in
      let got = take size bs in
      let t' : ConfigTree = record t { nodes = split_nodes (length got / sizeof_node) got } in
      if length got == size then read_text (drop size bs) t' seg else (error_file, t', seg)

-- cft_ReadConfig. Memory that was just allocated has nothing in it to read.
module _ (a : Allocator) where
  open a use {Segment, alloc, free}

  unfoldable pub read_tables : List ℕ → ConfigTree → Segment → ℕ × ConfigTree × Segment
  read_tables bs t seg =
      let (root, seg') = alloc (table_size t.node_count) seg in
      let (strings, seg'') = alloc t.text_size seg' in
      let t' : ConfigTree = record t { root = root; nodes = [] } in
      let t'' : ConfigTree = record t' { strings = strings; text = [] } in
      if root == 0
      then (error_memory, t', seg')
      else (if strings == 0 then (error_memory, t'', free root seg'') else read_nodes bs t'' seg'')

  unfoldable pub read_counts : List ℕ → ConfigTree → Segment → ℕ × ConfigTree × Segment
  read_counts bs t seg =
      let count = take sizeof_long bs in
      let size = take sizeof_long (drop sizeof_long bs) in
      let t' : ConfigTree = record t { node_count = overwritten count t.node_count } in
      let t'' : ConfigTree = record t' { text_size = overwritten size t.text_size } in
      if not (length count == sizeof_long)
      then (error_file, t', seg)
      else (if not (length size == sizeof_long)
          then (error_file, t'', seg)
          else (if t''.node_count == 0
              then (error_empty, t'', seg)
              else read_tables (drop sizeof_long (drop sizeof_long bs)) t'' seg))

  -- The file is what `fopen` gives.
  unfoldable pub read_config : Option (List ℕ) → ConfigTree → Segment → ℕ × ConfigTree × Segment
  read_config none t seg = (error_file, t, seg)
  read_config (some bs) t seg =
      let first = take 4 bs in
      let node_size = take sizeof_long (drop 4 bs) in
      if not (length first == 4) || not (same first magic)
      then (error_file, t, seg)
      else (if not (length node_size == sizeof_long) || not (word_of node_size == sizeof_node)
          then (error_file, t, seg)
          else read_counts (drop sizeof_long (drop 4 bs)) t seg)

  -- cft_DropConfig
  unfoldable pub drop_config : ConfigTree → Segment → ConfigTree × Segment
  drop_config t seg = (
    record t { root = 0; nodes = []; strings = 0; text = []; node_count = 0; text_size = 0 },
    free t.strings (free t.root seg),
  )

unfoldable pub joined_nodes : List ConfigNode → List ℕ
joined_nodes [] = []
joined_nodes (n ∷ ns) = node_bytes n ++ joined_nodes ns

-- So many bytes of the memory, `none` where it has not so many.
abbrev pub memory : ℕ → List ℕ → Option (List ℕ)
memory size bs = if leb size (length bs) then some (take size bs) else none

-- One `fwrite` after the other, until one falls short: the file still takes `room` bytes.
unfoldable pub write_all : List (Option (List ℕ)) → ℕ → Option (ℕ × List ℕ)
write_all [] room = some (0, [])
write_all (none ∷ chunks) room = none
write_all (some bs ∷ chunks) room = elim (leb (length bs) room) [
  | false ↦ some (error_file, take room bs)
  | true ↦ elim (write_all chunks (room - length bs)) [
    | none ↦ none
    | some (code, out) ↦ some (code, bs ++ out)
  ]
]

-- What cft_WriteConfig writes, in order.
unfoldable pub chunks_of : ConfigTree → List (Option (List ℕ))
chunks_of t =
    some magic
    ∷ some (bytes_of sizeof_long sizeof_node)
    ∷ some (bytes_of sizeof_long t.node_count)
    ∷ some (bytes_of sizeof_long t.text_size)
    ∷ memory (table_size t.node_count) (joined_nodes t.nodes)
    ∷ memory t.text_size t.text
    ∷ []

-- cft_WriteConfig: the code, and what is in the file then. The room is `none` when `fopen` fails.
unfoldable pub write_config : Option ℕ → ConfigTree → Option (ℕ × Option (List ℕ))
write_config room t = if t.node_count == 0 then some (error_empty, none) else elim room [
  | none ↦ some (error_file, none)
  | some r ↦ elim (write_all (chunks_of t) r) [
    | none ↦ none
    | some (code, out) ↦ some (code, some out)
  ]
]
