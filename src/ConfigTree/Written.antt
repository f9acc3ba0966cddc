-- ===== src/ConfigTree/Written.antt =====
-- conftree.c: what cft_WriteConfig leaves in the file, whatever room there is for it.
use script_basic.Common.{
  ℕ, zero, suc, ◌-◌, ◌*◌, ◌≤◌, ◌<◌, ◌≡◌, ◌≢◌, refl, sym, ap, ◌∙◌, inl, inr, Option, some, true,
  false, List, [], ◌∷◌, ◌++◌, length, take, take-all, length-append, append_empty, leb, ◌==◌,
  if◌then◌else◌, Bool-cases, long_mod, arith,
}
use script_basic.ConfigTree.{ConfigNode, ConfigTree}
use script_basic.ConfigTree.Bytes.{bytes_of, node_bytes, length-node_bytes, IsNode, sizeof_node}
use script_basic.ConfigTree.File.{
  error_file, sizeof_long, magic, table_size, joined_nodes, memory, write_all, chunks_of,
  write_config,
}

abbrev pub AreNodes : List ConfigNode → Type 0
AreNodes [] = Unit
AreNodes (n ∷ ns) = IsNode n × AreNodes ns

-- The tables are as long as the counts say, and their sizes and fields are in the ranges of C.
pub record IsStored (t : ConfigTree) : Type 0 where
  pub some_node : t.node_count ≢ 0
  pub node_count : length t.nodes ≡ t.node_count
  pub size_fits : t.node_count * sizeof_node < long_mod
  pub nodes : AreNodes t.nodes
  pub text_size : length t.text ≡ t.text_size
  pub text_fits : t.text_size < long_mod

-- The file of a configuration.
unfoldable pub image : ConfigTree → List ℕ
image t =
    magic
    ++ bytes_of sizeof_long sizeof_node
    ++ bytes_of sizeof_long t.node_count
    ++ bytes_of sizeof_long t.text_size
    ++ joined_nodes t.nodes
    ++ t.text

-- What a file with this much room has when the bytes are written to it, and the code.
abbrev pub written : List ℕ → ℕ → ℕ × List ℕ
written bs room = if leb (length bs) room then (0, bs) else (error_file, take room bs)

abbrev somes : List (List ℕ) → List (Option (List ℕ))
somes [] = []
somes (c ∷ cs) = some c ∷ somes cs

abbrev concat : List (List ℕ) → List ℕ
concat [] = []
concat (c ∷ cs) = c ++ concat cs

take-append_short : (n : ℕ) (xs ys : List ℕ) → n < length xs → take n (xs ++ ys) ≡ take n xs
take-append_short zero xs ys h = refl
take-append_short (suc n) [] ys h = absurd (omega arith)
take-append_short (suc n) (x ∷ xs) ys h = ap (λ l. x ∷ l) (take-append_short n xs ys (omega arith))

take-append_long :
    (n : ℕ) (xs ys : List ℕ) → length xs ≤ n → take n (xs ++ ys) ≡ xs ++ take (n - length xs) ys
take-append_long n [] ys h = let e : n ≡ n - 0 = omega arith in ap (λ k. take k ys) e
take-append_long zero (x ∷ xs) ys h = absurd (omega arith)
take-append_long (suc n) (x ∷ xs) ys h =
    let e : n - length xs ≡ suc n - suc (length xs) = omega arith in
    ap (λ l. x ∷ l) (rw (sym e) (take-append_long n xs ys (omega arith)))

write_all-written :
    (cs : List (List ℕ)) (room : ℕ) → write_all (somes cs) room ≡ some (written (concat cs) room)
unfolding write_all
write_all-written [] room = ground arith
write_all-written (c ∷ cs) room = elim (Bool-cases (leb (length c) room)) [
  | inr short ↦
      let all_short : leb (length (c ++ concat cs)) room ≡ false =
        ground (arith, length-append c (concat cs)) in
      rw (short, write_all)
        (rw all_short (rw (take-append_short room c (concat cs) (ground arith)) refl))
  | inl fits ↦
      rw (fits, write_all)
        (rw (write_all-written cs (room - length c))
          (elim (Bool-cases (leb (length (concat cs)) (room - length c))) [
            | inl rest ↦
                let all_fit : leb (length (c ++ concat cs)) room ≡ true =
                  ground (arith, length-append c (concat cs)) in
                rw rest (rw all_fit refl)
            | inr rest ↦
                let all_short : leb (length (c ++ concat cs)) room ≡ false =
                  ground (arith, length-append c (concat cs)) in
                rw rest
                  (rw all_short (rw (take-append_long room c (concat cs) (ground arith)) refl))
          ]))
]

pub length-joined_nodes :
    (ns : List ConfigNode) → length (joined_nodes ns) ≡ length ns * sizeof_node
unfolding joined_nodes
length-joined_nodes [] = refl
length-joined_nodes (n ∷ ns) = omega (
  arith,
  length-append (node_bytes n) (joined_nodes ns),
  length-node_bytes n,
  length-joined_nodes ns,
)

memory-all : (size : ℕ) (bs : List ℕ) → length bs ≡ size → memory size bs ≡ some bs
memory-all size bs e =
    let enough : leb size (length bs) ≡ true = ground (arith, e) in
    rw enough (rw (take-all size bs e) refl)

-- The two tables are as long as they are to be written.
abbrev pub IsWhole : ConfigTree → Type 0
IsWhole t =
    (length (joined_nodes t.nodes) ≡ table_size t.node_count) × (length t.text ≡ t.text_size)

pub write_config-whole :
    (t : ConfigTree) (room : ℕ)
    → t.node_count ≢ 0
    → IsWhole t
    → write_config (some room) t
      ≡ some ((written (image t) room).0, some (written (image t) room).1)
unfolding write_config chunks_of image bytes_of
write_config-whole t room n (size, text) =
    let some_node : (t.node_count == 0) ≡ false = ground (arith, n) in
    let chunks =
      magic
      ∷ bytes_of sizeof_long sizeof_node
      ∷ bytes_of sizeof_long t.node_count
      ∷ bytes_of sizeof_long t.text_size
      ∷ joined_nodes t.nodes
      ∷ t.text
      ∷ [] in
    rw some_node (
      rw (memory-all _ (joined_nodes t.nodes) size) (
        rw (memory-all _ t.text text)
          (rw (write_all-written chunks room) (rw (append_empty t.text) refl))))

pub write_config-image :
    (t : ConfigTree) (room : ℕ)
    → t.node_count ≢ 0
    → IsWhole t
    → length (image t) ≤ room
    → write_config (some room) t ≡ some (0, some (image t))
write_config-image t room n w h =
    let fits : leb (length (image t)) room ≡ true = ground (arith, h) in
    write_config-whole t room n w ∙ rw fits refl

pub write_config-written :
    (t : ConfigTree) (room : ℕ)
    → IsStored t
    → write_config (some room) t
      ≡ some ((written (image t) room).0, some (written (image t) room).1)
write_config-written t room s =
    write_config-whole t room s.some_node
      (omega (arith, length-joined_nodes t.nodes, s.node_count, s.size_fits), s.text_size)
