-- ===== src/ConfigTree/Accepted.antt =====
-- conftree.c: a file that cft_ReadConfig takes is one that cft_WriteConfig would write.
use script_basic.Common.{
  append_empty, ℕ, zero, suc, ◌*◌, ◌/◌, ◌≤◌, ◌≡◌, ◌≢◌, ◌⊎◌, inl, inr, refl, sym, ap, ◌∙◌, some,
  List, [], ◌∷◌, ◌++◌, length, take, drop, take-drop, length-drop, append_assoc, ◌==◌, Bool-cases,
  arith,
}
use script_basic.Memory.{Allocator}
use script_basic.ConfigTree.{ConfigTree}
use script_basic.Common.Text.{same, same-eq}
use script_basic.ConfigTree.Bytes.{
  bytes_of, word_of, bytes_of-word_of, AreBytes, sizeof_node, AreBytes-take, AreBytes-drop,
  node_bytes-bytes_node,
}
use script_basic.ConfigTree.File.{
  sizeof_long, magic, table_size, joined_nodes, split_nodes, overwritten, read_text, read_nodes,
  read_tables, read_counts, read_config, write_config,
}
use script_basic.ConfigTree.Written.{image, IsWhole, write_config-image}

joined_nodes-split_nodes :
    (k : ℕ) (bs : List ℕ)
    → AreBytes bs
    → length bs ≡ k * sizeof_node
    → joined_nodes (split_nodes k bs) ≡ bs
unfolding joined_nodes split_nodes
joined_nodes-split_nodes zero [] h e = refl
joined_nodes-split_nodes zero (b ∷ bs) h e = absurd (omega (arith, e))
joined_nodes-split_nodes (suc k) bs h e =
    rw
      (joined_nodes-split_nodes k (drop sizeof_node bs) (AreBytes-drop sizeof_node bs h)
        (omega (arith, e, length-drop sizeof_node bs)))
      (node_bytes-bytes_node bs h (omega (arith, e)))

-- The bytes start with these.
abbrev StartsWith : List ℕ → List ℕ → Type 0
StartsWith bs head = (rest : List ℕ) × (bs ≡ head ++ rest)

-- The bytes of the two tables
abbrev tables : ConfigTree → List ℕ
tables t = joined_nodes t.nodes ++ t.text

-- A reading has failed, or the bytes start with the tables that it has made, for these counts.
abbrev TablesRead {ℓ} : {S : Type ℓ} → List ℕ → ConfigTree → ℕ × ConfigTree × S → Type 0
TablesRead bs t (code, t', seg) =
    (code ≢ 0)
    ⊎ (t'.node_count ≡ t.node_count)
      × (t'.text_size ≡ t.text_size)
      × IsWhole t'
      × StartsWith bs (tables t')

module _ {ℓ} {S : Type ℓ} (t : ConfigTree) (seg : S) where
  text_read :
      (all head bs : List ℕ)
      → joined_nodes t.nodes ≡ head
      → length head ≡ table_size t.node_count
      → all ≡ head ++ bs
      → TablesRead all t (read_text bs t seg)
  unfolding read_text
  text_read all head bs e k g = elim (Bool-cases (length (take t.text_size bs) == t.text_size)) [
    | inr short ↦ rw short (inl (λ z. absurd (omega (arith, z))))
    | inl whole ↦ inr (
      refl,
      refl,
      (ap length e ∙ k, ground (arith, whole)),
      (
        drop t.text_size bs,
        rw e (
            g
            ∙ ap (λ l. head ++ l) (sym (take-drop t.text_size bs))
            ∙ sym (append_assoc head (take t.text_size bs) (drop t.text_size bs))),
      ),
    )
  ]

module _ {ℓ} {S : Type ℓ} (t : ConfigTree) (seg : S) where
  nodes_read : (bs : List ℕ) → AreBytes bs → TablesRead bs t (read_nodes bs t seg)
  unfolding read_nodes
  nodes_read bs h =
      let size = table_size t.node_count in
      elim (Bool-cases (length (take size bs) == size)) [
        | inr short ↦ rw short (inl (λ z. absurd (omega (arith, z))))
        | inl whole ↦ rw whole (
            text_read
              (record t {
                nodes = split_nodes (length (take size bs) / sizeof_node) (take size bs);
              })
              seg bs (take size bs) (drop size bs)
              (joined_nodes-split_nodes _ (take size bs) (AreBytes-take size bs h)
                (ground (arith, whole)))
              (ground (arith, whole)) (sym (take-drop size bs)))
      ]

module _ (a : Allocator) where
  open a use {Segment, alloc}

  tables_read :
      (bs : List ℕ) (t : ConfigTree) (seg : Segment)
      → AreBytes bs
      → TablesRead bs t (read_tables a bs t seg)
  unfolding read_tables
  tables_read bs t seg h =
      let r = alloc (table_size t.node_count) seg in
      let s = alloc t.text_size r.1 in
      elim (Bool-cases (r.0 == 0)) [
        | inl z ↦ rw z (inl (λ e. absurd (omega (arith, e))))
        | inr n ↦ rw n (elim (Bool-cases (s.0 == 0)) [
          | inl z ↦ rw z (inl (λ e. absurd (omega (arith, e))))
          | inr k ↦ rw k (nodes_read _ s.1 bs h)
        ])
      ]

-- A word that was read whole is written as the same bytes.
overwritten_again :
    (got : List ℕ) (old : ℕ)
    → AreBytes got
    → length got ≡ sizeof_long
    → bytes_of sizeof_long (overwritten got old) ≡ got
unfolding overwritten bytes_of
overwritten_again got old h e =
    let whole : drop (length got) (bytes_of sizeof_long old) ≡ [] =
      ap (λ k. drop k (bytes_of sizeof_long old)) e in
    let same_got : got ++ drop (length got) (bytes_of sizeof_long old) ≡ got =
      ap (λ l. got ++ l) whole ∙ append_empty got in
    ap (λ l. bytes_of sizeof_long (word_of l)) same_got
    ∙ ap (λ k. bytes_of k (word_of got)) (sym e)
    ∙ bytes_of-word_of got h

node_size_again :
    (got : List ℕ)
    → AreBytes got
    → length got ≡ sizeof_long
    → word_of got ≡ sizeof_node
    → bytes_of sizeof_long sizeof_node ≡ got
node_size_again got h e z =
    ap (bytes_of sizeof_long) (sym z)
    ∙ ap (λ k. bytes_of k (word_of got)) (sym e)
    ∙ bytes_of-word_of got h

-- The bytes after the header's start: two counts and the tables
abbrev CountsRead {ℓ} : {S : Type ℓ} → List ℕ → ℕ × ConfigTree × S → Type 0
CountsRead bs (code, t, seg) =
    (code ≢ 0)
    ⊎ (t.node_count ≢ 0)
      × IsWhole t
      × ((rest : List ℕ) × (bs
            ≡ bytes_of sizeof_long t.node_count
              ++ (bytes_of sizeof_long t.text_size ++ (tables t ++ rest))))

module _ {ℓ} {S : Type ℓ} where
  counts_before :
      (bs : List ℕ) (t : ConfigTree) (r : ℕ × ConfigTree × S)
      → t.node_count ≢ 0
      → bytes_of sizeof_long t.node_count ≡ take sizeof_long bs
      → bytes_of sizeof_long t.text_size ≡ take sizeof_long (drop sizeof_long bs)
      → TablesRead (drop sizeof_long (drop sizeof_long bs)) t r
      → CountsRead bs r
  counts_before bs t r nz c z (inl n) = inl n
  counts_before bs t r nz c z (inr (c', z', w, (rest, e))) =
      let count : bytes_of sizeof_long r.1.node_count ≡ take sizeof_long bs =
        ap (bytes_of sizeof_long) c' ∙ c in
      let size : bytes_of sizeof_long r.1.text_size ≡ take sizeof_long (drop sizeof_long bs) =
        ap (bytes_of sizeof_long) z' ∙ z in
      let after = drop sizeof_long bs in
      inr (
        (λ k. nz (sym c' ∙ k)),
        w,
        (
          rest,
          rw count (
              rw size
                (rw (sym e) (rw (take-drop sizeof_long after) (sym (take-drop sizeof_long bs))))),
        ),
      )

module _ (a : Allocator) where
  open a use {Segment}

  counts_read :
      (bs : List ℕ) (t : ConfigTree) (seg : Segment)
      → AreBytes bs
      → CountsRead bs (read_counts a bs t seg)
  unfolding read_counts
  counts_read bs t seg h =
      let count = take sizeof_long bs in
      let after = drop sizeof_long bs in
      let size = take sizeof_long after in
      let t'' : ConfigTree = record t {
        node_count = overwritten count t.node_count;
        text_size = overwritten size t.text_size;
      } in
      let after_b = AreBytes-drop sizeof_long bs h in
      elim (Bool-cases (length count == sizeof_long)) [
        | inr n ↦ rw n (inl (λ e. absurd (omega (arith, e))))
        | inl c ↦ rw c (elim (Bool-cases (length size == sizeof_long)) [
          | inr n ↦ rw n (inl (λ e. absurd (omega (arith, e))))
          | inl z ↦ rw z (elim (Bool-cases (overwritten count t.node_count == 0)) [
            | inl n ↦ rw n (inl (λ e. absurd (omega (arith, e))))
            | inr n ↦ rw n (
                counts_before bs t'' (read_tables a (drop sizeof_long after) t'' seg)
                  (ground (arith, n))
                  (overwritten_again count t.node_count (AreBytes-take sizeof_long bs h)
                    (ground (arith, c)))
                  (overwritten_again size t.text_size (AreBytes-take sizeof_long after after_b)
                    (ground (arith, z)))
                  (tables_read a (drop sizeof_long after) t'' seg
                    (AreBytes-drop sizeof_long after after_b)))
          ])
        ])
      ]

  -- The result of a reading: an error, or the file starts with what cft_WriteConfig writes, into a file
  -- that has room for it.
  abbrev pub Accepted : List ℕ → ℕ × ConfigTree × Segment → Type 0
  Accepted bs (code, t, seg) =
      (code ≢ 0)
      ⊎ (file : List ℕ) × ((room : ℕ)
          → length file ≤ room
          → write_config (some room) t ≡ some (0, some file))
        × StartsWith bs file

  header_before :
      (bs : List ℕ) (r : ℕ × ConfigTree × Segment)
      → take 4 bs ≡ magic
      → bytes_of sizeof_long sizeof_node ≡ take sizeof_long (drop 4 bs)
      → CountsRead (drop sizeof_long (drop 4 bs)) r
      → Accepted bs r
  unfolding bytes_of image
  header_before bs r m z (inl n) = inl n
  header_before bs r m z (inr (nz, w, (rest, e))) = inr (
    image r.1,
    (λ room h. write_config-image r.1 room nz w h),
    (
      rest,
      sym (take-drop 4 bs)
          ∙ rw m (
              ap (λ l. magic ++ l)
                (sym (take-drop sizeof_long (drop 4 bs))
                  ∙ rw (sym z) (ap (λ l. bytes_of sizeof_long sizeof_node ++ l) e))),
    ),
  )

  -- Whatever bytes a file has, cft_ReadConfig returns an error code, or has made a configuration
  -- that cft_WriteConfig writes without an error into a file with room for it, and the file that was
  -- read starts with exactly the bytes that it writes.
  pub read_config-Accepted :
      (bs : List ℕ) (t : ConfigTree) (seg : Segment)
      → AreBytes bs
      → Accepted bs (read_config a (some bs) t seg)
  unfolding read_config
  read_config-Accepted bs t seg h =
      let first = take 4 bs in
      let after = drop 4 bs in
      let node_size = take sizeof_long after in
      let after_b = AreBytes-drop 4 bs h in
      elim (Bool-cases (length first == 4)) [
        | inr n ↦ rw n (inl (λ e. absurd (omega (arith, e))))
        | inl f ↦ rw f (elim (Bool-cases (same first magic)) [
          | inr n ↦ rw n (inl (λ e. absurd (omega (arith, e))))
          | inl m ↦ rw m (elim (Bool-cases (length node_size == sizeof_long)) [
            | inr n ↦ rw n (inl (λ e. absurd (omega (arith, e))))
            | inl c ↦ rw c (elim (Bool-cases (word_of node_size == sizeof_node)) [
              | inr n ↦ rw n (inl (λ e. absurd (omega (arith, e))))
              | inl z ↦ rw z (
                  header_before bs (read_counts a (drop sizeof_long after) t seg)
                    (same-eq first magic m)
                    (node_size_again node_size (AreBytes-take sizeof_long after after_b)
                      (ground (arith, c)) (ground (arith, z)))
                    (counts_read (drop sizeof_long after) t seg
                      (AreBytes-drop sizeof_long after after_b)))
            ])
          ])
        ])
      ]
