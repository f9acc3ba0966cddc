-- ===== src/Compile/Sizes.antt =====
-- confpile.c: BuildSubTree writes as many nodes and characters as CountSubTree has counted.
use script_basic.Common.{
  ℕ, suc, ◌+◌, ◌≡◌, ◌≢◌, ◌⊎◌, refl, inl, inr, List, [], ◌∷◌, ◌++◌, length, length-append, Option,
  none, some, ◌==◌, Bool-cases, arith,
}
use script_basic.Memory.{Allocator}
use script_basic.Compile.Link.{length-linked}
use script_basic.ConfigTree.{ConfigNode, ConfigTree, node_branch}
use script_basic.ConfigTree.File.{table_size}
use script_basic.Compile.{
  error_syntax, Atom, symbol, string, float, integer, character, Lval, nil, atom, sub, Count,
  counts, count_on, count_value, count_sub_tree, Tables, linked, fill_value, value_text, add_leaf,
  add_branch, build_sub_tree, no_tables, make_tables, remove_nil, read_text_config,
}

-- The counter has gone on by what the tables have grown.
abbrev pub HasSizes : Count → Tables → Type 0
HasSizes c t = (length t.nodes ≡ c.nodes) × (length t.text ≡ c.strings)

one_more :
    (prev : ℕ) (n x : ConfigNode) (ns : List ConfigNode)
    → length (linked prev n ns ++ x ∷ []) ≡ suc (length ns)
one_more prev n x ns =
    omega (arith, length-append (linked prev n ns) (x ∷ []), length-linked prev n ns)

pub key_added : (text k : List ℕ) → length (text ++ k ++ 0 ∷ []) ≡ length text + suc (length k)
key_added text k = omega (arith, length-append (text ++ k) (0 ∷ []), length-append text k)

value_added : (v : List ℕ) → length (v ++ 0 ∷ []) ≡ suc (length v)
value_added v = omega (arith, length-append v (0 ∷ []))

count_value-nodes : (v : Atom) (n s : ℕ) → (count_value v n s).nodes ≡ n
count_value-nodes (symbol v) n s = refl
count_value-nodes (string v) n s = refl
count_value-nodes (float w) n s = refl
count_value-nodes (integer w) n s = refl
count_value-nodes (character c) n s = refl

count_value-strings : (v : Atom) (n s : ℕ) → (count_value v n s).strings ≡ s + length (value_text v)
count_value-strings (symbol v) n s = omega (arith, value_added v)
count_value-strings (string v) n s = omega (arith, value_added v)
count_value-strings (float w) n s = omega arith
count_value-strings (integer w) n s = omega arith
count_value-strings (character c) n s = omega arith

module _ (fresh : ℕ → ConfigNode) where
  add_leaf-HasSizes :
      (k : List ℕ) (v : Atom) (prev : ℕ) (t : Tables) (n s : ℕ)
      → length t.nodes ≡ n
      → length t.text ≡ s
      → HasSizes (count_value v (suc n) (s + suc (length k))) (add_leaf fresh (symbol k) v prev t)
  add_leaf-HasSizes k v prev t n s en es =
      let at = length t.text + suc (length k) in
      let node : ConfigNode =
        fill_value v at (record (fresh (suc (length t.nodes))) { key = length t.text; next = 0 }) in
      (
        omega (
          arith,
          one_more prev (fresh 0) node t.nodes,
          count_value-nodes v (suc n) (s + suc (length k)),
          en,
        ),
        omega (
          arith,
          length-append (t.text ++ k ++ 0 ∷ []) (value_text v),
          key_added t.text k,
          count_value-strings v (suc n) (s + suc (length k)),
          es,
        ),
      )

  add_branch-HasSizes :
      (k : List ℕ) (prev : ℕ) (t : Tables) (n s : ℕ)
      → length t.nodes ≡ n
      → length t.text ≡ s
      → HasSizes (counts 0 (suc n) (s + suc (length k))) (add_branch fresh (symbol k) prev t)
  add_branch-HasSizes k prev t n s en es =
      let i = suc (length t.nodes) in
      let node : ConfigNode = record (fresh i) {
        key = length t.text;
        next = 0;
        val = suc i;
        flag = node_branch;
      } in
      (
        omega (arith, one_more prev (fresh 0) node t.nodes, en),
        omega (arith, key_added t.text k, es),
      )

  -- The counting has failed, or the tables have the sizes counted.
  abbrev pub Sized : Count → Tables → Type 0
  Sized c t = (c.code ≢ 0) ⊎ HasSizes c t

  failed : (c : Count) (t : Tables) → c.code ≡ error_syntax → Sized c t
  failed c t e = inl (λ z. absurd (omega (arith, e, z)))

  next_round :
      (rest : Lval) (prev : ℕ) (c : Count) (t : Tables)
      → ((t' : Tables) (n s : ℕ)
          → length t'.nodes ≡ n
          → length t'.text ≡ s
          → Sized (count_sub_tree rest n s) (build_sub_tree fresh rest prev t'))
      → Sized c t
      → Sized (count_on (count_sub_tree rest) c) (build_sub_tree fresh rest prev t)
  next_round rest prev c t ih h = elim (Bool-cases (c.code == 0)) [
    | inr e ↦ rw e (inl (λ z. absurd (omega (arith, z))))
    | inl e ↦
        rw e (elim h [
          | inl n ↦ absurd (n (ground (arith, e)))
          | inr y ↦ ih t c.nodes c.strings y.0 y.1
        ])
  ]

  sizes :
      (q : Lval) (prev : ℕ) (t : Tables) (n s : ℕ)
      → length t.nodes ≡ n
      → length t.text ≡ s
      → Sized (count_sub_tree q n s) (build_sub_tree fresh q prev t)
  unfolding count_sub_tree build_sub_tree
  sizes nil prev t n s en es = inr (en, es)
  sizes (sub k rest) prev t n s en es = failed _ _ refl
  sizes (atom (string k) rest) prev t n s en es = failed _ _ refl
  sizes (atom (float k) rest) prev t n s en es = failed _ _ refl
  sizes (atom (integer k) rest) prev t n s en es = failed _ _ refl
  sizes (atom (character k) rest) prev t n s en es = failed _ _ refl
  sizes (atom (symbol k) nil) prev t n s en es = failed _ _ refl
  sizes (atom (symbol k) (atom v rest)) prev t n s en es =
      next_round rest (suc (length t.nodes)) (count_value v (suc n) (s + suc (length k)))
        (add_leaf fresh (symbol k) v prev t) (sizes rest (suc (length t.nodes)))
        (inr (add_leaf-HasSizes k v prev t n s en es))
  sizes (atom (symbol k) (sub nil rest)) prev t n s en es = failed _ _ refl
  sizes (atom (symbol k) (sub (atom v q) rest)) prev t n s en es =
      let here = add_branch-HasSizes k prev t n s en es in
      let t' = add_branch fresh (symbol k) prev t in
      next_round rest (suc (length t.nodes))
        (count_sub_tree (atom v q) (suc n) (s + suc (length k)))
        (build_sub_tree fresh (atom v q) 0 t') (sizes rest (suc (length t.nodes)))
        (sizes (atom v q) 0 t' (suc n) (s + suc (length k)) here.0 here.1)
  sizes (atom (symbol k) (sub (sub v q) rest)) prev t n s en es =
      let here = add_branch-HasSizes k prev t n s en es in
      let t' = add_branch fresh (symbol k) prev t in
      next_round rest (suc (length t.nodes)) (count_sub_tree (sub v q) (suc n) (s + suc (length k)))
        (build_sub_tree fresh (sub v q) 0 t') (sizes rest (suc (length t.nodes)))
        (sizes (sub v q) 0 t' (suc n) (s + suc (length k)) here.0 here.1)

-- The call has failed, or the tables of the configuration have the sizes that were allocated for them.
abbrev pub Compiled {ℓ} : {S : Type ℓ} → ℕ × ConfigTree × S → Type 0
Compiled (code, t, seg) =
    (code ≢ 0)
    ⊎ (t.node_count ≢ 0) × (length t.nodes ≡ t.node_count) × (length t.text ≡ t.text_size)

module _ (a : Allocator) (fresh : ℕ → ConfigNode) where
  open a use {Segment, alloc}

  make_tables-Compiled :
      (q : Lval) (t : ConfigTree) (seg : Segment)
      → HasSizes (counts 0 t.node_count t.text_size) (build_sub_tree fresh q 0 no_tables)
      → Compiled (make_tables a fresh q t seg)
  unfolding make_tables
  make_tables-Compiled q t seg h =
      let root = alloc (table_size t.node_count) seg in
      let strings = alloc t.text_size root.1 in
      elim (Bool-cases (t.node_count == 0)) [
        | inl e ↦ rw e (inl (λ z. absurd (omega (arith, z))))
        | inr e ↦ rw e (elim (Bool-cases (root.0 == 0)) [
          | inl r ↦ rw r (inl (λ z. absurd (omega (arith, z))))
          | inr r ↦ rw r (elim (Bool-cases (strings.0 == 0)) [
            | inl s ↦ rw s (inl (λ z. absurd (omega (arith, z))))
            | inr s ↦ rw s (inr (ground (arith, e), h.0, h.1))
          ])
        ])
      ]

  -- Whatever the list of a text file is, cft_ReadTextConfig returns an error code, or there is a
  -- node at least and BuildSubTree has written exactly as many nodes and exactly as many characters
  -- as CountSubTree had counted for the allocation of the two tables.
  pub read_text_config-Compiled :
      (file : Option Lval) (t : ConfigTree) (seg : Segment)
      → Compiled (read_text_config a fresh file t seg)
  unfolding read_text_config
  read_text_config-Compiled none t seg = inl (λ z. absurd (omega (arith, z)))
  read_text_config-Compiled (some q) t seg =
      let c = count_sub_tree (remove_nil q) 0 0 in
      let t' : ConfigTree = record t { node_count = c.nodes; text_size = c.strings } in
      elim (Bool-cases (c.code == 0)) [
        | inr e ↦ rw e (inl (ground (arith, e)))
        | inl e ↦ rw e (elim (sizes fresh (remove_nil q) 0 no_tables 0 0 refl refl) [
          | inl n ↦ absurd (n (ground (arith, e)))
          | inr h ↦ make_tables-Compiled (remove_nil q) t' seg h
        ])
      ]
