-- ===== src/Compile/Stands.antt =====
-- confpile.c: the nodes that BuildSubTree makes stand for the list.
use script_basic.Common.{
  ℕ, suc, ◌+◌, ◌≤◌, ◌<◌, ◌≡◌, refl, sym, ap, ◌∙◌, inl, List, [], ◌∷◌, ◌++◌, length, drop,
  drop-append, append_assoc, append_empty, some, arith,
}
use script_basic.ConfigTree.{ConfigNode, ConfigTree, node_branch, node_at, string_at}
use script_basic.ConfigTree.Text.{IsPart}
use script_basic.ConfigTree.Forest.{Forest, empty, branch, leaf, Stands}
use script_basic.Compile.{
  Atom, Lval, nil, atom, sub, Tables, linked, characters, add_key, fill_value, value_text, add_leaf,
  add_branch, build_sub_tree, no_tables,
}
use script_basic.Compile.Sizes.{key_added}
use script_basic.Compile.Link.{node_at-last, length-linked}
use script_basic.Compile.Leaf.{
  IsValueOf, relink-next, relink-is_branch, relink-key, relink-val, relink-HasValue, fill_value-key,
  fill_value-next, fill_value-is_branch, leaf_value,
}
use script_basic.Compile.Frame.{relink, one_more, start, IsPaired, build-Kept}

-- The tree of keys has the keys and the values of the list, in order.
abbrev pub Matches : Lval → Forest → Type 0
Matches nil empty = Unit
Matches (atom k (atom v rest)) (leaf i w x r) = (w ≡ characters k) × IsValueOf v x × Matches rest r
Matches (atom k (sub q rest)) (branch i w c r) = (w ≡ characters k) × Matches q c × Matches rest r
Matches q f = ⊥

abbrev pub NotNil : Lval → Type 0
NotNil nil = ⊥
NotNil (atom k q) = Unit
NotNil (sub k q) = Unit

-- The keys are plain names, and no value is NULL.
abbrev pub AreKeys : ℕ → Lval → Type 0
AreKeys tc nil = Unit
AreKeys tc (sub k q) = ⊥
AreKeys tc (atom k nil) = ⊥
AreKeys tc (atom k (atom v rest)) = IsPart tc (characters k) × AreKeys tc rest
AreKeys tc (atom k (sub q rest)) =
    IsPart tc (characters k) × NotNil q × AreKeys tc q × AreKeys tc rest

-- The configuration has the nodes of the tables from an index on, and starts with their text.
pub record Holds (c : ConfigTree) (t : Tables) (low : ℕ) : Type 0 where
  pub more : List ℕ
  pub text : c.text ≡ t.text ++ more
  pub nodes : (j : ℕ) → low < j → j ≤ length t.nodes → node_at c.nodes j ≡ node_at t.nodes j

start_here : (q : Lval) (i : ℕ) → NotNil q → start q i ≡ suc i
start_here nil i h = absurd h
start_here (atom k q) i h = refl
start_here (sub k q) i h = refl

-- The node of a key is there when all has been written.
module _ (fresh : ℕ → ConfigNode) where
  key_node :
      (k : Atom) (prev : ℕ) (fill : ℕ → ConfigNode → ConfigNode) (t : Tables)
      → node_at (add_key fresh k prev fill t).nodes (suc (length t.nodes))
        ≡ some (
            fill
              (suc (length t.nodes))
              (record (fresh (suc (length t.nodes))) { key = length t.text; next = 0 }))
  key_node k prev fill t =
      ap (λ l. node_at (add_key fresh k prev fill t).nodes (suc l))
        (sym (length-linked prev (fresh 0) t.nodes))
      ∙ node_at-last (linked prev (fresh 0) t.nodes) _

  -- The key's text in the configuration
  text_at :
      (c : ConfigTree) (text k more rest : List ℕ)
      → c.text ≡ text ++ k ++ 0 ∷ [] ++ more ++ rest
      → string_at (some c) (length text) ≡ k ++ 0 ∷ (more ++ rest)
  unfolding string_at
  text_at c text k more rest e =
      ap (drop (length text)) (
        e
        ∙ append_assoc (text ++ k ++ 0 ∷ []) more rest
        ∙ append_assoc (text ++ k) (0 ∷ []) (more ++ rest)
        ∙ append_assoc text k (0 ∷ (more ++ rest)))
      ∙ drop-append (length text) text (k ++ 0 ∷ (more ++ rest)) refl

  build-Stands :
      (q : Lval) (prev : ℕ) (t : Tables) (c : ConfigTree)
      → IsPaired q
      → AreKeys c.separator q
      → prev ≤ length t.nodes
      → Holds c (build_sub_tree fresh q prev t) (length t.nodes)
      → (f : Forest) × Stands c (start q (length t.nodes)) f × Matches q f
  unfolding build_sub_tree
  build-Stands nil prev t c h k p d = (empty, refl, tt)
  build-Stands (sub a q) prev t c h k p d = absurd h
  build-Stands (atom a nil) prev t c h k p d = absurd h
  build-Stands (atom a (atom v rest)) prev t c (hv, h) (ka, kr) p d =
      let i = suc (length t.nodes) in
      let at = length t.text + suc (length (characters a)) in
      let fill : ℕ → ConfigNode → ConfigNode = λ j n. fill_value v at n in
      let t1 = add_leaf fresh a v prev t in
      let base : ConfigNode = record (fresh i) { key = length t.text; next = 0 } in
      let x = fill_value v at base in
      let longer = one_more fresh a prev fill t in
      let kept = build-Kept fresh rest i t1 h (omega (arith, longer)) in
      let s = start rest (length t1.nodes) in
      let written : node_at (build_sub_tree fresh rest i t1).nodes i ≡ some (relink s x) =
        kept.link (length t.nodes) x refl (omega (arith, longer)) (key_node a prev fill t) in
      let node = d.nodes i (omega arith) (omega (arith, longer, kept.longer)) ∙ written in
      let more = kept.more ++ d.more in
      let text : c.text ≡ t.text ++ characters a ++ 0 ∷ [] ++ value_text v ++ more =
        d.text ∙ ap (λ l. l ++ d.more) kept.text ∙ append_assoc t1.text kept.more d.more in
      let head_at = key_added t.text (characters a) in
      let leaf_v = leaf_value c v (t.text ++ characters a ++ 0 ∷ []) more at base hv head_at text in
      let after = build-Stands rest i t1 c h kr (omega (arith, longer)) (record {
        more = d.more;
        text = d.text;
        nodes = λ j l m. d.nodes j (omega (arith, l, longer)) m;
      }) in
      let key_at =
        ap (string_at (some c)) (relink-key s x ∙ fill_value-key v at base)
        ∙ text_at c t.text (characters a) (value_text v) more text in
      let next = relink-next s x (fill_value-next v at base) in
      (
        leaf i (characters a) leaf_v.0 after.0,
        (
          refl,
          (
            relink s x,
            (
              λ e. absurd (omega (arith, e)),
              node,
              (ka, (0, value_text v ++ more, inl refl, key_at)),
            ),
            relink-is_branch s x ∙ fill_value-is_branch v at base hv,
            relink-HasValue c s x leaf_v.0 leaf_v.1,
            rw next after.1,
          ),
        ),
        (refl, leaf_v.2, after.2),
      )
  build-Stands (atom a (sub q rest)) prev t c (hq, h) (ka, kn, kq, kr) p d =
      let i = suc (length t.nodes) in
      let fill : ℕ → ConfigNode → ConfigNode =
        λ j n. record n { val = suc j; flag = node_branch } in
      let t1 = add_branch fresh a prev t in
      let t2 = build_sub_tree fresh q 0 t1 in
      let t' = build_sub_tree fresh rest i t2 in
      let x : ConfigNode = fill i (record (fresh i) { key = length t.text; next = 0 }) in
      let longer = one_more fresh a prev fill t in
      let below = build-Kept fresh q 0 t1 hq (omega arith) in
      let kept = build-Kept fresh rest i t2 h (omega (arith, longer, below.longer)) in
      let s = start rest (length t2.nodes) in
      let put : node_at t2.nodes i ≡ some x =
        below.others i (omega (arith, longer)) (λ e. absurd (omega (arith, e)))
        ∙ key_node a prev fill t in
      let written : node_at t'.nodes i ≡ some (relink s x) =
        kept.link (length t.nodes) x refl (omega (arith, longer, below.longer)) put in
      let node =
        d.nodes i (omega arith) (omega (arith, longer, below.longer, kept.longer)) ∙ written in
      let more = kept.more ++ d.more in
      let text2 : c.text ≡ t2.text ++ more =
        d.text ∙ ap (λ l. l ++ d.more) kept.text ∙ append_assoc t2.text kept.more d.more in
      let text : c.text ≡ t.text ++ characters a ++ 0 ∷ [] ++ below.more ++ more =
        text2 ∙ ap (λ l. l ++ more) below.text in
      let inner = build-Stands q 0 t1 c hq kq (omega arith) (record {
        more = more;
        text = text2;
        nodes = λ j l m.
            d.nodes j (omega (arith, l, longer)) (omega (arith, m, kept.longer))
            ∙ kept.others j m (λ e. absurd (omega (arith, e, l, longer)));
      }) in
      let after = build-Stands rest i t2 c h kr (omega (arith, longer, below.longer)) (record {
        more = d.more;
        text = d.text;
        nodes = λ j l m. d.nodes j (omega (arith, l, longer, below.longer)) m;
      }) in
      let key_at =
        ap (string_at (some c)) (relink-key s x)
        ∙ text_at c t.text (characters a) below.more more text in
      let next = relink-next s x refl in
      let first : (relink s x).val ≡ start q (length t1.nodes) =
        relink-val s x ∙ ap suc (sym longer) ∙ sym (start_here q (length t1.nodes) kn) in
      (
        branch i (characters a) inner.0 after.0,
        (
          refl,
          (
            relink s x,
            (λ e. absurd (omega (arith, e)), node, (ka, (0, below.more ++ more, inl refl, key_at))),
            relink-is_branch s x,
            rw first inner.1,
            rw next after.1,
          ),
        ),
        (refl, inner.2, after.2),
      )

-- For a list of keys with values, none of them NULL and none a character, whose keys are plain
-- names, and a configuration with the nodes and the text that BuildSubTree makes of it, the nodes
-- from 1 on stand for a tree of keys that has the keys and the values of the list, in order.
pub build_sub_tree-Stands :
    (fresh : ℕ → ConfigNode) (q : Lval) (c : ConfigTree)
    → IsPaired q
    → NotNil q
    → AreKeys c.separator q
    → c.nodes ≡ (build_sub_tree fresh q 0 no_tables).nodes
    → c.text ≡ (build_sub_tree fresh q 0 no_tables).text
    → (f : Forest) × Stands c 1 f × Matches q f
build_sub_tree-Stands fresh q c h n k e d =
    let made = build-Stands fresh q 0 no_tables c h k (omega arith) (record {
      more = [];
      text = d ∙ sym (append_empty (build_sub_tree fresh q 0 no_tables).text);
      nodes = λ j l m. ap (λ ns. node_at ns j) e;
    }) in
    (made.0, rw (sym (start_here q 0 n)) made.1, made.2)
