-- ===== src/Compile/Frame.antt =====
-- confpile.c: what BuildSubTree leaves of the tables that are there: all but the link of one node.
use script_basic.Common.{
  ℕ, zero, suc, ◌+◌, ◌≤◌, ◌<◌, ◌≡◌, ◌≢◌, refl, sym, ap, ◌∙◌, inl, inr, List, [], ◌∷◌, ◌++◌, length,
  ◌⊎◌, append_assoc, append_empty, length-append, some, arith,
}
use script_basic.ConfigTree.{ConfigNode, node_branch, node_at}
use script_basic.Compile.Link.{node_at-left, linked_other, linked_self, length-linked}
use script_basic.Compile.{
  Atom, symbol, string, float, integer, character, Lval, nil, atom, sub, Tables, linked, characters,
  add_key, fill_value, value_text, add_leaf, add_branch, build_sub_tree,
}

-- The node that is linked to the next index, or left where there is none.
abbrev pub relink : ℕ → ConfigNode → ConfigNode
relink zero n = n
relink (suc i) n = record n { next = suc i }

-- The second tables have what the first have, but that the link of one node may be set.
pub record Kept (prev first : ℕ) (t t' : Tables) : Type 0 where
  pub more : List ℕ
  pub text : t'.text ≡ t.text ++ more
  pub longer : length t.nodes ≤ length t'.nodes
  pub others : (j : ℕ) → j ≤ length t.nodes → j ≢ prev → node_at t'.nodes j ≡ node_at t.nodes j
  pub link :
      (i : ℕ) (n : ConfigNode)
      → prev ≡ suc i
      → i < length t.nodes
      → node_at t.nodes prev ≡ some n
      → node_at t'.nodes prev ≡ some (relink first n)

then_other :
    (i next : ℕ) (t t' t'' : Tables)
    → length t.nodes ≤ length t'.nodes
    → Kept i next t' t''
    → (i ≡ 0) ⊎ (length t.nodes < i)
    → (j : ℕ) → j ≤ length t.nodes
    → node_at t''.nodes j ≡ node_at t'.nodes j
unfolding node_at
then_other i next t t' t'' g l c zero h = refl
then_other i next t t' t'' g l (inl z) (suc j) h =
    l.others (suc j) (omega (arith, g, h)) (λ e. absurd (omega (arith, e, z)))
then_other i next t t' t'' g l (inr z) (suc j) h =
    l.others (suc j) (omega (arith, g, h)) (λ e. absurd (omega (arith, e, z, h)))

Kept-then :
    (prev first i next : ℕ) (t t' t'' : Tables)
    → Kept prev first t t'
    → Kept i next t' t''
    → (i ≡ 0) ⊎ (length t.nodes < i)
    → prev ≤ length t.nodes
    → Kept prev first t t''
Kept-then prev first i next t t' t'' k l c p = record {
  more = k.more ++ l.more;
  text = l.text ∙ ap (λ x. x ++ l.more) k.text ∙ append_assoc t.text k.more l.more;
  longer = omega (arith, k.longer, l.longer);
  others = λ j h n. then_other i next t t' t'' k.longer l c j h ∙ k.others j h n;
  link = λ j n e h m. then_other i next t t' t'' k.longer l c prev p ∙ k.link j n e h m;
}

-- The index of the first node that a list makes, 0 for none
abbrev pub start : Lval → ℕ → ℕ
start nil at = 0
start (atom k q) at = suc at
start (sub k q) at = suc at

abbrev pub IsValue : Atom → Type 0
IsValue (symbol v) = Unit
IsValue (string v) = Unit
IsValue (float w) = Unit
IsValue (integer w) = Unit
IsValue (character c) = ⊥

-- A list as BuildSubTree expects it: atoms as keys, each with a value.
abbrev pub IsPaired : Lval → Type 0
IsPaired nil = Unit
IsPaired (sub k q) = ⊥
IsPaired (atom k nil) = ⊥
IsPaired (atom k (atom v rest)) = IsValue v × IsPaired rest
IsPaired (atom k (sub q rest)) = IsPaired q × IsPaired rest

module _ (fresh : ℕ → ConfigNode) where
  link_here :
      (prev i : ℕ) (n : ConfigNode) (ns : List ConfigNode)
      → prev ≡ suc i
      → i < length ns
      → node_at ns prev ≡ some n
      → node_at (linked prev (fresh 0) ns) prev ≡ some (record n { next = suc (length ns) })
  link_here zero i n ns e h m = absurd (omega (arith, e))
  link_here (suc j) i n ns e h m = linked_self j (fresh 0) n ns (omega (arith, e, h)) m

  pub Kept-add_key :
      (k : Atom) (prev : ℕ) (fill : ℕ → ConfigNode → ConfigNode) (t : Tables) (m : List ℕ)
      → prev ≤ length t.nodes
      → Kept prev
          (suc (length t.nodes))
          t
          (record (add_key fresh k prev fill t) { text = (add_key fresh k prev fill t).text ++ m })
  Kept-add_key k prev fill t m p =
      let ns = linked prev (fresh 0) t.nodes in
      let same_length = length-linked prev (fresh 0) t.nodes in
      record {
        more = characters k ++ 0 ∷ [] ++ m;
        text =
            append_assoc (t.text ++ characters k) (0 ∷ []) m
            ∙ append_assoc t.text (characters k) (0 ∷ m)
            ∙ ap (λ l. t.text ++ l) (sym (append_assoc (characters k) (0 ∷ []) m));
        longer = omega (arith, length-append ns (_ ∷ []), same_length);
        others = λ j h n.
            node_at-left ns _ j (omega (arith, same_length, h))
            ∙ linked_other prev j (fresh 0) t.nodes n;
        link = λ i n e h m.
            node_at-left ns _ prev (omega (arith, same_length, p))
            ∙ link_here prev i n t.nodes e h m;
      }

  pub one_more :
      (k : Atom) (prev : ℕ) (fill : ℕ → ConfigNode → ConfigNode) (t : Tables)
      → length (add_key fresh k prev fill t).nodes ≡ suc (length t.nodes)
  one_more k prev fill t = omega (
    arith,
    length-append (linked prev (fresh 0) t.nodes) (_ ∷ []),
    length-linked prev (fresh 0) t.nodes,
  )

  -- The same for a text with nothing added
  Kept-branch :
      (k : Atom) (prev : ℕ) (t : Tables)
      → prev ≤ length t.nodes
      → Kept prev (suc (length t.nodes)) t (add_branch fresh k prev t)
  Kept-branch k prev t p =
      let fill : ℕ → ConfigNode → ConfigNode =
        λ i n. record n { val = suc i; flag = node_branch } in
      let whole = Kept-add_key k prev fill t [] p in
      record {
        more = whole.more;
        text = sym (append_empty (add_branch fresh k prev t).text) ∙ whole.text;
        longer = whole.longer;
        others = whole.others;
        link = whole.link;
      }

  pub build-Kept :
      (q : Lval) (prev : ℕ) (t : Tables)
      → IsPaired q
      → prev ≤ length t.nodes
      → Kept prev (start q (length t.nodes)) t (build_sub_tree fresh q prev t)
  unfolding build_sub_tree
  build-Kept nil prev t h p = record {
    more = [];
    text = sym (append_empty t.text);
    longer = omega arith;
    others = λ j k n. refl;
    link = λ i n e k m. m;
  }
  build-Kept (sub k q) prev t h p = absurd h
  build-Kept (atom k nil) prev t h p = absurd h
  build-Kept (atom k (atom v rest)) prev t (hv, h) p =
      let t' = add_leaf fresh k v prev t in
      let i = suc (length t.nodes) in
      let here =
        Kept-add_key k prev (λ i n. fill_value v (length t.text + suc (length (characters k))) n) t
          (value_text v) p in
      let longer =
        one_more k prev (λ i n. fill_value v (length t.text + suc (length (characters k))) n) t in
      Kept-then prev i i (start rest (length t'.nodes)) t t' _ here
        (build-Kept rest i t' h (omega (arith, longer))) (inr (omega arith)) p
  build-Kept (atom k (sub q rest)) prev t (hq, h) p =
      let t1 = add_branch fresh k prev t in
      let t2 = build_sub_tree fresh q 0 t1 in
      let i = suc (length t.nodes) in
      let longer = one_more k prev (λ i n. record n { val = suc i; flag = node_branch }) t in
      let below = build-Kept q 0 t1 hq (omega arith) in
      let first =
        Kept-then prev i 0 (start q (length t1.nodes)) t t1 t2 (Kept-branch k prev t p) below
          (inl refl) p in
      Kept-then prev i i (start rest (length t2.nodes)) t t2 _ first
        (build-Kept rest i t2 h (omega (arith, longer, below.longer))) (inr (omega arith)) p
