-- ===== src/Compile/Leaf.antt =====
-- confpile.c: the node of a key, linked and filled, and the value that is read from it.
use script_basic.Common.{
  ℕ, zero, suc, ◌≡◌, refl, sym, ap, ◌∙◌, List, [], ◌∷◌, ◌++◌, length, drop, drop-append,
  append_assoc, some, false,
}
use script_basic.ConfigTree.{ConfigNode, ConfigTree, is_branch, signed, string_at}
use script_basic.ConfigTree.Forest.{Forest, empty, branch, leaf, Value, HasNode, HasValue, Stands}
use script_basic.ConfigTree.Forest
use script_basic.Compile.{Atom, symbol, string, float, integer, character, fill_value, value_text}
use script_basic.Compile.Frame.{relink, IsValue}

-- The value of a leaf is what is written in the list: a string starts with its characters and a zero.
abbrev pub IsValueOf : Atom → Value → Type 0
IsValueOf (symbol v) (Forest.string m) = (rest : List ℕ) × (m ≡ v ++ 0 ∷ rest)
IsValueOf (string v) (Forest.string m) = (rest : List ℕ) × (m ≡ v ++ 0 ∷ rest)
IsValueOf (float w) (Forest.real x) = x ≡ w
IsValueOf (integer w) (Forest.long x) = x ≡ signed w
IsValueOf v x = ⊥

pub relink-next : (i : ℕ) (n : ConfigNode) → n.next ≡ 0 → (relink i n).next ≡ i
relink-next zero n e = e
relink-next (suc i) n e = refl

pub relink-is_branch : (i : ℕ) (n : ConfigNode) → is_branch (relink i n) ≡ is_branch n
relink-is_branch zero n = refl
relink-is_branch (suc i) n = refl

pub relink-key : (i : ℕ) (n : ConfigNode) → (relink i n).key ≡ n.key
relink-key zero n = refl
relink-key (suc i) n = refl

pub relink-val : (i : ℕ) (n : ConfigNode) → (relink i n).val ≡ n.val
relink-val zero n = refl
relink-val (suc i) n = refl

pub relink-HasValue :
    (c : ConfigTree) (i : ℕ) (n : ConfigNode) (x : Value)
    → HasValue c n x
    → HasValue c (relink i n) x
relink-HasValue c zero n x h = h
relink-HasValue c (suc i) n (Forest.string s) h = h
relink-HasValue c (suc i) n (Forest.long s) h = h
relink-HasValue c (suc i) n (Forest.real s) h = h
relink-HasValue c (suc i) n Forest.untyped h = h

pub fill_value-key : (v : Atom) (at : ℕ) (n : ConfigNode) → (fill_value v at n).key ≡ n.key
fill_value-key (symbol v) at n = refl
fill_value-key (string v) at n = refl
fill_value-key (float w) at n = refl
fill_value-key (integer w) at n = refl
fill_value-key (character c) at n = refl

pub fill_value-next : (v : Atom) (at : ℕ) (n : ConfigNode) → (fill_value v at n).next ≡ n.next
fill_value-next (symbol v) at n = refl
fill_value-next (string v) at n = refl
fill_value-next (float w) at n = refl
fill_value-next (integer w) at n = refl
fill_value-next (character c) at n = refl

pub fill_value-is_branch :
    (v : Atom) (at : ℕ) (n : ConfigNode) → IsValue v → is_branch (fill_value v at n) ≡ false
fill_value-is_branch (symbol v) at n h = refl
fill_value-is_branch (string v) at n h = refl
fill_value-is_branch (float w) at n h = refl
fill_value-is_branch (integer w) at n h = refl
fill_value-is_branch (character c) at n h = absurd h

string_here :
    (c : ConfigTree) (head v more : List ℕ)
    → c.text ≡ head ++ (v ++ 0 ∷ []) ++ more
    → string_at (some c) (length head) ≡ v ++ 0 ∷ more
unfolding string_at
string_here c head v more e =
    ap (drop (length head)) (
      e ∙ append_assoc head (v ++ 0 ∷ []) more ∙ ap (λ l. head ++ l) (append_assoc v (0 ∷ []) more))
    ∙ drop-append (length head) head (v ++ 0 ∷ more) refl

-- The value of a leaf, read from the configuration
pub leaf_value :
    (c : ConfigTree) (v : Atom) (head more : List ℕ) (at : ℕ) (n : ConfigNode)
    → IsValue v
    → length head ≡ at
    → c.text ≡ head ++ value_text v ++ more
    → (x : Value) × HasValue c (fill_value v at n) x × IsValueOf v x
leaf_value c (symbol v) head more at n h l e = (
  Forest.string (string_at (some c) at),
  (refl, refl),
  (more, ap (string_at (some c)) (sym l) ∙ string_here c head v more e),
)
leaf_value c (string v) head more at n h l e = (
  Forest.string (string_at (some c) at),
  (refl, refl),
  (more, ap (string_at (some c)) (sym l) ∙ string_here c head v more e),
)
leaf_value c (float w) head more at n h l e = (Forest.real w, (refl, refl), refl)
leaf_value c (integer w) head more at n h l e = (Forest.long (signed w), (refl, refl), refl)
leaf_value c (character w) head more at n h l e = absurd h
