-- ===== src/Sym/Insert.antt =====
-- sym.c: a new symbol, or the address of a released one, at the free place of a bucket's tree.
use script_basic.Common.{ℕ, ◌≡◌, refl, sym, ap, ◌∙◌, ◌≢◌, Option, none, some, arith}
use script_basic.Sym.Name.{Name, strcmp_refl, eq_of_strcmp, lt_of_gt}
use script_basic.Sym.Tree.{Symbol, Tree, null, released, node, find, hook, value_of}
use script_basic.Sym.Order.{IsOrdered, hook-find}
use script_basic.Sym.Hook.{Follows, hook-IsOrdered, or_else, value_of-hook}

-- A new symbol has no sons, so that it may stand at any free place.
leaf-Follows : (y : Symbol) (t : Tree) → Follows y.name (node y null null) t
leaf-Follows y null = tt
leaf-Follows y released = tt
leaf-Follows y (node z small big) =
    ground (arith, leaf-Follows y small, leaf-Follows y big, lt_of_gt y.name z.name)

value_of-leaf : (y : Symbol) (p : Name) → p ≢ y.name → value_of p (node y null null) ≡ none
unfolding value_of find
value_of-leaf y p n = ground (arith, eq_of_strcmp p y.name)

value_of-leaf_self : (y : Symbol) → value_of y.name (node y null null) ≡ some y.value
unfolding value_of find
value_of-leaf_self y = ground (arith, strcmp_refl y.name)

pub value_of-free : (p : Name) (t : Tree) → find p t ≡ null → value_of p t ≡ none
unfolding value_of
value_of-free p t e = rw (e, value_of)

or_else-none : (v : Option ℕ) → or_else v none ≡ v
or_else-none none = refl
or_else-none (some v) = refl

-- The tree holds the new symbol, and every other name reads as before.
pub record Planted (y : Symbol) (t t' : Tree) : Type 0 where
  pub ordered : IsOrdered t'
  pub now : value_of y.name t' ≡ some y.value
  pub kept : (p : Name) → p ≢ y.name → value_of p t' ≡ value_of p t

pub hook-Planted :
    (y : Symbol) (t : Tree)
    → IsOrdered t
    → find y.name t ≡ null
    → Planted y t (hook y.name (node y null null) t)
hook-Planted y t o e = record {
  ordered = hook-IsOrdered y.name leaf t o (tt, tt, tt, tt) follows;
  now = reads y.name ∙ rw (value_of-free y.name t e) (value_of-leaf_self y);
  kept = λ p n. reads p ∙ ap (or_else (value_of p t)) (value_of-leaf y p n) ∙ or_else-none _;
}
  where
    leaf : Tree
    leaf = node y null null

    follows : Follows y.name leaf t
    follows = leaf-Follows y t

    reads : (p : Name) → value_of p (hook y.name leaf t) ≡ or_else (value_of p t) (value_of p leaf)
    reads p =
        value_of-hook p y.name leaf t o (tt, tt, tt, tt) follows
        ∙ ap (λ r. or_else (value_of p r) (value_of p leaf))
            (ap (λ r. hook y.name r t) (sym e) ∙ hook-find y.name t)

-- The loop stops at a released symbol that was hooked in.
pub find-hook_released :
    (s : Name) (t : Tree) → find s t ≡ null → find s (hook s released t) ≡ released
unfolding find hook
find-hook_released s null e = refl
find-hook_released s released e = refl
find-hook_released s (node y small big) e =
    ground (arith, find-hook_released s small, find-hook_released s big)
