-- ===== src/Sym/Hook.antt =====
-- sym.c: what a tree holds after another content is hooked in where the loop stops.
use Prim.Native.Nat.Ordering.{lt, eq, gt}
use script_basic.Common.{ℕ, ◌≡◌, refl, sym, ap, ◌∙◌, Option, none, some, arith}
use script_basic.Sym.Name.{Name, strcmp, ◌≺◌, lt_of_gt, ≺_trans}
use script_basic.Sym.Tree.{Tree, null, released, node, find, hook, value_of, root_value}
use script_basic.Sym.Order.{
  All, IsOrdered, All-imp, All-hook, All-find, hook-find, find_below, find_above,
}

-- Every name of `new` takes the turns that `s` takes on its way down the tree.
abbrev pub Follows : Name → Tree → Tree → Type 0
Follows s new null = Unit
Follows s new released = Unit
Follows s new (node y small big) = elim (strcmp s y.name) [
  | lt ↦ All (λ x. x ≺ y.name) new × Follows s new small
  | eq ↦ Unit
  | gt ↦ All (λ x. y.name ≺ x) new × Follows s new big
]

pub hook-IsOrdered :
    (s : Name) (new t : Tree)
    → IsOrdered t
    → IsOrdered new
    → Follows s new t
    → IsOrdered (hook s new t)
unfolding hook
hook-IsOrdered s new null o n f = n
hook-IsOrdered s new released o n f = n
hook-IsOrdered s new (node y small big) o n f = ground (
  arith,
  hook-IsOrdered s new small o.2 n,
  hook-IsOrdered s new big o.3 n,
  All-hook (λ x. x ≺ y.name) s new small,
  All-hook (λ x. y.name ≺ x) s new big,
)

-- What stood at the place follows its name.
pub find-Follows : (s : Name) (t : Tree) → IsOrdered t → Follows s (find s t) t
unfolding find
find-Follows s null o = tt
find-Follows s released o = absurd o
find-Follows s (node y small big) o = ground (
  arith,
  find-Follows s small o.2,
  find-Follows s big o.3,
  All-find (λ x. x ≺ y.name) s small,
  All-find (λ x. y.name ≺ x) s big,
)

abbrev pub or_else : Option ℕ → Option ℕ → Option ℕ
or_else none w = w
or_else (some v) w = some v

-- The tree without what stands at the place of `s`.
abbrev pub without : Name → Tree → Tree
without s t = hook s null t

pub value_below :
    (p k : Name) (t : Tree) → p ≺ k → All (λ x. k ≺ x) t → IsOrdered t → value_of p t ≡ none
unfolding value_of
value_below p k t h a o = rw (find_below p t (All-imp (λ x. ≺_trans p k x h) t a) o, root_value)

pub value_above :
    (p k : Name) (t : Tree) → k ≺ p → All (λ x. x ≺ k) t → IsOrdered t → value_of p t ≡ none
unfolding value_of
value_above p k t h a o = rw (find_above p t (All-imp (λ x b. ≺_trans x k p b h) t a) o, root_value)

-- A name reads as in the rest of the tree, and where it is not there, as in the new content.
pub value_of-hook :
    (p s : Name) (new t : Tree)
    → IsOrdered t
    → IsOrdered new
    → Follows s new t
    → value_of p (hook s new t) ≡ or_else (value_of p (without s t)) (value_of p new)
unfolding hook value_of find
value_of-hook p s new null o n f = refl
value_of-hook p s new released o n f = refl
value_of-hook p s new (node y small big) o n f = ground (
  arith,
  value_of-hook p s new small o.2 n,
  value_of-hook p s new big o.3 n,
  value_below p y.name new,
  value_above p y.name new,
  lt_of_gt p y.name,
)

-- The name itself is not in the rest.
pub value_of-without_self : (s : Name) (t : Tree) → IsOrdered t → value_of s (without s t) ≡ none
unfolding hook value_of find
value_of-without_self s null o = refl
value_of-without_self s released o = refl
value_of-without_self s (node y small big) o =
    ground (arith, value_of-without_self s small o.2, value_of-without_self s big o.3)

-- A tree reads as its rest and what stands at the place.
pub value_of-find :
    (p s : Name) (t : Tree)
    → IsOrdered t
    → IsOrdered (find s t)
    → value_of p t ≡ or_else (value_of p (without s t)) (value_of p (find s t))
value_of-find p s t o f =
    ap (value_of p) (sym (hook-find s t)) ∙ value_of-hook p s (find s t) t o f (find-Follows s t o)
