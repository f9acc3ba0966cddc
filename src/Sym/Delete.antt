-- ===== src/Sym/Delete.antt =====
-- sym.c: sym_DeleteSymbol on the tree of one bucket.
use mathlib.Core.Path.{subst}
use script_basic.Common.{ℕ, ◌≡◌, refl, sym, ap, ◌∙◌, ◌≢◌, Option, none, some, arith}
use script_basic.Sym.Name.{Name, ◌≺◌, eq_of_strcmp, gt_of_lt, lt_of_gt, ≺_trans}
use script_basic.Sym.Tree.{
  Symbol, Tree, null, released, node, find, hook, value_of, root_value, unhook,
}
use script_basic.Sym.Order.{
  All, IsOrdered, All-imp, All-find, find-IsOrdered, hook-find, find_below, find_above,
}
use script_basic.Sym.Hook.{
  Follows, hook-IsOrdered, find-Follows, without, or_else, value_of-hook, value_of-find,
  value_of-without_self, value_below, value_above,
}

Follows-sons :
    (s : Name) (y : Symbol) (small big t : Tree)
    → Follows s (node y small big) t
    → Follows s small t × Follows s big t
Follows-sons s y small big null f = (tt, tt)
Follows-sons s y small big released f = (tt, tt)
Follows-sons s y small big (node z l r) f =
    ground (arith, Follows-sons s y small big l, Follows-sons s y small big r)

find-name : (s : Name) (y : Symbol) (small big t : Tree) → find s t ≡ node y small big → s ≡ y.name
unfolding find
find-name s y small big null e = cc
find-name s y small big released e = cc
find-name s y small big (node z l r) e =
    ground (arith, find-name s y small big l, find-name s y small big r, eq_of_strcmp s z.name)

-- What a symbol's tree holds apart from the symbol, read from either son first.
value_of-sons :
    (p : Name) (y : Symbol) (small big : Tree)
    → IsOrdered (node y small big)
    → p ≢ y.name
    → (value_of p (node y small big) ≡ or_else (value_of p small) (value_of p big))
      × (value_of p (node y small big) ≡ or_else (value_of p big) (value_of p small))
unfolding value_of find
value_of-sons p y small big o n = ground (
  arith,
  eq_of_strcmp p y.name,
  lt_of_gt p y.name,
  value_below p y.name big,
  value_above p y.name small,
)

self_below : (p : Name) (t : Tree) → All (λ x. p ≺ x) t → IsOrdered t → value_of p t ≡ none
unfolding value_of
self_below p t a o = rw (find_below p t a o, root_value)

self_above : (p : Name) (t : Tree) → All (λ x. x ≺ p) t → IsOrdered t → value_of p t ≡ none
unfolding value_of
self_above p t a o = rw (find_above p t a o, root_value)

-- Where the big son has the symbol's place, the small son's name leads to a free place, and all
-- names below it go there.
module _ (s k : Name) (small big : Tree) where
  record Gap (t : Tree) : Type 0 where
    follows : Follows k small t
    free : find k t ≡ null

  -- Below the big son, which holds greater names only, the way is down the small sons.
  Gap-below : (t : Tree) → All (λ x. s ≺ x) t → IsOrdered t → k ≺ s → All (λ x. x ≺ s) small → Gap t
  unfolding find
  Gap-below null a o h b = record { follows = tt; free = refl }
  Gap-below released a o h b = absurd o
  Gap-below (node z l r) a o h b =
      let g = Gap-below l a.0 o.2 h b in
      ground (
        arith,
        g.follows,
        g.free,
        ≺_trans k s z.name,
        All-imp (λ x c. ≺_trans x s z.name c a.1) small b,
      )

  below :
      (P : Name → Type 0) (y : Symbol) (t : Tree)
      → find s t ≡ node y small big
      → All P t
      → All P small
  below P y t e h = (subst (All P) e (All-find P s t h)).0

  -- Above it, the small son's names take the turns of the symbol's.
  Gap-hook :
      (y : Symbol) (t : Tree)
      → ((P : Name → Type 0) → All P small → P k)
      → IsOrdered (node y small big)
      → s ≡ y.name
      → IsOrdered t
      → find s t ≡ node y small big
      → Gap (hook s big t)
  unfolding find hook
  Gap-hook y null root oy n o e = cc
  Gap-hook y released root oy n o e = cc
  Gap-hook y (node z l r) root oy n o e = ground (
    arith,
    Gap-hook y l root oy n o.2,
    Gap-hook y r root oy n o.3,
    below (λ x. x ≺ z.name) y l,
    below (λ x. z.name ≺ x) y r,
    root (λ x. x ≺ z.name),
    root (λ x. z.name ≺ x),
    gt_of_lt z.name k,
    here,
  )
    where
      here : Gap big
      here =
          Gap-below big (subst (λ x. All (λ b. x ≺ b) big) (sym n) oy.1) oy.3
            (root (λ x. x ≺ s) small_below) small_below
        where
          small_below : All (λ x. x ≺ s) small
          small_below = subst (λ x. All (λ b. b ≺ x) small) (sym n) oy.0

or_else-none : (v : Option ℕ) → or_else v none ≡ v
or_else-none none = refl
or_else-none (some v) = refl

or_else_assoc : (u v w : Option ℕ) → or_else (or_else u v) w ≡ or_else u (or_else v w)
or_else_assoc none v w = refl
or_else_assoc (some u) v w = refl

value_of-null : (p : Name) → value_of p null ≡ none
unfolding value_of find
value_of-null p = refl

-- The order of what is left, and how a name reads in it.
record Left (s : Name) (small big t t' : Tree) : Type 0 where
  ordered : IsOrdered t'
  reads :
      (p : Name)
      → value_of p t'
        ≡ or_else (value_of p (without s t)) (or_else (value_of p big) (value_of p small))

module _ (s : Name) (t : Tree) (o : IsOrdered t) where
  -- One son takes the symbol's place.
  one_son :
      (new : Tree)
      → IsOrdered new
      → Follows s new t
      → IsOrdered (hook s new t)
        × ((p : Name)
            → value_of p (hook s new t) ≡ or_else (value_of p (without s t)) (value_of p new))
  one_son new n f = (hook-IsOrdered s new t o n f, λ p. value_of-hook p s new t o n f)

  -- The small son is hooked in once more, below the big one.
  two_sons :
      (k : Name) (small big : Tree)
      → IsOrdered small
      → IsOrdered big
      → Follows s big t
      → Gap s k small big (hook s big t)
      → Left s small big t (hook k small (hook s big t))
  two_sons k small big os ob f g =
      let first = one_son big ob f in
      let same : without k (hook s big t) ≡ hook s big t =
        ap (λ x. hook k x (hook s big t)) (sym g.free) ∙ hook-find k (hook s big t) in
      record {
        ordered = hook-IsOrdered k small (hook s big t) first.0 os g.follows;
        reads = λ p.
            value_of-hook p k small (hook s big t) first.0 os g.follows
            ∙ ap (λ x. or_else (value_of p x) (value_of p small)) same
            ∙ ap (λ x. or_else x (value_of p small)) (first.1 p)
            ∙ or_else_assoc (value_of p (without s t)) (value_of p big) (value_of p small);
      }

  unhook-Left :
      (y : Symbol) (small big : Tree)
      → find s t ≡ node y small big
      → IsOrdered (node y small big)
      → Follows s small t × Follows s big t
      → Left s small big t (unhook s small big t)
  unfolding unhook
  unhook-Left y small null e oy f =
      let r = one_son small oy.2 f.0 in
      record { ordered = r.0; reads = λ p. rw value_of-null (r.1 p) }
  unhook-Left y small released e oy f = absurd oy.3
  unhook-Left y null (node b bl br) e oy f =
      let r = one_son (node b bl br) oy.3 f.1 in
      record {
        ordered = r.0;
        reads = λ p.
            r.1 p
            ∙ ap (or_else (value_of p (without s t))) (
                sym (or_else-none (value_of p (node b bl br)))
                ∙ ap (or_else (value_of p (node b bl br))) (sym (value_of-null p)));
      }
  unhook-Left y released (node b bl br) e oy f = absurd oy.2
  unhook-Left y (node z l r) (node b bl br) e oy f =
      two_sons z.name (node z l r) (node b bl br) oy.2 oy.3 f.1 (
        Gap-hook s z.name (node z l r) (node b bl br) y t (λ P h. h.1) oy
          (find-name s y (node z l r) (node b bl br) t e) o e)

-- The order is kept, the name is gone, and every other name reads as before.
pub record Deleted (s : Name) (t t' : Tree) : Type 0 where
  pub ordered : IsOrdered t'
  pub gone : value_of s t' ≡ none
  pub kept : (p : Name) → p ≢ s → value_of p t' ≡ value_of p t

pub unhook-Deleted :
    (s : Name) (t : Tree) (y : Symbol) (small big : Tree)
    → IsOrdered t
    → find s t ≡ node y small big
    → Deleted s t (unhook s small big t)
unhook-Deleted s t y small big o e = record {
  ordered = left.ordered;
  gone =
      left.reads s
      ∙ ground (
        arith,
        value_of-without_self s t o,
        self_above s small (subst (λ x. All (λ b. b ≺ x) small) (sym n) oy.0) oy.2,
        self_below s big (subst (λ x. All (λ b. x ≺ b) big) (sym n) oy.1) oy.3,
      );
  kept = λ p ne.
      left.reads p
      ∙ ap (or_else (value_of p (without s t)))
          (sym (value_of-sons p y small big oy (λ q. ne (q ∙ sym n))).1)
      ∙ sym (before p);
}
  where
    oy : IsOrdered (node y small big)
    oy = subst IsOrdered e (find-IsOrdered s t o)

    n : s ≡ y.name
    n = find-name s y small big t e

    f : Follows s small t × Follows s big t
    f = Follows-sons s y small big t (subst (λ r. Follows s r t) e (find-Follows s t o))

    left : Left s small big t (unhook s small big t)
    left = unhook-Left s t o y small big e oy f

    before :
        (p : Name)
        → value_of p t ≡ or_else (value_of p (without s t)) (value_of p (node y small big))
    before p =
        subst (λ r. value_of p t ≡ or_else (value_of p (without s t)) (value_of p r)) e
          (value_of-find p s t o (find-IsOrdered s t o))
