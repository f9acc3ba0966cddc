-- ===== src/Sym/Order.antt =====
-- sym.c: the order of a bucket's tree, and what it says of the names that the loop finds.
use script_basic.Common.{◌≡◌, refl, arith}
use script_basic.Sym.Name.{Name, ◌≺◌, gt_of_lt}
use script_basic.Sym.Tree.{Tree, null, released, node, find, hook}

-- Every name of the tree satisfies `P`.
abbrev pub All : (Name → Type 0) → Tree → Type 0
All P null = Unit
All P released = Unit
All P (node y small big) = All P small × P y.name × All P big

-- A search tree, with no pointer to released memory.
abbrev pub IsOrdered : Tree → Type 0
IsOrdered null = Unit
IsOrdered released = ⊥
IsOrdered (node y small big) =
    All (λ x. x ≺ y.name) small × All (λ x. y.name ≺ x) big × IsOrdered small × IsOrdered big

pub All-imp : {P Q : Name → Type 0} → ((x : Name) → P x → Q x) → (t : Tree) → All P t → All Q t
All-imp f null h = tt
All-imp f released h = tt
All-imp f (node y small big) (hs, hy, hb) = (All-imp f small hs, f y.name hy, All-imp f big hb)

pub All-hook :
    (P : Name → Type 0) (s : Name) (new t : Tree) → All P new → All P t → All P (hook s new t)
unfolding hook
All-hook P s new null n h = n
All-hook P s new released n h = n
All-hook P s new (node y small big) n h =
    ground (arith, All-hook P s new small n, All-hook P s new big n)

pub All-find : (P : Name → Type 0) (s : Name) (t : Tree) → All P t → All P (find s t)
unfolding find
All-find P s null h = tt
All-find P s released h = tt
All-find P s (node y small big) h = ground (arith, All-find P s small, All-find P s big)

pub find-IsOrdered : (s : Name) (t : Tree) → IsOrdered t → IsOrdered (find s t)
unfolding find
find-IsOrdered s null h = tt
find-IsOrdered s released h = absurd h
find-IsOrdered s (node y small big) h = ground (arith, find-IsOrdered s small, find-IsOrdered s big)

-- The place where the loop stops holds its own content.
pub hook-find : (s : Name) (t : Tree) → hook s (find s t) t ≡ t
unfolding hook find
hook-find s null = refl
hook-find s released = refl
hook-find s (node y small big) = ground (arith, hook-find s small, hook-find s big)

-- A name below or above all names of a tree is not in it.
pub find_below : (p : Name) (t : Tree) → All (λ x. p ≺ x) t → IsOrdered t → find p t ≡ null
unfolding find
find_below p null h o = refl
find_below p released h o = absurd o
find_below p (node y small big) h o = ground (arith, find_below p small)

pub find_above : (p : Name) (t : Tree) → All (λ x. x ≺ p) t → IsOrdered t → find p t ≡ null
unfolding find
find_above p null h o = refl
find_above p released h o = absurd o
find_above p (node y small big) h o = ground (arith, find_above p big, gt_of_lt y.name p)
