-- ===== src/Match/Reading.antt =====
-- How a pattern of match.c that is not empty is read into items.
use mathlib.Core.Path.{subst}
use script_basic.Common.{ℕ, ◌≡◌, refl, Option, none, some, List, [], ◌∷◌}
use script_basic.Match.Sets.{Bytes}
use script_basic.Match.Matcher.{Setting, Kind, multi, escape, single, space, plain, kind}
use script_basic.Match.Pattern.{Item, many, one, spaces, literal, cons?, item_step, items, Matches}

cons?-inv :
    (i : Item) (r : Option (List Item)) (is : List Item)
    → cons? i r ≡ some is
    → (is' : List Item) × (r ≡ some is') × (is ≡ i ∷ is')
cons?-inv i none is e = cc
cons?-inv i (some is') is e = (is', refl, cc)

module _ (g : Setting) where
  -- How a pattern that is not empty was read.
  pub data Read (x : ℕ) (p : Bytes) (is : List Item) : Type 0 where
    read_many :
        (set : Bytes) (rest : List Item)
        → kind g x ≡ multi set
        → items g p ≡ some rest
        → is ≡ many set ∷ rest
        → Read x p is
    read_one :
        (set : Bytes) (rest : List Item)
        → kind g x ≡ single set
        → items g p ≡ some rest
        → is ≡ one set ∷ rest
        → Read x p is
    read_space :
        (rest : List Item)
        → kind g x ≡ space
        → items g p ≡ some rest
        → is ≡ spaces ∷ rest
        → Read x p is
    read_plain :
        (rest : List Item)
        → kind g x ≡ plain
        → items g p ≡ some rest
        → is ≡ literal x ∷ rest
        → Read x p is
    read_escape :
        (y : ℕ) (p' : Bytes) (rest : List Item)
        → kind g x ≡ escape
        → p ≡ y ∷ p'
        → items g p' ≡ some rest
        → is ≡ literal y ∷ rest
        → Read x p is

  module _ (x : ℕ) (p : Bytes) (is : List Item) where
    item_step-Read :
        (k : Kind) (escaped : Option (List Item))
        → kind g x ≡ k
        → item_step g x (items g p) escaped ≡ some is
        → (kind g x ≡ escape → escaped ≡ some is → Read x p is)
        → Read x p is
    unfolding item_step
    item_step-Read (multi set) escaped k e r =
        let (rest, er, q) = cons?-inv (many set) (items g p) is (rw (k, item_step) at e) in
        read_many set rest k er q
    item_step-Read escape escaped k e r = r k (rw (k, item_step) at e)
    item_step-Read (single set) escaped k e r =
        let (rest, er, q) = cons?-inv (one set) (items g p) is (rw (k, item_step) at e) in
        read_one set rest k er q
    item_step-Read space escaped k e r =
        let (rest, er, q) = cons?-inv spaces (items g p) is (rw (k, item_step) at e) in
        read_space rest k er q
    item_step-Read plain escaped k e r =
        let (rest, er, q) = cons?-inv (literal x) (items g p) is (rw (k, item_step) at e) in
        read_plain rest k er q

  pub items-Read : (x : ℕ) (p : Bytes) (is : List Item) → items g (x ∷ p) ≡ some is → Read x p is
  unfolding items
  items-Read x [] is e =
      item_step-Read x [] is (kind g x) none refl e (λ k n. absurd (not_some is n))
    where
      not_some : (is : List Item) → ¬ (none ≡ some is)
      not_some is n = cc
  items-Read x (y ∷ p) is e =
      item_step-Read x (y ∷ p) is (kind g x) (cons? (literal y) (items g p)) refl e (λ k n.
        let (rest, er, q) = cons?-inv (literal y) (items g p) is n in
        read_escape y p rest k refl er q)

  pub no_items_left :
      (x : ℕ) (p : Bytes) (is : List Item) → Read x p is → (ps : List Bytes) → ¬ Matches g is [] ps
  no_items_left x p is (read_many set rest k e q) ps m = subst (λ js. Matches g js [] ps) q m
  no_items_left x p is (read_one set rest k e q) ps m = subst (λ js. Matches g js [] ps) q m
  no_items_left x p is (read_space rest k e q) ps m = subst (λ js. Matches g js [] ps) q m
  no_items_left x p is (read_plain rest k e q) ps m = subst (λ js. Matches g js [] ps) q m
  no_items_left x p is (read_escape y p' rest k w e q) ps m = subst (λ js. Matches g js [] ps) q m
