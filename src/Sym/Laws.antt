-- ===== src/Sym/Laws.antt =====
-- sym.c against the map from names, in any spelling, to values that a symbol table stands for.
use native.Mathlib.Decide.{ℕ_discrete}
use mathlib.Core.Path.{subst}
use script_basic.Common.{
  ℕ, ◌≡◌, refl, sym, ap, ◌∙◌, ◌≢◌, ◌<◌, Option, length, length-set, get_or-set_self, get_or-set_ne,
}
use script_basic.Sym.Name.{Name, to_lower, hashpjw, hashpjw-lt-prime, prime}
use script_basic.Sym.Tree.{Tree, null, value_of}
use script_basic.Sym.Order.{IsOrdered}
use script_basic.Sym.Table.{SymbolTable, bucket, set_bucket, symbols}

-- As many buckets as hash values, and every bucket a search tree.
pub record IsValid (t : SymbolTable) : Type 0 where
  pub sized : length t.buckets ≡ prime
  pub ordered : (k : ℕ) → IsOrdered (bucket t k)

-- A table in which one bucket is replaced reads in that bucket as the new tree, else as before.
module _ (t : SymbolTable) (v : IsValid t) (s : Name) (new : Tree) where
  abbrev pub there : SymbolTable
  there = set_bucket t (hashpjw s) new

  inside : hashpjw s < length t.buckets
  inside = subst (λ n. hashpjw s < n) (sym v.sized) (hashpjw-lt-prime s)

  pub bucket_self : (p : Name) → hashpjw p ≡ hashpjw s → bucket there (hashpjw p) ≡ new
  bucket_self p e = ap (bucket there) e ∙ get_or-set_self t.buckets (hashpjw s) new null inside

  bucket_ne : (k : ℕ) → hashpjw s ≢ k → bucket there k ≡ bucket t k
  bucket_ne k n = get_or-set_ne t.buckets (hashpjw s) k new null n

  pub there-IsValid : IsOrdered new → IsValid there
  there-IsValid o = record {
    sized = length-set t.buckets (hashpjw s) new ∙ v.sized;
    ordered = λ k. elim (ℕ_discrete (hashpjw s) k) [
      | yes e ↦
          subst (λ j. IsOrdered (bucket there j)) e (subst IsOrdered (sym (bucket_self s refl)) o)
      | no n ↦ subst IsOrdered (sym (bucket_ne k n)) (v.ordered k)
    ];
  }

  pub symbols-there :
      ((p : Name) → p ≢ s → value_of p new ≡ value_of p (bucket t (hashpjw s)))
      → (p : Name) → to_lower p ≢ s
      → symbols there p ≡ symbols t p
  unfolding symbols
  symbols-there same p n = elim (ℕ_discrete (hashpjw s) (hashpjw (to_lower p))) [
    | yes e ↦
        ap (value_of (to_lower p)) (bucket_self (to_lower p) (sym e))
        ∙ same (to_lower p) n
        ∙ ap (λ k. value_of (to_lower p) (bucket t k)) e
    | no other ↦ ap (value_of (to_lower p)) (bucket_ne (hashpjw (to_lower p)) other)
  ]

  pub symbols-there_self : (p : Name) → to_lower p ≡ s → symbols there p ≡ value_of s new
  unfolding symbols
  symbols-there_self p e =
      subst (λ x. value_of x (bucket there (hashpjw x)) ≡ value_of s new) (sym e)
        (ap (value_of s) (bucket_self s refl))

pub symbols-same :
    (t : SymbolTable) (p s : Name) → to_lower p ≡ to_lower s → symbols t p ≡ symbols t s
unfolding symbols
symbols-same t p s e = ap (λ x. value_of x (bucket t (hashpjw x))) e

-- A change at one name: it reads as `v` in every spelling, and all other names read as before.
pub record Changed (t t' : SymbolTable) (s : Name) (v : Option ℕ) : Type 0 where
  pub valid : IsValid t'
  pub now : (p : Name) → to_lower p ≡ to_lower s → symbols t' p ≡ v
  pub others : (p : Name) → to_lower p ≢ to_lower s → symbols t' p ≡ symbols t p
