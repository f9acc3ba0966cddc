-- ===== src/Links.antt =====
-- Doubly linked lists through addresses, in the way that myalloc.c links the pieces of a segment, and
-- memory.c the variables of a free list and of a mortal list. 0 is NULL.
pub mod Chain
pub mod Unlink
pub mod Join
use script_basic.Common.{
  ℕ, zero, suc, Bool, true, false, ◌||◌, ◌≡◌, ◌≢◌, List, [], ◌∷◌, ◌==◌, if◌then◌else◌,
}

-- The two pointers of what stands at each address.
pub record Links : Type 0 where
  pub next : ℕ → ℕ
  pub prev : ℕ → ℕ

abbrev pub write : (ℕ → ℕ) → ℕ → ℕ → ℕ → ℕ
write f a v b = if a == b then v else f b

abbrev pub has : ℕ → List ℕ → Bool
has a [] = false
has a (x ∷ xs) = (x == a) || has a xs

abbrev pub remove : ℕ → List ℕ → List ℕ
remove a [] = []
remove a (x ∷ xs) = let rest = remove a xs in if x == a then xs else x ∷ rest

-- From `first`, whose predecessor is `before`, the links lead through these addresses and no other.
abbrev pub Chain : Links → ℕ → ℕ → List ℕ → Type 0
Chain l before first [] = first ≡ 0
Chain l before first (a ∷ us) =
    (first ≡ a) × (a ≢ 0) × (has a us ≡ false) × (l.prev a ≡ before) × Chain l a (l.next a) us
