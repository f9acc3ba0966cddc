-- ===== src/Compile/Link.antt =====
-- confpile.c: the nodes by their indices, and what the link to the next node changes of them.
use script_basic.Common.{
  ℕ, zero, suc, ◌-◌, ◌≤◌, ◌<◌, ◌≡◌, ◌≢◌, refl, ap, inl, inr, List, [], ◌∷◌, ◌++◌, length, set,
  get_or, length-set, some, false, ◌==◌, Bool-cases, arith,
}
use script_basic.ConfigTree.{ConfigNode, node_at}
use script_basic.Compile.{linked}

pub node_at-left :
    (ns ms : List ConfigNode) (j : ℕ) → j ≤ length ns → node_at (ns ++ ms) j ≡ node_at ns j
unfolding node_at
node_at-left ns ms zero h = refl
node_at-left [] ms (suc j) h = absurd (omega arith)
node_at-left (n ∷ ns) ms (suc zero) h = refl
node_at-left (n ∷ ns) ms (suc (suc j)) h = node_at-left ns ms (suc j) (omega arith)

pub node_at-last :
    (ns : List ConfigNode) (x : ConfigNode) → node_at (ns ++ x ∷ []) (suc (length ns)) ≡ some x
unfolding node_at
node_at-last [] x = refl
node_at-last (n ∷ ns) x = node_at-last ns x

node_at-set_ne :
    (ns : List ConfigNode) (i j : ℕ) (x : ConfigNode)
    → j ≢ suc i
    → node_at (set ns i x) j ≡ node_at ns j
unfolding node_at
node_at-set_ne ns i zero x h = refl
node_at-set_ne [] i (suc j) x h = refl
node_at-set_ne (n ∷ ns) zero (suc zero) x h = absurd (h refl)
node_at-set_ne (n ∷ ns) zero (suc (suc j)) x h = refl
node_at-set_ne (n ∷ ns) (suc i) (suc zero) x h = refl
node_at-set_ne (n ∷ ns) (suc i) (suc (suc j)) x h =
    node_at-set_ne ns i (suc j) x (λ e. h (ap suc e))

node_at-set_self :
    (ns : List ConfigNode) (i : ℕ) (x : ConfigNode)
    → i < length ns
    → node_at (set ns i x) (suc i) ≡ some x
unfolding node_at
node_at-set_self [] i x h = absurd (omega arith)
node_at-set_self (n ∷ ns) zero x h = refl
node_at-set_self (n ∷ ns) (suc i) x h = node_at-set_self ns i x (omega arith)

get_or-node_at :
    (ns : List ConfigNode) (i : ℕ) (d n : ConfigNode)
    → node_at ns (suc i) ≡ some n
    → get_or ns i d ≡ n
unfolding node_at
get_or-node_at [] i d n e = cc
get_or-node_at (m ∷ ns) zero d n e = cc
get_or-node_at (m ∷ ns) (suc i) d n e = get_or-node_at ns i d n e

pub linked_other :
    (prev j : ℕ) (d : ConfigNode) (ns : List ConfigNode)
    → j ≢ prev
    → node_at (linked prev d ns) j ≡ node_at ns j
linked_other prev j d ns h = elim (Bool-cases (prev == 0)) [
  | inl e ↦ rw e refl
  | inr e ↦
      let nz : prev ≢ 0 = ground (arith, e) in
      rw e (node_at-set_ne ns (prev - 1) j _ (λ z. h (omega (arith, z, nz))))
]

pub linked_self :
    (i : ℕ) (d n : ConfigNode) (ns : List ConfigNode)
    → i < length ns
    → node_at ns (suc i) ≡ some n
    → node_at (linked (suc i) d ns) (suc i) ≡ some (record n { next = suc (length ns) })
linked_self i d n ns lt e =
    let here : suc i - 1 ≡ i = omega arith in
    let nonzero : (suc i == 0) ≡ false = ground arith in
    rw nonzero (rw here (rw (get_or-node_at ns i d n e) (node_at-set_self ns i _ lt)))

pub length-linked :
    (prev : ℕ) (n : ConfigNode) (ns : List ConfigNode) → length (linked prev n ns) ≡ length ns
length-linked prev n ns = elim (Bool-cases (prev == 0)) [
  | inl e ↦ rw e refl
  | inr e ↦ rw e (length-set ns (prev - 1) _)
]
