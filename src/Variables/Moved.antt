-- ===== src/Variables/Moved.antt =====
-- memory_ReDimArray: what its loop upwards leaves in the slots of the new block.
use script_basic.Common.{
  ℕ, zero, suc, ◌+◌, ◌*◌, ◌≤◌, ◌<◌, ◌≡◌, ◌≢◌, inl, inr, Bool-cases, refl, ◌∙◌, true, not, ◌&&◌,
  Option, some, ◌==◌, if◌then◌else◌, arith,
}
use mathlib.Core.Path.{subst}
use native.Mathlib.Decide.{ℕ_discrete}
use script_basic.Common.Int.{ℤ, pos, ◌+ℤ◌}
use script_basic.Memory.{Allocator}
use script_basic.Variables.Objects.{Object, Variables, sizeof_slot, put_at, places, offset}
use script_basic.Variables.Release.{is_ref}
use script_basic.Variables.Arrays.{in_limits, move_element, move_up}

-- The element that an array has at an index, NULL outside its limits.
abbrev pub element : {a : Allocator} → Variables a → Object → ℤ → ℕ
element m o i = if in_limits o i then m.slot (o.value + sizeof_slot * offset o.low i) else 0

-- No slot of the new block is one of the array's.
abbrev pub Separate : Object → ℕ → ℕ → Type 0
Separate o block count =
    (j l : ℕ)
    → j < count
    → l < places o.low o.high
    → block + sizeof_slot * j ≢ o.value + sizeof_slot * l

move_element_slot :
    (a : Allocator) (o : Object) (block : ℕ) (low : ℤ) (k : ℕ) (m : Variables a)
    → (m' : Variables a) × (move_element a true o block low k m ≡ some m')
      × (m'.slot ≡ put_at m.slot (block + sizeof_slot * k) (element m o (low +ℤ pos k)))
      × (m'.object ≡ m.object)
      × (m'.segment ≡ m.segment)
unfolding move_element
move_element_slot a o block low k m = elim (Bool-cases (in_limits o (low +ℤ pos k))) [
  | inr e ↦ rw e (_, refl, refl, refl, refl)
  | inl e ↦
      rw e (elim (Bool-cases (m.slot (o.value + sizeof_slot * offset o.low (low +ℤ pos k)) == 0)) [
        | inl f ↦ rw f (_, refl, refl, refl, refl)
        | inr f ↦
            rw f
              (elim (Bool-cases (
                is_ref
                  (m.object (m.slot (o.value + sizeof_slot * offset o.low (low +ℤ pos k)))).v_type
                && not (
                    m.links.next (m.slot (o.value + sizeof_slot * offset o.low (low +ℤ pos k)))
                    == 0))) [
                      | inl g ↦ rw g (_, refl, refl, refl, refl)
                      | inr g ↦ rw g (_, refl, refl, refl, refl)
                    ])
      ])
]

-- What the loop upwards from place `k` leaves in the slots.
pub record Moved {a : Allocator} (m m' : Variables a) (o : Object) (block : ℕ) (low : ℤ)
    (left k : ℕ) : Type 0 where
  pub moved :
      (j : ℕ)
      → k ≤ j
      → j < k + left
      → m'.slot (block + sizeof_slot * j) ≡ element m o (low +ℤ pos j)
  pub kept :
      (c : ℕ)
      → ((j : ℕ) → k ≤ j → j < k + left → c ≢ block + sizeof_slot * j)
      → m'.slot c ≡ m.slot c
  pub object : m'.object ≡ m.object
  pub segment : m'.segment ≡ m.segment

-- The elements of the old array are as they were, while the slots written are not its own.
element_kept :
    (a : Allocator) (o : Object) (m m' : Variables a) (to v : ℕ) (i : ℤ)
    → m'.slot ≡ put_at m.slot to v
    → ((l : ℕ) → l < places o.low o.high → to ≢ o.value + sizeof_slot * l)
    → element m' o i ≡ element m o i
element_kept a o m m' to v i e h = elim (Bool-cases (in_limits o i)) [
  | inl q ↦
      rw (q, e)
        (let n : to ≢ o.value + sizeof_slot * offset o.low i =
            h (offset o.low i) (ground (arith, q)) in
          ground arith)
  | inr q ↦ rw q refl
]

-- The slot that is written first, and those of the rounds after it.
Moved-suc :
    (a : Allocator) (m m1 m' : Variables a) (o : Object) (block : ℕ) (low : ℤ) (left k : ℕ)
    → m1.slot ≡ put_at m.slot (block + sizeof_slot * k) (element m o (low +ℤ pos k))
    → m1.object ≡ m.object
    → m1.segment ≡ m.segment
    → ((l : ℕ) → l < places o.low o.high → block + sizeof_slot * k ≢ o.value + sizeof_slot * l)
    → Moved m1 m' o block low left (k + 1)
    → Moved m m' o block low (suc left) k
Moved-suc a m m1 m' o block low left k e eo es h r = record {
  moved = λ j p q. elim (ℕ_discrete k j) [
    | yes f ↦
        subst (λ x. m'.slot (block + sizeof_slot * x) ≡ element m o (low +ℤ pos x)) f
          (r.kept (block + sizeof_slot * k) (λ i p' q' g. omega arith) ∙ rw e (ground arith))
    | no f ↦
        r.moved j (omega arith) (omega arith)
        ∙ element_kept a o m m1 (block + sizeof_slot * k) _ (low +ℤ pos j) e h
  ];
  kept = λ c n.
      r.kept c (λ j p q. n j (omega arith) (omega arith))
      ∙ rw e (
          let other : c ≢ block + sizeof_slot * k = n k (omega arith) (omega arith) in
          ground arith);
  object = r.object ∙ eo;
  segment = r.segment ∙ es;
}

move_up_next :
    (a : Allocator) (o : Object) (block : ℕ) (low : ℤ) (left k : ℕ) (m m1 : Variables a)
    (r : Option (Variables a))
    → move_element a true o block low k m ≡ some m1
    → move_up a true o block low left (k + 1) m1 ≡ r
    → move_up a true o block low (suc left) k m ≡ r
unfolding move_up
move_up_next a o block low left k m m1 r e f = rw (e, move_up) f

pub move_up-Moved :
    (a : Allocator) (o : Object) (block : ℕ) (low : ℤ) (left k : ℕ) (m : Variables a)
    → ((j l : ℕ)
        → j < k + left
        → l < places o.low o.high
        → block + sizeof_slot * j ≢ o.value + sizeof_slot * l)
    → (m' : Variables a) × (move_up a true o block low left k m ≡ some m')
      × Moved m m' o block low left k
unfolding move_up
move_up-Moved a o block low zero k m h = (
  m,
  refl,
  record {
    moved = λ j p q. absurd (omega arith);
    kept = λ c n. refl;
    object = refl;
    segment = refl;
  },
)
move_up-Moved a o block low (suc left) k m h =
    let (m1, e, es, eo, eg) = move_element_slot a o block low k m in
    let (m', f, r) =
      move_up-Moved a o block low left (k + 1) m1 (λ j l p q. h j l (omega arith) q) in
    (
      m',
      move_up_next a o block low left k m m1 (some m') e f,
      Moved-suc a m m1 m' o block low left k es eo eg (λ l q. h k l (omega arith) q) r,
    )
