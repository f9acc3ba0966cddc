-- ===== src/Variables/Redim.antt =====
-- memory_ReDimArray and memory_CheckArrayIndex: the elements of an array that has been made larger.
use script_basic.Common.{
  ℕ, suc, ◌+◌, ◌-◌, ◌*◌, ◌≤◌, ◌<◌, ◌≡◌, ◌≢◌, refl, ap, ◌∙◌, true, false, not, ◌||◌, none, some,
  ◌==◌, ltb, arith,
}
use script_basic.Common.Int.{ℤ, pos, ◌+ℤ◌, ltb_ℤ, ◌≤ℤ◌, int_laws, +ℤ_parts}
use script_basic.Memory.{Allocator}
use script_basic.Variables.Objects.{Object, Variables, sizeof_slot, set_object, places, offset}
use script_basic.Variables.Arrays.{
  array_size, move_element, move_up, enlarge_array, shrink_array, redim_array,
}
use script_basic.Variables.Moved.{element, Separate, Moved, move_up-Moved}

offset_place : (low i : ℤ) → low ≤ℤ i → low +ℤ pos (offset low i) ≡ i
offset_place low i h = omega (int_laws, +ℤ_parts low (pos (offset low i)))

-- An array that has been made larger, in a new block: an index of the new limits leads to the same
-- element as before, NULL outside the old limits.
pub record Enlarged {a : Allocator} (m m' : Variables a) (p block : ℕ) (low high : ℤ)
    (rest : a.Segment) : Type 0 where
  pub object : m'.object p ≡ record (m.object p) { value = block; low = low; high = high }
  pub elements :
      (i : ℤ) → low ≤ℤ i → i ≤ℤ high → element m' (m'.object p) i ≡ element m (m.object p) i
  pub others : (c : ℕ) → c ≢ p → m'.object c ≡ m.object c
  pub segment : m'.segment ≡ a.free (m.object p).value rest

module _ (a : Allocator) (m : Variables a) (p : ℕ) (low high : ℤ) where
  abbrev pub block : ℕ
  block = (a.alloc (array_size low high) m.segment).0

  -- The variables before the elements are moved, and after it.
  abbrev with_block : Variables a
  with_block = record m { segment = (a.alloc (array_size low high) m.segment).1 }

  abbrev enlarged : Variables a → Variables a
  enlarged m1 =
      set_object a p (λ x. record x { value = block; low = low; high = high })
        (record m1 { segment = a.free (m.object p).value m1.segment })

  enlarges :
      (m1 : Variables a)
      → (m.object p).size < array_size low high
      → block ≢ 0
      → move_up a true (m.object p) block low (places low high) 0 with_block ≡ some m1
      → redim_array a low high p m ≡ some (p, enlarged m1)
  unfolding redim_array enlarge_array
  enlarges m1 s n e =
      let larger : ltb (m.object p).size (array_size low high) ≡ true = ground arith in
      let some_block : (block == 0) ≡ false = ground (arith, n) in rw (larger, some_block, e) refl

  at_self :
      (m1 : Variables a)
      → m1.object ≡ m.object
      → (enlarged m1).object p ≡ record (m.object p) { value = block; low = low; high = high }
  at_self m1 e = let self : (p == p) ≡ true = ground arith in rw (self, e) refl

  at_index :
      (m1 : Variables a)
      → Moved with_block m1 (m.object p) block low (places low high) 0
      → (i : ℤ) → low ≤ℤ i
      → i ≤ℤ high
      → element m1 (record (m.object p) { value = block; low = low; high = high }) i
        ≡ element m (m.object p) i
  at_index m1 r i l g =
      let inside : not (ltb_ℤ i low || ltb_ℤ high i) ≡ true = ground arith in
      rw inside (
        r.moved (offset low i) (omega arith) (omega arith)
        ∙ ap (element m (m.object p)) (offset_place low i l))

  -- For an array whose new limits need more bytes than its Size says, and where the segment has
  -- memory for them that shares no slot with the old block, memory_ReDimArray ends with the array in
  -- the new block and with the new limits, and with the same Size as before: each index of the new
  -- limits leads to the element it led to before, NULL outside the old limits; the old block is
  -- given back, and no other variable's record is changed but for its links.
  pub redim_array-Enlarged :
      (m.object p).size < array_size low high
      → block ≢ 0
      → Separate (m.object p) block (places low high)
      → (m' : Variables a) × (redim_array a low high p m ≡ some (p, m'))
        × Enlarged m m' p block low high with_block.segment
  redim_array-Enlarged s n h =
      let (m1, e, r) =
        move_up-Moved a (m.object p) block low (places low high) 0 with_block
          (λ j l q t. h j l (omega arith) t) in
      (
        enlarged m1,
        enlarges m1 s n e,
        record {
          object = at_self m1 r.object;
          elements = λ i l g. rw (at_self m1 r.object) (at_index m1 r i l g);
          others =
              λ c d. let other : (p == c) ≡ false = ground (arith, d) in rw (other, r.object) refl;
          segment = ap (a.free (m.object p).value) r.segment;
        },
      )

at_low : (i : ℤ) → i +ℤ pos 0 ≡ i
at_low i = omega (int_laws, +ℤ_parts i (pos 0))

move_element_null :
    (a : Allocator) (o : Object) (m : Variables a)
    → o.low ≤ℤ o.high
    → m.slot o.value ≡ 0
    → move_element a false o o.value o.low 0 m ≡ none
unfolding move_element
move_element_null a o m l e =
    let inside : not (ltb_ℤ o.low o.low || ltb_ℤ o.high o.low) ≡ true = ground arith in
    let first : o.value + sizeof_slot * offset o.low o.low ≡ o.value = omega arith in
    let null : (m.slot (o.value + sizeof_slot * offset o.low o.low) == 0) ≡ true =
      rw (first, e) refl in
    rw (at_low o.low, move_element) (rw (inside, null) refl)

move_up_null :
    (a : Allocator) (o : Object) (m : Variables a) (left : ℕ)
    → o.low ≤ℤ o.high
    → m.slot o.value ≡ 0
    → move_up a false o o.value o.low (suc left) 0 m ≡ none
unfolding move_up
move_up_null a o m left l e = rw (move_element_null a o m l e, move_up) refl

shrink_array_null :
    (a : Allocator) (m : Variables a) (p : ℕ) (high : ℤ)
    → (m.object p).low ≤ℤ high
    → (m.object p).low ≤ℤ (m.object p).high
    → m.slot (m.object p).value ≡ 0
    → shrink_array a (m.object p).low high p m ≡ none
unfolding shrink_array
shrink_array_null a m p high l g e =
    let upwards : ltb_ℤ (m.object p).low (m.object p).low ≡ false = ground arith in
    let some_place : places (m.object p).low high ≡ suc (places (m.object p).low high - 1) =
      omega arith in
    rw
      (
        upwards,
        some_place,
        move_up_null a (m.object p) m (places (m.object p).low high - 1) g e,
        shrink_array,
      )
      refl

-- For an array with a place, the first element of which is NULL, with the low limit kept and the
-- high limit not below it, and new limits that need no more bytes than its Size says,
-- memory_ReDimArray reads through NULL.
pub redim_array_null :
    (a : Allocator) (m : Variables a) (p : ℕ) (high : ℤ)
    → array_size (m.object p).low high ≤ (m.object p).size
    → (m.object p).low ≤ℤ high
    → (m.object p).low ≤ℤ (m.object p).high
    → m.slot (m.object p).value ≡ 0
    → redim_array a (m.object p).low high p m ≡ none
unfolding redim_array
redim_array_null a m p high s l g e =
    let smaller : ltb (m.object p).size (array_size (m.object p).low high) ≡ false = ground arith in
    rw (smaller, redim_array) (shrink_array_null a m p high l g e)
