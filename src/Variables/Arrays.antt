-- ===== src/Variables/Arrays.antt =====
-- memory.c: memory_NewArray, memory_ReDimArray and memory_CheckArrayIndex. The elements of an array
-- stand in the slots of its block.
use script_basic.Common.{
  ℕ, zero, suc, ◌+◌, ◌-◌, ◌*◌, ◌%◌, Bool, true, false, not, ◌&&◌, ◌||◌, Option, none, some, ◌==◌,
  ltb, if◌then◌else◌, long_mod,
}
use script_basic.Common.Int.{ℤ, pos, pos_part, neg_part, ◌+ℤ◌, ltb_ℤ}
use script_basic.Memory.{Allocator}
use script_basic.Links.{write}
use script_basic.Variables.Objects.{
  immortal, array, Object, Variables, sizeof_slot, large_block_type, put_at, set_object,
  new_variable, places, offset,
}
use script_basic.Variables.Create.{then_set, then_unlink}
use script_basic.Variables.Release.{is_ref}
use script_basic.Variables.Mortal.{then_mortalize}

-- `(HighIndex-LowIndex+1)*sizeof(void *)` as an unsigned long
unfoldable pub array_size : ℤ → ℤ → ℕ
array_size low high =
    (sizeof_slot * (pos_part high + neg_part low + 1)
      + (long_mod - sizeof_slot * (pos_part low + neg_part high) % long_mod))
    % long_mod

-- So many slots from an address on are NULL.
unfoldable pub clear_slots : ℕ → ℕ → (ℕ → ℕ) → ℕ → ℕ
clear_slots zero p slot = slot
clear_slots (suc left) p slot = clear_slots left (p + sizeof_slot) (put_at slot p 0)

abbrev pub in_limits : Object → ℤ → Bool
in_limits o i = not (ltb_ℤ i o.low || ltb_ℤ o.high i)

module _ (a : Allocator) where
  open a use {alloc, free}

  unfoldable pub new_array : ℤ → ℤ → Variables a → ℕ × Variables a
  new_array low high m =
      let (p, m1) = then_unlink a (
        then_set a (new_variable a large_block_type (array_size low high) m)
          (λ o. record o { v_type = array; high = high; low = low; state = immortal })) in
      if p == 0
      then (0, m1)
      else (p, record m1 { slot = clear_slots (places low high) (m1.object p).value m1.slot })

  unfoldable pub new_mortal_array : Option ℕ → ℤ → ℤ → Variables a → ℕ × Option ℕ × Variables a
  new_mortal_array list low high m = then_mortalize a list (new_array low high m)

  -- The element that is to stand at place `k` of the block, of the array as it was before. A variable
  -- that is a reference is hooked with the slot that it now stands in. `none` is a read through NULL,
  -- which only the first of the three loops tests for.
  unfoldable pub move_element : Bool → Object → ℕ → ℤ → ℕ → Variables a → Option (Variables a)
  move_element tested o block low k m =
      let to = block + sizeof_slot * k in
      let i = low +ℤ pos k in
      let v = m.slot (o.value + sizeof_slot * offset o.low i) in
      let m1 : Variables a = record m { slot = put_at m.slot to v } in
      let after = m.links.next v in
      let hooked : Variables a = record m1 {
        links = record m.links { prev = write m.links.prev after to };
      } in
      if not (in_limits o i)
      then some (record m { slot = put_at m.slot to 0 })
      else if v == 0
      then (if tested then some m1 else none)
      else if is_ref (m.object v).v_type && not (after == 0)
      then some hooked
      else some m1

  -- From place `k` on, so many places.
  unfoldable pub move_up : Bool → Object → ℕ → ℤ → ℕ → ℕ → Variables a → Option (Variables a)
  move_up tested o block low zero k m = some m
  move_up tested o block low (suc left) k m = elim (move_element tested o block low k m) [
    | none ↦ none
    | some m' ↦ move_up tested o block low left (k + 1) m'
  ]

  -- The places below this number, the last one first.
  unfoldable pub move_down : Bool → Object → ℕ → ℤ → ℕ → Variables a → Option (Variables a)
  move_down tested o block low zero m = some m
  move_down tested o block low (suc k) m = elim (move_element tested o block low k m) [
    | none ↦ none
    | some m' ↦ move_down tested o block low k m'
  ]

  unfoldable pub enlarge_array : ℤ → ℤ → ℕ → Variables a → Option (ℕ × Variables a)
  enlarge_array low high p m =
      let o = m.object p in
      let (block, s1) = alloc (array_size low high) m.segment in
      let moved = move_up true o block low (places low high) 0 (record m { segment = s1 }) in
      if block == 0 then some (0, record m { segment = s1 }) else (elim moved [
        | none ↦ none
        | some m' ↦ some (
          p,
          set_object a p (λ x. record x { value = block; low = low; high = high })
              (record m' { segment = free o.value m'.segment }),
        )
      ])

  unfoldable pub shrink_array : ℤ → ℤ → ℕ → Variables a → Option (ℕ × Variables a)
  shrink_array low high p m =
      let o = m.object p in
      elim (if ltb_ℤ low o.low
        then move_down false o o.value low (places low high) m
        else move_up false o o.value low (places low high) 0 m) [
          | none ↦ none
          | some m' ↦ some (p, set_object a p (λ x. record x { low = low; high = high }) m')
        ]

  unfoldable pub redim_array : ℤ → ℤ → ℕ → Variables a → Option (ℕ × Variables a)
  redim_array low high p m =
      if ltb (m.object p).size (array_size low high)
      then enlarge_array low high p m
      else shrink_array low high p m

  unfoldable pub check_array_index : ℕ → ℤ → Variables a → Option (ℕ × Variables a)
  check_array_index p i m =
      let o = m.object p in
      if ltb_ℤ o.high i
      then redim_array o.low i p m
      else if ltb_ℤ i o.low
      then redim_array i o.high p m
      else some (p, m)
