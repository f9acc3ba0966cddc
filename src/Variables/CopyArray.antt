-- ===== src/Variables/CopyArray.antt =====
-- memory.c: memory_CopyArray. A copy of a reference refers to what the reference refers to.
use script_basic.Common.{
  ℕ, zero, suc, ◌+◌, ◌*◌, Bool, true, false, not, Option, none, some, ◌==◌, if◌then◌else◌,
}
use script_basic.Memory.{Allocator}
use script_basic.Variables.Objects.{
  long, double, string, array, ref, undef, unset, Variables, sizeof_slot, put_at, set_object,
  places,
}
use script_basic.Variables.Create.{new_long, new_double, new_string, new_ref, is_undef}
use script_basic.Variables.Release.{is_array}
use script_basic.Variables.Copy.{memcpy}
use script_basic.Variables.Arrays.{new_array}
use script_basic.Variables.References.{set_ref}

module _ (a : Allocator) where
  -- The bytes of a string, up to its size.
  unfoldable pub copy_bytes : ℕ → ℕ → Variables a → Variables a
  copy_bytes p q m =
      let from = (m.object p).value in
      let to = (m.object q).value in
      record m { bytes = put_at m.bytes to (memcpy (m.object p).size (m.bytes from) (m.bytes to)) }

  -- A copy of the variable `v`, which stands in the slot `from`, for the slot `to`; `false` is a lack of
  -- memory, which for a reference is a write through NULL.
  unfoldable pub copy_element :
      (ℕ → Variables a → Option (ℕ × Variables a))
      → ℕ
      → ℕ
      → ℕ
      → ℕ
      → Variables a
      → Option (Bool × Variables a)
  copy_element copy max_deref v to from m =
      let o = m.object v in
      let (l, ml) = new_long a m in
      let (d, md) = new_double a m in
      let (t, mt) = new_string a o.size m in
      let (r, mr) = new_ref a m in
      let put = λ (q : ℕ) (m' : Variables a). record m' { slot = put_at m'.slot to q } in
      let set =
        λ (q : ℕ) (m' : Variables a). set_object a q (λ x. record x { value = o.value }) m' in
      elim o.v_type [
        | array ↦ elim (copy v m) [ none ↦ none | some (q, m') ↦ some (not (q == 0), put q m') ]
        | long ↦ some (if l == 0 then (false, put 0 ml) else (true, set l (put l ml)))
        | double ↦ some (if d == 0 then (false, put 0 md) else (true, set d (put d md)))
        | string ↦ some (if t == 0 then (false, put 0 mt) else (true, copy_bytes v t (put t mt)))
        | ref ↦ if r == 0 then none else some (true, (set_ref a max_deref to from (put r mr)).1)
        | undef ↦ some (true, m)
        | unset ↦ some (true, m)
      ]

  unfoldable pub copy_elements :
      (ℕ → Variables a → Option (ℕ × Variables a))
      → ℕ
      → ℕ
      → ℕ
      → ℕ
      → ℕ
      → Variables a
      → Option (Bool × Variables a)
  copy_elements copy max_deref zero i p q m = some (true, m)
  copy_elements copy max_deref (suc left) i p q m =
      let from = (m.object p).value + sizeof_slot * i in
      let to = (m.object q).value + sizeof_slot * i in
      elim (if is_undef a m (m.slot from)
        then some (true, m)
        else copy_element copy max_deref (m.slot from) to from m) [
          | none ↦ none
          | some (ok, m') ↦
              let rest = copy_elements copy max_deref left (i + 1) p q m' in
              if ok then rest else some (false, m')
        ]

  -- The number bounds the depth of arrays in arrays.
  unfoldable pub copy_array : ℕ → ℕ → ℕ → Variables a → Option (ℕ × Variables a)
  copy_array max_deref zero p m = none
  copy_array max_deref (suc rounds) p m =
      let copy = copy_array max_deref rounds in
      let o = m.object p in
      let (q, m1) = new_array a o.low o.high m in
      if p == 0
      then some (0, m)
      else if not (is_array o.v_type)
      then some (0, m)
      else if q == 0
      then some (0, m1)
      else (elim (copy_elements copy max_deref (places o.low o.high) 0 p q m1) [
        | none ↦ none
        | some (ok, m2) ↦ some (if ok then q else 0, m2)
      ])
