-- ===== src/Variables/Copy.antt =====
-- memory.c: memory_DupVar, memory_DupMortalize and memory_DupImmortal.
use script_basic.Common.{
  ℕ, zero, suc, ◌+◌, ◌*◌, Bool, true, false, not, ◌&&◌, Option, none, some, List, [], ◌∷◌, ◌==◌,
  if◌then◌else◌,
}
use script_basic.Memory.{Allocator}
use script_basic.Variables.Objects.{
  State, mortal, VType, string, Variables, sizeof_slot, large_block_type, fix_type_cstring, places,
  put_at, set_object, new_variable,
}
use script_basic.Variables.Release.{is_array}
use script_basic.Variables.Mortal.{new_mortal}

-- MEM_ERROR_SUCCESS, MEM_ERROR_MEMORY_LOW and MEM_ERROR_INTERNAL001
pub data DupError : Type 0 where
  success memory_low internal001 : DupError

abbrev pub is_success : DupError → Bool
is_success e = elim e [ success ↦ true | _ ↦ false ]

abbrev pub is_mortal : State → Bool
is_mortal s = elim s [ mortal ↦ true | _ ↦ false ]

abbrev pub is_string : VType → Bool
is_string t = elim t [ string ↦ true | _ ↦ false ]

-- `memcpy`, of a source that is not shorter than the length.
unfoldable pub memcpy : ℕ → List ℕ → List ℕ → List ℕ
memcpy zero from to = to
memcpy (suc n) [] to = to
memcpy (suc n) (x ∷ from) [] = x ∷ memcpy n from []
memcpy (suc n) (x ∷ from) (y ∷ to) = x ∷ memcpy n from to

module _ (a : Allocator) where
  -- The bytes of the block of `p` are copied to the block of `q`, if there are any.
  unfoldable pub copy_block : ℕ → ℕ → Variables a → Variables a
  copy_block p q m =
      let from = (m.object p).value in
      let to = (m.object q).value in
      if (m.object p).size == 0 then m else record m {
        bytes = put_at m.bytes to (memcpy (m.object q).size (m.bytes from) (m.bytes to));
      }

  unfoldable pub copy_value : ℕ → ℕ → Variables a → Variables a
  copy_value p q m =
      let o = m.object p in
      if o.s_type == large_block_type
      then copy_block p q m
      else if is_string o.v_type && not (o.s_type == fix_type_cstring)
      then copy_block p q m
      else set_object a q (λ x. record x { value = o.value }) m

  -- The new variable gets the type and the size of the old one.
  abbrev pub copy_type : ℕ → ℕ → Variables a → Variables a
  copy_type p q m =
      set_object a q (λ x. record x { v_type = (m.object p).v_type; size = (m.object p).size }) m

  unfoldable pub dup_var : ℕ → Option ℕ → Variables a → ℕ × Option ℕ × DupError × Variables a
  dup_var p list m =
      if p == 0
      then (0, list, success, m)
      else if is_array (m.object p).v_type
      then (0, list, internal001, m)
      else (let (q, list', m1) = new_mortal a (m.object p).s_type (m.object p).size list m in
          if q == 0
          then (0, list', memory_low, m1)
          else (q, list', success, copy_value p q (copy_type p q m1)))

  -- With the error that the caller has met before.
  unfoldable pub dup_mortalize :
      ℕ → Option ℕ → DupError → Variables a → ℕ × Option ℕ × DupError × Variables a
  dup_mortalize p list error m =
      if not (is_success error)
      then (0, list, error, m)
      else if not (p == 0) && is_mortal (m.object p).state
      then (p, list, error, m)
      else dup_var p list m

  -- The elements from number `i` on, of which so many are left, up to the first error.
  unfoldable pub dup_elements :
      (ℕ → Variables a → Option (ℕ × DupError × Variables a))
      → ℕ
      → ℕ
      → ℕ
      → ℕ
      → Variables a
      → Option (DupError × Variables a)
  dup_elements dup zero i p q m = some (success, m)
  dup_elements dup (suc left) i p q m =
      let from = (m.object p).value + sizeof_slot * i in
      elim (dup (m.slot from) m) [
        | none ↦ none
        | some (r, e, m1) ↦
            let m2 : Variables a = record m1 {
              slot = put_at m1.slot ((m1.object q).value + sizeof_slot * i) r;
            } in
            let rest = dup_elements dup left (i + 1) p q m2 in
            if is_success e then rest else some (e, m2)
      ]

  -- The number bounds the depth of arrays in arrays.
  unfoldable pub dup_immortal : ℕ → ℕ → Variables a → Option (ℕ × DupError × Variables a)
  dup_immortal zero p m = none
  dup_immortal (suc rounds) p m =
      let dup = dup_immortal rounds in
      let o = m.object p in
      let (q, m1) = new_variable a o.s_type o.size m in
      if p == 0
      then some (0, success, m)
      else if q == 0
      then some (0, memory_low, m1)
      else if is_array o.v_type
      then elim (dup_elements dup (places o.low o.high) 0 p q
          (set_object a q (λ x. record x { low = o.low; high = o.high }) (copy_type p q m1))) [
            | none ↦ none
            | some (e, m2) ↦ some (if is_success e then q else 0, e, m2)
          ]
      else some (q, success, copy_value p q (copy_type p q m1))
