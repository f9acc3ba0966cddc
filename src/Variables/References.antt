-- ===== src/Variables/References.antt =====
-- memory.c: memory_SetRef and memory_ReplaceVariable. A program's variable is a slot that holds the
-- variable's address. The variables that refer to one are linked through `prev`, which is the slot of
-- the next reference, and `next`.
use script_basic.Common.{
  ℕ, zero, suc, Bool, true, false, not, ◌&&◌, Option, none, some, ◌==◌, if◌then◌else◌,
}
use script_basic.Memory.{Allocator}
use script_basic.Links.{Links, write}
use script_basic.Variables.Objects.{VType, long, double, Variables, put_at, set_object}
use script_basic.Variables.Create.{new_undef, is_undef}
use script_basic.Variables.Release.{is_ref, release_variable}
use script_basic.Variables.Mortal.{immortalize}
use script_basic.Variables.Copy.{
  DupError, success, memory_low, internal001, dup_mortalize, is_success,
}

-- COMMAND_ERROR_SUCCESS, COMMAND_ERROR_CIRCULAR, COMMAND_ERROR_MEMORY_LOW, and the codes that
-- memory_DupMortalize hands on.
pub data CommandError : Type 0 where
  done circular no_memory array_copied : CommandError

abbrev pub error_of : DupError → CommandError
error_of success = done
error_of memory_low = no_memory
error_of internal001 = array_copied

abbrev pub is_long : VType → Bool
is_long t = elim t [ long ↦ true | _ ↦ false ]

abbrev pub is_double : VType → Bool
is_double t = elim t [ double ↦ true | _ ↦ false ]

module _ (a : Allocator) where
  -- The slot where a reference ends, after so many steps at most. A NULL slot is none.
  unfoldable pub dereference : ℕ → ℕ → Variables a → ℕ
  dereference zero s m = s
  dereference (suc left) s m =
      let v = m.slot s in
      let rest = dereference left (m.object v).value m in
      if s == 0 then s else if v == 0 then s else if is_ref (m.object v).v_type then rest else s

  -- The last slot of the list of references that starts at this one, `none` if it is longer.
  unfoldable pub last_reference : ℕ → ℕ → Variables a → Option ℕ
  last_reference zero s m = if m.links.prev (m.slot s) == 0 then some s else none
  last_reference (suc left) s m =
      let after = m.links.prev (m.slot s) in
      let rest = last_reference left after m in if after == 0 then some s else rest

  -- The variables that refer to this one are to refer to `target`; `false` if there are too many.
  unfoldable pub refer_all : ℕ → ℕ → ℕ → Variables a → Bool × Variables a
  refer_all zero target s m =
      let v = m.slot s in (m.links.prev v == 0, set_object a v (λ o. record o { value = target }) m)
  refer_all (suc left) target s m =
      let v = m.slot s in
      let m' = set_object a v (λ o. record o { value = target }) m in
      let rest = refer_all left target (m.links.prev v) m' in
      if m.links.prev v == 0 then (true, m') else rest

  -- The slot is hooked behind the last reference.
  unfoldable pub hook_reference : ℕ → ℕ → ℕ → ℕ → Variables a → CommandError × Variables a
  hook_reference max_deref var target last m =
      let value = m.slot last in
      let links : Links = record {
        next = write m.links.next (m.slot var) value;
        prev = write m.links.prev value var;
      } in
      let (in_time, m') = refer_all max_deref target var (record m { links = links }) in
      (if in_time then done else circular, m')

  -- A NULL value is made an undefined variable; `none` for a lack of memory.
  unfoldable pub ensure_variable : ℕ → Variables a → Option (Variables a)
  ensure_variable s m =
      let (p, m1) = new_undef a m in
      if not (m.slot s == 0)
      then some m
      else if p == 0
      then none
      else some (record m1 { slot = put_at m1.slot s p })

  unfoldable pub set_ref : ℕ → ℕ → ℕ → Variables a → CommandError × Variables a
  set_ref max_deref var val m =
      let target = dereference max_deref val m in
      let v = m.slot target in
      if not (v == 0) && is_ref (m.object v).v_type
      then (circular, m)
      else (elim (ensure_variable target m) [
        | none ↦ (no_memory, record (new_undef a m).1 { slot = put_at m.slot target 0 })
        | some m1 ↦ elim (last_reference max_deref target m1) [
          | none ↦ (circular, m1)
          | some last ↦ hook_reference max_deref var target last m1
        ]
      ])

  -- What refers to the variable `p` refers to `q` from now on.
  unfoldable pub hand_over : ℕ → ℕ → Variables a → Variables a
  hand_over p q m =
      let head = m.links.prev p in
      let prev = write (write m.links.prev q head) p 0 in
      let hooked = write m.links.next (m.slot head) q in
      let next = write (write hooked q (hooked p)) p 0 in
      record m { links = record { next = next; prev = prev } }

  -- A release, and the assignment of the new value, at the end of memory_ReplaceVariable.
  unfoldable pub store_value : ℕ → ℕ → ℕ → ℕ → Variables a → Option (CommandError × ℕ × Variables a)
  store_value rounds s v first m =
      let old = m.slot s in
      elim (if old == 0 then some m else release_variable a rounds old m) [
        | none ↦ none
        | some m' ↦ some (done, first, record m' { slot = put_at m'.slot s v })
      ]

  abbrev pub referenced : ℕ → Variables a → Bool
  referenced p m = not (p == 0) && not (m.links.prev p == 0)

  -- A variable that others refer to gets a record for a NULL value. `none` is a write through NULL.
  unfoldable pub replace_value :
      ℕ → ℕ → ℕ → ℕ → Variables a → Option (CommandError × ℕ × Variables a)
  replace_value rounds s v first m =
      let old = m.slot s in
      let (v1, m1) = if referenced old m && v == 0 then new_undef a m else (v, m) in
      if not (referenced old m1)
      then store_value rounds s v1 first m1
      else if v1 == 0
      then none
      else store_value rounds s v1 first (hand_over old v1 m1)

  -- With the mortal list's first variable, which is handed on.
  unfoldable pub replace_variable :
      ℕ → ℕ → ℕ → Bool → ℕ → Variables a → Option (CommandError × ℕ × Variables a)
  replace_variable rounds s v dup first m =
      let old = m.slot s in
      let both = not (old == 0) && not (v == 0) in
      let old_type = (m.object old).v_type in
      let new_type = (m.object v).v_type in
      let copied = set_object a old (λ o. record o { value = (m.object v).value }) m in
      let (v1, list1, e, m1) =
        if not (v == 0) && dup
        then dup_mortalize a v (some first) success m
        else (v, some first, success, m) in
      let first1 : ℕ = elim list1 [ none ↦ first | some f ↦ f ] in
      let (first2, m2) = immortalize a v1 first1 m1 in
      if is_undef a m old && is_undef a m v
      then some (done, first, m)
      else if both && is_long new_type && is_long old_type
      then some (done, first, copied)
      else if both && is_double new_type && is_double old_type
      then some (done, first, copied)
      else if not (is_success e)
      then some (error_of e, first1, m1)
      else replace_value rounds s v1 first2 m2
