-- ===== src/Variables/Create.antt =====
-- memory.c: the functions that make a variable of one kind with memory_NewVariable, and the tests for
-- undefined values.
use script_basic.Common.{
  ℕ, zero, suc, ◌+◌, ◌-◌, Bool, true, false, Option, none, some, leb, ◌==◌, if◌then◌else◌,
}
use script_basic.Memory.{Allocator}
use script_basic.Variables.Objects.{
  Object, VType, Variables, double, fix_type_cstring, fix_type_double, fix_type_long, immortal,
  large_block_type, long, new_variable, no_links, ref, set_object, string, undef,
}

-- The loop of memory_NewString, with the rounds up to the last string type.
unfoldable pub string_type : (ℕ → ℕ) → ℕ → ℕ → ℕ → Option ℕ
string_type size_of_type size zero i = none
string_type size_of_type size (suc rounds) i =
    let rest = string_type size_of_type size rounds (i + 1) in
    if leb size (size_of_type i) then some i else rest

module _ (a : Allocator) where
  -- What is set in a new variable; NULL is handed on.
  abbrev pub then_set : ℕ × Variables a → (Object → Object) → ℕ × Variables a
  then_set (p, m) f = if p == 0 then (0, m) else (p, set_object a p f m)

  abbrev pub then_unlink : ℕ × Variables a → ℕ × Variables a
  then_unlink (p, m) = if p == 0 then (0, m) else (p, no_links a p m)

  unfoldable pub new_string : ℕ → Variables a → ℕ × Variables a
  new_string size m =
      elim (string_type m.size_of_type size (m.last_string + 1 - m.first_string) m.first_string) [
        | some i ↦ then_set (new_variable a i 0 m) (λ o. record o { v_type = string; size = size })
        | none ↦
            then_set (new_variable a large_block_type size m) (λ o. record o { v_type = string })
      ]

  unfoldable pub new_cstring : ℕ → Variables a → ℕ × Variables a
  new_cstring size m =
      then_set (new_variable a fix_type_cstring 0 m)
        (λ o. record o { size = size; v_type = string })

  unfoldable pub new_ref : Variables a → ℕ × Variables a
  new_ref m = then_unlink (
      then_set (new_variable a fix_type_long 0 m)
        (λ o. record o { v_type = ref; state = immortal; value = 0 }))

  unfoldable pub new_undef : Variables a → ℕ × Variables a
  new_undef m = then_unlink (
      then_set (new_variable a fix_type_long 0 m)
        (λ o. record o { v_type = undef; state = immortal; value = 0 }))

  unfoldable pub new_long : Variables a → ℕ × Variables a
  new_long m = then_unlink (
      then_set (new_variable a fix_type_long 0 m)
        (λ o. record o { v_type = long; state = immortal }))

  unfoldable pub new_double : Variables a → ℕ × Variables a
  new_double m = then_unlink (
      then_set (new_variable a fix_type_double 0 m)
        (λ o. record o { v_type = double; state = immortal }))

  unfoldable pub is_undef : Variables a → ℕ → Bool
  is_undef m p = if p == 0 then true else elim (m.object p).v_type [ undef ↦ true | _ ↦ false ]

  unfoldable pub type_of : Variables a → ℕ → VType
  type_of m p = if p == 0 then undef else (m.object p).v_type

  unfoldable pub self_or_real_undef : Variables a → ℕ → ℕ
  self_or_real_undef m p = if is_undef m p then 0 else p
