-- ===== src/Variables/Duplicate.antt =====
-- memory_DupVar: what the copy of a variable holds.
use script_basic.Common.{
  ℕ, zero, suc, ◌≤◌, ◌≡◌, ◌≢◌, refl, sym, ap, ◌∙◌, Bool, true, false, not, ◌&&◌, ◌||◌, Option, List,
  [], ◌∷◌, length, take, ◌==◌, if◌then◌else◌, arith,
}
use script_basic.Memory.{Allocator}
use script_basic.Variables.Objects.{
  Object, Variables, large_block_type, fix_type_cstring, fresh_variable, reuse_variable,
  new_variable,
}
use script_basic.Variables.Release.{is_array}
use script_basic.Variables.Mortal.{mortalize, then_mortalize, new_mortal}
use script_basic.Variables.Copy.{
  success, is_string, memcpy, copy_block, copy_type, copy_value, dup_var,
}
use script_basic.Variables.Strings.{new_variable_type}

take-memcpy : (n : ℕ) (from to : List ℕ) → n ≤ length from → take n (memcpy n from to) ≡ take n from
unfolding memcpy
take-memcpy zero from to h = refl
take-memcpy (suc n) [] to h = absurd (omega arith)
take-memcpy (suc n) (x ∷ from) [] h = ap (λ xs. x ∷ xs) (take-memcpy n from [] (omega arith))
take-memcpy (suc n) (x ∷ from) (y ∷ to) h = ap (λ xs. x ∷ xs) (take-memcpy n from to (omega arith))

-- A value is in the record itself, or in a block of bytes.
pub data Content : Type 0 where
  number : ℕ → Content
  block : List ℕ → Content

abbrev pub in_block : Object → Bool
in_block o =
    o.s_type == large_block_type || is_string o.v_type && not (o.s_type == fix_type_cstring)

abbrev pub content : {a : Allocator} → Variables a → ℕ → Content
content m p =
    if in_block (m.object p)
    then block (take (m.object p).size (m.bytes (m.object p).value))
    else number (m.object p).value

-- A copy: what it holds is what the old variable holds, and still does.
pub record Duplicate {a : Allocator} (m m' : Variables a) (p q : ℕ) : Type 0 where
  pub v_type : (m'.object q).v_type ≡ (m.object p).v_type
  pub size : (m'.object q).size ≡ (m.object p).size
  pub copy : content m' q ≡ content m p
  pub old : content m' p ≡ content m p

module _ (a : Allocator) (m : Variables a) (type size : ℕ) (list : Option ℕ) where
  new_variable_other :
      (c : ℕ)
      → (new_variable a type size m).0 ≢ 0
      → c ≢ (new_variable a type size m).0
      → (new_variable a type size m).1.object c ≡ m.object c
  unfolding new_variable fresh_variable reuse_variable
  new_variable_other c z n = ground arith

  new_variable_bytes : (new_variable a type size m).1.bytes ≡ m.bytes
  unfolding new_variable fresh_variable reuse_variable
  new_variable_bytes = ground arith

  pub new_mortal_other :
      (c : ℕ)
      → (new_mortal a type size list m).0 ≢ 0
      → c ≢ (new_mortal a type size list m).0
      → (new_mortal a type size list m).2.object c ≡ m.object c
  unfolding new_mortal then_mortalize mortalize
  new_mortal_other c z n = ground (arith, new_variable_other c)

  pub new_mortal_bytes : (new_mortal a type size list m).2.bytes ≡ m.bytes
  unfolding new_mortal then_mortalize mortalize
  new_mortal_bytes = ground (arith, new_variable_bytes)

  pub new_mortal_type :
      (new_mortal a type size list m).0 ≢ 0
      → ((new_mortal a type size list m).2.object (new_mortal a type size list m).0).s_type ≡ type
  unfolding new_mortal then_mortalize mortalize
  new_mortal_type n = ground (arith, new_variable_type a type size m)

-- The block of `q` is another than that of `p`, which has as many bytes as the size says.
abbrev pub Apart : {a : Allocator} → Variables a → ℕ → ℕ → Type 0
Apart m p q =
    in_block (m.object p) ≡ true
    → ((m.object q).value ≢ (m.object p).value)
      × ((m.object p).size ≤ length (m.bytes (m.object p).value))

-- On the result of memory_NewMortal, the old variable `p` and the new one `q`.
copy_value-Duplicate :
    (a : Allocator) (m : Variables a) (p q : ℕ)
    → q ≢ p
    → (m.object q).s_type ≡ (m.object p).s_type
    → Apart m p q
    → Duplicate m (copy_value a p q (copy_type a p q m)) p q
unfolding copy_value copy_block
copy_value-Duplicate a m p q n t h = record {
  v_type = ground arith;
  size = ground arith;
  copy = ground (
    arith,
    take-memcpy (m.object p).size (m.bytes (m.object p).value) (m.bytes (m.object q).value),
  );
  old = ground arith;
}

Duplicate-before :
    (a : Allocator) (m m1 m' : Variables a) (p q : ℕ)
    → m1.object p ≡ m.object p
    → m1.bytes ≡ m.bytes
    → Duplicate m1 m' p q
    → Duplicate m m' p q
Duplicate-before a m m1 m' p q e b d = record {
  v_type = d.v_type ∙ ap (λ (o : Object). o.v_type) e;
  size = d.size ∙ ap (λ (o : Object). o.size) e;
  copy = d.copy ∙ same;
  old = d.old ∙ same;
}
  where
    same : content m1 p ≡ content m p
    same = rw (e, b) refl

module _ (a : Allocator) (m : Variables a) (p : ℕ) (list : Option ℕ) where
  -- The new mortal variable that the copy is put in.
  abbrev pub new_copy : ℕ × Option ℕ × Variables a
  new_copy = new_mortal a (m.object p).s_type (m.object p).size list m

  -- For a variable that is no array, and where memory_NewMortal returns another variable, whose
  -- block, if the value is in one, is another one, memory_DupVar succeeds with that variable: it has
  -- the type and the size of the old one and holds the same number or the same bytes, and the old
  -- one still holds them.
  pub dup_var-Duplicate :
      p ≢ 0
      → is_array (m.object p).v_type ≡ false
      → new_copy.0 ≢ 0
      → new_copy.0 ≢ p
      → Apart new_copy.2 p new_copy.0
      → ((dup_var a p list m).2 ≡ success)
        × ((dup_var a p list m).0 ≡ new_copy.0)
        × Duplicate m (dup_var a p list m).3 p (dup_var a p list m).0
  unfolding dup_var
  dup_var-Duplicate z n got other h =
      let type : ℕ = (m.object p).s_type in
      let size : ℕ = (m.object p).size in
      let old : new_copy.2.object p ≡ m.object p =
        new_mortal_other a m type size list p got (λ e. other (sym e)) in
      let some_variable : (p == 0) ≡ false = ground arith in
      let made : (new_copy.0 == 0) ≡ false = ground (arith, got) in
      rw (some_variable, n, made)
        (
          refl,
          refl,
          Duplicate-before a m new_copy.2 _ p new_copy.0 old (new_mortal_bytes a m type size list) (
              copy_value-Duplicate a new_copy.2 p new_copy.0 other
                (new_mortal_type a m type size list got ∙ ap (λ (o : Object). o.s_type) (sym old))
                h),
        )
