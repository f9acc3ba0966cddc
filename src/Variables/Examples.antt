-- ===== src/Variables/Examples.antt =====
-- memory.c: a mortal list with a string and a large block, and a free variable.
use script_basic.Common.{
  ℕ, zero, suc, ◌<◌, ◌≤◌, ◌≡◌, ◌≢◌, refl, true, none, some, List, [], ◌∷◌, ◌==◌, if◌then◌else◌,
  arith,
}
use script_basic.Common.Int.{pos}
use script_basic.Memory.Counting.{counting}
use script_basic.Links.{has, Chain}
use script_basic.Variables.Objects.{
  State, array, ref, unknown, freed, mortal, immortal, long, string, Object, Variables,
  init_structure, register_type, register_types, fresh_variable, list_of, new_variable,
}
use script_basic.Variables.Create.{string_type, new_string}
use script_basic.Variables.Release.{release_variable}
use script_basic.Variables.Mortal.{
  mortalize, immortalize, release_mortals, then_mortalize, new_mortal,
}
use script_basic.Variables.Copy.{dup_var, success}
use script_basic.Variables.Lists.{IsFree, IsMortal}
use script_basic.Variables.MortalList.{
  IsStore, Immortalized, mortalize-IsStore, immortalize-Immortalized,
}
use script_basic.Variables.Released.{Emptied, release_mortals-Emptied}
use script_basic.Variables.Reuse.{Reused, new_variable-release_variable}
use script_basic.Variables.Strings.{StringResult, new_string-StringResult}
use script_basic.Variables.Registered.{
  Initial, register_types-init_structure, register_types-HasStrings,
}
use script_basic.Variables.Arrays.{array_size, redim_array}
use script_basic.Variables.References.{done, set_ref}
use script_basic.Variables.Referred.{release_variable-set_ref}
use script_basic.Variables.Redim.{Enlarged, redim_array-Enlarged}
use script_basic.Variables.Duplicate.{Duplicate, Apart, new_copy, dup_var-Duplicate}

abbrev variable : State → ℕ → Object
variable state s_type = record {
  value = 7;
  size = 0;
  s_type = s_type;
  v_type = long;
  state = state;
  low = pos 1;
  high = pos 0;
}

abbrev variables : Variables counting
variables = record {
  size_of_type = λ i. 32;
  number_of_types = 3;
  first_string = 0;
  last_string = 0;
  free_list = λ i. if i == 0 then 100 else 0;
  object = λ c.
      if c == 100
      then variable freed 0
      else if c == 200
      then variable mortal 255
      else if c == 300
      then record (variable mortal 3) { v_type = string; size = 2 }
      else variable unknown 0;
  links = record {
    next = λ c. if c == 300 then 200 else 0;
    prev = λ c. if c == 200 then 300 else 0;
  };
  slot = λ c. 0;
  bytes = λ c. if c == 7 then 65 ∷ 66 ∷ [] else [];
  segment = 5;
}

abbrev free : ℕ → List ℕ
free zero = 100 ∷ []
free (suc i) = []

abbrev mortals : List ℕ
mortals = 300 ∷ 200 ∷ []

free-IsFree : IsFree variables free
free-IsFree = record { chain = chains; state = λ i c h. state i c h; list = λ i c h. list i c h }
  where
    chains : (i : ℕ) → Chain variables.links 0 (variables.free_list i) (free i)
    chains zero = ground arith
    chains (suc i) = ground arith

    state : (i c : ℕ) → has c (free i) ≡ true → (variables.object c).state ≡ freed
    state zero c h = ground arith
    state (suc i) c h = ground arith

    list : (i c : ℕ) → has c (free i) ≡ true → list_of (variables.object c).s_type ≡ i
    list zero c h = ground arith
    list (suc i) c h = ground arith

mortals-IsMortal : IsMortal variables 0 300 mortals
mortals-IsMortal = record { chain = ground arith; state = λ c h. ground arith }

store : IsStore variables 300 free mortals
store = record { free_lists = free-IsFree; mortal_list = mortals-IsMortal }

release_mortals-Emptied_example :
    (m' : Variables counting) × (release_mortals counting 3 1 (some 300) variables
      ≡ some (some 0, m'))
    × Emptied variables m' free mortals
release_mortals-Emptied_example =
    release_mortals-Emptied counting 3 0 300 variables free mortals (omega arith) free-IsFree
      mortals-IsMortal (λ c h. ground arith)

mortalize-IsStore_example :
    IsStore
      (mortalize counting 400 300 variables).1
      (mortalize counting 400 300 variables).0
      free
      (400 ∷ mortals)
mortalize-IsStore_example =
    mortalize-IsStore counting variables 300 free mortals store 400 (ground arith)
      (λ e. ground arith) (λ e. ground arith)

immortalize-Immortalized_example :
    Immortalized variables 200 free mortals (immortalize counting 200 300 variables)
immortalize-Immortalized_example =
    immortalize-Immortalized counting variables 300 free mortals store 200 refl

new_variable-release_variable_example :
    (m' : Variables counting) × (release_variable counting 1 400 variables ≡ some m')
    × Reused 1 400 300 free mortals (new_variable counting 1 0 m')
new_variable-release_variable_example =
    new_variable-release_variable counting variables 300 free mortals 0 400 1 0 store (ground arith)
      refl refl (ground arith) (omega arith) refl

register_types-init_structure_example :
    ((init_structure counting (some 5) variables).0 ≡ true)
    × Initial (register_types counting (init_structure counting (some 5) variables).1)
register_types-init_structure_example = register_types-init_structure counting 5 variables

string_made : (new_string counting 40 (register_types counting variables)).0 ≢ 0
unfolding new_string register_types register_type string_type new_variable fresh_variable
string_made e = ground arith

new_string-StringResult_example :
    StringResult 3 40 (new_string counting 40 (register_types counting variables))
new_string-StringResult_example =
    new_string-StringResult counting (register_types counting variables) 3 40
      (register_types-HasStrings counting variables (omega arith)) string_made

copy_made : (new_copy counting variables 300 none).0 ≡ 5000
unfolding new_mortal then_mortalize new_variable fresh_variable
copy_made = refl

copy-Apart :
    Apart (new_copy counting variables 300 none).2 300 (new_copy counting variables 300 none).0
unfolding new_mortal then_mortalize new_variable fresh_variable
copy-Apart h = (λ e. ground arith, omega arith)

dup_var-Duplicate_example :
    ((dup_var counting 300 none variables).2 ≡ success)
    × ((dup_var counting 300 none variables).0 ≡ (new_mortal counting 3 2 none variables).0)
    × Duplicate variables
        (dup_var counting 300 none variables).3
        300
        (dup_var counting 300 none variables).0
dup_var-Duplicate_example =
    dup_var-Duplicate counting variables 300 none (ground arith) refl (ground (arith, copy_made))
      (ground (arith, copy_made)) copy-Apart

-- An array of two elements, and one whose two elements are undefined.
abbrev arrays : Variables counting
arrays = record variables {
  object = λ c. record (variable immortal 255) {
    value = if c == 600 then 9000 else 7000;
    size = 16;
    v_type = array;
    low = pos 0;
    high = pos 1;
  };
  slot = λ c. if c == 9000 then 300 else if c == 9008 then 200 else 0;
}

four_places : 16 < array_size (pos 0) (pos 3)
unfolding array_size
four_places = omega arith

one_place : array_size (pos 0) (pos 0) ≤ 16
unfolding array_size
one_place = omega arith

redim_array-Enlarged_example :
    (m' : Variables counting) × (redim_array counting (pos 0) (pos 3) 600 arrays ≡ some (600, m'))
    × Enlarged {a = counting} arrays m' 600 5000 (pos 0) (pos 3) 4
redim_array-Enlarged_example =
    redim_array-Enlarged counting arrays 600 (pos 0) (pos 3) four_places (λ e. ground arith)
      (λ j l p q. omega arith)

-- Slot 10 holds the reference 800, and slot 20 the number 900.
abbrev referring : Variables counting
referring = record variables {
  object =
      λ c. if c == 800 then record (variable immortal 0) { v_type = ref } else variable immortal 0;
  links = record { next = λ c. 0; prev = λ c. 0 };
  slot = λ c. if c == 10 then 800 else 900;
}

release_variable-set_ref_example :
    (m' : Variables counting) × ((set_ref counting 1 10 20 referring).0 ≡ done)
    × (((set_ref counting 1 10 20 referring).1.object 800).value ≡ 20)
    × ((set_ref counting 1 10 20 referring).1.links.prev 900 ≡ 10)
    × ((set_ref counting 1 10 20 referring).1.links.next 800 ≡ 900)
    × (release_variable counting 2 900 (set_ref counting 1 10 20 referring).1 ≡ some m')
    × (m'.slot 10 ≡ 900)
    × (m'.object 900 ≡ referring.object 900)
    × ((m'.object 800).state ≡ freed)
release_variable-set_ref_example =
    release_variable-set_ref counting referring 10 20 800 900 refl refl (λ e. omega arith)
      (λ e. omega arith) (λ e. omega arith) refl refl refl (λ e. omega arith) refl 0 refl
      (λ e. omega arith)
