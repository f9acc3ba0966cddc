-- ===== src/Match/Modified.antt =====
-- match.c: what match_ModifySet makes of a set collection.
use native.Mathlib.Decide.{ℕ_discrete}
use mathlib.Core.Path.{subst}
use script_basic.Common.{
  ℕ, zero, suc, ◌-◌, ◌≤◌, ◌<◌, ◌≡◌, ◌≢◌, refl, sym, ap, ◌∙◌, Bool, true, false, ◌||◌, ◌&&◌, List,
  [], ◌∷◌, ltb, ◌==◌, if◌then◌else◌, get_or, set, replicate, length, length-set, get_or-set_self,
  get_or-set_ne, and_left, and_right, arith,
}
use script_basic.Match.Sets.{Bytes, MatchSets, match_index}
use script_basic.Match.Default.{
  default_match_sets, init_sets, full_set, empty_set, digit_set, letter_digit_set, letter_set,
}
use script_basic.Match.Modify.{
  asks, add_characters, remove_characters, change_characters, new_base, new_type, modify_at,
  modify_set,
}
use script_basic.Match.Asked.{TypeAsked, new_type-TypeAsked, starts_with, new_base-starts_with}
use script_basic.Match.Members.{
  IsCharSet, Plain, adds, removes, AllChars, holds, mem, change_characters-IsCharSet,
}

-- `JOKERNR`
abbrev pub jokers : ℕ
jokers = 13

-- A type and 32 bytes for each joker character.
pub record IsMatchSets (ms : MatchSets) : Type 0 where
  pub types : length ms.set_type ≡ jokers
  pub sized : length ms.sets ≡ jokers
  pub char_sets : (i : ℕ) → i < jokers → IsCharSet (get_or ms.sets i [])

abbrev bytes_test : Bytes → Bool
bytes_test [] = true
bytes_test (b ∷ bs) = ltb b 256 && bytes_test bs

bytes_in : (cs : Bytes) → bytes_test cs ≡ true → (k : ℕ) → get_or cs k 0 < 256
bytes_in [] e k = omega arith
bytes_in (b ∷ bs) e zero = ground arith
bytes_in (b ∷ bs) e (suc k) = bytes_in bs (and_right (ltb b 256) (bytes_test bs) e) k

abbrev sets_test : List Bytes → Bool
sets_test [] = true
sets_test (cs ∷ css) = (length cs == 32) && bytes_test cs && sets_test css

sets_in :
    (css : List Bytes)
    → sets_test css ≡ true
    → (i : ℕ) → i < length css
    → IsCharSet (get_or css i [])
sets_in [] e i h = absurd (omega arith)
sets_in (cs ∷ css) e zero h =
    let first : ((length cs == 32) && bytes_test cs) ≡ true = and_left _ (sets_test css) e in
    record {
      sized = ground (arith, and_left (length cs == 32) (bytes_test cs) first);
      bytes = bytes_in cs (and_right (length cs == 32) (bytes_test cs) first);
    }
sets_in (cs ∷ css) e (suc i) h =
    sets_in css (and_right ((length cs == 32) && bytes_test cs) (sets_test css) e) i (omega arith)

-- match_InitSets makes any set collection valid: a type and a set of 32 bytes for each joker
-- character.
pub init_sets-IsMatchSets : (ms : MatchSets) → IsMatchSets (init_sets ms)
unfolding init_sets default_match_sets full_set empty_set digit_set letter_digit_set letter_set
    replicate
init_sets-IsMatchSets ms = record {
  types = refl;
  sized = refl;
  char_sets = sets_in default_match_sets.sets refl;
}

same_bytes-IsCharSet : (b : ℕ) → b < 256 → IsCharSet (replicate 32 b)
unfolding replicate
same_bytes-IsCharSet b h = record { sized = refl; bytes = bytes_in (replicate 32 b) (ground arith) }

new_base-IsCharSet : (action : ℕ) (cs : Bytes) → IsCharSet cs → IsCharSet (new_base action cs)
unfolding new_base
new_base-IsCharSet action cs s =
    either _ _ _ (same_bytes-IsCharSet 0xff (omega arith))
      (either _ _ _ (same_bytes-IsCharSet 0 (omega arith)) s)
  where
    either : (t : Bool) (a b : Bytes) → IsCharSet a → IsCharSet b → IsCharSet (if t then a else b)
    either true a b x y = x
    either false a b x y = y

match_index_le : (ch : ℕ) → match_index ch ≤ jokers
unfolding match_index
match_index_le ch = ground arith

-- What a call has done: the joker's set and its type are new, those of all other jokers are not.
pub record Modified (ms ms' : MatchSets) (i action : ℕ) (chs : Bytes) (v : Bool) : Type 0 where
  pub valid : IsMatchSets ms'
  pub type : TypeAsked action (get_or ms.set_type i 0) (get_or ms'.set_type i 0)
  pub members :
      (c : ℕ)
      → holds (get_or ms'.sets i []) c
        ≡ (if mem c chs then v else starts_with action (get_or ms.sets i []) c)
  pub other_types : (j : ℕ) → i ≢ j → get_or ms'.set_type j 0 ≡ get_or ms.set_type j 0
  pub other_sets : (j : ℕ) → i ≢ j → get_or ms'.sets j [] ≡ get_or ms.sets j []

changes :
    {action : ℕ} {v : Bool}
    → Plain action v
    → (asks action add_characters || asks action remove_characters) ≡ true
changes (adds p q r) = ground arith
changes (removes p q r) = ground arith

module _ (ms : MatchSets) (i : ℕ) (chs : Bytes) (action : ℕ) (v : Bool) (valid : IsMatchSets ms)
    (h : i < jokers) (p : Plain action v) (a : AllChars chs) where
  base : Bytes
  base = new_base action (get_or ms.sets i [])

  new_set : Bytes
  new_set = change_characters action chs base

  result : IsCharSet new_set × ((c : ℕ) → holds new_set c ≡ (if mem c chs then v else holds base c))
  unfolding new_set base
  result =
      change_characters-IsCharSet action chs base v p a
        (new_base-IsCharSet action (get_or ms.sets i []) (valid.char_sets i h))

  here : get_or (set ms.sets i new_set) i [] ≡ new_set
  here = get_or-set_self ms.sets i new_set [] (omega (arith, valid.sized, h))

  all_sets : (j : ℕ) → j < jokers → IsCharSet (get_or (set ms.sets i new_set) j [])
  all_sets j l = elim (ℕ_discrete i j) [
    | yes e ↦
        subst (λ k. IsCharSet (get_or (set ms.sets i new_set) k [])) e
          (subst IsCharSet (sym here) result.0)
    | no n ↦ subst IsCharSet (sym (get_or-set_ne ms.sets i j new_set [] n)) (valid.char_sets j l)
  ]

  modify_at-Modified : Modified ms (modify_at ms i chs action) i action chs v
  unfolding modify_at new_set base
  modify_at-Modified = rw (changes p) (record {
    valid = record {
      types = length-set ms.set_type i _ ∙ valid.types;
      sized = length-set ms.sets i new_set ∙ valid.sized;
      char_sets = all_sets;
    };
    type =
        subst (TypeAsked action (get_or ms.set_type i 0))
          (sym (
            get_or-set_self ms.set_type i (new_type action (get_or ms.set_type i 0)) 0
              (omega (arith, valid.types, h))))
          (new_type-TypeAsked action (get_or ms.set_type i 0));
    members = λ c.
        ap (λ cs. holds cs c) here
        ∙ result.1 c
        ∙ ap (λ b. if mem c chs then v else b)
            (new_base-starts_with action (get_or ms.sets i []) c);
    other_types = λ j n. get_or-set_ne ms.set_type i j _ 0 n;
    other_sets = λ j n. get_or-set_ne ms.sets i j new_set [] n;
  })

-- Called on a valid set collection, for a joker character, to add characters only or to remove
-- characters only, match_ModifySet keeps the collection valid; makes the joker multiple, single or
-- none where the action has the bit 0x20, 0x10 or 0x08 (of several the greatest), and leaves its
-- type where it has none of them; and makes its set hold exactly those characters that are added, or
-- not removed, and else all characters if the action has the bit 0x80, none if it has only 0x40, and
-- those that the set held if it has neither; the types and sets of all other joker characters stay.
pub modify_set-Modified :
    (ms : MatchSets) (joker i : ℕ) (chs : Bytes) (action : ℕ) (v : Bool)
    → IsMatchSets ms
    → match_index joker ≡ suc i
    → Plain action v
    → AllChars chs
    → Modified ms (modify_set ms joker chs action) i action chs v
unfolding modify_set
modify_set-Modified ms joker i chs action v valid e p a = rw found (
    subst (λ k. Modified ms (modify_at ms k chs action) i action chs v) same
      (modify_at-Modified ms i chs action v valid (omega (arith, e, match_index_le joker)) p a))
  where
    found : (match_index joker == 0) ≡ false
    found = ground (arith, e)

    same : i ≡ match_index joker - 1
    same = omega (arith, e)
