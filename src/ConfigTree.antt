-- ===== src/ConfigTree.antt =====
-- conftree.c: the configuration tree in memory, and the search in it. A `long` is the 64-bit word
-- that stores it, a `double` is its bit pattern, and a `char *` is the memory from there on.
-- `none` as the result of an operation means that the code reads memory that is not there.
pub mod Text
pub mod Forest
mod Items
mod Find
mod Value
mod Enum
mod Bytes
pub mod File
mod Written
mod RoundTrip
mod Accepted
mod Start
mod Examples
use script_basic.Common.{
  ℕ, zero, suc, ◌+◌, ◌-◌, ◌*◌, ◌/◌, ◌%◌, ◌^◌, List, [], ◌∷◌, Option, none, some, Bool, true, false,
  drop, not, ◌&&◌, ◌||◌, ltb, ◌==◌, if◌then◌else◌,
}
use script_basic.Common.Int.{ℤ, pos, negsuc}

-- tConfigNode. The node is copied to and from a file with the seven bytes that fill its last word.
pub record ConfigNode : Type 0 where
  pub key : ℕ
  pub next : ℕ
  pub val : ℕ
  pub flag : ℕ
  pub padding : ℕ

-- tConfigTree: `root` and `strings` are the addresses, `nodes` and `text` what stands there.
pub record ConfigTree : Type 0 where
  pub root : ℕ
  pub nodes : List ConfigNode
  pub node_count : ℕ
  pub strings : ℕ
  pub text : List ℕ
  pub text_size : ℕ
  pub separator : ℕ
  pub file_name : Option (List ℕ)

abbrev pub error_not_found : ℕ
error_not_found = 1

abbrev pub error_no_type : ℕ
error_no_type = 5

abbrev pub type_string : ℕ
type_string = 2

abbrev pub type_integer : ℕ
type_integer = 4

abbrev pub type_real : ℕ
type_real = 6

abbrev pub node_branch : ℕ
node_branch = 1

-- `fFlag & CFT_NODE_MASK` and `fFlag & CFT_TYPE_MASK`
abbrev pub is_branch : ConfigNode → Bool
is_branch n = n.flag % 2 == node_branch

abbrev pub type_of : ConfigNode → ℕ
type_of n = 2 * (n.flag / 2 % 4)

-- The `long` that a word stores.
abbrev pub signed : ℕ → ℤ
signed w = if ltb w (2 ^ 63) then pos w else negsuc (2 ^ 64 - 1 - w)

unfoldable pub node_at : List ConfigNode → ℕ → Option ConfigNode
node_at ns zero = none
node_at [] (suc i) = none
node_at (n ∷ ns) (suc zero) = some n
node_at (n ∷ ns) (suc (suc i)) = node_at ns (suc i)

-- `pCT->Root[i-1]` and `pCT->StringTable + offset`
abbrev pub node_of : Option ConfigTree → ℕ → Option ConfigNode
node_of none i = none
node_of (some t) i = node_at t.nodes i

unfoldable pub string_at : Option ConfigTree → ℕ → List ℕ
string_at none offset = []
string_at (some t) offset = drop offset t.text

-- The loop of strmyeq goes on at this character.
abbrev pub goes_on : ℕ → ℕ → Bool
goes_on tc c = not (c == 0) && not (c == tc)

abbrev pub ends_alike : ℕ → ℕ → ℕ → Bool
ends_alike tc x y = x == y || (x == tc && y == 0) || (y == tc && x == 0)

unfoldable pub strmyeq : ℕ → List ℕ → List ℕ → Option Bool
strmyeq tc [] b = none
strmyeq tc (x ∷ a) [] = none
strmyeq tc (x ∷ a) (y ∷ b) =
    if goes_on tc x && goes_on tc y
    then (if x == y then strmyeq tc a b else some false)
    else some (ends_alike tc x y)

-- `while( *key && *key != pCT->TC )key++;`
unfoldable pub end_of_part : ℕ → List ℕ → List ℕ
end_of_part tc [] = []
end_of_part tc (c ∷ key) = if goes_on tc c then end_of_part tc key else c ∷ key

-- The loop of cft_FindNode, with a unit of fuel for each node that it looks at.
unfoldable pub find_from : ℕ → ConfigTree → ℕ → List ℕ → Option ℕ
find_from zero t i key = none
find_from (suc fuel) t zero key = some 0
find_from (suc fuel) t (suc i) key = elim (node_at t.nodes (suc i)) [
  | none ↦ none
  | some n ↦ elim (strmyeq t.separator key (string_at (some t) n.key)) [
    | none ↦ none
    | some false ↦ find_from fuel t n.next key
    | some true ↦ elim (end_of_part t.separator key) [
      | [] ↦ none
      | c ∷ key' ↦ elim (c == 0) [
        | true ↦ some (suc i)
        | false ↦ elim (is_branch n) [ true ↦ find_from fuel t n.val key' | false ↦ some 0 ]
      ]
    ]
  ]
]

unfoldable pub find_node : ℕ → Option ConfigTree → ℕ → List ℕ → Option ℕ
find_node fuel none start key = some 0
find_node fuel (some t) start key = if t.root == 0 then some 0 else find_from fuel t start key

-- `plNodeId`: NULL, or the address of a `long` that is not set, or that is.
pub data IdPointer : Type 0 where
  no_id : IdPointer
  unset : IdPointer
  holds : ℕ → IdPointer

-- The arguments of cft_GetEx; of the last four, whether they are not NULL.
pub record Request : Type 0 where
  pub key : Option (List ℕ)
  pub id : IdPointer
  pub wants_string : Bool
  pub wants_long : Bool
  pub wants_real : Bool
  pub wants_type : Bool

-- What the call returns, and what it stores through its arguments.
pub record Answer : Type 0 where
  pub code : ℕ
  pub id : IdPointer
  pub string_value : Option (List ℕ)
  pub long_value : Option ℤ
  pub real_value : Option ℕ
  pub type : Option ℕ

-- `lNodeId` before it is tested, where the argument `key` may be NULL
unfoldable pub asked_node : ℕ → Option ConfigTree → Request → Option ℕ
asked_node fuel t r = elim r.key [
  | some key ↦ find_node fuel t 1 key
  | none ↦ elim r.id [ no_id ↦ none | unset ↦ none | holds i ↦ some i ]
]

abbrev pub store_id : IdPointer → ℕ → IdPointer
store_id no_id i = no_id
store_id unset i = holds i
store_id (holds j) i = holds i

abbrev pub asked {ℓ} : {A : Type ℓ} → Bool → A → Option A
asked b x = if b then some x else none

-- An answer with no value in it.
abbrev pub no_value : ℕ → IdPointer → Option ℕ → Answer
no_value c i ty = record {
  code = c;
  id = i;
  string_value = none;
  long_value = none;
  real_value = none;
  type = ty;
}

-- The switch on the type of a leaf.
unfoldable pub get_value : Option ConfigTree → Request → IdPointer → ConfigNode → Answer
get_value t r i n =
    let ty = asked r.wants_type (type_of n) in
    let failed = no_value error_no_type i ty in
    let found = no_value 0 i ty in
    if type_of n == type_string
    then (if r.wants_string
        then record found { string_value = some (string_at t n.val) }
        else failed)
    else (if type_of n == type_integer
        then (if r.wants_long then record found { long_value = some (signed n.val) } else failed)
        else (if type_of n == type_real
            then (if r.wants_real then record found { real_value = some n.val } else failed)
            else no_value error_not_found i ty))

unfoldable pub get_at : Option ConfigTree → Request → ℕ → Option Answer
get_at t r zero = some (no_value error_not_found (store_id r.id 0) none)
get_at t r (suc i) = elim (node_of t (suc i)) [
  | none ↦ none
  | some n ↦ some (
      if is_branch n
      then no_value 0 (store_id r.id (suc i)) (asked r.wants_type node_branch)
      else get_value t r (store_id r.id (suc i)) n)
]

unfoldable pub get_ex : ℕ → Option ConfigTree → Request → Option Answer
get_ex fuel t r = elim (asked_node fuel t r) [ none ↦ none | some i ↦ get_at t r i ]
