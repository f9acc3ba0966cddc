-- ===== src/ConfigTree/Value.antt =====
-- conftree.c: cft_GetEx and cft_GetString give what the item of a key is.
use script_basic.Common.{
  ℕ, zero, suc, ◌<◌, ◌≡◌, ◌≢◌, refl, ap, ◌∙◌, List, Option, none, some, true, false, ◌==◌,
  if◌then◌else◌,
}
use script_basic.ConfigTree.{
  ConfigNode, ConfigTree, is_branch, type_string, type_integer, type_real, node_branch,
  error_not_found, error_no_type, node_at, IdPointer, unset, Request, Answer, store_id, asked,
  no_value, asked_node, get_value, get_at, get_ex,
}
use script_basic.ConfigTree.Text.{IsPart}
use script_basic.ConfigTree.Forest.{
  Value, string, long, real, untyped, Forest, Item, absent, subtree, value, id_of, find, size,
  spelled, ArePlain, HasValue, StandsFor,
}
use script_basic.ConfigTree.Items.{ItemStands, find-ItemStands}
use script_basic.ConfigTree.Find.{find_node-find}

-- The request of cft_GetString, which does not look at the node id, and what it makes of the answer
abbrev string_request : List ℕ → Request
string_request key = record {
  key = some key;
  id = unset;
  wants_string = true;
  wants_long = false;
  wants_real = false;
  wants_type = true;
}

abbrev string_answer : Option Answer → Option (Option (List ℕ))
string_answer none = none
string_answer (some a) = some (
    if a.code == 0
    then elim a.type [ none ↦ none | some ty ↦ if ty == type_string then a.string_value else none ]
    else none)

unfoldable pub get_string : ℕ → Option ConfigTree → List ℕ → Option (Option (List ℕ))
get_string fuel t key = string_answer (get_ex fuel t (string_request key))

-- What the item is, for the caller who asks for it: the value if there is a place for it.
abbrev pub report_value : Request → IdPointer → Value → Answer
report_value r i (string s) =
    let found = no_value 0 i (asked r.wants_type type_string) in
    if r.wants_string
    then record found { string_value = some s }
    else no_value error_no_type i (asked r.wants_type type_string)
report_value r i (long v) =
    let found = no_value 0 i (asked r.wants_type type_integer) in
    if r.wants_long
    then record found { long_value = some v }
    else no_value error_no_type i (asked r.wants_type type_integer)
report_value r i (real w) =
    let found = no_value 0 i (asked r.wants_type type_real) in
    if r.wants_real
    then record found { real_value = some w }
    else no_value error_no_type i (asked r.wants_type type_real)
report_value r i untyped = no_value error_not_found i (asked r.wants_type 0)

abbrev pub report : Request → Item → Answer
report r absent = no_value error_not_found (store_id r.id 0) none
report r (subtree i c) = no_value 0 (store_id r.id i) (asked r.wants_type node_branch)
report r (value i v) = report_value r (store_id r.id i) v

abbrev pub string_of : Item → Option (List ℕ)
string_of absent = none
string_of (subtree i c) = none
string_of (value i (string s)) = some s
string_of (value i (long v)) = none
string_of (value i (real w)) = none
string_of (value i untyped) = none

get_at-node :
    (t : ConfigTree) (r : Request) (i : ℕ) (n : ConfigNode)
    → i ≢ 0
    → node_at t.nodes i ≡ some n
    → get_at (some t) r i
      ≡ some (
          if is_branch n
          then no_value 0 (store_id r.id i) (asked r.wants_type node_branch)
          else get_value (some t) r (store_id r.id i) n)
unfolding get_at
get_at-node t r zero n nz e = absurd (nz refl)
get_at-node t r (suc i) n nz e = rw (e, get_at) refl

get_value-report :
    (t : ConfigTree) (r : Request) (i : IdPointer) (n : ConfigNode) (v : Value)
    → HasValue t n v
    → get_value (some t) r i n ≡ report_value r i v
unfolding get_value
get_value-report t r i n (string s) (e, k) = rw e (rw k refl)
get_value-report t r i n (long v) (e, k) = rw e (rw k refl)
get_value-report t r i n (real w) (e, k) = rw e (rw k refl)
get_value-report t r i n untyped e = rw e refl

get_at-report :
    (t : ConfigTree) (r : Request) (o : Item)
    → ItemStands t o
    → get_at (some t) r (id_of o) ≡ some (report r o)
unfolding get_at
get_at-report t r absent s = refl
get_at-report t r (subtree i c) (n, nz, e, b, below) = rw (get_at-node t r i n nz e) (rw b refl)
get_at-report t r (value i v) (n, nz, e, b, hv) =
    rw (get_at-node t r i n nz e) (rw b (rw (get_value-report t r (store_id r.id i) n v hv) refl))

-- cft_GetEx for a path of plain names in a configuration that stands for a tree of keys reports the
-- item of the path: CFT_ERROR_NOT_FOUND and the id 0 where there is none, the branch type for a
-- branch, the value of a leaf with a type where the caller has a place for it and CFT_ERROR_NOTYPE
-- where not, CFT_ERROR_NOT_FOUND and the id of the leaf for a leaf that has no type, and the type
-- and the id to the caller who asks for them.
pub get_ex-report :
    (fuel : ℕ) (t : ConfigTree) (f : Forest) (p : List ℕ) (ps : List (List ℕ)) (r : Request)
    → StandsFor t f
    → IsPart t.separator p
    → ArePlain t.separator ps
    → size f < fuel
    → r.key ≡ some (spelled t.separator p ps)
    → get_ex fuel (some t) r ≡ some (report r (find p ps f))
unfolding get_ex asked_node
get_ex-report fuel t f p ps r s hp hps lt k =
    let found = find_node-find fuel t f p ps s hp hps lt in
    rw (k, get_ex, asked_node)
      (rw found (get_at-report t r (find p ps f) (find-ItemStands t f 1 p ps s.levels)))

string_answer-report :
    (key : List ℕ) (o : Item)
    → string_answer (some (report (string_request key) o)) ≡ some (string_of o)
string_answer-report key absent = refl
string_answer-report key (subtree i c) = refl
string_answer-report key (value i (string s)) = refl
string_answer-report key (value i (long v)) = refl
string_answer-report key (value i (real w)) = refl
string_answer-report key (value i untyped) = refl

pub get_string-string_of :
    (fuel : ℕ) (t : ConfigTree) (f : Forest) (p : List ℕ) (ps : List (List ℕ))
    → StandsFor t f
    → IsPart t.separator p
    → ArePlain t.separator ps
    → size f < fuel
    → get_string fuel (some t) (spelled t.separator p ps) ≡ some (string_of (find p ps f))
unfolding get_string
get_string-string_of fuel t f p ps s hp hps lt =
    let key = spelled t.separator p ps in
    ap string_answer (get_ex-report fuel t f p ps (string_request key) s hp hps lt refl)
    ∙ string_answer-report key (find p ps f)
