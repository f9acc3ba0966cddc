-- ===== src/Match/Modify.antt =====
-- match.c: match_ModifySet.
use Prim.Native.Nat.{bit_and, bit_or, bit_xor}
use script_basic.Common.{
  ℕ, ◌-◌, ◌/◌, ◌%◌, ◌^◌, Bool, ◌||◌, [], ◌∷◌, ◌==◌, if◌then◌else◌, get_or, set, replicate,
}
use script_basic.Match.Sets.{Bytes, MatchSets, match_index, no_joker, single_joker, multi_joker}

-- The bits of `fAction`: MATCH_ADDC and so on
abbrev pub add_characters : ℕ
add_characters = 0x01

abbrev pub remove_characters : ℕ
remove_characters = 0x02

abbrev pub invert_characters : ℕ
invert_characters = 0x04

abbrev pub set_no_joker : ℕ
set_no_joker = 0x08

abbrev pub set_single : ℕ
set_single = 0x10

abbrev pub set_multi : ℕ
set_multi = 0x20

abbrev pub nullify : ℕ
nullify = 0x40

abbrev pub fullify : ℕ
fullify = 0x80

-- `fAction & flag`
abbrev pub asks : ℕ → ℕ → Bool
asks action flag = action / flag % 2 == 1

-- The type, with the tests in the source's order, so that the last bit that is set decides.
unfoldable pub new_type : ℕ → ℕ → ℕ
new_type action type =
    let t1 : ℕ = if asks action set_no_joker then no_joker else type in
    let t2 : ℕ = if asks action set_single then single_joker else t1 in
    if asks action set_multi then multi_joker else t2

unfoldable pub new_base : ℕ → Bytes → Bytes
new_base action cs =
    let s1 = if asks action nullify then replicate 32 0 else cs in
    if asks action fullify then replicate 32 0xff else s1

-- The byte of the set in which `ch` has its bit.
unfoldable pub change_byte : ℕ → ℕ → ℕ → ℕ
change_byte action ch byte =
    let mask : ℕ = 2 ^ (ch % 8) in
    let b1 : ℕ = if asks action add_characters then bit_or byte mask else byte in
    let b2 : ℕ = if asks action invert_characters then bit_xor b1 mask else b1 in
    if asks action remove_characters then bit_and b2 (0xff - mask) else b2

unfoldable pub change_characters : ℕ → Bytes → Bytes → Bytes
change_characters action [] cs = cs
change_characters action (ch ∷ chs) cs =
    change_characters action chs (set cs (ch / 8) (change_byte action ch (get_or cs (ch / 8) 0)))

-- `i` is the joker's place.
unfoldable pub modify_at : MatchSets → ℕ → Bytes → ℕ → MatchSets
modify_at ms i chs action =
    let base = new_base action (get_or ms.sets i []) in
    record {
      set_type = set ms.set_type i (new_type action (get_or ms.set_type i 0));
      sets = set ms.sets i (
          if asks action add_characters || asks action remove_characters
          then change_characters action chs base
          else base);
    }

unfoldable pub modify_set : MatchSets → ℕ → Bytes → ℕ → MatchSets
modify_set ms joker chs action =
    if match_index joker == 0 then ms else modify_at ms (match_index joker - 1) chs action
