-- ===== src/Match/Members.antt =====
-- match.c: which characters a set holds after match_ModifySet.
use Prim.Native.Nat.{bit_and, bit_or}
use native.Mathlib.Decide.{ℕ_discrete}
use script_basic.Common.{
  ℕ, ◌+◌, ◌-◌, ◌*◌, ◌/◌, ◌%◌, ◌^◌, ◌<◌, ◌≡◌, ◌≢◌, refl, sym, ap, ◌∙◌, Bool, true, false, not, ◌||◌,
  ◌&&◌, [], ◌∷◌, ltb, ◌==◌, if◌then◌else◌, get_or, set, length, length-set, get_or-set_self,
  get_or-set_ne, check_below, check_below_sound, and_right, arith,
}
use script_basic.Match.Sets.{Bytes}
use script_basic.Match.Modify.{
  change_byte, change_characters, add_characters, remove_characters, invert_characters, asks,
}

-- Bit `i` of a byte.
abbrev pub bit : ℕ → ℕ → Bool
bit b i = b / 2 ^ i % 2 == 1

abbrev pub same_bool : Bool → Bool → Bool
same_bool true b = b
same_bool false b = not b

-- One byte `r` has the bits of another, `b`, but for bit `i`, which is `v`.
abbrev differs_at : ℕ → Bool → ℕ → ℕ → ℕ → Bool
differs_at i v b r j = ltb r 256 && same_bool (bit r j) (if i == j then v else bit b j)

-- By evaluation, for all bytes and two bits of each.
abbrev add_test : ℕ → ℕ → ℕ → Bool
add_test b i j = differs_at i true b (bit_or b (2 ^ i)) j

abbrev remove_test : ℕ → ℕ → ℕ → Bool
remove_test b i j = differs_at i false b (bit_and b (0xff - 2 ^ i)) j

abbrev on_code : (ℕ → ℕ → ℕ → Bool) → ℕ → Bool
on_code test x = test (x / 64) (x / 8 % 8) (x % 8)

add_tested : check_below 16_384 (on_code add_test) ≡ true
unfolding check_below
add_tested = refl

remove_tested : check_below 16_384 (on_code remove_test) ≡ true
unfolding check_below
remove_tested = refl

decode :
    (test : ℕ → ℕ → ℕ → Bool) (b i j : ℕ)
    → check_below 16_384 (on_code test) ≡ true
    → b < 256
    → i < 8
    → j < 8
    → test b i j ≡ true
decode test b i j t hb hi hj =
    let x : ℕ = b * 64 + i * 8 + j in
    let e : x / 64 ≡ b = omega arith in
    let e' : x / 8 % 8 ≡ i = omega arith in
    let e'' : x % 8 ≡ j = omega arith in
    ap (λ y. test y i j) (sym e)
    ∙ ap (λ y. test (x / 64) y j) (sym e')
    ∙ ap (test (x / 64) (x / 8 % 8)) (sym e'')
    ∙ check_below_sound 16_384 (on_code test) x t (omega arith)

-- Such a byte, for all bits.
record Differs (i : ℕ) (v : Bool) (b r : ℕ) : Type 0 where
  in_range : r < 256
  bits : (j : ℕ) → j < 8 → bit r j ≡ (if i == j then v else bit b j)

same_bool_eq : (b c : Bool) → same_bool b c ≡ true → b ≡ c
same_bool_eq true c e = sym e
same_bool_eq false true e = cc
same_bool_eq false false e = refl

differs_at-Differs :
    (i : ℕ) (v : Bool) (b r : ℕ) → ((j : ℕ) → j < 8 → differs_at i v b r j ≡ true) → Differs i v b r
differs_at-Differs i v b r h = record {
  in_range = ground (arith, h 0 (omega arith));
  bits = λ j l. same_bool_eq _ _ (and_right _ _ (h j l));
}

-- Characters are only added, or only taken away.
pub data Plain (action : ℕ) : Bool → Type 0 where
  adds :
      asks action add_characters ≡ true
      → asks action invert_characters ≡ false
      → asks action remove_characters ≡ false
      → Plain action true
  removes :
      asks action add_characters ≡ false
      → asks action invert_characters ≡ false
      → asks action remove_characters ≡ true
      → Plain action false

change_byte-Differs :
    (action ch b : ℕ) (v : Bool)
    → Plain action v
    → b < 256
    → Differs (ch % 8) v b (change_byte action ch b)
unfolding change_byte
change_byte-Differs action ch b _ (adds p q r) h =
    rw (p, q, r)
      (differs_at-Differs (ch % 8) true b (bit_or b (2 ^ (ch % 8)))
        (λ j l. decode add_test b (ch % 8) j add_tested h (omega arith) l))
change_byte-Differs action ch b _ (removes p q r) h =
    rw (p, q, r)
      (differs_at-Differs (ch % 8) false b (bit_and b (0xff - 2 ^ (ch % 8)))
        (λ j l. decode remove_test b (ch % 8) j remove_tested h (omega arith) l))

-- A set of characters: 32 bytes.
pub record IsCharSet (cs : Bytes) : Type 0 where
  pub sized : length cs ≡ 32
  pub bytes : (k : ℕ) → get_or cs k 0 < 256

abbrev pub holds : Bytes → ℕ → Bool
holds cs c = bit (get_or cs (c / 8) 0) (c % 8)

abbrev pub mem : ℕ → Bytes → Bool
mem c [] = false
mem c (x ∷ xs) = (x == c) || mem c xs

same_place : (x y : ℕ) → x / 8 ≡ y / 8 → (x % 8 == y % 8) ≡ (x == y)
same_place x y e = ground arith

other_place : (x y : ℕ) → x / 8 ≢ y / 8 → (x == y) ≡ false
other_place x y n = ground arith

change_one : ℕ → ℕ → Bytes → Bytes
change_one action ch cs = set cs (ch / 8) (change_byte action ch (get_or cs (ch / 8) 0))

-- One character changed: the set holds it or not, and all others as before.
change_one-IsCharSet :
    (action ch : ℕ) (cs : Bytes) (v : Bool)
    → Plain action v
    → ch < 256
    → IsCharSet cs
    → IsCharSet (change_one action ch cs)
      × ((c : ℕ) → holds (change_one action ch cs) c ≡ (if ch == c then v else holds cs c))
unfolding change_one
change_one-IsCharSet action ch cs v p h s =
    (record { sized = length-set cs (ch / 8) r ∙ s.sized; bytes = in_range }, others)
  where
    r : ℕ
    r = change_byte action ch (get_or cs (ch / 8) 0)

    d : Differs (ch % 8) v (get_or cs (ch / 8) 0) r
    d = change_byte-Differs action ch (get_or cs (ch / 8) 0) v p (s.bytes (ch / 8))

    changed : Bytes
    changed = set cs (ch / 8) r

    here : get_or changed (ch / 8) 0 ≡ r
    here = get_or-set_self cs (ch / 8) r 0 (omega (arith, s.sized))

    in_range : (k : ℕ) → get_or changed k 0 < 256
    in_range k = elim (ℕ_discrete (ch / 8) k) [
      | yes e ↦ omega (arith, ap (λ i. get_or changed i 0) e, here, d.in_range)
      | no n ↦ omega (arith, get_or-set_ne cs (ch / 8) k r 0 n, s.bytes k)
    ]

    others : (c : ℕ) → holds changed c ≡ (if ch == c then v else holds cs c)
    others c = elim (ℕ_discrete (ch / 8) (c / 8)) [
      | yes e ↦
          ap (λ b. bit b (c % 8)) (ap (λ i. get_or changed i 0) (sym e) ∙ here)
          ∙ d.bits (c % 8) (omega arith)
          ∙ ap (λ t. if t then v else bit (get_or cs (ch / 8) 0) (c % 8)) (same_place ch c e)
          ∙ ap (λ i. if ch == c then v else bit (get_or cs i 0) (c % 8)) e
      | no n ↦
          ap (λ b. bit b (c % 8)) (get_or-set_ne cs (ch / 8) (c / 8) r 0 n)
          ∙ sym (ap (λ t. if t then v else holds cs c) (other_place ch c n))
    ]

abbrev pub AllChars : Bytes → Type 0
AllChars [] = Unit
AllChars (c ∷ cs) = (c < 256) × AllChars cs

-- All characters of a list changed.
pub change_characters-IsCharSet :
    (action : ℕ) (chs cs : Bytes) (v : Bool)
    → Plain action v
    → AllChars chs
    → IsCharSet cs
    → IsCharSet (change_characters action chs cs)
      × ((c : ℕ)
          → holds (change_characters action chs cs) c ≡ (if mem c chs then v else holds cs c))
unfolding change_characters change_one
change_characters-IsCharSet action [] cs v p a s = (s, λ c. refl)
change_characters-IsCharSet action (x ∷ xs) cs v p a s =
    let (s1, h1) = change_one-IsCharSet action x cs v p a.0 s in
    let (s2, h2) = change_characters-IsCharSet action xs (change_one action x cs) v p a.1 s1 in
    (
      s2,
      λ c.
          h2 c
          ∙ ap (λ b. if mem c xs then v else b) (h1 c)
          ∙ either (mem c xs) (x == c) v (holds cs c),
    )
  where
    either : (m e v b : Bool) → (if m then v else if e then v else b) ≡ (if e || m then v else b)
    either true true v b = refl
    either true false v b = refl
    either false true v b = refl
    either false false v b = refl
