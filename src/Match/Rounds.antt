-- ===== src/Match/Rounds.antt =====
-- match.c: one round of each loop of match_match decides, if all later rounds do.
use script_basic.Common.{
  ℕ, zero, suc, ◌+◌, ◌-◌, ◌*◌, ◌≤◌, ◌<◌, ◌≡◌, refl, ◌⊎◌, inl, inr, Bool, true, false, some, List,
  [], ◌∷◌, ◌++◌, leb, ◌==◌, length, arith,
}
use script_basic.Match.Sets.{Bytes, is_space, multi_joker_set, single_joker_set, match_index}
use script_basic.Match.Matcher.{
  Setting, multi, escape, single, space, plain, kind, same, accepts, skip_spaces, Outcome, fails,
  no_match, matched, inside, past, run, more, add_parameter,
}
use script_basic.Match.Pattern.{
  Item, many, spaces, literal, items, First, Longer, Many, One, Matches, manys, Decides,
}

not_First :
    (t : Bytes) (M : List Bytes → Type 0)
    → ((ps : List Bytes) → ¬ M ps)
    → (ps : List Bytes) → ¬ First t M ps
not_First t M h [] m = m
not_First t M h (q ∷ qs) m = h qs m.1

-- A test in front of a call, and a parameter in front of its parameters.
test-Decides :
    (b : Bool) (M : List Bytes → Type 0) (o : Outcome)
    → (b ≡ true → Decides M o)
    → Decides (λ ps. (b ≡ true) × M ps) (elim b [ true ↦ o | false ↦ no_match ])
test-Decides false M o h = λ ps m. cc
test-Decides true M (fails e) h = h refl
test-Decides true M no_match h = λ ps m. h refl ps m.1
test-Decides true M (matched ps) h = (refl, h refl)

-- Where there was nothing to find yet, what is found is found after the test.
later-Decides :
    (t : Bytes) (F M : List Bytes → Type 0) (b : Bool) (o : Outcome)
    → ((ps : List Bytes) → ¬ F ps)
    → (b ≡ true → Decides M o)
    → Decides (λ ps. First t F ps ⊎ (b ≡ true) × M ps) (elim b [ true ↦ o | false ↦ no_match ])
later-Decides t F M false o n h = λ ps m. elim m [ inl a ↦ not_First t F n ps a | inr b ↦ cc ]
later-Decides t F M true (fails e) n h = h refl
later-Decides t F M true no_match n h =
    λ ps m. elim m [ inl a ↦ not_First t F n ps a | inr b ↦ h refl ps b.1 ]
later-Decides t F M true (matched ps) n h = inr (refl, h refl)

add_parameter-Decides :
    (t : Bytes) (M : List Bytes → Type 0) (o : Outcome)
    → Decides M o
    → Decides (First t M) (add_parameter t o)
add_parameter-Decides t M (fails e) h = h
add_parameter-Decides t M no_match h = not_First t M h
add_parameter-Decides t M (matched ps) h = (refl, h)

module _ (g : Setting) (quiet : (k : ℕ) → g.beyond k ≡ 0) where
  length-skip_spaces : (s : Bytes) → length (skip_spaces g s) ≤ length s
  unfolding skip_spaces
  length-skip_spaces [] = omega arith
  length-skip_spaces (c ∷ s) = ground (arith, length-skip_spaces s)

  kind_zero : kind g 0 ≡ plain
  unfolding kind multi_joker_set single_joker_set match_index
  kind_zero = refl

  -- Past its end the pattern matches nothing.
  run_past : (f k : ℕ) (s : Bytes) (a u : ℕ) → 2 * length s < f → run g f (past k) s a u ≡ no_match
  unfolding run
  run_past zero k s a u h = absurd (omega arith)
  run_past (suc f) k [] a u h = refl
  run_past (suc f) k (c ∷ s) a u h = ground (arith, quiet k, kind_zero, run_past f (k + 1) s a u)

  pub run_empty :
      (f c : ℕ) (s : Bytes) (a u : ℕ)
      → 2 * length s < f
      → run g (suc f) (inside []) (c ∷ s) a u ≡ no_match
  unfolding run
  run_empty f c s a u h = ground (arith, quiet 0, kind_zero, run_past f 1 s a u)

  -- Room in the array for the multiple jokers, and in the buffer for more than the string.
  abbrev pub Room : List Item → Bytes → ℕ → ℕ → Type 0
  Room is s a u = (manys is ≤ a) × (u + length s < g.buffer_size)

  abbrev pub RunDecides : ℕ → Type 0
  RunDecides f =
      (p s : Bytes) (a u : ℕ) (is : List Item)
      → items g p ≡ some is
      → 2 * length s < f
      → Room is s a u
      → Decides (Matches g is s) (run g f (inside p) s a u)

  abbrev pub MoreDecides : ℕ → Type 0
  MoreDecides f =
      (set p s : Bytes) (a u : ℕ) (taken : Bytes) (is : List Item)
      → items g p ≡ some is
      → 2 * length s + 1 < f
      → Room is s a u
      → Decides (Longer g set (Matches g is) taken s) (more g f set (inside p) s a u taken)

  -- One round at a character `x` of the pattern and a character `c` of the string.
  module _ (f : ℕ) (runs : RunDecides f) (mores : MoreDecides f) (x c : ℕ) (p s : Bytes)
      (a u : ℕ) where
    pub multi_round :
        (set : Bytes) (is : List Item)
        → kind g x ≡ multi set
        → items g p ≡ some is
        → 2 * length s + 1 < f
        → Room (many set ∷ is) (c ∷ s) a u
        → Decides (Many g set (Matches g is) (c ∷ s)) (run g (suc f) (inside (x ∷ p)) (c ∷ s) a u)
    unfolding run
    multi_round set is k e h room =
        let some_array : (a == 0) ≡ false = ground (arith, room.0) in
        let some_buffer : leb g.buffer_size u ≡ false = ground (arith, room.1) in
        rw (k, run, some_array, some_buffer)
          (test-Decides (accepts g set c) _ _
            (λ t. mores set p s (a - 1) (u + 1) (c ∷ []) is e h (omega (arith, room.0, room.1))))

    pub single_round :
        (set : Bytes) (is : List Item)
        → kind g x ≡ single set
        → items g p ≡ some is
        → 2 * length s < f
        → Room is (c ∷ s) a u
        → Decides (One g set (Matches g is) (c ∷ s)) (run g (suc f) (inside (x ∷ p)) (c ∷ s) a u)
    unfolding run
    single_round set is k e h room =
        rw (k, run)
          (test-Decides (accepts g set c) _ _ (λ t.
            add_parameter-Decides (c ∷ []) (Matches g is s) _
              (runs p s a (u + 1) is e h (omega (arith, room.0, room.1)))))

    pub space_round :
        (is : List Item)
        → kind g x ≡ space
        → items g p ≡ some is
        → 2 * length s < f
        → Room is (c ∷ s) a u
        → Decides (Matches g (spaces ∷ is) (c ∷ s)) (run g (suc f) (inside (x ∷ p)) (c ∷ s) a u)
    unfolding run
    space_round is k e h room =
        rw (k, run)
          (test-Decides (is_space c) _ _ (λ t.
            runs p (skip_spaces g s) a u is e (omega (arith, length-skip_spaces s))
              (omega (arith, room.0, room.1, length-skip_spaces s))))

    pub literal_round :
        (is : List Item)
        → kind g x ≡ plain
        → items g p ≡ some is
        → 2 * length s < f
        → Room is (c ∷ s) a u
        → Decides (Matches g (literal x ∷ is) (c ∷ s)) (run g (suc f) (inside (x ∷ p)) (c ∷ s) a u)
    unfolding run
    literal_round is k e h room =
        rw (k, run)
          (test-Decides (same g x c) _ _ (λ t. runs p s a u is e h (omega (arith, room.0, room.1))))

    pub escape_round :
        (y : ℕ) (is : List Item)
        → kind g x ≡ escape
        → items g p ≡ some is
        → 2 * length s < f
        → Room is (c ∷ s) a u
        → Decides
            (Matches g (literal y ∷ is) (c ∷ s))
            (run g (suc f) (inside (x ∷ y ∷ p)) (c ∷ s) a u)
    unfolding run
    escape_round y is k e h room =
        rw (k, run)
          (test-Decides (same g y c) _ _ (λ t. runs p s a u is e h (omega (arith, room.0, room.1))))

  -- One round of the inner loop, after the recursive call with the result `o`.
  module _ (f : ℕ) (runs : RunDecides f) (mores : MoreDecides f) (set p : Bytes) (a u : ℕ)
      (taken : Bytes) (is : List Item) (e : items g p ≡ some is) where
    pub more_round :
        (s : Bytes) (o : Outcome)
        → run g f (inside p) s a u ≡ o
        → Decides (Matches g is s) o
        → 2 * length s < f
        → Room is s a u
        → Decides (Longer g set (Matches g is) taken s) (more g (suc f) set (inside p) s a u taken)
    unfolding more
    more_round s (fails x) q d h room = absurd d
    more_round [] (matched ps) q d h room = rw (q, more) (refl, d)
    more_round (c ∷ s) (matched ps) q d h room = rw (q, more) (inl (refl, d))
    more_round [] no_match q d h room = rw (q, more) (not_First taken _ d)
    more_round (c ∷ s) no_match q d h room =
        let space_left : (u + 1 == g.buffer_size) ≡ false = ground (arith, room.1) in
        rw (q, more)
          (later-Decides taken (Matches g is (c ∷ s))
            (Longer g set (Matches g is) (taken ++ c ∷ []) s) (accepts g set c) _ d
            (λ t. rw space_left (
              mores set p s a (u + 1) (taken ++ c ∷ []) is e (omega (arith, h))
                (room.0, omega (arith, room.1)))))
