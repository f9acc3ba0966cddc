-- ===== src/Match/Pattern.antt =====
-- A pattern of match.c read by match_match's own tests, apart from how match_match looks for a match.
use script_basic.Common.{ℕ, suc, ◌≡◌, ◌⊎◌, Bool, true, Option, none, some, List, [], ◌∷◌, ◌++◌}
use script_basic.Match.Sets.{Bytes}
use script_basic.Match.Matcher.{
  Setting, multi, escape, single, space, plain, kind, same, accepts, skip_spaces, Outcome, fails,
  no_match, matched,
}
use script_basic.Match.Sets.{is_space}

-- A pattern read: one character or more of a set; one character of a set; white space, all there is;
-- a character as it stands.
pub data Item : Type 0 where
  many : Bytes → Item
  one : Bytes → Item
  spaces : Item
  literal : ℕ → Item

abbrev pub cons? : Item → Option (List Item) → Option (List Item)
cons? i none = none
cons? i (some is) = some (i ∷ is)

-- The string begins with a character that passes the test, and its rest is as `k` says.
abbrev pub Head : (ℕ → Bool) → (Bytes → Type 0) → Bytes → Type 0
Head test k [] = ⊥
Head test k (c ∷ s) = (test c ≡ true) × k s

-- The first parameter is `taken`, and the others are as `k` says.
abbrev pub First : Bytes → (List Bytes → Type 0) → List Bytes → Type 0
First taken k [] = ⊥
First taken k (t ∷ ps) = (t ≡ taken) × k ps

module _ (g : Setting) where
  -- `rest` reads what follows the character `c`, `escaped` what follows it as an escape.
  unfoldable pub item_step : ℕ → Option (List Item) → Option (List Item) → Option (List Item)
  item_step c rest escaped = elim (kind g c) [
    | multi set ↦ cons? (many set) rest
    | escape ↦ escaped
    | single set ↦ cons? (one set) rest
    | space ↦ cons? spaces rest
    | plain ↦ cons? (literal c) rest
  ]

  -- `none` where the pattern ends in an escape character with nothing to escape.
  unfoldable pub items : Bytes → Option (List Item)
  items [] = some []
  items (c ∷ []) = item_step c (some []) none
  items (c ∷ x ∷ p) = item_step c (items (x ∷ p)) (cons? (literal x) (items p))

  -- After `taken`, any number of further characters of the set, and then as `k` says.
  abbrev pub Longer : Bytes → (Bytes → List Bytes → Type 0) → Bytes → Bytes → List Bytes → Type 0
  Longer set k taken [] ps = First taken (k []) ps
  Longer set k taken (c ∷ s) ps =
      First taken (k (c ∷ s)) ps ⊎ (accepts g set c ≡ true) × Longer set k (taken ++ c ∷ []) s ps

  abbrev pub Many : Bytes → (Bytes → List Bytes → Type 0) → Bytes → List Bytes → Type 0
  Many set k [] ps = ⊥
  Many set k (c ∷ s) ps = (accepts g set c ≡ true) × Longer set k (c ∷ []) s ps

  abbrev pub One : Bytes → (Bytes → List Bytes → Type 0) → Bytes → List Bytes → Type 0
  One set k [] ps = ⊥
  One set k (c ∷ s) ps = (accepts g set c ≡ true) × First (c ∷ []) (k s) ps

  -- The string matches the items, and the jokers among them match the parameters.
  abbrev pub Matches : List Item → Bytes → List Bytes → Type 0
  Matches [] s ps = (s ≡ []) × (ps ≡ [])
  Matches (many set ∷ is) s ps = Many set (Matches is) s ps
  Matches (one set ∷ is) s ps = One set (Matches is) s ps
  Matches (spaces ∷ is) s ps = Head is_space (λ r. Matches is (skip_spaces g r) ps) s
  Matches (literal x ∷ is) s ps = Head (same g x) (λ r. Matches is r ps) s

-- The array elements that the pattern's multiple jokers take.
abbrev pub manys : List Item → ℕ
manys [] = 0
manys (many set ∷ is) = suc (manys is)
manys (one set ∷ is) = manys is
manys (spaces ∷ is) = manys is
manys (literal x ∷ is) = manys is

-- The call ends without an error, and answers rightly whether there are parameters as `M` says.
abbrev pub Decides : (List Bytes → Type 0) → Outcome → Type 0
Decides M (matched ps) = M ps
Decides M no_match = (ps : List Bytes) → ¬ M ps
Decides M (fails e) = ⊥
