-- ===== src/Match/Correct.antt =====
-- match_match decides what a pattern means, where the array and the buffer have room, the pattern
-- does not end in a lone escape character, and zero bytes follow it in memory.
use mathlib.Core.Path.{subst}
use script_basic.Common.{
  ℕ, zero, suc, ◌+◌, ◌*◌, ◌≤◌, ◌<◌, ◌≡◌, refl, ◌∙◌, Bool, some, List, [], ◌∷◌, length, arith,
}
use script_basic.Match.Sets.{Bytes, MatchSets}
use script_basic.Match.Matcher.{Setting, inside, run, fuel, setting, match_match}
use script_basic.Match.Pattern.{Item, items, Matches, manys, Decides}
use script_basic.Match.Meaning.{read, AreLow, Means}
use script_basic.Match.Agreement.{items-read, Decides-Means}
use script_basic.Match.Reading.{
  Read, read_many, read_one, read_space, read_plain, read_escape, items-Read, no_items_left,
}
use script_basic.Match.Rounds.{
  Room, RunDecides, MoreDecides, run_empty, multi_round, single_round, space_round, literal_round,
  escape_round, more_round,
}

module _ (g : Setting) (quiet : (k : ℕ) → g.beyond k ≡ 0) where
  run_round :
      (f : ℕ)
      → RunDecides g quiet f
      → MoreDecides g quiet f
      → (x c : ℕ) (p s : Bytes) (a u : ℕ) (is : List Item) → Read g x p is
      → 2 * length s + 1 < f
      → Room g quiet is (c ∷ s) a u
      → Decides (Matches g is (c ∷ s)) (run g (suc f) (inside (x ∷ p)) (c ∷ s) a u)
  run_round f runs mores x c p s a u is (read_many set rest k e q) h room = rw q (
      multi_round g quiet f runs mores x c p s a u set rest k e h
        (subst (λ j. Room g quiet j (c ∷ s) a u) q room))
  run_round f runs mores x c p s a u is (read_one set rest k e q) h room = rw q (
      single_round g quiet f runs mores x c p s a u set rest k e (omega arith)
        (subst (λ j. Room g quiet j (c ∷ s) a u) q room))
  run_round f runs mores x c p s a u is (read_space rest k e q) h room = rw q (
      space_round g quiet f runs mores x c p s a u rest k e (omega arith)
        (subst (λ j. Room g quiet j (c ∷ s) a u) q room))
  run_round f runs mores x c p s a u is (read_plain rest k e q) h room = rw q (
      literal_round g quiet f runs mores x c p s a u rest k e (omega arith)
        (subst (λ j. Room g quiet j (c ∷ s) a u) q room))
  run_round f runs mores x c p s a u is (read_escape y p' rest k w e q) h room =
      rw (q, w)
        (escape_round g quiet f runs mores x c p' s a u y rest k e (omega arith)
          (subst (λ j. Room g quiet j (c ∷ s) a u) q room))

  run_all : (f : ℕ) → RunDecides g quiet f → MoreDecides g quiet f → RunDecides g quiet (suc f)
  unfolding items run
  run_all f runs mores [] [] a u is e h room =
      let q : [] ≡ is = cc in subst (λ js. Matches g js [] []) q (refl, refl)
  run_all f runs mores (x ∷ p) [] a u is e h room = no_items_left g x p is (items-Read g x p is e)
  run_all f runs mores [] (c ∷ s) a u is e h room =
      let q : [] ≡ is = cc in
      rw (run_empty g quiet f c s a u (omega arith))
        (subst (λ js. (ps : List Bytes) → ¬ Matches g js (c ∷ s) ps) q (λ ps m. cc))
  run_all f runs mores (x ∷ p) (c ∷ s) a u is e h room =
      run_round f runs mores x c p s a u is (items-Read g x p is e) (omega arith) room

  loops-Decide : (f : ℕ) → RunDecides g quiet f × MoreDecides g quiet f
  loops-Decide zero = (
    λ p s a u is e h room. absurd (omega arith),
    λ set p s a u taken is e h room. absurd (omega arith),
  )
  loops-Decide (suc f) =
      let (runs, mores) = loops-Decide f in
      (
        run_all f runs mores,
        λ set p s a u taken is e h room.
            more_round g quiet f runs mores set p a u taken is e s (run g f (inside p) s a u) refl
              (runs p s a u is e (omega arith) room) (omega arith) room,
      )

pub match_match-Decides :
    (ms : MatchSets) (pattern string : Bytes) (array_size buffer_size : ℕ) (f_case : Bool)
    (beyond : ℕ → ℕ) (is : List Item)
    → read ms pattern ≡ some is
    → AreLow is
    → manys is ≤ array_size
    → length string < buffer_size
    → ((k : ℕ) → beyond k ≡ 0)
    → Decides
        (Means f_case is string)
        (match_match pattern string array_size buffer_size f_case (some ms) beyond)
unfolding match_match
match_match-Decides ms pattern string array_size buffer_size f_case beyond is e low room big quiet =
    let g = setting ms buffer_size f_case beyond in
    Decides-Means g is string _ low (
      (loops-Decide g quiet (fuel string)).0 pattern string array_size 0 is
        (items-read g pattern ∙ e) (omega arith) (room, omega (arith, big)))
