-- ===== src/Match/Sizing.antt =====
-- match.c: match_size against match_parameter.
use mathlib.Core.Path.{subst}
use script_basic.Common.{
  ℕ, zero, suc, ◌+◌, ◌%◌, ◌^◌, ◌<◌, ◌≡◌, refl, sym, ap, ◌∙◌, inl, inr, false, Option, none, some,
  List, [], ◌∷◌, leb, get_or, length, Bool-cases, length-append, arith,
}
use script_basic.Match.Sets.{Bytes}
use script_basic.Match.Format.{
  Piece, letter, double, place, lone, Filling, filled, match_parameter, Counter, count_more,
  count_piece, match_size,
}
use script_basic.Match.Words.{
  Word, written, IsFormat, NoSign, meant, expand-written, has_lone-written,
}
use script_basic.Match.Expansion.{
  pieces, text, join, expand, has_lone, sizes_of, count, count_from_lem,
}
use script_basic.Match.Fitting.{join-inv, none-some, some-injective, match_parameter-expand}

get_or-sizes_of : (ps : List Bytes) (i : ℕ) → get_or (sizes_of ps) i 0 ≡ length (get_or ps i [])
get_or-sizes_of [] i = refl
get_or-sizes_of (t ∷ ts) zero = refl
get_or-sizes_of (t ∷ ts) (suc i) = get_or-sizes_of ts i

-- The pointer stays where it is, and the number there grows.
record Grows (k k' : Counter) (n : ℕ) : Type 0 where
  stays : k'.at ≡ k.at
  grows : k'.cells k.at % 2 ^ 32 ≡ (k.cells k.at + n) % 2 ^ 32
  in_range : k.cells k.at < 2 ^ 32 → k'.cells k.at < 2 ^ 32

count_more-Grows : (n : ℕ) (k : Counter) → Grows k (count_more n k) n
count_more-Grows n k = record { stays = refl; grows = ground arith; in_range = λ h. ground arith }

Grows-then : (k k' k'' : Counter) (m n : ℕ) → Grows k k' m → Grows k' k'' n → Grows k k'' (m + n)
Grows-then k k' k'' m n a b =
    let at_first : k''.cells k'.at ≡ k''.cells k.at = ap k''.cells a.stays in
    let between : k'.cells k'.at ≡ k'.cells k.at = ap k'.cells a.stays in
    record {
      stays = b.stays ∙ a.stays;
      grows = omega (arith, at_first, between, b.grows, a.grows);
      in_range = λ h.
          let low = a.in_range h in
          omega (arith, at_first, b.in_range (omega (arith, between, low)));
    }

-- The call ends well, and has counted the text.
abbrev Counts : Option Counter → Counter → Bytes → Type 0
Counts r k t = (k' : Counter) × (r ≡ some k') × Grows k k' (length t)

Counts-as :
    (r : Option Counter) (k : Counter) (t t' : Bytes)
    → some t ≡ some t'
    → Counts r k t
    → Counts r k t'
Counts-as r k t t' e h = subst (Counts r k) (some-injective e) h

join-none : (t : Bytes) (r : Option Bytes) → join (some t) r ≡ none → r ≡ none
join-none t none e = refl
join-none t (some u) e = cc

module _ (n : ℕ) (ps : List Bytes) where
  count_piece-Counts :
      (q : Piece) (t : Bytes) (k : Counter)
      → text n ps q ≡ some t
      → has_lone (q ∷ []) ≡ false
      → Counts (count_piece n (sizes_of ps) q k) k t
  unfolding count_piece
  count_piece-Counts (letter c) t k e l =
      Counts-as _ k (c ∷ []) t e (count_more 1 k, refl, count_more-Grows 1 k)
  count_piece-Counts double t k e l =
      Counts-as _ k (b'$' ∷ []) t e (count_more 1 k, refl, count_more-Grows 1 k)
  count_piece-Counts (place i) t k e l = elim (Bool-cases (leb n i)) [
    | inl h ↦ absurd (none-some t (rw h at e))
    | inr h ↦ rw h (
        Counts-as _ k (get_or ps i []) t (rw h at e) (
          count_more (get_or (sizes_of ps) i 0) k,
          refl,
          subst (Grows k (count_more (get_or (sizes_of ps) i 0) k)) (get_or-sizes_of ps i)
              (count_more-Grows (get_or (sizes_of ps) i 0) k),
        ))
  ]
  count_piece-Counts lone t k e l = cc

  has_lone_cons :
      (q : Piece) (qs : List Piece)
      → has_lone (q ∷ qs) ≡ false
      → (has_lone (q ∷ []) ≡ false) × (has_lone qs ≡ false)
  has_lone_cons q qs l = ground arith

  count-Counts :
      (qs : List Piece) (out : Bytes) (k : Counter)
      → expand n ps qs ≡ some out
      → has_lone qs ≡ false
      → Counts (count n ps qs k) k out
  unfolding count
  count-Counts [] out k e l =
      Counts-as _ k [] out e
        (k, refl, record { stays = refl; grows = omega arith; in_range = λ h. h })
  count-Counts (q ∷ qs) out k e l =
      let (t, u, et, eu, j) = join-inv (text n ps q) (expand n ps qs) out e in
      let (l1, l2) = has_lone_cons q qs l in
      let (k1, e1, g1) = count_piece-Counts q t k et l1 in
      let (k2, e2, g2) = count-Counts qs u k1 eu l2 in
      (
        k2,
        rw e1 e2,
        subst (Grows k k2) (sym (length-append t u) ∙ ap length j)
            (Grows-then k k1 k2 (length t) (length u) g1 g2),
      )

  count-none : (qs : List Piece) (k : Counter) → expand n ps qs ≡ none → count n ps qs k ≡ none
  unfolding count count_piece
  count-none [] k e = cc
  count-none (letter c ∷ qs) k e = count-none qs _ (join-none (c ∷ []) _ e)
  count-none (double ∷ qs) k e = count-none qs _ (join-none (b'$' ∷ []) _ e)
  count-none (place i ∷ qs) k e = elim (Bool-cases (leb n i)) [
    | inl h ↦ rw h refl
    | inr h ↦ rw h (count-none qs _ (join-none (get_or ps i []) _ (rw h at e)))
  ]
  count-none (lone ∷ qs) k e = count-none qs _ (join-none (b'$' ∷ []) _ e)

abbrev zero_counter : Counter
zero_counter = record { at = 0; cells = λ i. 0 }

-- For a format with a place that has no parameter, match_size returns
-- MATCH_ERROR_INDEX_OUT_OF_RANGE, whatever the numbers that it starts from.
pub match_size-out_of_range :
    (format : Bytes) (array_size : ℕ) (parameters : List Bytes) (cells : ℕ → ℕ)
    → expand array_size parameters (pieces format) ≡ none
    → match_size format (sizes_of parameters) array_size cells ≡ none
unfolding match_size
match_size-out_of_range format n ps cells e =
    count_from_lem n ps (length format) format _ (omega arith) ∙ count-none n ps (pieces format) _ e

-- For a format written in words, in which each number counts a parameter from 0 on and no `$` stands
-- alone, and whose text is shorter than 2 ^ 31, match_size counts the length of the text, and
-- match_parameter with a buffer of one byte more than that succeeds and writes the text.
pub match_parameter-match_size :
    (ws : List Word) (parameters : List Bytes) (out : Bytes)
    → IsFormat ws
    → NoSign ws
    → meant parameters ws ≡ some out
    → length out < 2 ^ 31
    → (k : Counter) × (st : Filling) × (match_size
          (written ws)
          (sizes_of parameters)
          (length parameters)
          (λ i. 0)
        ≡ some k)
      × (k.cells 0 ≡ length out)
      × (match_parameter (written ws) (length parameters) parameters (k.cells 0 + 1) ≡ filled st)
      × (st.buffer ≡ out)
unfolding match_size
match_parameter-match_size ws ps out f no_sign m range =
    let n = length ps in
    let e = expand-written ws f ps ∙ m in
    let (k, q, g) =
      count-Counts n ps (pieces (written ws)) out zero_counter e (has_lone-written ws f no_sign) in
    let same : k.cells 0 ≡ length out = omega (arith, g.grows, g.in_range (omega arith)) in
    let (st, w, b, _, _) =
      match_parameter-expand (written ws) n ps (k.cells 0 + 1) out e (omega (arith, same))
        (omega (arith, same, range)) in
    (
      k,
      st,
      count_from_lem n ps (length (written ws)) (written ws) zero_counter (omega arith) ∙ q,
      same,
      w,
      b,
    )
