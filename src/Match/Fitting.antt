-- ===== src/Match/Fitting.antt =====
-- match.c: with the room that match_size asks for, match_parameter writes what the format stands for.
use mathlib.Core.List.{append_assoc}
use mathlib.Core.Path.{subst}
use script_basic.Common.{
  append_empty, long_mod, ℕ, suc, ◌+◌, ◌<◌, ◌≡◌, refl, sym, ap, ◌∙◌, inl, inr, Option, none, some,
  List, [], ◌∷◌, ◌++◌, leb, get_or, length, Bool-cases, length-append, arith,
}
use script_basic.Match.Sets.{Bytes}
use script_basic.Match.Format.{
  Piece, letter, double, place, lone, Filling, put, put_first, Filled, filled, copy, fill_piece,
  match_parameter,
}
use script_basic.Match.Words.{
  Word, written, IsFormat, meant, number_of_dollars, expand-written, doubles-written,
}
use script_basic.Match.Expansion.{pieces, text, join, expand, doubles, fill, fill_from_lem}

-- What has been written after `out`, of which `uncounted` characters were not counted.
pub record Wrote (st : Filling) (out : Bytes) (uncounted : ℕ) (st' : Filling) : Type 0 where
  pub left : st'.left + length out ≡ st.left
  pub buffer : st'.buffer ≡ st.buffer ++ out
  pub counted : st'.result_size + uncounted ≡ st.result_size + length out

-- Room for more than `n` characters, and numbers that do not wrap around.
record Room (st : Filling) (n : ℕ) : Type 0 where
  enough : n < st.left
  in_range : st.left < long_mod
  counts : st.result_size + n < long_mod

Wrote-nothing : (st : Filling) → Wrote st [] 0 st
Wrote-nothing st = record {
  left = omega arith;
  buffer = sym (append_empty st.buffer);
  counted = refl;
}

Wrote-then :
    (st st' st'' : Filling) (t u : Bytes) (m n : ℕ)
    → Wrote st t m st'
    → Wrote st' u n st''
    → Wrote st (t ++ u) (m + n) st''
Wrote-then st st' st'' t u m n a b = record {
  left = omega (arith, a.left, b.left, length-append t u);
  buffer = b.buffer ∙ ap (λ s. s ++ u) a.buffer ∙ append_assoc st.buffer t u;
  counted = omega (arith, a.counted, b.counted, length-append t u);
}

put-Wrote :
    (c counted uncounted : ℕ) (st : Filling)
    → counted + uncounted ≡ 1
    → 0 < st.left
    → st.left < long_mod
    → st.result_size + 1 < long_mod
    → Wrote st (c ∷ []) uncounted (put c counted st)
put-Wrote c counted uncounted st one some_left in_range counts = record {
  left = omega arith;
  buffer = refl;
  counted = omega arith;
}

put-Room : (c : ℕ) (st : Filling) (n : ℕ) → Room st (suc n) → Room (put c 1 st) n
put-Room c st n r = record {
  enough = omega (arith, r.enough, r.in_range);
  in_range = omega arith;
  counts = omega (arith, r.counts);
}

copy-Wrote :
    (t : Bytes) (st : Filling)
    → Room st (length t)
    → (st' : Filling) × (copy t st ≡ filled st') × Wrote st t 0 st'
unfolding copy
copy-Wrote [] st r = (st, refl, Wrote-nothing st)
copy-Wrote (c ∷ t) st r =
    let (st', e, w) = copy-Wrote t (put c 1 st) (put-Room c st (length t) r) in
    (
      st',
      ground (arith, e, r.enough),
      Wrote-then st (put c 1 st) st' (c ∷ []) t 0 0
          (put-Wrote c 1 0 st (omega arith) (omega (arith, r.enough)) r.in_range
            (omega (arith, r.counts)))
          w,
    )

Wrote-Room :
    (st st' : Filling) (t : Bytes) (m k : ℕ)
    → Wrote st t m st'
    → Room st (length t + k)
    → Room st' k
Wrote-Room st st' t m k w r = record {
  enough = omega (arith, w.left, r.enough);
  in_range = omega (arith, w.left, r.in_range);
  counts = omega (arith, w.counted, r.counts);
}

pub none-some : (t : Bytes) → ¬ (none ≡ some t)
none-some t q = cc

pub some-injective : {t u : Bytes} → some t ≡ some u → t ≡ u
some-injective e = cc

doubles_cons : (q : Piece) (qs : List Piece) → doubles (q ∷ qs) ≡ doubles (q ∷ []) + doubles qs
doubles_cons q qs = ground arith

pub join-inv :
    (r r' : Option Bytes) (out : Bytes)
    → join r r' ≡ some out
    → (t : Bytes) × (u : Bytes) × (r ≡ some t) × (r' ≡ some u) × (t ++ u ≡ out)
join-inv none r' out e = cc
join-inv (some t) none out e = cc
join-inv (some t) (some u) out e = (t, u, refl, refl, cc)

-- The call ends well, with the text written.
abbrev Fits : Filled → Filling → Bytes → ℕ → Type 0
Fits r st t uncounted = (st' : Filling) × (r ≡ filled st') × Wrote st t uncounted st'

put_first-Fits :
    (c counted uncounted : ℕ) (st : Filling)
    → counted + uncounted ≡ 1
    → Room st 1
    → Fits (put_first c counted st) st (c ∷ []) uncounted
put_first-Fits c counted uncounted st one r = (
  put c counted st,
  ground (arith, r.enough, r.in_range),
  put-Wrote c counted uncounted st one (omega (arith, r.enough)) r.in_range r.counts,
)

-- The text at hand is the one asked for.
Fits-as :
    (r : Filled) (st : Filling) (t t' : Bytes) (m : ℕ)
    → some t ≡ some t'
    → (Room st (length t) → Fits r st t m)
    → Room st (length t')
    → Fits r st t' m
Fits-as r st t t' m e h room =
    subst (λ x. Room st (length x) → Fits r st x m) (some-injective e) h room

module _ (n : ℕ) (ps : List Bytes) where
  fill_piece-Fits :
      (q : Piece) (t : Bytes) (st : Filling)
      → text n ps q ≡ some t
      → Room st (length t)
      → Fits (fill_piece n ps q st) st t (doubles (q ∷ []))
  unfolding fill_piece
  fill_piece-Fits (letter c) t st e r = Fits-as _ st (c ∷ []) t 0 e (copy-Wrote (c ∷ []) st) r
  fill_piece-Fits double t st e r =
      Fits-as _ st (b'$' ∷ []) t 1 e (put_first-Fits b'$' 0 1 st refl) r
  fill_piece-Fits (place i) t st e r = elim (Bool-cases (leb n i)) [
    | inl h ↦ absurd (none-some t (rw h at e))
    | inr h ↦
        rw h (Fits-as _ st (get_or ps i []) t 0 (rw h at e) (copy-Wrote (get_or ps i []) st) r)
  ]
  fill_piece-Fits lone t st e r = Fits-as _ st (b'$' ∷ []) t 0 e (put_first-Fits b'$' 1 0 st refl) r

  fill-Fits :
      (qs : List Piece) (out : Bytes) (st : Filling)
      → expand n ps qs ≡ some out
      → Room st (length out)
      → Fits (fill n ps qs st) st out (doubles qs)
  unfolding fill
  fill-Fits [] out st e r = Fits-as _ st [] out 0 e (λ h. (st, refl, Wrote-nothing st)) r
  fill-Fits (q ∷ qs) out st e r =
      let (t, u, et, eu, j) = join-inv (text n ps q) (expand n ps qs) out e in
      let total : length t + length u ≡ length out = sym (length-append t u) ∙ ap length j in
      let (st1, e1, w1) = fill_piece-Fits q t st et (record {
        enough = omega (arith, r.enough, total);
        in_range = r.in_range;
        counts = omega (arith, r.counts, total);
      }) in
      let (st2, e2, w2) =
        fill-Fits qs u st1 eu
          (Wrote-Room st st1 t (doubles (q ∷ [])) (length u) w1 (subst (Room st) (sym total) r)) in
      (
        st2,
        rw e1 e2,
        subst (λ x. Wrote st x (doubles (q ∷ qs)) st2) j
            (subst (λ d. Wrote st (t ++ u) d st2) (sym (doubles_cons q qs))
              (Wrote-then st st1 st2 t u (doubles (q ∷ [])) (doubles qs) w1 w2)),
      )

pub match_parameter-expand :
    (format : Bytes) (array_size : ℕ) (parameters : List Bytes) (buffer_size : ℕ) (out : Bytes)
    → expand array_size parameters (pieces format) ≡ some out
    → length out < buffer_size
    → buffer_size < long_mod
    → (st : Filling) × (match_parameter format array_size parameters buffer_size ≡ filled st)
      × (st.buffer ≡ out)
      × (st.left + length out ≡ buffer_size)
      × (st.result_size + doubles (pieces format) ≡ length out)
unfolding match_parameter
match_parameter-expand format n ps size out e room range =
    let (st, q, w) =
      fill-Fits n ps (pieces format) out start e
        (record { enough = room; in_range = range; counts = omega (arith, room, range) }) in
    (
      st,
      fill_from_lem n ps (length format) format start (omega arith) ∙ q,
      w.buffer,
      w.left,
      omega (arith, w.counted),
    )
  where
    start : Filling
    start = record { left = size; buffer = []; result_size = 0 }

-- For a format written in words, in which each number counts a parameter from 0 on, and a buffer
-- longer than the text and shorter than 2 ^ 64, match_parameter succeeds and writes the text that
-- the words stand for; the size that it gives is the text's length less the number of the `$$`.
pub match_parameter-text :
    (ws : List Word) (parameters : List Bytes) (buffer_size : ℕ) (out : Bytes)
    → IsFormat ws
    → meant parameters ws ≡ some out
    → length out < buffer_size
    → buffer_size < long_mod
    → (st : Filling) × (match_parameter (written ws) (length parameters) parameters buffer_size
        ≡ filled st)
      × (st.buffer ≡ out)
      × (st.left + length out ≡ buffer_size)
      × (st.result_size + number_of_dollars ws ≡ length out)
match_parameter-text ws ps size out f e room range =
    let (st, q, b, l, r) =
      match_parameter-expand (written ws) (length ps) ps size out (expand-written ws f ps ∙ e) room
        range in
    (st, q, b, l, omega (arith, r, doubles-written ws f))
