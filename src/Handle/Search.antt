-- ===== src/Handle/Search.antt =====
-- The loop of handle_GetHandle that looks for a free handle.
use script_basic.Common.{
  ℕ, zero, suc, ◌+◌, ◌≤◌, ◌<◌, ◌≡◌, ◌≢◌, List, arith, ◌==◌, Bool-cases, inl, inr, get_or,
}
use native.Mathlib.Decide.{ℕ_discrete}
use script_basic.Handle.{free_from}

-- The search ends at the first free place, or where the rounds end.
pub record Found (ps : List ℕ) (first rounds i : ℕ) : Type 0 where
  pub not_before : first ≤ i
  pub not_beyond : i ≤ first + rounds
  pub is_free : i < first + rounds → get_or ps i 0 ≡ 0
  pub is_first : (j : ℕ) → first ≤ j → j < i → get_or ps j 0 ≢ 0

free_from-step :
    (ps : List ℕ) (rounds first i : ℕ)
    → get_or ps first 0 ≢ 0
    → Found ps (first + 1) rounds i
    → Found ps first (suc rounds) i
free_from-step ps rounds first i n r = record {
  not_before = omega (arith, r.not_before);
  not_beyond = omega (arith, r.not_beyond);
  is_free = λ h. r.is_free (omega arith);
  is_first =
      λ j p q. elim (ℕ_discrete j first) [ yes e ↦ rw e n | no e ↦ r.is_first j (omega arith) q ];
}

pub free_from-Found :
    (ps : List ℕ) (rounds first : ℕ) → Found ps first rounds (free_from ps rounds first)
unfolding free_from
free_from-Found ps zero first = record {
  not_before = omega arith;
  not_beyond = omega arith;
  is_free = λ h. absurd (omega arith);
  is_first = λ j p q. absurd (omega arith);
}
free_from-Found ps (suc rounds) first = elim (Bool-cases (get_or ps first 0 == 0)) [
  | inl e ↦ rw e (record {
    not_before = omega arith;
    not_beyond = omega arith;
    is_free = λ h. ground arith;
    is_first = λ j p q. absurd (omega arith);
  })
  | inr e ↦
      rw e (free_from-step ps rounds first _ (ground arith) (free_from-Found ps rounds (first + 1)))
]
