-- ===== src/SharedLock/Sums.antt =====
-- Sums of a weight over the first `n` threads of a family, and what a change of one thread does.
use native.Mathlib.Decide.{ℕ_discrete, dec_lt}
use script_basic.Common.{ℕ, zero, suc, ◌+◌, ◌≤◌, ◌<◌, ◌≡◌, ◌≢◌, refl, arith}
use script_basic.SharedLock.{Pc, assign}

module _ (w : Pc → ℕ) where
  pub sum : ℕ → (ℕ → Pc) → ℕ
  sum zero pc = 0
  sum (suc n) pc = sum n pc + w (pc n)

  sum-assign_beyond :
      (n : ℕ) (pc : ℕ → Pc) (i : ℕ) (p : Pc) → n ≤ i → sum n (assign pc i p) ≡ sum n pc
  unfolding sum
  sum-assign_beyond zero pc i p h = refl
  sum-assign_beyond (suc n) pc i p h = ground (arith, sum-assign_beyond n pc i p)

  pub sum-assign :
      (n : ℕ) (pc : ℕ → Pc) (i : ℕ) (p : Pc)
      → i < n
      → sum n (assign pc i p) + w (pc i) ≡ sum n pc + w p
  unfolding sum
  sum-assign zero pc i p h = absurd (omega arith)
  sum-assign (suc n) pc i p h = elim (dec_lt i n) [
    | yes before ↦ ground (arith, sum-assign n pc i p before)
    | no at ↦ ground (arith, sum-assign_beyond n pc i p)
  ]

  pub sum-eq-zero : (n : ℕ) (pc : ℕ → Pc) → ((i : ℕ) → w (pc i) ≡ 0) → sum n pc ≡ 0
  unfolding sum
  sum-eq-zero zero pc h = refl
  sum-eq-zero (suc n) pc h = omega (arith, sum-eq-zero n pc h, h n)

  pub sum_le : (n : ℕ) (pc : ℕ → Pc) → ((p : Pc) → w p ≤ 1) → sum n pc ≤ n
  unfolding sum
  sum_le zero pc h = omega arith
  sum_le (suc n) pc h = omega (arith, sum_le n pc h, h (pc n))

  pub one_le_sum : (n : ℕ) (pc : ℕ → Pc) (i : ℕ) → i < n → w (pc i) ≤ sum n pc
  unfolding sum
  one_le_sum zero pc i h = absurd (omega arith)
  one_le_sum (suc n) pc i h = elim (ℕ_discrete i n) [
    | yes e ↦ ground arith
    | no e ↦ omega (arith, one_le_sum n pc i (omega arith))
  ]

  -- Two threads' weights stand in the sum apart.
  pub two_le_sum :
      (n : ℕ) (pc : ℕ → Pc) (i j : ℕ) → i < n → j < n → i ≢ j → w (pc i) + w (pc j) ≤ sum n pc
  unfolding sum
  two_le_sum zero pc i j h k ne = absurd (omega arith)
  two_le_sum (suc n) pc i j h k ne = elim (ℕ_discrete i n) [
    | yes e ↦ ground (arith, one_le_sum n pc j (omega arith))
    | no e ↦ elim (ℕ_discrete j n) [
      | yes f ↦ ground (arith, one_le_sum n pc i (omega arith))
      | no f ↦ omega (arith, two_le_sum n pc i j (omega arith) (omega arith) ne)
    ]
  ]

  -- A positive sum has a thread to show for it.
  pub sum_pos : (n : ℕ) (pc : ℕ → Pc) → 0 < sum n pc → (i : ℕ) × (i < n) × (0 < w (pc i))
  unfolding sum
  sum_pos zero pc h = absurd (omega arith)
  sum_pos (suc n) pc h = elim (dec_lt 0 (w (pc n))) [
    | yes here ↦ (n, omega arith, here)
    | no not_here ↦ let (i, lt, pos) = sum_pos n pc (omega arith) in (i, omega arith, pos)
  ]

-- Weights that add up to no more than a third do so in the sums.
pub sum_add_le :
    (u v w : Pc → ℕ)
    → ((p : Pc) → u p + v p ≤ w p)
    → (n : ℕ) (pc : ℕ → Pc) → sum u n pc + sum v n pc ≤ sum w n pc
unfolding sum
sum_add_le u v w h zero pc = omega arith
sum_add_le u v w h (suc n) pc = omega (arith, sum_add_le u v w h n pc, h (pc n))
