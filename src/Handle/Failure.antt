-- ===== src/Handle/Failure.antt =====
-- hndlptr.c where memory runs out: what the early return of handle_GetHandle leaves behind.
use script_basic.Common.{
  ℕ, zero, suc, ◌≤◌, ◌<◌, ◌≡◌, refl, ap, sym, ◌∙◌, ◌≢◌, true, Option, none, some, inl, inr, arith,
}
use script_basic.Memory.{Allocator}
use script_basic.Handle.{HandleArray, get_pointer, free_handle, get_locked, get_handle}
use script_basic.Handle.Laws.{IsValid, get_locked-cases}

-- Every later use of a handle of the array, and every later request for one, waits for ever.
pub record Blocks (a : Allocator) (q : HandleArray) (h : Option HandleArray) : Type 0 where
  pub get_pointer : (j : ℕ) → 1 ≤ j → j < q.n → get_pointer h j ≡ none
  pub free_handle : (j : ℕ) → 1 ≤ j → j < q.n → free_handle h j ≡ none
  pub get_handle : (m : a.Segment) (p : ℕ) → p ≢ 0 → get_handle a h m p ≡ none

module _ (a : Allocator) where
  open a use {Segment}

  locked-Blocks : (q : HandleArray) → Blocks a q (some (record q { mx = true }))
  unfolding get_pointer free_handle get_handle
  locked-Blocks q = record {
    get_pointer = λ j l u. ground arith;
    free_handle = λ j l u. ground arith;
    get_handle = λ m p n. ground arith;
  }

  -- A request on a valid array, for a pointer that is not NULL, that finds no memory for more
  -- handles returns 0 and blocks the array: every later use of one of its handles and every later
  -- request waits for ever.
  pub get_handle-Blocks :
      (q : HandleArray) (m m' : Segment) (p : ℕ) (h' : Option HandleArray)
      → IsValid q
      → p ≢ 0
      → get_handle a (some q) m p ≡ some (0, h', m')
      → Blocks a q h'
  unfolding get_handle
  get_handle-Blocks q m m' zero h' v n e = absurd (n refl)
  get_handle-Blocks q m m' (suc p) h' v n e = elim (get_locked-cases a q m (suc p) v) [
    | inl f ↦ rw (sym (ap (λ r. r.1) same) ∙ f.1) (locked-Blocks q)
    | inr g ↦ absurd (omega (arith, g.positive, ap (λ r. r.0) same))
  ]
    where
      same : get_locked a q m (suc p) ≡ (0, h', m')
      same = ground arith
