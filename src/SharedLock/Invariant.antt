-- ===== src/SharedLock/Invariant.antt =====
-- thread.c: who holds which mutex of a shareable lock, and who is counted as a reader; true of a
-- new lock and kept by every step.
use Prim.Native.Nat.{min}
use native.Mathlib.Decide.{ℕ_discrete}
use script_basic.Common.{ℕ, ◌+◌, ◌-◌, ◌^◌, ◌≤◌, ◌<◌, ◌≡◌, ◌≢◌, refl, sym, Bool, true, false, arith}
use script_basic.SharedLock.{
  Lock, Pc, Move, System, Step, turn, Reachable, at_start, after, init_lock, assign,
}
use script_basic.SharedLock.Sums.{
  sum, sum-assign, sum-eq-zero, sum_le, one_le_sum, two_le_sum, sum_add_le,
}

abbrev pub bit : Bool → ℕ
bit false = 0
bit true = 1

-- The threads that have mxWrite.
abbrev pub has_write : Pc → ℕ
has_write Pc.read_counter = 1
has_write Pc.read_count = 1
has_write Pc.read_load = 1
has_write (Pc.read_enter _) = 1
has_write Pc.read_first = 1
has_write Pc.read_release = 1
has_write Pc.read_done = 1
has_write Pc.write_read = 1
has_write Pc.write_done = 1
has_write _ = 0

-- The threads that have mxCounter.
abbrev pub has_counter : Pc → ℕ
has_counter Pc.read_count = 1
has_counter Pc.read_load = 1
has_counter (Pc.read_enter _) = 1
has_counter Pc.read_first = 1
has_counter Pc.read_release = 1
has_counter Pc.leave_count = 1
has_counter Pc.leave_load = 1
has_counter (Pc.leave_test _) = 1
has_counter Pc.leave_last = 1
has_counter Pc.leave_release = 1
has_counter _ = 0

-- The writers that have mxRead.
abbrev pub exclusive : Pc → ℕ
exclusive Pc.write_done = 1
exclusive Pc.writing = 1
exclusive _ = 0

-- The readers that the counter counts.
abbrev pub counted : Pc → ℕ
counted Pc.read_load = 1
counted (Pc.read_enter _) = 1
counted Pc.read_first = 1
counted Pc.read_release = 1
counted Pc.read_done = 1
counted Pc.reading = 1
counted Pc.leave_count = 1
counted _ = 0

-- Counted, and about to see whether mxRead is still to be locked.
abbrev pub entering : Pc → ℕ
entering Pc.read_load = 1
entering (Pc.read_enter _) = 1
entering Pc.read_first = 1
entering _ = 0

-- Counted no more, and about to see whether mxRead is to be unlocked.
abbrev pub leaving : Pc → ℕ
leaving Pc.leave_load = 1
leaving (Pc.leave_test _) = 1
leaving Pc.leave_last = 1
leaving _ = 0

-- The other threads that have mxCounter.
abbrev settled : Pc → ℕ
settled Pc.read_count = 1
settled Pc.read_release = 1
settled Pc.leave_count = 1
settled Pc.leave_release = 1
settled _ = 0

-- What a thread has read of the counter is still true.
abbrev pub IsFresh : Lock → Pc → Type 0
IsFresh l (Pc.read_enter i) = i ≡ l.readers
IsFresh l Pc.read_first = l.readers ≡ 1
IsFresh l (Pc.leave_test i) = i ≡ l.readers
IsFresh l Pc.leave_last = l.readers ≡ 0
IsFresh l _ = Unit

-- The readers together have mxRead as soon as one of them is in, and until the last has given it back.
abbrev pub shared : ℕ → (ℕ → Pc) → ℕ
shared n pc = min 1 (sum counted n pc - sum entering n pc + sum leaving n pc)

pub record Inv (n : ℕ) (l : Lock) (pc : ℕ → Pc) : Type 0 where
  pub few : n < 2 ^ 31
  pub writes : bit l.write ≡ sum has_write n pc
  pub counts : bit l.counter ≡ sum has_counter n pc
  pub readers : l.readers ≡ sum counted n pc
  pub reads : bit l.read ≡ sum exclusive n pc + shared n pc
  pub fresh : (j : ℕ) → j < n → IsFresh l (pc j)

pub initial-Inv : (n : ℕ) → n < 2 ^ 31 → Inv n init_lock (λ _. Pc.outside)
initial-Inv n h = record {
  few = h;
  writes = sym (sum-eq-zero has_write n _ (λ _. refl));
  counts = sym (sum-eq-zero has_counter n _ (λ _. refl));
  readers = sym (sum-eq-zero counted n _ (λ _. refl));
  reads = omega (
    arith,
    sum-eq-zero exclusive n (λ _. Pc.outside) (λ _. refl),
    sum-eq-zero counted n (λ _. Pc.outside) (λ _. refl),
    sum-eq-zero leaving n (λ _. Pc.outside) (λ _. refl),
  );
  fresh = λ _ _. tt;
}

-- The premise of a move, for the catch-all clauses below, which cannot name it.
abbrev Premise : {l l' : Lock} {p p' : Pc} → Move l p l' p' → Type 0
Premise {l} (Move.lock_read _) = l.write ≡ false
Premise {l} (Move.read_lock_counter _) = l.counter ≡ false
Premise (Move.read_is_first {i} _) = i ≡ 1
Premise (Move.read_is_later {i} _) = i ≢ 1
Premise {l} (Move.read_lock_read _) = l.read ≡ false
Premise {l} (Move.unlock_read _) = l.counter ≡ false
Premise (Move.leave_is_last {i} _) = i ≡ 0
Premise (Move.leave_is_earlier {i} _) = i ≢ 0
Premise {l} (Move.lock_write _) = l.write ≡ false
Premise {l} (Move.write_lock_read _) = l.read ≡ false
Premise _ = Unit

premise : {l l' : Lock} {p p' : Pc} (mv : Move l p l' p') → Premise mv
premise (Move.lock_read h) = h
premise (Move.read_lock_counter h) = h
premise (Move.read_is_first h) = h
premise (Move.read_is_later h) = h
premise (Move.read_lock_read h) = h
premise (Move.unlock_read h) = h
premise (Move.leave_is_last h) = h
premise (Move.leave_is_earlier h) = h
premise (Move.lock_write h) = h
premise (Move.write_lock_read h) = h
premise _ = tt

module _ {n : ℕ} {l : Lock} {pc : ℕ → Pc} (inv : Inv n l pc) (i : ℕ) (lt : i < n) where
  open inv use {few, writes, counts, readers, reads, fresh}

  -- How the sums change when thread `i` goes from `p` to `p'`, and what bounds them.
  record Shift (p p' : Pc) : Type 0 where
    at_write : sum has_write n (assign pc i p') + has_write p ≡ sum has_write n pc + has_write p'
    at_counter :
        sum has_counter n (assign pc i p') + has_counter p ≡ sum has_counter n pc + has_counter p'
    at_exclusive :
        sum exclusive n (assign pc i p') + exclusive p ≡ sum exclusive n pc + exclusive p'
    at_counted : sum counted n (assign pc i p') + counted p ≡ sum counted n pc + counted p'
    at_entering : sum entering n (assign pc i p') + entering p ≡ sum entering n pc + entering p'
    at_leaving : sum leaving n (assign pc i p') + leaving p ≡ sum leaving n pc + leaving p'
    few_counted : sum counted n (assign pc i p') ≤ n
    exclusive_in : exclusive p ≤ sum exclusive n pc
    counted_in : counted p ≤ sum counted n pc
    counter_in : has_counter p ≤ sum has_counter n pc
    changing : sum entering n pc + sum leaving n pc + settled p ≤ sum has_counter n pc
    entering_counted : sum entering n pc ≤ sum counted n pc
    mine : IsFresh l p

  shift : (p' : Pc) → Shift (pc i) p'
  shift p' = record {
    at_write = sum-assign has_write n pc i p' lt;
    at_counter = sum-assign has_counter n pc i p' lt;
    at_exclusive = sum-assign exclusive n pc i p' lt;
    at_counted = sum-assign counted n pc i p' lt;
    at_entering = sum-assign entering n pc i p' lt;
    at_leaving = sum-assign leaving n pc i p' lt;
    few_counted = sum_le counted n (assign pc i p') (λ p. ground arith);
    exclusive_in = one_le_sum exclusive n pc i lt;
    counted_in = one_le_sum counted n pc i lt;
    counter_in = one_le_sum has_counter n pc i lt;
    changing = omega (
      arith,
      sum_add_le entering leaving (λ p. entering p + leaving p) (λ p. omega arith) n pc,
      sum_add_le (λ p. entering p + leaving p) settled has_counter (λ p. ground arith) n pc,
      one_le_sum settled n pc i lt,
    );
    entering_counted = omega (arith, sum_add_le entering (λ _. 0) counted (λ p. ground arith) n pc);
    mine = fresh i lt;
  }

  record Flags (l' : Lock) (p' : Pc) : Type 0 where
    writes : bit l'.write ≡ sum has_write n (assign pc i p')
    counts : bit l'.counter ≡ sum has_counter n (assign pc i p')
    readers : l'.readers ≡ sum counted n (assign pc i p')

  Move-Flags : {p p' : Pc} {l' : Lock} → Move l p l' p' → Shift p p' → Flags l' p'
  Move-Flags Move.read_increment s = omega arith
  Move-Flags mv s = ground (arith, premise mv)

  Move-reads :
      {p p' : Pc} {l' : Lock}
      → Move l p l' p'
      → Shift p p'
      → bit l'.read ≡ sum exclusive n (assign pc i p') + shared n (assign pc i p')
  Move-reads Move.read_increment s = ground arith
  Move-reads mv s = ground (arith, premise mv)

  -- Two threads that have mxCounter are one.
  alone : (j : ℕ) → j < n → 0 < has_counter (pc i) → 0 < has_counter (pc j) → i ≡ j
  alone j ltj hi hj = elim (ℕ_discrete i j) [
    | yes e ↦ e
    | no ne ↦ absurd (ground (arith, two_le_sum has_counter n pc i j lt ltj ne))
  ]

  Move-fresh :
      {p p' : Pc} {l' : Lock}
      → Move l p l' p'
      → pc i ≡ p
      → (j : ℕ) → j < n
      → IsFresh l' (assign pc i p' j)
  Move-fresh Move.read_increment e j ltj = ground (arith, fresh j ltj, alone j ltj)
  Move-fresh mv e j ltj = ground (arith, premise mv, fresh j ltj, fresh i lt, alone j ltj)

  pub Move-Inv : {p' : Pc} {l' : Lock} → Move l (pc i) l' p' → Inv n l' (assign pc i p')
  Move-Inv {p'} {l'} mv = record {
    few = few;
    writes = flags.writes;
    counts = flags.counts;
    readers = flags.readers;
    reads = Move-reads mv (shift p');
    fresh = Move-fresh mv refl;
  }
    where
      flags : Flags l' p'
      flags = Move-Flags mv (shift p')

pub Step-Inv : {n : ℕ} {s t : System} → Step n s t → Inv n s.lock s.pc → Inv n t.lock t.pc
Step-Inv (turn i lt mv) inv = Move-Inv inv i lt mv

pub Reachable-Inv : {n : ℕ} {s : System} → n < 2 ^ 31 → Reachable n s → Inv n s.lock s.pc
Reachable-Inv {n} few at_start = initial-Inv n few
Reachable-Inv few (after r st) = Step-Inv st (Reachable-Inv few r)
