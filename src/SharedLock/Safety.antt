-- ===== src/SharedLock/Safety.antt =====
-- thread.c: what a shareable lock promises in every reachable state.
use script_basic.Common.{
  ℕ, ◌^◌, ◌≤◌, ◌<◌, ◌≡◌, ◌≢◌, Bool, true, false, ◌⊎◌, inl, inr, Bool-cases, arith,
}
use native.Mathlib.Decide.{ℕ_discrete, dec_lt}
use script_basic.SharedLock.{Lock, Pc, Move, System, Step, turn, Reachable}
use script_basic.SharedLock.Sums.{sum, one_le_sum, two_le_sum, sum_pos, sum_add_le}
use script_basic.SharedLock.Invariant.{
  has_counter, exclusive, counted, entering, leaving, Inv, Reachable-Inv,
}

-- Between shared_LockRead and shared_UnlockRead.
abbrev pub inside : Pc → ℕ
inside Pc.reading = 1
inside _ = 0

-- In every reachable state of fewer than 2 ^ 31 threads, while one thread is between
-- shared_LockWrite and shared_UnlockWrite, no thread is between shared_LockRead and
-- shared_UnlockRead, and no other thread writes.
pub writer_alone :
    {n : ℕ} {s : System}
    → n < 2 ^ 31
    → Reachable n s
    → (i j : ℕ) → i < n
    → j < n
    → s.pc i ≡ Pc.writing
    → (s.pc j ≢ Pc.reading) × (s.pc j ≡ Pc.writing → i ≡ j)
writer_alone {n} {s} few r i j hi hj w = (no_reader, same)
  where
    inv : Inv n s.lock s.pc
    inv = Reachable-Inv few r

    held : 1 ≤ sum exclusive n s.pc
    held = ground (arith, one_le_sum exclusive n s.pc i hi)

    no_reader : s.pc j ≢ Pc.reading
    no_reader e = ground (
      arith,
      held,
      inv.reads,
      one_le_sum inside n s.pc j hj,
      sum_add_le entering inside counted (λ p. ground arith) n s.pc,
    )

    same : s.pc j ≡ Pc.writing → i ≡ j
    same e = elim (ℕ_discrete i j) [
      | yes q ↦ q
      | no q ↦ absurd (ground (arith, inv.reads, two_le_sum exclusive n s.pc i j hi hj q))
    ]

-- What a thread waits for before its next step.
abbrev Ready : Lock → Pc → Type 0
Ready l Pc.outside = ⊥
Ready l Pc.read_counter = l.counter ≡ false
Ready l Pc.read_first = l.read ≡ false
Ready l Pc.reading = l.counter ≡ false
Ready l Pc.write_read = l.read ≡ false
Ready l _ = Unit

abbrev Next : Lock → Pc → Type 0
Next l p = (l' : Lock) × (p' : Pc) × Move l p l' p'

Ready-Next : (l : Lock) (p : Pc) → Ready l p → Next l p
Ready-Next l Pc.outside h = absurd h
Ready-Next l Pc.read_counter h = (_, _, Move.read_lock_counter h)
Ready-Next l Pc.read_count h = (_, _, Move.read_increment)
Ready-Next l Pc.read_load h = (_, _, Move.read_fetch)
Ready-Next l (Pc.read_enter i) h = elim (ℕ_discrete i 1) [
  | yes e ↦ (_, _, Move.read_is_first e)
  | no e ↦ (_, _, Move.read_is_later e)
]
Ready-Next l Pc.read_first h = (_, _, Move.read_lock_read h)
Ready-Next l Pc.read_release h = (_, _, Move.read_unlock_counter)
Ready-Next l Pc.read_done h = (_, _, Move.read_unlock_write)
Ready-Next l Pc.reading h = (_, _, Move.unlock_read h)
Ready-Next l Pc.leave_count h = (_, _, Move.leave_decrement)
Ready-Next l Pc.leave_load h = (_, _, Move.leave_fetch)
Ready-Next l (Pc.leave_test i) h = elim (ℕ_discrete i 0) [
  | yes e ↦ (_, _, Move.leave_is_last e)
  | no e ↦ (_, _, Move.leave_is_earlier e)
]
Ready-Next l Pc.leave_last h = (_, _, Move.leave_unlock_read)
Ready-Next l Pc.leave_release h = (_, _, Move.leave_unlock_counter)
Ready-Next l Pc.write_read h = (_, _, Move.write_lock_read h)
Ready-Next l Pc.write_done h = (_, _, Move.write_unlock_write)
Ready-Next l Pc.writing h = (_, _, Move.unlock_write)

module _ {n : ℕ} {l : Lock} {pc : ℕ → Pc} (inv : Inv n l pc) where
  abbrev SomeReady : Type 0
  SomeReady = (j : ℕ) × (j < n) × Ready l (pc j)

  exclusive-Ready : (p : Pc) → 0 < exclusive p → Ready l p
  exclusive-Ready Pc.write_done h = tt
  exclusive-Ready Pc.writing h = tt
  exclusive-Ready p h = absurd (omega arith)

  -- A writer that has mxRead never waits.
  by_writer : 0 < sum exclusive n pc → SomeReady
  by_writer h = let (j, lt, pos) = sum_pos exclusive n pc h in (j, lt, exclusive-Ready (pc j) pos)

  is_first : Pc → Bool
  is_first Pc.read_first = true
  is_first _ = false

  holder-Ready : (p : Pc) → 0 < has_counter p → (l.read ≡ false) ⊎ (is_first p ≡ false) → Ready l p
  unfolding is_first
  holder-Ready p h q = ground arith

  -- The thread that has mxCounter is ready, or waits for a writer.
  by_holder : 0 < sum has_counter n pc → SomeReady
  unfolding is_first
  by_holder h = elim (Bool-cases l.read) [
    | inr free ↦ (j, lt, holder-Ready (pc j) pos (inl free))
    | inl taken ↦ elim (Bool-cases (is_first (pc j))) [
      | inr not_first ↦ (j, lt, holder-Ready (pc j) pos (inr not_first))
      | inl first ↦ by_writer (
          ground (
            arith,
            taken,
            first,
            inv.reads,
            inv.readers,
            inv.counts,
            inv.fresh j lt,
            one_le_sum entering n pc j lt,
            sum_add_le entering leaving has_counter (λ p. ground arith) n pc,
          ))
    ]
  ]
    where
      j : ℕ
      j = (sum_pos has_counter n pc h).0

      lt : j < n
      lt = (sum_pos has_counter n pc h).1

      pos : 0 < has_counter (pc j)
      pos = (sum_pos has_counter n pc h).2

  -- With mxCounter free, a counted reader is ready.
  by_reader : sum has_counter n pc ≡ 0 → 0 < sum counted n pc → SomeReady
  by_reader none h =
      let (j, lt, pos) = sum_pos counted n pc h in
      (j, lt, ground (arith, pos, one_le_sum has_counter n pc j lt, inv.counts))

  by_read : sum has_counter n pc ≡ 0 → l.read ≡ true → SomeReady
  by_read none taken = elim (dec_lt 0 (sum exclusive n pc)) [
    | yes w ↦ by_writer w
    | no w ↦ by_reader none (
        ground (arith, inv.reads, sum_add_le entering leaving has_counter (λ p. ground arith) n pc))
  ]

  some_ready : (i : ℕ) → i < n → pc i ≢ Pc.outside → SomeReady
  some_ready i lt ne = elim (dec_lt 0 (sum has_counter n pc)) [
    | yes h ↦ by_holder h
    | no h ↦ elim (Bool-cases l.read) [
      | inl taken ↦ by_read (omega arith) taken
      | inr free ↦ (i, lt, ground (arith, inv.counts))
    ]
  ]

-- No deadlock: in every reachable state of fewer than 2 ^ 31 threads in which some thread is inside
-- one of the four functions or holds the lock, some thread can make a step.
pub no_deadlock :
    {n : ℕ} {s : System}
    → n < 2 ^ 31
    → Reachable n s
    → (i : ℕ) → i < n
    → s.pc i ≢ Pc.outside
    → (t : System) × Step n s t
no_deadlock {n} {s} few r i lt ne =
    let (j, ltj, ready) = some_ready (Reachable-Inv few r) i lt ne in
    let (l', p', mv) = Ready-Next s.lock (s.pc j) ready in (_, turn j ltj mv)
