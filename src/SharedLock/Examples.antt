-- ===== src/SharedLock/Examples.antt =====
-- thread.c: runs of two threads with one lock.
use native.Mathlib.Omega.{arith}
use script_basic.Common.{ℕ, ◌≡◌, refl, ◌≢◌, true}
use script_basic.SharedLock.{
  init_lock, Pc, Move, System, Step, turn, assign, initial, Reachable, at_start, after,
}
use script_basic.SharedLock.Safety.{writer_alone, no_deadlock}

-- Thread 0 has called shared_LockWrite.
abbrev write_held : System
write_held = record {
  lock = record init_lock { read = true };
  pc = assign (assign (assign initial.pc 0 Pc.write_read) 0 Pc.write_done) 0 Pc.writing;
}

write_held-Reachable : Reachable 2 write_held
unfolding native.Mathlib.Decide.ℕ_discrete
write_held-Reachable =
    after
      (after (after at_start (turn 0 (omega arith) (Move.lock_write refl)))
        (turn 0 (omega arith) (Move.write_lock_read refl)))
      (turn 0 (omega arith) Move.write_unlock_write)

-- Thread 1 has then called shared_LockRead, and waits for mxRead with mxWrite and mxCounter.
abbrev reader_waits : System
reader_waits = record {
  lock = record { write = true; read = true; counter = true; readers = 1 };
  pc =
      assign
        (assign
          (assign (assign (assign write_held.pc 1 Pc.read_counter) 1 Pc.read_count) 1 Pc.read_load)
          1 (Pc.read_enter 1))
        1 Pc.read_first;
}

reader_waits-Reachable : Reachable 2 reader_waits
unfolding native.Mathlib.Decide.ℕ_discrete
reader_waits-Reachable =
    after
      (after
        (after
          (after (after write_held-Reachable (turn 1 (omega arith) (Move.lock_read refl)))
            (turn 1 (omega arith) (Move.read_lock_counter refl)))
          (turn 1 (omega arith) Move.read_increment))
        (turn 1 (omega arith) Move.read_fetch))
      (turn 1 (omega arith) (Move.read_is_first refl))

writer_alone_example :
    let zeroth : ℕ = 0 in
    (reader_waits.pc 1 ≢ Pc.reading) × (reader_waits.pc 1 ≡ Pc.writing → zeroth ≡ 1)
unfolding native.Mathlib.Decide.ℕ_discrete
writer_alone_example =
    writer_alone {n = 2} {s = reader_waits} (omega arith) reader_waits-Reachable 0 1 (omega arith)
      (omega arith) refl

no_deadlock_example : (t : System) × Step 2 reader_waits t
unfolding native.Mathlib.Decide.ℕ_discrete
no_deadlock_example =
    no_deadlock {n = 2} {s = reader_waits} (omega arith) reader_waits-Reachable 1 (omega arith)
      (λ e. cc)
