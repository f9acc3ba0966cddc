-- ===== src/SharedLock.antt =====
-- thread.c: the shareable lock, and threads that take and leave it in any interleaving. A mutex is
-- a flag: thread_LockMutex is a step that waits until the flag is down and raises it, and
-- thread_UnlockMutex is a step that lowers it. The counter is read, raised and lowered in one step each.
pub mod Sums
pub mod Invariant
pub mod Safety
mod Examples
use native.Mathlib.Decide.{ℕ_discrete}
use mathlib.Core.Logic.{ite}
use script_basic.Common.{ℕ, ◌+◌, ◌-◌, ◌%◌, ◌^◌, ◌<◌, ◌≡◌, ◌≢◌, Bool, true, false}

-- `SHAREDLOCK`; `readers` is `dwReaders`, as the bits of an `int`.
pub record Lock : Type 0 where
  pub write : Bool
  pub read : Bool
  pub counter : Bool
  pub readers : ℕ

-- shared_InitLock
abbrev pub init_lock : Lock
init_lock = record { write = false; read = false; counter = false; readers = 0 }

abbrev pub int_mod : ℕ
int_mod = 2 ^ 32

-- Where a thread stands: outside, in one of the four functions before its next access, or between
-- a locking and the unlocking function. `read_enter` and `leave_test` have read `iReaders`.
pub data Pc : Type 0 where
  outside : Pc
  read_counter : Pc  -- shared_LockRead: has mxWrite, locks mxCounter next
  read_count : Pc  -- increments next
  read_load : Pc  -- reads the counter next
  read_enter : (i : ℕ) → Pc  -- tests iReaders next
  read_first : Pc  -- locks mxRead next
  read_release : Pc  -- unlocks mxCounter next
  read_done : Pc  -- unlocks mxWrite next
  reading : Pc
  leave_count : Pc  -- shared_UnlockRead: has mxCounter, decrements next
  leave_load : Pc
  leave_test : (i : ℕ) → Pc
  leave_last : Pc  -- unlocks mxRead next
  leave_release : Pc  -- unlocks mxCounter next
  write_read : Pc  -- shared_LockWrite: has mxWrite, locks mxRead next
  write_done : Pc  -- has mxRead, unlocks mxWrite next
  writing : Pc

-- One step of one thread.
pub data Move (l : Lock) : Pc → Lock → Pc → Type 0 where
  lock_read : l.write ≡ false → Move l outside (record l { write = true }) read_counter
  read_lock_counter :
      l.counter ≡ false → Move l read_counter (record l { counter = true }) read_count
  read_increment : Move l read_count (record l { readers = (l.readers + 1) % int_mod }) read_load
  read_fetch : Move l read_load l (read_enter l.readers)
  read_is_first : {i : ℕ} → i ≡ 1 → Move l (read_enter i) l read_first
  read_is_later : {i : ℕ} → i ≢ 1 → Move l (read_enter i) l read_release
  read_lock_read : l.read ≡ false → Move l read_first (record l { read = true }) read_release
  read_unlock_counter : Move l read_release (record l { counter = false }) read_done
  read_unlock_write : Move l read_done (record l { write = false }) reading
  unlock_read : l.counter ≡ false → Move l reading (record l { counter = true }) leave_count
  leave_decrement :
      Move l leave_count (record l { readers = (l.readers + int_mod - 1) % int_mod }) leave_load
  leave_fetch : Move l leave_load l (leave_test l.readers)
  leave_is_last : {i : ℕ} → i ≡ 0 → Move l (leave_test i) l leave_last
  leave_is_earlier : {i : ℕ} → i ≢ 0 → Move l (leave_test i) l leave_release
  leave_unlock_read : Move l leave_last (record l { read = false }) leave_release
  leave_unlock_counter : Move l leave_release (record l { counter = false }) outside
  lock_write : l.write ≡ false → Move l outside (record l { write = true }) write_read
  write_lock_read : l.read ≡ false → Move l write_read (record l { read = true }) write_done
  write_unlock_write : Move l write_done (record l { write = false }) writing
  unlock_write : Move l writing (record l { read = false }) outside

-- The lock and the threads, of which a system of `n` has those below `n`.
pub record System : Type 0 where
  pub lock : Lock
  pub pc : ℕ → Pc

abbrev pub assign : (ℕ → Pc) → ℕ → Pc → ℕ → Pc
assign pc i p j = ite (ℕ_discrete i j) p (pc j)

pub data Step (n : ℕ) (s : System) : System → Type 0 where
  turn :
      (i : ℕ) {l : Lock} {p : Pc}
      → i < n
      → Move s.lock (s.pc i) l p
      → Step n s (record { lock = l; pc = assign s.pc i p })

abbrev pub initial : System
initial = record { lock = init_lock; pc = λ _. outside }

pub data Reachable (n : ℕ) : System → Type 0 where
  at_start : Reachable n initial
  after : {s t : System} → Reachable n s → Step n s t → Reachable n t
