-- ===== src/Memory/Counting.antt =====
-- An allocator to try the operations with: a segment is the number of the calls that still succeed.
use script_basic.Common.{ℕ, zero, suc, ◌*◌}
use script_basic.Memory.{Allocator}

abbrev take : ℕ → ℕ → ℕ × ℕ
take n zero = (0, zero)
take n (suc left) = (1000 * suc left, left)

abbrev pub counting : Allocator
counting = record { Segment = ℕ; alloc = take; free = λ p left. left }
