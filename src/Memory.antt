-- ===== src/Memory.antt =====
-- The allocation interface through which hndlptr.c, sym.c and options.c reach myalloc.c: a segment
-- that is handed on from call to call, and addresses, where 0 is NULL.
pub mod Counting
use script_basic.Common.{ℕ}

pub record Allocator : Type 1 where
  pub Segment : Type 0
  -- `alloc_Alloc(n, pMemorySegment)`: the address, or 0.
  pub alloc : ℕ → Segment → ℕ × Segment
  -- `alloc_Free(p, pMemorySegment)`
  pub free : ℕ → Segment → Segment
