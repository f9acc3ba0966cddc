-- ===== src/Handle.antt =====
-- hndlptr.c: the array of handles of an extension module. A pointer is its address, 0 is NULL.
-- `none` as the result of an operation means that the call waits for ever on the array's mutex.
pub mod Search
pub mod Laws
pub mod Failure
mod Examples
use script_basic.Common.{
  ℕ, zero, suc, ◌+◌, ◌-◌, ◌*◌, Bool, true, false, ◌||◌, Option, none, some, List, [], ◌++◌, ltb,
  leb, ◌==◌, if◌then◌else◌, get_or, set, replicate,
}
use script_basic.Memory.{Allocator}

abbrev pub array_increment : ℕ
array_increment = 100

-- `sizeof(void *)` and `sizeof(HandleArray)` of a 64-bit build
abbrev pub sizeof_pointer : ℕ
sizeof_pointer = 8

abbrev pub sizeof_handle_array : ℕ
sizeof_handle_array = 56

-- `self` is the address of the structure, `block` that of the pointers, `pointer` what stands there.
pub record HandleArray : Type 0 where
  pub self : ℕ
  pub n : ℕ
  pub mx : Bool
  pub block : ℕ
  pub pointer : List ℕ

-- The search for a free handle, with the rounds that are left; a round that finds one breaks.
unfoldable pub free_from : List ℕ → ℕ → ℕ → ℕ
free_from ps zero i = i
free_from ps (suc rounds) i =
    let next = free_from ps rounds (i + 1) in if get_or ps i 0 == 0 then i else next

unfoldable pub get_pointer : Option HandleArray → ℕ → Option ℕ
get_pointer none handle = some 0
get_pointer (some q) handle =
    if ltb handle 1 || leb q.n handle
    then some 0
    else if q.mx
    then none
    else some (get_or q.pointer handle 0)

unfoldable pub free_handle : Option HandleArray → ℕ → Option (Option HandleArray)
free_handle none handle = some none
free_handle (some q) handle =
    if ltb handle 1 || leb q.n handle
    then some (some q)
    else if q.mx
    then none
    else some (some (record q { pointer = set q.pointer handle 0 }))

module _ (a : Allocator) where
  open a use {Segment, alloc, free}

  -- More room: the old pointers are copied, the new ones are NULL. A failure returns at once.
  unfoldable pub grow : HandleArray → Segment → Option HandleArray × Segment
  grow q m =
      let (z, m') = alloc ((q.n + array_increment) * sizeof_pointer) m in
      if z == 0 then (none, m') else (
        some (record q {
          n = q.n + array_increment;
          block = z;
          pointer = q.pointer ++ replicate array_increment 0;
        }),
        free q.block m',
      )

  unfoldable pub store : ℕ → ℕ → HandleArray → HandleArray
  store i p q = record q { mx = false; pointer = set q.pointer i p }

  -- From the lock on; `pointer` is not NULL. The failing return leaves the mutex locked.
  unfoldable pub get_locked : HandleArray → Segment → ℕ → ℕ × Option HandleArray × Segment
  get_locked q m p =
      let i = free_from q.pointer (q.n - 1) 1 in
      if leb q.n i
      then elim (grow q m).0 [
        | none ↦ (0, some (record q { mx = true }), (grow q m).1)
        | some q' ↦ (i, some (store i p q'), (grow q m).1)
      ]
      else (i, some (store i p q), m)

  abbrev pub fresh : ℕ → HandleArray
  fresh address = record { self = address; n = 0; mx = false; block = 0; pointer = [] }

  unfoldable pub get_handle :
      Option HandleArray → Segment → ℕ → Option (ℕ × Option HandleArray × Segment)
  get_handle h m zero = some (0, h, m)
  get_handle none m (suc p) =
      let (address, m') = alloc sizeof_handle_array m in
      if address == 0 then some (0, none, m') else some (get_locked (fresh address) m' (suc p))
  get_handle (some q) m (suc p) = if q.mx then none else some (get_locked q m (suc p))

  -- The structure is released, the block of pointers is not; the caller's variable keeps its value.
  unfoldable pub destroy_handle_array : Option HandleArray → Segment → Segment
  destroy_handle_array none m = m
  destroy_handle_array (some q) m = free q.self m
