-- ===== src/Handle/Examples.antt =====
-- hndlptr.c: runs of the operations on small arrays.
use script_basic.Common.{ℕ, ◌≡◌, refl, ◌≢◌, ◌⊎◌, Option, some, [], ◌∷◌, true, false}
use script_basic.Memory.Counting.{counting}
use script_basic.Handle.{HandleArray, free_from, free_handle, get_locked, get_handle, grow, store}
use script_basic.Handle.Laws.{IsValid, AllValid, view, Got, get_handle-Got, free_handle-view}
use script_basic.Handle.Failure.{Blocks, get_handle-Blocks}

-- Handles 1 and 3 are held.
abbrev sample : HandleArray
sample = record { self = 10; n = 4; mx = false; block = 20; pointer = 0 ∷ 11 ∷ 0 ∷ 13 ∷ [] }

abbrev full : HandleArray
full = record { self = 10; n = 2; mx = false; block = 20; pointer = 0 ∷ 11 ∷ [] }

sample-IsValid : IsValid sample
sample-IsValid = record { unlocked = refl; sized = refl }

full-IsValid : IsValid full
full-IsValid = record { unlocked = refl; sized = refl }

abbrev held : ℕ
held = 7

held_not_null : held ≢ 0
held_not_null e = cc

-- The free handle 2 is given out, and the array is long enough.
get_second :
    get_handle counting (some sample) 5 held
    ≡ some (2, some (record sample { pointer = 0 ∷ 11 ∷ 7 ∷ 13 ∷ [] }), 5)
unfolding get_handle get_locked free_from store
get_second = refl

get_handle-Got_example :
    (r : ℕ × Option HandleArray × ℕ) × (get_handle counting (some sample) 5 held ≡ some r)
    × ((r.0 ≡ 0) ⊎ Got counting (some sample) r.1 held r.0)
get_handle-Got_example = get_handle-Got counting (some sample) 5 held sample-IsValid held_not_null

free_handle-view_example :
    (h' : Option HandleArray) × (free_handle (some sample) 3 ≡ some h')
    × AllValid h'
    × (view h' 3 ≡ 0)
    × ((j : ℕ) → j ≢ 3 → view h' j ≡ view (some sample) j)
free_handle-view_example = free_handle-view (some sample) 3 sample-IsValid

out_of_memory :
    get_handle counting (some full) 0 held ≡ some (0, some (record full { mx = true }), 0)
unfolding get_handle get_locked free_from grow
out_of_memory = refl

get_handle-Blocks_example : Blocks counting full (some (record full { mx = true }))
get_handle-Blocks_example =
    get_handle-Blocks counting full 0 0 held (some (record full { mx = true })) full-IsValid
      held_not_null out_of_memory
