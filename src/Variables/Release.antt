-- ===== src/Variables/Release.antt =====
-- memory.c: memory_ReleaseVariable.
use script_basic.Common.{
  ℕ, zero, suc, ◌+◌, ◌*◌, Bool, true, false, not, ◌&&◌, Option, none, some, ◌==◌, if◌then◌else◌,
}
use script_basic.Memory.{Allocator}
use script_basic.Links.{Links, write}
use script_basic.Variables.Objects.{
  State, freed, immortal, VType, ref, array, Variables, sizeof_slot, large_block_type, put_at,
  list_of, places, set_object,
}

abbrev pub is_immortal : State → Bool
is_immortal s = elim s [ immortal ↦ true | _ ↦ false ]

abbrev pub is_ref : VType → Bool
is_ref t = elim t [ ref ↦ true | _ ↦ false ]

abbrev pub is_array : VType → Bool
is_array t = elim t [ array ↦ true | _ ↦ false ]

-- A reference leaves the list of those that refer to the same variable. The `prev` of a variable in
-- such a list is the address of the slot that leads to the one before it.
unfoldable pub unlink_ref : (ℕ → ℕ) → ℕ → Links → Links
unlink_ref slot p l =
    let prev = if l.next p == 0 then l.prev else write l.prev (l.next p) (l.prev p) in
    let next = if prev p == 0 then l.next else write l.next (slot (prev p)) (l.next p) in
    record { next = write next p 0; prev = write prev p 0 }

-- `p` comes first in a free list.
unfoldable pub link_free : ℕ → ℕ → Links → Links
link_free p first l = record {
  next = write l.next p first;
  prev = let prev = write l.prev p 0 in if first == 0 then prev else write prev first p;
}

module _ (a : Allocator) where
  open a use {free}

  -- The loop that leads all other references to the slot that the value has been put in.
  unfoldable pub set_references : ℕ → ℕ → ℕ → Variables a → Option (Variables a)
  set_references zero head r m = none
  set_references (suc rounds) head r m =
      let v = m.slot r in
      let rest =
        set_references rounds head (m.links.prev v)
          (set_object a v (λ o. record o { value = head }) m) in
      if r == 0 then some m else rest

  -- The value of `p` is put in the place of the first reference to it, which is to be released.
  unfoldable pub swap_reference : ℕ → ℕ → Variables a → Option (ℕ × Variables a)
  swap_reference rounds p m =
      let head = m.links.prev p in
      let v = m.slot head in
      let r = m.links.prev v in
      let slot = put_at m.slot head p in
      let next = write m.links.next p 0 in
      let links : Links = record {
        next = if r == 0 then next else write next (slot r) p;
        prev = write m.links.prev p r;
      } in
      elim (set_references rounds head r (record m { slot = slot; links = links })) [
        | none ↦ none
        | some m' ↦ some (v, m')
      ]

  unfoldable pub unreference : ℕ → ℕ → Variables a → Option (ℕ × Variables a)
  unreference rounds p m =
      let o = m.object p in
      if is_immortal o.state && not (m.links.prev p == 0) && not (is_ref o.v_type)
      then swap_reference rounds p m
      else if is_immortal o.state && is_ref o.v_type
      then some (p, record m { links = unlink_ref m.slot p m.links })
      else some (p, m)

  unfoldable pub free_large : ℕ → Variables a → Variables a
  free_large p m =
      let block = (m.object p).value in
      record m { segment = free p (if block == 0 then m.segment else free block m.segment) }

  unfoldable pub keep_free : ℕ → Variables a → Variables a
  keep_free p m =
      let list = list_of (m.object p).s_type in
      set_object a p (λ o. record o { state = freed })
        (record m {
          links = link_free p (m.free_list list) m.links;
          free_list = put_at m.free_list list p;
        })

  unfoldable pub give_back : ℕ → Variables a → Variables a
  give_back p m = if (m.object p).s_type == large_block_type then free_large p m else keep_free p m

  -- The elements from number `i` on, of which so many are left.
  unfoldable pub release_elements :
      (ℕ → Variables a → Option (Variables a)) → ℕ → ℕ → ℕ → Variables a → Option (Variables a)
  release_elements release zero i p m = some m
  release_elements release (suc left) i p m =
      let q = m.slot ((m.object p).value + sizeof_slot * i) in
      elim (if q == 0 then some m else release q m) [
        | none ↦ none
        | some m' ↦ release_elements release left (i + 1) p m'
      ]

  -- The number bounds the depth of arrays in arrays, and the references to one variable.
  unfoldable pub release_variable : ℕ → ℕ → Variables a → Option (Variables a)
  release_variable zero p m = none
  release_variable (suc rounds) p m =
      let release = release_variable rounds in
      if p == 0 then some m else (elim (unreference rounds p m) [
        | none ↦ none
        | some (q, m1) ↦
            let o = m1.object q in
            elim (if is_array o.v_type
              then release_elements release (places o.low o.high) 0 q m1
              else some m1) [ none ↦ none | some m2 ↦ some (give_back q m2) ]
      ])
