-- ===== src/Variables/Referred.antt =====
-- memory_SetRef and memory_ReleaseVariable: a variable that one reference refers to.
use script_basic.Common.{ℕ, suc, ◌≡◌, ◌≢◌, refl, ap, ◌∙◌, true, false, some, ◌==◌, arith}
use script_basic.Memory.{Allocator}
use script_basic.Links.{write}
use script_basic.Variables.Objects.{freed, immortal, Variables, put_at, large_block_type}
use script_basic.Variables.Release.{
  is_ref, is_array, set_references, swap_reference, unreference, give_back, keep_free,
  release_variable,
}
use script_basic.Variables.References.{
  done, dereference, last_reference, refer_all, hook_reference, ensure_variable, set_ref,
}

module _ (a : Allocator) (m : Variables a) (var val w v : ℕ) (at_var : m.slot var ≡ w)
    (at_val : m.slot val ≡ v) (some_val : val ≢ 0) (some_v : v ≢ 0) (other : w ≢ v)
    (plain : is_ref (m.object v).v_type ≡ false) (alone_v : m.links.prev v ≡ 0)
    (alone_w : m.links.prev w ≡ 0) where
  dereference_plain : (n : ℕ) → dereference a (suc n) val m ≡ val
  unfolding dereference
  dereference_plain n =
      let s : (val == 0) ≡ false = ground arith in
      let t : (v == 0) ≡ false = ground arith in rw (s, at_val, t, plain, dereference) refl

  -- The variables after memory_SetRef.
  abbrev pub hooked : Variables a
  hooked = record m {
    links = record { next = write m.links.next w v; prev = write m.links.prev v var };
    object = put_at m.object w (record (m.object w) { value = val });
  }

  last_plain : (n : ℕ) → last_reference a (suc n) val m ≡ some val
  unfolding last_reference
  last_plain n = rw (at_val, alone_v, last_reference) refl

  hook_plain : (n : ℕ) → hook_reference a (suc n) var val val m ≡ (done, hooked)
  unfolding hook_reference refer_all
  hook_plain n =
      let e : (v == w) ≡ false = ground arith in rw (at_val, at_var, e, alone_w, refer_all) refl

  ensured : ensure_variable a val m ≡ some m
  unfolding ensure_variable
  ensured = let t : (v == 0) ≡ false = ground arith in rw (at_val, t, ensure_variable) refl

  pub set_ref_plain : (n : ℕ) → set_ref a (suc n) var val m ≡ (done, hooked)
  unfolding set_ref
  set_ref_plain n =
      let t : (v == 0) ≡ false = ground arith in
      rw (dereference_plain n, at_val, plain, t, set_ref)
        (rw ensured
          (rw (dereference_plain n, last_plain n) (rw (dereference_plain n) (hook_plain n))))

  -- The variables after the swap.
  abbrev swapped : Variables a
  swapped = record hooked {
    slot = put_at m.slot var v;
    links = record { next = write hooked.links.next v 0; prev = write hooked.links.prev v 0 };
  }

  module _ (some_var : var ≢ 0) (state : (m.object v).state ≡ immortal) where
    swaps : (n : ℕ) → swap_reference a (suc n) v hooked ≡ some (w, swapped)
    unfolding swap_reference set_references
    swaps n =
        let head : hooked.links.prev v ≡ var = ground arith in
        let last : hooked.links.prev w ≡ 0 = ground (arith, alone_w) in
        rw (head, at_var, last, swap_reference) (rw (head, at_var) refl)

    unreferences : (n : ℕ) → unreference a (suc n) v hooked ≡ some (w, swapped)
    unfolding unreference
    unreferences n =
        let e : (w == v) ≡ false = ground arith in
        let f : (v == v) ≡ true = ground arith in
        let g : (var == 0) ≡ false = ground arith in
        rw (e, f, state, g, plain, unreference) (swaps n)

    given_back :
        (m.object w).s_type ≢ large_block_type
        → ((give_back a w swapped).slot var ≡ v)
          × ((give_back a w swapped).object v ≡ m.object v)
          × (((give_back a w swapped).object w).state ≡ freed)
    unfolding give_back keep_free
    given_back l = (ground (arith, l), ground (arith, l), ground (arith, l))

    -- With a limit of at least one dereference, for a slot that holds a variable to which nothing is
    -- linked, and another that holds an immortal variable that is no reference and that nothing
    -- refers to, memory_SetRef succeeds, stores the second slot as the value of the first's
    -- variable, and notes the first slot before the second variable and the second variable after
    -- the first's; memory_ReleaseVariable of the second variable then ends with this variable, its
    -- record as it was, in the slot of the reference, and with the record that the slot held, where
    -- that is neither an array nor a large block, free.
    pub release_variable-set_ref :
        (n : ℕ)
        → is_array (m.object w).v_type ≡ false
        → (m.object w).s_type ≢ large_block_type
        → (m' : Variables a) × ((set_ref a (suc n) var val m).0 ≡ done)
          × (((set_ref a (suc n) var val m).1.object w).value ≡ val)
          × ((set_ref a (suc n) var val m).1.links.prev v ≡ var)
          × ((set_ref a (suc n) var val m).1.links.next w ≡ v)
          × (release_variable a (suc (suc n)) v (set_ref a (suc n) var val m).1 ≡ some m')
          × (m'.slot var ≡ v)
          × (m'.object v ≡ m.object v)
          × ((m'.object w).state ≡ freed)
    unfolding release_variable
    release_variable-set_ref n ar l =
        let t : (v == 0) ≡ false = ground arith in
        let self : (w == w) ≡ true = ground arith in
        (
          give_back a w swapped,
          ap (λ r. r.0) (set_ref_plain n),
          ap (λ r. (r.1.object w).value) (set_ref_plain n) ∙ ground arith,
          ap (λ r. r.1.links.prev v) (set_ref_plain n) ∙ ground arith,
          ap (λ r. r.1.links.next w) (set_ref_plain n) ∙ ground arith,
          rw (set_ref_plain n) (rw (t, unreferences n, release_variable) (rw (self, ar) refl)),
          (given_back l).0,
          (given_back l).1,
          (given_back l).2,
        )
