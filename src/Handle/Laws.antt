-- ===== src/Handle/Laws.antt =====
-- The operations of hndlptr.c against the map from handles to pointers that they keep.
use script_basic.Common.{
  ℕ, zero, suc, ◌+◌, ◌-◌, ◌≤◌, ◌<◌, ◌≡◌, refl, sym, ap, ◌∙◌, ◌≢◌, true, false, Option, none, some,
  List, arith, ◌==◌, leb, Bool-cases, Option-cases, inl, inr, ◌⊎◌, get_or, set, replicate, length,
  ◌++◌, length-append, length-replicate, get_or-replicate, length-set, get_or-set_self,
  get_or-set_ne,
}
use script_basic.Memory.{Allocator}
use script_basic.Handle.{
  HandleArray, array_increment, free_from, get_pointer, free_handle, get_locked, get_handle, grow,
  fresh, sizeof_handle_array, store,
}
use script_basic.Handle.Search.{Found, free_from-Found}

-- What every operation finds and leaves: the mutex free, the array as long as it says.
pub record IsValid (q : HandleArray) : Type 0 where
  pub unlocked : q.mx ≡ false
  pub sized : length q.pointer ≡ q.n

abbrev pub AllValid : Option HandleArray → Type 0
AllValid none = Unit
AllValid (some q) = IsValid q

-- The pointer behind a handle, as the array has it; NULL where there is none.
abbrev pub view : Option HandleArray → ℕ → ℕ
view none handle = 0
view (some q) zero = 0
view (some q) (suc k) = get_or q.pointer (suc k) 0

get_or_beyond : (xs : List ℕ) (i : ℕ) → length xs ≤ i → get_or xs i 0 ≡ 0
get_or_beyond List.[] i h = refl
get_or_beyond (List.◌∷◌ x xs) zero h = absurd (omega arith)
get_or_beyond (List.◌∷◌ x xs) (suc i) h = get_or_beyond xs i (omega arith)

-- On a valid array or on none, handle_GetPointer never waits and returns the pointer behind the
-- handle, NULL for a handle that is out of range or free.
pub get_pointer-view :
    (h : Option HandleArray) (handle : ℕ) → AllValid h → get_pointer h handle ≡ some (view h handle)
unfolding get_pointer
get_pointer-view none handle v = refl
get_pointer-view (some q) zero v = ground arith
get_pointer-view (some q) (suc k) v = ground (arith, get_or_beyond q.pointer (suc k))

get_or-zeros : (xs : List ℕ) (n i : ℕ) → get_or (xs ++ replicate n 0) i 0 ≡ get_or xs i 0
get_or-zeros List.[] n i = get_or-replicate n i 0
get_or-zeros (List.◌∷◌ x xs) n zero = refl
get_or-zeros (List.◌∷◌ x xs) n (suc i) = get_or-zeros xs n i

module _ (a : Allocator) where
  open a use {Segment, alloc}

  grow_lem :
      (q q' : HandleArray) (m : Segment)
      → (grow a q m).0 ≡ some q'
      → (q'.n ≡ q.n + array_increment) × (q'.pointer ≡ q.pointer ++ replicate array_increment 0)
  unfolding grow
  grow_lem q q' m e = ground arith

  grow-view :
      (q q' : HandleArray) (m : Segment)
      → (grow a q m).0 ≡ some q'
      → IsValid q
      → (q'.n ≡ q.n + array_increment)
        × (length q'.pointer ≡ q'.n)
        × ((j : ℕ) → get_or q'.pointer j 0 ≡ get_or q.pointer j 0)
  grow-view q q' m e v =
      let (n, ps) = grow_lem q q' m e in
      let zeros : List ℕ = replicate array_increment 0 in
      (
        n,
        omega (
          arith,
          ap length ps,
          length-append {0} q.pointer zeros,
          length-replicate {A = ℕ} array_increment 0,
        ),
        λ j. rw ps (get_or-zeros q.pointer array_increment j),
      )

  -- What a call that gets a handle has done: the map changes at one handle, which had no pointer.
  pub record Got (h h' : Option HandleArray) (p i : ℕ) : Type 0 where
    pub valid : AllValid h'
    pub positive : 1 ≤ i
    pub was_free : view h i ≡ 0
    pub least : (j : ℕ) → 1 ≤ j → j < i → view h j ≢ 0
    pub now : view h' i ≡ p
    pub others : (j : ℕ) → j ≢ i → view h' j ≡ view h j

  store-Got :
      (q q' : HandleArray) (p i : ℕ)
      → (length q'.pointer ≡ q'.n)
      → 1 ≤ i
      → i < q'.n
      → ((j : ℕ) → get_or q'.pointer j 0 ≡ get_or q.pointer j 0)
      → get_or q.pointer i 0 ≡ 0
      → ((j : ℕ) → 1 ≤ j → j < i → get_or q.pointer j 0 ≢ 0)
      → Got (some q) (some (store a i p q')) p i
  unfolding store
  store-Got q q' p zero l o f same w least = absurd (omega arith)
  store-Got q q' p (suc k) l o f same w least = record {
    valid = record { unlocked = refl; sized = length-set q'.pointer (suc k) p ∙ l };
    positive = o;
    was_free = w;
    least = λ j. first j;
    now = get_or-set_self q'.pointer (suc k) p 0 (omega arith);
    others = λ j. other j;
  }
    where
      first : (j : ℕ) → 1 ≤ j → j < suc k → view (some q) j ≢ 0
      first zero e f' = absurd (omega arith)
      first (suc j) e f' = least (suc j) e f'

      other : (j : ℕ) → j ≢ suc k → view (some (store a (suc k) p q')) j ≡ view (some q) j
      other zero n = refl
      other (suc j) n = get_or-set_ne q'.pointer (suc k) (suc j) p 0 (λ e. n (sym e)) ∙ same (suc j)

  -- The call on an array: it has the handle, or there was no memory for more of them.
  pub get_locked-cases :
      (q : HandleArray) (m : Segment) (p : ℕ)
      → IsValid q
      → ((get_locked a q m p).0 ≡ 0)
          × ((get_locked a q m p).1 ≡ some (record q { mx = true }))
          × ((grow a q m).0 ≡ none)
        ⊎ Got (some q) (get_locked a q m p).1 p (get_locked a q m p).0
  unfolding get_locked
  get_locked-cases q m p v = elim (Bool-cases (leb q.n i)) [
    | inl full ↦ elim (Option-cases (grow a q m).0) [
      | inl e ↦ rw (full, e, get_locked) (inl (refl, refl, refl))
      | inr (q', e) ↦
          let (more, long, same) = grow-view q q' m e v in
          rw (full, e, get_locked)
            (inr (
              store-Got q q' p i long found.not_before (omega (arith, found.not_beyond)) same
                (get_or_beyond q.pointer i (ground arith)) found.is_first))
    ]
    | inr room ↦
        rw (room, get_locked)
          (inr (
            store-Got q q p i v.sized found.not_before (ground arith) (λ j. refl)
              (found.is_free (ground arith)) found.is_first))
  ]
    where
      i : ℕ
      i = free_from q.pointer (q.n - 1) 1

      found : Found q.pointer 1 (q.n - 1) i
      found = free_from-Found q.pointer (q.n - 1) 1

  fresh-Got :
      (address p i : ℕ) (h' : Option HandleArray)
      → Got (some (fresh a address)) h' p i
      → Got none h' p i
  fresh-Got address p i h' g = record {
    valid = g.valid;
    positive = g.positive;
    was_free = refl;
    least = λ j l u. absurd (least j l u (empty j));
    now = g.now;
    others = λ j n. g.others j n ∙ empty j;
  }
    where
      least : (j : ℕ) → 1 ≤ j → j < i → view (some (fresh a address)) j ≢ 0
      least = g.least

      empty : (j : ℕ) → view (some (fresh a address)) j ≡ 0
      empty zero = refl
      empty (suc j) = refl

  -- On a valid array or on none, with a pointer that is not NULL, handle_GetHandle never waits. It
  -- returns 0, or a positive handle that was free, the least such, behind which the pointer now
  -- stands, while every other handle keeps its pointer and the array stays valid.
  pub get_handle-Got :
      (h : Option HandleArray) (m : Segment) (p : ℕ)
      → AllValid h
      → p ≢ 0
      → (r : ℕ × Option HandleArray × Segment) × (get_handle a h m p ≡ some r)
        × ((r.0 ≡ 0) ⊎ Got h r.1 p r.0)
  unfolding get_handle
  get_handle-Got h m zero v n = absurd (n refl)
  get_handle-Got none m (suc p) v n = elim (Bool-cases ((alloc sizeof_handle_array m).0 == 0)) [
    | inl e ↦ ((0, none, m'), rw e, inl refl)
    | inr e ↦ (
      get_locked a (fresh a q) m' (suc p),
      rw e,
      elim (get_locked-cases (fresh a q) m' (suc p) (record { unlocked = refl; sized = refl })) [
        | inl f ↦ inl f.0
        | inr g ↦ inr (fresh-Got q (suc p) _ _ g)
      ],
    )
  ]
    where
      q : ℕ
      q = (alloc sizeof_handle_array m).0

      m' : Segment
      m' = (alloc sizeof_handle_array m).1
  get_handle-Got (some q) m (suc p) v n = (
    get_locked a q m (suc p),
    rw v.unlocked,
    elim (get_locked-cases q m (suc p) v) [ inl f ↦ inl f.0 | inr g ↦ inr g ],
  )

-- On a valid array or on none, handle_FreeHandle never waits, keeps the array valid, takes the
-- handle's pointer away, and leaves every other handle its pointer.
pub free_handle-view :
    (h : Option HandleArray) (handle : ℕ)
    → AllValid h
    → (h' : Option HandleArray) × (free_handle h handle ≡ some h')
      × AllValid h'
      × (view h' handle ≡ 0)
      × ((j : ℕ) → j ≢ handle → view h' j ≡ view h j)
unfolding free_handle
free_handle-view none handle v = (none, refl, tt, refl, λ j n. refl)
free_handle-view (some q) zero v = (some q, refl, v, refl, λ j n. refl)
free_handle-view (some q) (suc k) v = elim (Bool-cases (leb q.n (suc k))) [
  | inl e ↦ (some q, ground arith, v, ground (arith, get_or_beyond q.pointer (suc k)), λ j n. refl)
  | inr e ↦ (
    some (record q { pointer = set q.pointer (suc k) 0 }),
    ground arith,
    record { unlocked = v.unlocked; sized = length-set q.pointer (suc k) 0 ∙ v.sized },
    get_or-set_self q.pointer (suc k) 0 0 (ground arith),
    other,
  )
]
  where
    other :
        (j : ℕ)
        → j ≢ suc k
        → view (some (record q { pointer = set q.pointer (suc k) 0 })) j ≡ view (some q) j
    other zero n = refl
    other (suc j) n = get_or-set_ne q.pointer (suc k) (suc j) 0 0 (λ e. n (sym e))
