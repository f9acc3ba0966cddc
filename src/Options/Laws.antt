-- ===== src/Options/Laws.antt =====
-- options.c: what options_Set stores is what options_Get reads.
use script_basic.Common.{
  ℕ, ◌≡◌, ◌≢◌, ◌⊎◌, inl, inr, refl, ap, ◌∙◌, Bool-cases, Option, none, some, true, false, ◌==◌,
  if◌then◌else◌, arith,
}
use script_basic.Common.Int.{ℤ, pos}
use script_basic.Memory.{Allocator}
use script_basic.Sym.Name.{Name, to_lower, to_lower-to_lower}
use script_basic.Sym.Table.{SymbolTable, symbols, new_symbol_table}
use script_basic.Sym.Laws.{IsValid, Changed, symbols-same}
use script_basic.Sym.Lookup.{
  found, not_found, made, no_memory, dangling, lookup_symbol-LookupResult,
}
use script_basic.Sym.Fresh.{new_symbol_table-IsValid}
use script_basic.Options.Value.{put_value, put_value-Changed}
use script_basic.Options.{
  Options, sizeof_long, pointer, get_reference, get_option, store_option, set_in, set_option,
}

-- The entry of a name: none without a table.
abbrev pub entry : Option SymbolTable → Name → Option ℕ
entry none p = none
entry (some t) p = symbols t p

-- There is no table, or it is valid.
abbrev pub IsOptions : Option SymbolTable → Type 0
IsOptions none = Unit
IsOptions (some t) = IsValid t

reference_in :
    (a : Allocator) (m : Options a) (s : Name) (o : Option SymbolTable)
    → m.table ≡ o
    → IsOptions o
    → get_reference a s m ≡ some (pointer (entry o s))
unfolding get_reference
reference_in a m s none e v = rw (e, get_reference) refl
reference_in a m s (some t) e v =
    rw (e, get_reference)
      (elim (lookup_symbol-LookupResult a t v s false m.segment) [
        | found n e ↦ rw e (rw (symbols-same t (to_lower s) s (to_lower-to_lower s)) refl)
        | not_found n i e ↦ rw e (rw n refl)
        | made n i e c ↦ cc
        | no_memory n i z e ↦ cc
        | dangling n i z y e f ↦ cc
      ])

-- options_Get reads the `long` that the entry points to, 0 where there is none.
pub get_option-entry :
    (a : Allocator) (m : Options a) (s : Name)
    → IsOptions m.table
    → get_option a s m
      ≡ some (if pointer (entry m.table s) == 0 then pos 0 else m.longs (pointer (entry m.table s)))
unfolding get_option
get_option-entry a m s v = rw (reference_in a m s m.table refl v, get_option) refl

-- The option `s` has been set in an entry of its own: it is read in every spelling, and no other
-- entry and no other `long` has changed.
pub record OptionSet {a : Allocator} (s : Name) (v : ℤ) (o : Option SymbolTable) (longs : ℕ → ℤ)
    (m' : Options a) : Type 0 where
  pub valid : IsOptions m'.table
  pub address : ℕ
  pub some_address : address ≢ 0
  pub now : (p : Name) → to_lower p ≡ to_lower s → entry m'.table p ≡ some address
  pub others : (p : Name) → to_lower p ≢ to_lower s → entry m'.table p ≡ entry o p
  pub stored : m'.longs address ≡ v
  pub kept : (c : ℕ) → c ≢ address → m'.longs c ≡ longs c

-- The two ends of options_Set: 1 for a lack of memory, or the option is set.
abbrev pub SetResult :
    {a : Allocator} → Name → ℤ → Option SymbolTable → (ℕ → ℤ) → Option (ℕ × Options a) → Type 0
SetResult s v o longs none = ⊥
SetResult s v o longs (some (code, m')) = (code ≡ 1) ⊎ (code ≡ 0) × OptionSet s v o longs m'

some-pointer : (o : Option ℕ) → o ≢ none → o ≡ some (pointer o)
some-pointer none n = absurd (n refl)
some-pointer (some p) n = refl

store_option-SetResult :
    (a : Allocator) (s : Name) (v : ℤ) (t : SymbolTable) (longs : ℕ → ℤ) (seg : a.Segment)
    → IsValid t
    → symbols t s ≢ none
    → SetResult s v (some t) longs (some (store_option a (to_lower s) v t longs seg))
unfolding store_option
store_option-SetResult a s v t longs seg valid n =
    let same : symbols t (to_lower s) ≡ symbols t s =
      symbols-same t (to_lower s) s (to_lower-to_lower s) in
    let q : ℕ = (a.alloc sizeof_long seg).0 in
    rw same (elim (Bool-cases (pointer (symbols t s) == 0)) [
      | inr e ↦ rw e (
          inr (
            refl,
            record {
              valid = valid;
              address = pointer (symbols t s);
              some_address = λ z. ground arith;
              now = λ p d. symbols-same t p s d ∙ some-pointer (symbols t s) n;
              others = λ p d. refl;
              stored = ground arith;
              kept = λ c d. ground arith;
            },
          ))
      | inl e ↦ rw e (elim (Bool-cases (q == 0)) [
        | inl z ↦ rw z (inl refl)
        | inr z ↦
            let c : Changed t (put_value (to_lower s) q t) s (some q) =
              put_value-Changed t s q valid n in
            rw z (
              inr (
                refl,
                record {
                  valid = c.valid;
                  address = q;
                  some_address = λ y. ground arith;
                  now = c.now;
                  others = c.others;
                  stored = ground arith;
                  kept = λ x d. ground arith;
                },
              ))
      ])
    ])

-- The table that was there before the symbol was made.
SetResult-before :
    (a : Allocator) (s : Name) (v : ℤ) (o o' : Option SymbolTable) (longs : ℕ → ℤ)
    (r : Option (ℕ × Options a))
    → ((p : Name) → to_lower p ≢ to_lower s → entry o' p ≡ entry o p)
    → SetResult s v o' longs r
    → SetResult s v o longs r
SetResult-before a s v o o' longs none h r = r
SetResult-before a s v o o' longs (some (code, m')) h (inl e) = inl e
SetResult-before a s v o o' longs (some (code, m')) h (inr (e, r)) = inr (
  e,
  record {
    valid = r.valid;
    address = r.address;
    some_address = r.some_address;
    now = r.now;
    others = λ p d. r.others p d ∙ h p d;
    stored = r.stored;
    kept = r.kept;
  },
)

set_in-SetResult :
    (a : Allocator) (s : Name) (v : ℤ) (t : SymbolTable) (m : Options a)
    → IsValid t
    → SetResult s v (some t) m.longs (set_in a s v t m)
unfolding set_in
set_in-SetResult a s v t m valid = elim (lookup_symbol-LookupResult a t valid s true m.segment) [
  | found n e ↦ rw (e, set_in) (store_option-SetResult a s v t m.longs m.segment valid n)
  | not_found n i e ↦ cc
  | made {t'} {m'} n i e c ↦
      rw (e, set_in)
        (SetResult-before a s v (some t) (some t') m.longs
          (some (store_option a (to_lower s) v t' m.longs m')) c.others
          (store_option-SetResult a s v t' m.longs m' c.valid (λ q. ground (arith, c.now s))))
  | no_memory n i z e ↦ rw (e, set_in) (inl refl)
  | dangling n i z y e f ↦ rw (e, set_in) (inl refl)
]

-- options_Set on no table or on a valid one returns 1, or 0 with the option set.
pub set_option-SetResult :
    (a : Allocator) (s : Name) (v : ℤ) (m : Options a)
    → IsOptions m.table
    → SetResult s v m.table m.longs (set_option a s v m)
unfolding set_option
set_option-SetResult a s v m valid = go m.table refl valid
  where
    with_segment : Options a
    with_segment = record m { segment = (new_symbol_table a m.segment).1 }

    go :
        (o : Option SymbolTable)
        → m.table ≡ o
        → IsOptions o
        → SetResult s v o m.longs (set_option a s v m)
    go (some t) e w = rw (e, set_option) (set_in-SetResult a s v t m w)
    go none e w =
        rw (e, set_option)
          (elim (new_symbol_table-IsValid a m.segment) [
            | inl (z, f) ↦ rw f (inl refl)
            | inr (t, f, w', h) ↦ rw f (
                SetResult-before a s v none (some t) m.longs (set_in a s v t (with_segment))
                  (λ p d. h p) (set_in-SetResult a s v t with_segment w'))
          ])

get_option_set :
    (a : Allocator) (s : Name) (v : ℤ) (o : Option SymbolTable) (longs : ℕ → ℤ) (m' : Options a)
    → OptionSet s v o longs m'
    → (p : Name) → to_lower p ≡ to_lower s
    → get_option a p m' ≡ some v
get_option_set a s v o longs m' r p e =
    let some_address : (r.address == 0) ≡ false = ground (arith, r.some_address) in
    get_option-entry a m' p r.valid ∙ rw (r.now p e) (rw some_address (ap some r.stored))

-- What options_Set returns, and what options_Get reads after it.
abbrev pub SetRead :
    {a : Allocator} → Name → ℤ → Option SymbolTable → (ℕ → ℤ) → Option (ℕ × Options a) → Type 0
SetRead s v o longs none = ⊥
SetRead {a} s v o longs (some (code, m')) =
    (code ≡ 1)
    ⊎ (code ≡ 0)
      × OptionSet s v o longs m'
      × ((p : Name) → to_lower p ≡ to_lower s → get_option a p m' ≡ some v)

read_after :
    (a : Allocator) (s : Name) (v : ℤ) (o : Option SymbolTable) (longs : ℕ → ℤ)
    (r : Option (ℕ × Options a))
    → SetResult s v o longs r
    → SetRead s v o longs r
read_after a s v o longs none r = r
read_after a s v o longs (some (code, m')) (inl e) = inl e
read_after a s v o longs (some (code, m')) (inr (e, r)) =
    inr (e, r, get_option_set a s v o longs m' r)

-- Without an option table or with a valid one, options_Set returns 1, or it returns 0 with a valid
-- table in which the option's entry, in every spelling, is a pointer that is not NULL, with no other
-- entry changed and no `long` but the one that this entry points to; options_Get then returns the
-- value that was set, in every spelling of the name.
pub get_option-set_option :
    (a : Allocator) (s : Name) (v : ℤ) (m : Options a)
    → IsOptions m.table
    → SetRead s v m.table m.longs (set_option a s v m)
get_option-set_option a s v m valid =
    read_after a s v m.table m.longs (set_option a s v m) (set_option-SetResult a s v m valid)
