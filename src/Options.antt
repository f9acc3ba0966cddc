-- ===== src/Options.antt =====
-- options.c: the options of a program, a symbol table of pointers to `long` values.
-- `none` as the result of an operation means that the code reads memory that was given back.
pub mod Value
pub mod Laws
mod Examples
use script_basic.Common.{ℕ, Option, none, some, true, false, ◌==◌, if◌then◌else◌}
use script_basic.Common.Int.{ℤ, pos}
use script_basic.Memory.{Allocator}
use script_basic.Sym.Name.{Name}
use script_basic.Sym.Table.{SymbolTable, symbols, new_symbol_table, lookup_symbol}
use script_basic.Options.Value.{put_value}

-- `sizeof(long)` of a 64-bit build
abbrev pub sizeof_long : ℕ
sizeof_long = 8

-- The pointer that stands under a name of the table, NULL where there is none.
abbrev pub pointer : Option ℕ → ℕ
pointer none = 0
pointer (some p) = p

module _ (a : Allocator) where
  open a use {Segment, alloc, free}

  -- OptionsTable, the `long` at each address, and the segment.
  pub record Options : Type 0 where
    pub table : Option SymbolTable
    pub longs : ℕ → ℤ
    pub segment : Segment

  unfoldable pub get_reference : Name → Options → Option ℕ
  get_reference s m = elim m.table [
    | none ↦ some 0
    | some t ↦ elim (lookup_symbol a s t false m.segment) [
      | none ↦ none
      | some (none, t', seg) ↦ some 0
      | some (some n, t', seg) ↦ some (pointer (symbols t' n))
    ]
  ]

  unfoldable pub get_option : Name → Options → Option ℤ
  get_option s m = elim (get_reference s m) [
    | none ↦ none
    | some p ↦ some (if p == 0 then pos 0 else m.longs p)
  ]

  unfoldable pub reset_option : Name → Options → Option Options
  reset_option s m = elim m.table [
    | none ↦ some m
    | some t ↦ elim (lookup_symbol a s t false m.segment) [
      | none ↦ none
      | some (none, t', seg) ↦ some m
      | some (some n, t', seg) ↦
          let p = pointer (symbols t' n) in
          some (
            if p == 0
            then m
            else record m { table = some (put_value n 0 t'); segment = free p m.segment })
    ]
  ]

  -- The value is stored at the pointer of a symbol, for which there is memory first.
  unfoldable pub store_option : Name → ℤ → SymbolTable → (ℕ → ℤ) → Segment → ℕ × Options
  store_option n v t longs seg =
      let p = pointer (symbols t n) in
      let (q, seg') = alloc sizeof_long seg in
      let write = λ (at : ℕ) (c : ℕ). if at == c then v else longs c in
      if p == 0
      then (if q == 0
          then (1, record { table = some (put_value n 0 t); longs = longs; segment = seg' })
          else (0, record { table = some (put_value n q t); longs = write q; segment = seg' }))
      else (0, record { table = some t; longs = write p; segment = seg })

  unfoldable pub set_in : Name → ℤ → SymbolTable → Options → Option (ℕ × Options)
  set_in s v t m = elim (lookup_symbol a s t true m.segment) [
    | none ↦ none
    | some (none, t', seg) ↦ some (1, record m { table = some t'; segment = seg })
    | some (some n, t', seg) ↦ some (store_option n v t' m.longs seg)
  ]

  unfoldable pub set_option : Name → ℤ → Options → Option (ℕ × Options)
  set_option s v m =
      let (fresh, seg) = new_symbol_table a m.segment in
      elim m.table [
        | some t ↦ set_in s v t m
        | none ↦ elim fresh [
          | none ↦ some (1, record m { segment = seg })
          | some t ↦ set_in s v t (record m { segment = seg })
        ]
      ]
