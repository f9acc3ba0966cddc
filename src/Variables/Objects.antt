-- ===== src/Variables/Objects.antt =====
-- memory.c: the records of variables, the registered sizes, and memory_NewVariable with the functions
-- on top of it.
use script_basic.Common.{
  ℕ, ◌+◌, ◌-◌, Bool, true, false, not, Option, none, some, List, ltb, leb, ◌==◌, if◌then◌else◌,
}
use script_basic.Common.Int.{ℤ, pos, pos_part, neg_part}
use script_basic.Memory.{Allocator}
use script_basic.Links.{Links, write}

-- FIX_TYPE_LONG and so on, LARGE_BLOCK_TYPE, MAX_NUMBER_OF_FIX_TYPES
abbrev pub fix_type_long : ℕ
fix_type_long = 0

abbrev pub fix_type_double : ℕ
fix_type_double = 1

abbrev pub fix_type_cstring : ℕ
fix_type_cstring = 2

abbrev pub max_fix_type : ℕ
max_fix_type = 3

abbrev pub fix_type_alloc : ℕ
fix_type_alloc = fix_type_long

abbrev pub max_number_of_fix_types : ℕ
max_number_of_fix_types = 254

abbrev pub large_block_type : ℕ
large_block_type = 255

-- STATE_UNKNOWN and so on
pub data State : Type 0 where
  unknown freed mortal immortal : State

-- VTYPE_LONG and so on; `unset` is the byte of a record that no function has set yet.
pub data VType : Type 0 where
  long double string array ref undef unset : VType

-- `FixSizeMemoryObject` without its two links. `value` is the union: a number, or an address.
pub record Object : Type 0 where
  pub value : ℕ
  pub size : ℕ
  pub s_type : ℕ
  pub v_type : VType
  pub state : State
  pub low : ℤ
  pub high : ℤ

-- `sizeof(FixSizeMemoryObject)` and `sizeof(void *)` of a 64-bit build
abbrev pub sizeof_object : ℕ
sizeof_object = 56

abbrev pub sizeof_slot : ℕ
sizeof_slot = 8

module _ {A : Type 0} where
  abbrev pub put_at : (ℕ → A) → ℕ → A → ℕ → A
  put_at f p v c = if p == c then v else f c

-- The type as the BYTE that it is stored in: -1 is 255.
abbrev pub byte_of : Option ℕ → ℕ
byte_of none = 255
byte_of (some t) = t

-- The list of free variables that a type is kept in.
abbrev pub list_of : ℕ → ℕ
list_of type = if ltb type max_fix_type then fix_type_alloc else type

abbrev pub large_object : ℕ → Object → Object
large_object size o = record o {
  s_type = large_block_type;
  state = unknown;
  low = pos 1;
  high = pos 0;
  size = size;
}

abbrev pub fixed_object : ℕ → Object → Object
fixed_object type o = record o { s_type = type; state = unknown }

-- The first variable of a free list leaves it.
unfoldable pub unlink_free : ℕ → Links → Links
unlink_free p l =
    let first = l.next p in
    record {
      next = write l.next p 0;
      prev = write (if first == 0 then l.prev else write l.prev first 0) p 0;
    }

-- The places from the low to the high limit of an array, and the number of one of them.
abbrev pub places : ℤ → ℤ → ℕ
places low high = pos_part high + neg_part low + 1 - (pos_part low + neg_part high)

abbrev pub offset : ℤ → ℤ → ℕ
offset low i = pos_part i + neg_part low - (pos_part low + neg_part i)

module _ (a : Allocator) where
  open a use {Segment, alloc, free}

  -- `MemoryObject`, and the memory that its pointers lead to: the records and their links, the
  -- pointers to variables that stand in arrays and elsewhere, and the bytes of strings.
  pub record Variables : Type 0 where
    pub size_of_type : ℕ → ℕ
    pub number_of_types : ℕ
    pub first_string : ℕ
    pub last_string : ℕ
    pub free_list : ℕ → ℕ
    pub object : ℕ → Object
    pub links : Links
    pub slot : ℕ → ℕ
    pub bytes : ℕ → List ℕ
    pub segment : Segment

  -- memory_InitStructure, with the segment that alloc_InitSegment gives; `false` is
  -- MEM_ERROR_MEMORY_LOW, after which there is no segment.
  unfoldable pub init_structure : Option Segment → Variables → Bool × Variables
  init_structure s m =
      let m1 : Variables = record m {
        size_of_type = λ t. 0;
        free_list = λ t. 0;
        number_of_types = max_fix_type;
      } in
      elim s [ none ↦ (false, m1) | some segment ↦ (true, record m1 { segment = segment }) ]

  -- memory_RegisterType: the type, `none` for -1.
  unfoldable pub register_type : ℕ → Variables → Option ℕ × Variables
  register_type size m = if leb max_number_of_fix_types m.number_of_types then (none, m) else (
    some m.number_of_types,
    record m {
      size_of_type = put_at m.size_of_type m.number_of_types size;
      number_of_types = m.number_of_types + 1;
    },
  )

  unfoldable pub register_types : Variables → Variables
  register_types m =
      let (first, m1) = register_type 32 m in
      let m2 : Variables = (register_type 64 (record m1 { first_string = byte_of first })).1 in
      let m3 : Variables = (register_type 128 m2).1 in
      let m4 : Variables = (register_type 256 m3).1 in
      let m5 : Variables = (register_type 512 m4).1 in
      let (last, m6) = register_type 1024 m5 in record m6 { last_string = byte_of last }

  abbrev pub set_object : ℕ → (Object → Object) → Variables → Variables
  set_object p f m = record m { object = put_at m.object p (f (m.object p)) }

  -- `p->next = p->link.prev = NULL`
  abbrev pub no_links : ℕ → Variables → Variables
  no_links p m = record m {
    links = record { next = write m.links.next p 0; prev = write m.links.prev p 0 };
  }

  -- A record from the segment, and `size` bytes for its value unless it asks for none.
  unfoldable pub fresh_variable : (Object → Object) → Bool → ℕ → Variables → ℕ × Variables
  fresh_variable f with_block size m =
      let (p, s1) = alloc sizeof_object m.segment in
      let m1 = no_links p (set_object p f (record m { segment = s1 })) in
      let (block, s2) = alloc size s1 in
      if p == 0
      then (0, record m { segment = s1 })
      else if with_block
      then (if block == 0
          then (0, record m1 { segment = free p s2 })
          else (p, set_object p (λ o. record o { value = block }) (record m1 { segment = s2 })))
      else (p, set_object p (λ o. record o { value = 0 }) m1)

  -- The first variable of the free list.
  unfoldable pub reuse_variable : ℕ → ℕ → Variables → ℕ × Variables
  reuse_variable type list m =
      let p = m.free_list list in
      (
        p,
        set_object p (λ o. record o { s_type = type; low = pos 1; high = pos 0; state = unknown })
            (record m {
              free_list = put_at m.free_list list (m.links.next p);
              links = unlink_free p m.links;
            }),
      )

  unfoldable pub new_variable : ℕ → ℕ → Variables → ℕ × Variables
  new_variable type large_block_size m =
      if type == large_block_type
      then fresh_variable (large_object large_block_size) true large_block_size m
      else if leb max_number_of_fix_types type
      then (0, m)
      else if m.free_list (list_of type) == 0
      then fresh_variable (fixed_object type) (not (m.size_of_type type == 0)) (m.size_of_type type)
          m
      else reuse_variable type (list_of type) m
