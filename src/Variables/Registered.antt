-- ===== src/Variables/Registered.antt =====
-- memory_InitStructure and memory_RegisterTypes: the types of strings.
use script_basic.Common.{
  ℕ, zero, suc, ◌+◌, ◌*◌, ◌^◌, ◌≤◌, ◌<◌, ◌≡◌, refl, true, false, some, [], leb, arith,
}
use script_basic.Memory.{Allocator}
use script_basic.Variables.Lists.{IsFree}
use script_basic.Variables.Objects.{
  max_fix_type, init_structure, Variables, max_number_of_fix_types, put_at, register_type,
  register_types,
}

abbrev added : (a : Allocator) → ℕ → Variables a → Variables a
added a size m = record m {
  size_of_type = put_at m.size_of_type m.number_of_types size;
  number_of_types = m.number_of_types + 1;
}

register_type_lem :
    (a : Allocator) (size : ℕ) (m : Variables a)
    → m.number_of_types < max_number_of_fix_types
    → register_type a size m ≡ (some m.number_of_types, added a size m)
unfolding register_type
register_type_lem a size m h =
    let room : leb max_number_of_fix_types m.number_of_types ≡ false = ground arith in rw room refl

-- The six string types that are registered, each twice as large as the one before it.
abbrev six_types : (a : Allocator) → Variables a → Variables a
six_types a m =
    let n = m.number_of_types in
    record m {
      size_of_type =
          put_at
            (put_at
              (put_at (put_at (put_at (put_at m.size_of_type n 32) (n + 1) 64) (n + 1 + 1) 128)
                (n + 1 + 1 + 1) 256)
              (n + 1 + 1 + 1 + 1) 512)
            (n + 1 + 1 + 1 + 1 + 1) 1024;
      number_of_types = n + 1 + 1 + 1 + 1 + 1 + 1;
      first_string = n;
      last_string = n + 1 + 1 + 1 + 1 + 1;
    }

register_types_lem :
    (a : Allocator) (m : Variables a)
    → m.number_of_types + 6 ≤ max_number_of_fix_types
    → register_types a m ≡ six_types a m
unfolding register_types
register_types_lem a m h =
    let m2 : Variables a = record (added a 32 m) { first_string = m.number_of_types } in
    let m3 : Variables a = added a 64 m2 in
    let m4 : Variables a = added a 128 m3 in
    let m5 : Variables a = added a 256 m4 in
    let m6 : Variables a = added a 512 m5 in
    rw
      (
        register_type_lem a 32 m (omega arith),
        register_type_lem a 64 m2 (omega arith),
        register_type_lem a 128 m3 (omega arith),
        register_type_lem a 256 m4 (omega arith),
        register_type_lem a 512 m5 (omega arith),
        register_type_lem a 1024 m6 (omega arith),
      )
      refl

six_sizes :
    (f : ℕ → ℕ) (n k : ℕ)
    → k < 6
    → put_at
        (put_at
          (put_at (put_at (put_at (put_at f n 32) (n + 1) 64) (n + 1 + 1) 128) (n + 1 + 1 + 1) 256)
          (n + 1 + 1 + 1 + 1)
          512)
        (n + 1 + 1 + 1 + 1 + 1)
        1024
        (n + k)
      ≡ 32 * 2 ^ k
six_sizes f n zero l = ground arith
six_sizes f n (suc zero) l = ground arith
six_sizes f n (suc (suc zero)) l = ground arith
six_sizes f n (suc (suc (suc zero))) l = ground arith
six_sizes f n (suc (suc (suc (suc zero)))) l = ground arith
six_sizes f n (suc (suc (suc (suc (suc zero))))) l = ground arith
six_sizes f n (suc (suc (suc (suc (suc (suc k)))))) l = absurd (omega arith)

-- The string types are these six, from number `n` on.
pub record HasStrings {a : Allocator} (m : Variables a) (n : ℕ) : Type 0 where
  pub room : n + 6 ≤ max_number_of_fix_types
  pub first : m.first_string ≡ n
  pub last : m.last_string ≡ n + 5
  pub sizes : (k : ℕ) → k < 6 → m.size_of_type (n + k) ≡ 32 * 2 ^ k

pub register_types-HasStrings :
    (a : Allocator) (m : Variables a)
    → m.number_of_types + 6 ≤ max_number_of_fix_types
    → HasStrings (register_types a m) m.number_of_types
register_types-HasStrings a m h = rw (register_types_lem a m h) (record {
  room = h;
  first = refl;
  last = omega arith;
  sizes = six_sizes m.size_of_type m.number_of_types;
})

-- A structure that has been set up: no variable is free, and there are the six string types.
pub record Initial {a : Allocator} (m : Variables a) : Type 0 where
  pub free_lists : IsFree m (λ i. [])
  pub strings : HasStrings m max_fix_type

-- With a segment, memory_InitStructure succeeds, and memory_RegisterTypes after it leaves all free
-- lists empty, with six string types from number 3 on, of 32 bytes and each twice as large as the
-- one before it.
pub register_types-init_structure :
    (a : Allocator) (s : a.Segment) (m : Variables a)
    → ((init_structure a (some s) m).0 ≡ true)
      × Initial (register_types a (init_structure a (some s) m).1)
unfolding init_structure
register_types-init_structure a s m = (
  refl,
  rw (register_types_lem a (init_structure a (some s) m).1 (omega arith)) (record {
    free_lists = record { chain = λ i. refl; state = λ i c h. cc; list = λ i c h. cc };
    strings = record {
      room = omega arith;
      first = refl;
      last = refl;
      sizes = six_sizes (λ t. 0) 3;
    };
  }),
)
