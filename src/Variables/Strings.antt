-- ===== src/Variables/Strings.antt =====
-- memory_NewString: the type of the variable that a string is put in.
use script_basic.Common.{
  ℕ, zero, suc, ◌+◌, ◌-◌, ◌*◌, ◌^◌, ◌≤◌, ◌<◌, ◌≡◌, ◌≢◌, refl, ap, ◌⊎◌, inl, inr, Bool-cases, Option,
  none, some, leb, arith,
}
use mathlib.Core.Path.{subst}
use native.Mathlib.Decide.{ℕ_discrete}
use script_basic.Memory.{Allocator}
use script_basic.Variables.Objects.{
  string, Variables, large_block_type, fresh_variable, reuse_variable, new_variable,
}
use script_basic.Variables.Create.{string_type, new_string}
use script_basic.Variables.Registered.{HasStrings}

-- The least of these types whose size is enough, or none.
abbrev pub Least : (ℕ → ℕ) → ℕ → ℕ → ℕ → Option ℕ → Type 0
Least size_of_type size from to none = (j : ℕ) → from ≤ j → j < to → size_of_type j < size
Least size_of_type size from to (some t) =
    (from ≤ t)
    × (t < to)
    × (size ≤ size_of_type t)
    × ((j : ℕ) → from ≤ j → j < t → size_of_type j < size)

Least-suc :
    (f : ℕ → ℕ) (size i rounds : ℕ) (r : Option ℕ)
    → f i < size
    → Least f size (i + 1) (i + 1 + rounds) r
    → Least f size i (i + suc rounds) r
Least-suc f size i rounds none h l = λ j p q. elim (ℕ_discrete i j) [
  | yes e ↦ omega (arith, ap f e)
  | no e ↦ l j (omega arith) (omega arith)
]
Least-suc f size i rounds (some t) h (p, q, g, l) = (
  omega arith,
  omega arith,
  g,
  λ j p' q'. elim (ℕ_discrete i j) [ yes e ↦ omega (arith, ap f e) | no e ↦ l j (omega arith) q' ],
)

pub string_type-Least :
    (size_of_type : ℕ → ℕ) (size rounds i : ℕ)
    → Least size_of_type size i (i + rounds) (string_type size_of_type size rounds i)
unfolding string_type
string_type-Least f size zero i = λ j h g. absurd (omega arith)
string_type-Least f size (suc rounds) i = elim (Bool-cases (leb size (f i))) [
  | inl e ↦ rw e (omega arith, omega arith, ground arith, λ j p q. absurd (omega arith))
  | inr e ↦ rw e (
      Least-suc f size i rounds (string_type f size rounds (i + 1)) (ground arith)
        (string_type-Least f size rounds (i + 1)))
]

pub new_variable_type :
    (a : Allocator) (type size : ℕ) (m : Variables a)
    → (new_variable a type size m).0 ≢ 0
    → ((new_variable a type size m).1.object (new_variable a type size m).0).s_type ≡ type
unfolding new_variable fresh_variable reuse_variable
new_variable_type a type size m h = ground arith

new_large_size :
    (a : Allocator) (size : ℕ) (m : Variables a)
    → (new_variable a large_block_type size m).0 ≢ 0
    → ((new_variable a large_block_type size m).1.object
        (new_variable a large_block_type size m).0).size
      ≡ size
unfolding new_variable fresh_variable
new_large_size a size m h = ground arith

-- A string of this size is in the least of the six string types that has room for it, or in a large
-- block if none has.
abbrev pub Placed : ℕ → ℕ → ℕ → Type 0
Placed n size s_type =
    (s_type ≡ large_block_type) × (1024 < size)
    ⊎ ((k : ℕ) × (k < 6)
        × (s_type ≡ n + k)
        × (size ≤ 32 * 2 ^ k)
        × ((j : ℕ) → j < k → 32 * 2 ^ j < size))

pub record StringResult {a : Allocator} (n size : ℕ) (r : ℕ × Variables a) : Type 0 where
  pub v_type : (r.1.object r.0).v_type ≡ string
  pub length : (r.1.object r.0).size ≡ size
  pub place : Placed n size (r.1.object r.0).s_type

module _ (a : Allocator) (m : Variables a) (n size : ℕ) (s : HasStrings m n) where
  string_class :
      Least m.size_of_type size n
        (n + 6)
        (string_type m.size_of_type size (m.last_string + 1 - m.first_string) m.first_string)
  string_class =
      let rounds : m.last_string + 1 - m.first_string ≡ 6 = omega (arith, s.first, s.last) in
      rw (rounds, s.first) (string_type-Least m.size_of_type size 6 n)

  placed : (t : ℕ) → Least m.size_of_type size n (n + 6) (some t) → Placed n size t
  placed t (p, q, g, l) =
      let offset : t ≡ n + (t - n) = omega arith in
      inr (
        t - n,
        omega arith,
        offset,
        omega (arith, g, ap m.size_of_type offset, s.sizes (t - n) (omega arith)),
        λ j h. omega (arith, l (n + j) (omega arith) (omega arith), s.sizes j (omega arith)),
      )

  new_string_in :
      (c : Option ℕ)
      → string_type m.size_of_type size (m.last_string + 1 - m.first_string) m.first_string ≡ c
      → Least m.size_of_type size n (n + 6) c
      → (new_string a size m).0 ≢ 0
      → StringResult n size (new_string a size m)
  unfolding new_string
  new_string_in none e l =
      rw (e, new_string)
        (λ z.
          let got : (new_variable a large_block_type size m).0 ≢ 0 = ground (arith, z) in
          record {
            v_type = ground arith;
            length = ground (arith, new_large_size a size m);
            place = inl (
              ground (arith, new_variable_type a large_block_type size m),
              omega (arith, l (n + 5) (omega arith) (omega arith), s.sizes 5 (omega arith)),
            );
          })
  new_string_in (some t) e l =
      rw (e, new_string)
        (λ z.
          let got : (new_variable a t 0 m).0 ≢ 0 = ground (arith, z) in
          record {
            v_type = ground arith;
            length = ground arith;
            place =
                subst (λ x. Placed n size x) (ground (arith, new_variable_type a t 0 m))
                  (placed t l);
          })

  -- Where the string types are the six that memory_RegisterTypes registers, and unless
  -- memory_NewString returns NULL, the new variable is a string of this length, in the least of the
  -- types of 32, 64, 128, 256, 512 and 1024 bytes that has room for it, or in a large block, which
  -- happens beyond 1024 bytes only.
  pub new_string-StringResult :
      (new_string a size m).0 ≢ 0 → StringResult n size (new_string a size m)
  new_string-StringResult =
      new_string_in
        (string_type m.size_of_type size (m.last_string + 1 - m.first_string) m.first_string) refl
        string_class
