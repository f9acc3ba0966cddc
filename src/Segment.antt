-- ===== src/Segment.antt =====
-- myalloc.c, in the build without threads (MTHREAD is 0) and without debugging: memory pieces in
-- segments, over the system's `malloc` and `free`. An `unsigned long` has 64 bits and wraps around.
-- The loops along the pieces of a segment run on a number of rounds; `none` is a loop that has not
-- come to its end by then.
pub mod Laws
pub mod Release
pub mod Merge
pub mod Statistics
mod Examples
use script_basic.Common.{
  long_mod, ℕ, zero, suc, ◌+◌, ◌-◌, ◌%◌, ◌^◌, Bool, true, false, not, ◌&&◌, Option, none, some, ltb,
  ◌==◌, if◌then◌else◌,
}
use script_basic.Memory.{Allocator}
use script_basic.Links.{Links, write}

-- `offsetof(struct _AllocUnit,memory)`, EXTRA_BYTE, `sizeof(AllocUnit)`, `sizeof(MyAlloc)` and
-- `sizeof(pMyAlloc)` of a 64-bit build
abbrev pub offset_of_memory : ℕ
offset_of_memory = 24

abbrev pub extra_byte : ℕ
extra_byte = 1

abbrev pub sizeof_unit : ℕ
sizeof_unit = 32

abbrev pub sizeof_my_alloc : ℕ
sizeof_my_alloc = 56

abbrev pub sizeof_pointer : ℕ
sizeof_pointer = 8

-- The global variables.
pub record Stat : Type 0 where
  pub max_net : ℕ
  pub min_net : ℕ
  pub act_net : ℕ
  pub max_bru : ℕ
  pub min_bru : ℕ
  pub act_bru : ℕ

abbrev pub init_stat : Stat
init_stat = record { max_net = 0; min_net = 0; act_net = 0; max_bru = 0; min_bru = 0; act_bru = 0 }

abbrev pub at_least : ℕ → ℕ → ℕ
at_least act max = if ltb max act then act else max

abbrev pub at_most : ℕ → ℕ → ℕ
at_most act min = if ltb act min then act else min

-- The common part of STAT_ADD and STAT_SUB.
abbrev pub stat_set : ℕ → ℕ → Stat → Stat
stat_set net bru s = record {
  max_net = at_least net s.max_net;
  min_net = at_most net s.min_net;
  act_net = net;
  max_bru = at_least bru s.max_bru;
  min_bru = at_most bru s.min_bru;
  act_bru = bru;
}

abbrev pub sub_long : ℕ → ℕ → ℕ
sub_long a b = (a + (long_mod - b % long_mod)) % long_mod

unfoldable pub stat_add : ℕ → ℕ → Stat → Stat
stat_add net bru s = stat_set ((s.act_net + net) % long_mod) ((s.act_bru + bru) % long_mod) s

unfoldable pub stat_sub : ℕ → ℕ → Stat → Stat
stat_sub net bru s = stat_set (sub_long s.act_net net) (sub_long s.act_bru bru) s

-- alloc_GlobalGetStat: what it reports, and the variables that it leaves.
unfoldable pub global_get_stat : Stat → Stat × Stat
global_get_stat s = (
  s,
  record s { max_net = s.act_net; min_net = s.act_net; max_bru = s.act_bru; min_bru = s.act_bru },
)

-- `MyAlloc`, with its own address.
pub record MyAlloc : Type 0 where
  pub self : ℕ
  pub max_size : ℕ
  pub current_size : ℕ
  pub max_net_size : ℕ
  pub min_net_size : ℕ
  pub first_unit : ℕ

unfoldable pub segment_limit : MyAlloc → ℕ → ℕ × MyAlloc
segment_limit q new_max_size = (q.max_size, record q { max_size = new_max_size })

-- alloc_GetStat: the greatest, the least and the actual size.
unfoldable pub get_stat : MyAlloc → (ℕ × ℕ × ℕ) × MyAlloc
get_stat q = (
  (q.max_net_size, q.min_net_size, q.current_size),
  record q { max_net_size = q.current_size; min_net_size = q.current_size },
)

unfoldable pub over_limit : ℕ → MyAlloc → Bool
over_limit n q = not (q.max_size == 0) && ltb q.max_size ((q.current_size + n) % long_mod)

abbrev pub grown : ℕ → ℕ → MyAlloc → MyAlloc
grown n u q =
    let current = (q.current_size + n) % long_mod in
    record q {
      current_size = current;
      max_net_size = at_least current q.max_net_size;
      first_unit = u;
    }

-- The new unit in front of the others.
unfoldable pub link_first : ℕ → ℕ → Links → Links
link_first u first l =
    let l1 : Links = record { next = write l.next u first; prev = write l.prev u 0 } in
    if first == 0 then l1 else record l1 { prev = write l1.prev first u }

-- The unit's neighbours linked to each other, and the first unit of the segment.
unfoldable pub unlink : ℕ → ℕ → Links → ℕ × Links
unlink u first l =
    let l1 : Links =
      if l.next u == 0 then l else record l { prev = write l.prev (l.next u) (l.prev u) } in
    if l1.prev u == 0
    then (l1.next u, l1)
    else (first, record l1 { next = write l1.next (l1.prev u) (l1.next u) })

abbrev pub shrunk : ℕ → ℕ → MyAlloc → MyAlloc
shrunk n first q =
    let current = sub_long q.current_size n in
    record q {
      current_size = current;
      min_net_size = at_most current q.min_net_size;
      first_unit = first;
    }

abbrev pub emptied : MyAlloc → MyAlloc
emptied q = record q { first_unit = 0; current_size = 0; min_net_size = 0 }

-- The loop of alloc_Merge: the last unit from `u` on, `q` if there is none.
unfoldable pub last_unit : ℕ → Links → ℕ → ℕ → Option ℕ
last_unit zero l u q = none
last_unit (suc rounds) l u q =
    let rest = last_unit rounds l (l.next u) u in if u == 0 then some q else rest

unfoldable pub join_links : ℕ → ℕ → ℕ → Links → Links
join_links first1 q first2 l = record {
  next = if first1 == 0 then l.next else write l.next q first2;
  prev = if first2 == 0 then l.prev else write l.prev first2 q;
}

module _ (a : Allocator) where
  open a use {Segment, alloc, free}

  -- `Size`, `next` and `prev` of the unit at each address, the system's memory, and the statistics.
  pub record Memory : Type 0 where
    pub size : ℕ → ℕ
    pub links : Links
    pub system : Segment
    pub stat : Stat

  unfoldable pub init_segment : Memory → Option MyAlloc × Memory
  init_segment m =
      let (q, system) = alloc sizeof_my_alloc m.system in
      let m' : Memory = record m { system = system; stat = stat_add 0 sizeof_my_alloc m.stat } in
      if q == 0 then (none, m') else (
        some (record {
          self = q;
          max_size = 0;
          current_size = 0;
          max_net_size = 0;
          min_net_size = 0;
          first_unit = 0;
        }),
        m',
      )

  unfoldable pub segment_alloc : ℕ → MyAlloc → Memory → ℕ × MyAlloc × Memory
  segment_alloc n q m =
      if n == 0
      then (0, q, m)
      else if over_limit n q
      then (0, q, m)
      else (let (u, system) = alloc ((n + offset_of_memory + extra_byte) % long_mod) m.system in
          if u == 0 then (0, q, record m { system = system }) else (
            u + offset_of_memory,
            grown n u q,
            record {
              size = write m.size u n;
              links = link_first u q.first_unit m.links;
              system = system;
              stat = stat_add n (n + (sizeof_unit - 1)) m.stat;
            },
          ))

  unfoldable pub release_unit : ℕ → MyAlloc → Memory → MyAlloc × Memory
  release_unit u q m =
      let (first, links) = unlink u q.first_unit m.links in
      (
        shrunk (m.size u) first q,
        record m {
          links = links;
          system = free u m.system;
          stat = stat_sub (m.size u) (m.size u + (sizeof_unit - 1)) m.stat;
        },
      )

  -- alloc_Free, of which a NULL piece is no piece.
  unfoldable pub segment_free : ℕ → MyAlloc → Memory → MyAlloc × Memory
  segment_free p q m = if p == 0 then (q, m) else release_unit (p - offset_of_memory) q m

  -- The loop of alloc_FreeSegment.
  unfoldable pub free_units : ℕ → ℕ → Memory → Option Memory
  free_units zero u m = none
  free_units (suc rounds) u m =
      let rest = free_units rounds (m.links.next u) (record m {
        system = free u m.system;
        stat = stat_sub (m.size u) (m.size u + (sizeof_unit - 1)) m.stat;
      }) in
      if u == 0 then some m else rest

  unfoldable pub free_segment : ℕ → MyAlloc → Memory → Option (MyAlloc × Memory)
  free_segment rounds q m = elim (free_units rounds q.first_unit m) [
    | none ↦ none
    | some m' ↦ some (emptied q, m')
  ]

  -- The size of a pointer is taken off the statistics, not that of the structure.
  unfoldable pub finish_segment : ℕ → MyAlloc → Memory → Option Memory
  finish_segment rounds q m = elim (free_segment rounds q m) [
    | none ↦ none
    | some (q', m') ↦
        some
          (record m' { system = free q.self m'.system; stat = stat_sub 0 sizeof_pointer m'.stat })
  ]

  unfoldable pub merge : ℕ → MyAlloc → MyAlloc → Memory → Option (MyAlloc × MyAlloc × Memory)
  merge rounds q1 q2 m = elim (last_unit rounds m.links q1.first_unit q1.first_unit) [
    | none ↦ none
    | some q ↦ some (
      record q1 {
        first_unit = if q1.first_unit == 0 then q2.first_unit else q1.first_unit;
        current_size = (q1.current_size + q2.current_size) % long_mod;
      },
      record q2 { first_unit = 0 },
      record m { links = join_links q1.first_unit q q2.first_unit m.links },
    )
  ]

  unfoldable pub merge_and_finish : ℕ → MyAlloc → MyAlloc → Memory → Option (MyAlloc × Memory)
  merge_and_finish rounds q1 q2 m = elim (merge rounds q1 q2 m) [
    | none ↦ none
    | some (q1', q2', m') ↦ elim (finish_segment rounds q2' m') [
      | none ↦ none
      | some m'' ↦ some (q1', m'')
    ]
  ]
