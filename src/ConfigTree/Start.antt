-- ===== src/ConfigTree/Start.antt =====
-- conftree.c: cft_init, cft_GetConfigFileName (as it is on UNIX) and cft_start, and a program that
-- starts with a compiled configuration and asks for a string.
use script_basic.Common.{
  ℕ, suc, ◌<◌, ◌≡◌, ◌≢◌, refl, sym, ◌∙◌, Option, none, some, true, List, [], length, ltb, ◌==◌,
  if◌then◌else◌, arith,
}
use script_basic.Memory.{Allocator}
use script_basic.ConfigTree.{ConfigNode, ConfigTree, string_at}
use script_basic.ConfigTree.Text.{IsPart}
use script_basic.ConfigTree.Forest.{
  Value, string, long, real, untyped, Forest, empty, branch, leaf, find, size, spelled, ArePlain,
  HasNode, HasValue, Stands, StandsFor,
}
use script_basic.ConfigTree.Value.{get_string, get_string-string_of, string_of}
use script_basic.ConfigTree.File.{error_memory, read_config}
use script_basic.ConfigTree.Written.{IsStored, image}
use script_basic.ConfigTree.RoundTrip.{root_of, strings_of, loaded, read_config-image}

-- The separator that cft_init sets
abbrev pub dot : ℕ
dot = 46

-- The fields that it does not set keep what the memory has.
unfoldable pub init_config : ConfigTree → ConfigTree
init_config t = record t { root = 0; nodes = []; separator = dot }

module _ (a : Allocator) where
  open a use {Segment, alloc}

  -- `*ppszConfigFile = ALLOC(strlen(s)+1)` and the copy: the code, and the name if there is memory.
  unfoldable pub copy_name : List ℕ → Segment → ℕ × Option (List ℕ) × Segment
  copy_name s seg =
      let (p, seg') = alloc (suc (length s)) seg in
      if p == 0 then (error_memory, none, seg') else (0, some s, seg')

  -- The first argument is what `getenv` gives.
  unfoldable pub get_config_file_name :
      Option (List ℕ) → List ℕ → Segment → ℕ × Option (List ℕ) × Segment
  get_config_file_name none default_name seg = copy_name default_name seg
  get_config_file_name (some s) default_name seg = copy_name s seg

  -- The end of cft_start: the name is kept, and the file read. A file is what `fopen` finds.
  unfoldable pub start_with :
      (List ℕ → Option (List ℕ)) → List ℕ → ConfigTree → Segment → ℕ × ConfigTree × Segment
  start_with open_file name t seg =
      let kept = copy_name name seg in
      if ltb 0 (length name)
      then read_config a (open_file name) (record t { file_name = kept.1 }) kept.2
      else read_config a (open_file name) (record t { file_name = none }) seg

  unfoldable pub start_config :
      (List ℕ → Option (List ℕ))
      → Option (List ℕ)
      → List ℕ
      → Option (List ℕ)
      → ConfigTree
      → Segment
      → ℕ × ConfigTree × Segment
  start_config open_file env default_name (some forced) t seg =
      start_with open_file forced (init_config t) seg
  start_config open_file env default_name none t seg =
      let (code, found, seg') = get_config_file_name env default_name seg in
      elim found [
        | none ↦ (code, init_config t, seg')
        | some name ↦ start_with open_file name (init_config t) seg'
      ]

-- The same nodes, text and separator stand for the same levels.
module _ (t t' : ConfigTree) (nodes : t'.nodes ≡ t.nodes) (text : t'.text ≡ t.text)
    (separator : t'.separator ≡ t.separator) where
  strings-same : (k : ℕ) → string_at (some t') k ≡ string_at (some t) k
  unfolding string_at
  strings-same k = rw text refl

  HasNode-same : (i : ℕ) (w : List ℕ) (n : ConfigNode) → HasNode t i w n → HasNode t' i w n
  HasNode-same i w n (nz, at, reads) =
      (nz, rw nodes at, rw (strings-same n.key) (rw separator reads))

  HasValue-same : (n : ConfigNode) (v : Value) → HasValue t n v → HasValue t' n v
  HasValue-same n (string s) h = (h.0, strings-same n.val ∙ h.1)
  HasValue-same n (long v) h = h
  HasValue-same n (real w) h = h
  HasValue-same n untyped h = h

  Stands-same : (i : ℕ) (f : Forest) → Stands t i f → Stands t' i f
  Stands-same i empty s = s
  Stands-same i (branch j w c r) (e, (n, h, b, below, after)) =
      (e, (n, HasNode-same i w n h, b, Stands-same n.val c below, Stands-same n.next r after))
  Stands-same i (leaf j w v r) (e, (n, h, b, hv, after)) =
      (e, (n, HasNode-same i w n h, b, HasValue-same n v hv, Stands-same n.next r after))

module _ (a : Allocator) where
  open a use {Segment}

  -- The segment when the file is read: with the memory of the name taken.
  abbrev pub after_name : List ℕ → Segment → Segment
  after_name name seg = (copy_name a name seg).2

  -- When the forced file, whose name is not empty, holds what cft_WriteConfig writes for a stored
  -- configuration with the separator `.` that stands for a tree of keys, and the allocations of the
  -- two tables succeed, cft_start returns 0, and then cft_GetString for a path of plain names gives
  -- the string of the item that the path leads to in the tree, or NULL where that is no string; fuel
  -- above the size of the tree is enough.
  pub start_config-get_string :
      (open_file : List ℕ → Option (List ℕ)) (env : Option (List ℕ)) (default_name name : List ℕ)
      (t old : ConfigTree) (seg : Segment) (f : Forest) (fuel : ℕ) (p : List ℕ) (ps : List (List ℕ))
      → open_file name ≡ some (image t)
      → 0 < length name
      → IsStored t
      → t.separator ≡ dot
      → Stands t 1 f
      → (root_of a t (after_name name seg)).0 ≢ 0
      → (strings_of a t (after_name name seg)).0 ≢ 0
      → IsPart dot p
      → ArePlain dot ps
      → size f < fuel
      → ((start_config a open_file env default_name (some name) old seg).0 ≡ 0)
        × (get_string fuel
              (some (start_config a open_file env default_name (some name) old seg).1)
              (spelled dot p ps)
            ≡ some (string_of (find p ps f)))
  unfolding start_config start_with init_config
  start_config-get_string open_file env default_name name t old seg f fuel p ps o l s d st h k hp
        hps lt =
      let named : ltb 0 (length name) ≡ true = ground (arith, l) in
      let seg' = after_name name seg in
      let before : ConfigTree = record (init_config old) { file_name = (copy_name a name seg).1 } in
      let t' = loaded t before (root_of a t seg').0 (strings_of a t seg').0 in
      let stands : StandsFor t' f = record {
        read = h;
        separates = λ e. absurd (omega (arith, e));
        levels = Stands-same t t' refl refl (sym d) 1 f st;
      } in
      rw named (
        rw o (
          rw (read_config-image a t before seg' s h k)
            (refl, get_string-string_of fuel t' f p ps stands hp hps lt)))
