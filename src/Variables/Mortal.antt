-- ===== src/Variables/Mortal.antt =====
-- memory.c: the mortal variables, which are released together when an expression has been evaluated.
-- A pointer to a mortal list is `none` where it is NULL, and else the list's first variable.
use script_basic.Common.{ℕ, zero, suc, Option, none, some, ◌==◌, if◌then◌else◌}
use script_basic.Memory.{Allocator}
use script_basic.Links.{Links, write}
use script_basic.Variables.Objects.{mortal, immortal, Variables, set_object, new_variable}
use script_basic.Variables.Create.{new_string, new_cstring, new_long, new_double, new_ref}
use script_basic.Variables.Release.{is_immortal, release_variable}

unfoldable pub link_mortal : ℕ → ℕ → Links → Links
link_mortal p first l = record {
  next = write l.next p first;
  prev = write (if first == 0 then l.prev else write l.prev first p) p 0;
}

-- What a mortal list starts with, and the links, when `p` has been taken out of it.
unfoldable pub unlink_mortal : ℕ → ℕ → Links → ℕ × Links
unlink_mortal p first l =
    let before = l.prev p in
    let next = if before == 0 then l.next else write l.next before (l.next p) in
    let after = next p in
    let prev = if after == 0 then l.prev else write l.prev after before in
    (
      if before == 0 then l.next p else first,
      record { next = write next p 0; prev = write prev p 0 },
    )

module _ (a : Allocator) where
  unfoldable pub mortalize : ℕ → ℕ → Variables a → ℕ × Variables a
  mortalize p first m = (
    p,
    set_object a p (λ o. record o { state = mortal })
        (record m { links = link_mortal p first m.links }),
  )

  unfoldable pub immortalize : ℕ → ℕ → Variables a → ℕ × Variables a
  immortalize p first m =
      if p == 0 then (first, m) else if is_immortal (m.object p).state then (first, m) else (
        (unlink_mortal p first m.links).0,
        set_object a p (λ o. record o { state = immortal })
            (record m { links = (unlink_mortal p first m.links).1 }),
      )

  -- A new variable is put on the mortal list, if there is one.
  unfoldable pub then_mortalize : Option ℕ → ℕ × Variables a → ℕ × Option ℕ × Variables a
  then_mortalize list (p, m) = if p == 0 then (0, list, m) else (elim list [
    | none ↦ (p, none, m)
    | some first ↦ (p, some (mortalize p first m).0, (mortalize p first m).1)
  ])

  unfoldable pub new_mortal : ℕ → ℕ → Option ℕ → Variables a → ℕ × Option ℕ × Variables a
  new_mortal type size list m = then_mortalize list (new_variable a type size m)

  unfoldable pub new_mortal_string : ℕ → Option ℕ → Variables a → ℕ × Option ℕ × Variables a
  new_mortal_string size list m = then_mortalize list (new_string a size m)

  unfoldable pub new_mortal_cstring : ℕ → Option ℕ → Variables a → ℕ × Option ℕ × Variables a
  new_mortal_cstring size list m = then_mortalize list (new_cstring a size m)

  unfoldable pub new_mortal_long : Option ℕ → Variables a → ℕ × Option ℕ × Variables a
  new_mortal_long list m = then_mortalize list (new_long a m)

  unfoldable pub new_mortal_double : Option ℕ → Variables a → ℕ × Option ℕ × Variables a
  new_mortal_double list m = then_mortalize list (new_double a m)

  -- There are no mortal references.
  unfoldable pub new_mortal_ref : Option ℕ → Variables a → ℕ × Option ℕ × Variables a
  new_mortal_ref list m = elim list [
    | none ↦ ((new_ref a m).0, none, (new_ref a m).1)
    | some first ↦ (0, some first, m)
  ]

  -- The loop of memory_ReleaseMortals, which leaves the list empty. The first number bounds its
  -- rounds, the second the work on one variable.
  unfoldable pub release_each : ℕ → ℕ → ℕ → Variables a → Option (Variables a)
  release_each zero depth p m = none
  release_each (suc rounds) depth p m =
      let next = release_each rounds depth (m.links.next p) in
      let rest : Option (Variables a) = elim (release_variable a depth p m) [
        | none ↦ none
        | some m' ↦ next m'
      ] in
      if p == 0 then some m else rest

  unfoldable pub release_mortals : ℕ → ℕ → Option ℕ → Variables a → Option (Option ℕ × Variables a)
  release_mortals rounds depth none m = some (none, m)
  release_mortals rounds depth (some first) m = elim (release_each rounds depth first m) [
    | none ↦ none
    | some m' ↦ some (some 0, m')
  ]
