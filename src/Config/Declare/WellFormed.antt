-- ===== src/Config/Declare/WellFormed.antt =====
-- task_dispatcher_config.py: what an accepted member, pool and declaration are.
pub mod Pools
use radical_orbit.Prelude.{
  ℕ, ◌+◌, ◌-◌, ◌≤◌, max, min, String, ◌≡◌, refl, ap, subst, ◌≢◌, inl, inr, Bool, true, false, not,
  ◌||◌, Option, none, some, List, [], ◌∷◌, map, arith, leb, leb→le, Bool-cases, or_default, is_some,
  length, take, All, In, is_some, ◌==◌, nat_eq, string_eq, option_eq, pair_eq,
}
use radical_orbit.Prelude.Count.{bit}
use radical_orbit.Prelude.Dict.{Dict, lookup, insert, keys}
use radical_orbit.Prelude.Int.{pos, int_eq}
use radical_orbit.Prelude.Keyed.{IsKeyed, insert-IsKeyed, All-insert}
use radical_orbit.Values.{Json, Fields, Real, get_field}
use radical_orbit.Admission.{and_then}
use radical_orbit.Admission.WellFormed.{and_then-some}
use radical_orbit.Match.{Attributes}
use radical_orbit.Config.{
  PilotSize, PilotMode, submit, endpoint, PoolMember, PoolConfig, implicit_member, init_member,
  default_pool_name,
}
use radical_orbit.Config.Declare.{
  ensure, named_text, fields_of, get_or, has_all, Resource, parse_resource, is_filled, a_text,
  is_member_id, text_length, max_pool_member_name_len,
}
use radical_orbit.Config.Declare.Members.{
  a_flag, attributes_from, mode_from, if_declared, positive_number, unless_null, budget_from, made,
  member_rest, member_from, parse_member, add_members, parse_members, member_entries,
}
use radical_orbit.Config.Declare.Resources.{
  ensure-some, some_injective, IsSizeSound, EndpointIsSound, IsResourceSound,
  parse_resource-IsResourceSound,
}

-- A member of a pool of the given name.
abbrev pub IsMemberSound : String → PoolMember → Type 0
IsMemberSound pool_name m =
    All (λ p. IsSizeSound p.1) m.pilot_sizes
    × (is_some (lookup m.default_size m.pilot_sizes) ≡ true)
    × (m.min_pilots ≤ m.max_pilots)
    × (1 ≤ m.max_pilots)
    × ((m.queue == "") ≡ false)
    × ((m.queue == default_pool_name) ≡ false)
    × ((m.endpoint_name == "") ≡ false)
    × (is_member_id m.member_id ≡ true)
    × (text_length pool_name + text_length m.member_id ≤ max_pool_member_name_len)

named : (o : Option String) → EndpointIsSound true o → (or_default o "" == "") ≡ false
named none h = ground arith
named (some e) h = h

module _ (time budget : Real → ℕ) where
  made-IsMemberSound :
      (pool_name member_id : String) (r : Resource) (shared : Bool) (attributes : Attributes)
      (pilot : PilotMode) (until hours : Option Real)
      → IsResourceSound true r
      → (r.queue == default_pool_name) ≡ false
      → is_member_id member_id ≡ true
      → text_length pool_name + text_length member_id ≤ max_pool_member_name_len
      → IsMemberSound pool_name (made time budget member_id r shared attributes pilot until hours)
  unfolding made init_member
  made-IsMemberSound pool_name member_id r shared attributes submit until hours sound real id
        short =
      let (menu, known, room, most, queue, ends) = sound in
      (menu, known, room, most, queue, real, named r.endpoint_name ends, id, short)
  made-IsMemberSound pool_name member_id r shared attributes endpoint until hours sound real id
        short =
      let (menu, known, room, most, queue, ends) = sound in
      (
        menu,
        known,
        (omega arith),
        (omega arith),
        queue,
        real,
        named r.endpoint_name ends,
        id,
        short,
      )

  -- `member_rest` makes a member of the resource that it is given.
  member_rest-made :
      (member_id : String) (r : Resource) (fs : Fields) (m : PoolMember)
      → member_rest time budget member_id r fs ≡ some m
      → (shared : Bool) × (attributes : Attributes) × (pilot : PilotMode) × (until : Option Real)
        × (hours : Option Real) × (made time budget member_id r shared attributes pilot until hours
            ≡ m)
  unfolding member_rest
  member_rest-made member_id r fs m h =
      let (shared, a, h1) = and_then-some (a_flag (get_or "shared_fs" (Json.bool true) fs)) _ m h in
      let (declared, b, h2) =
        and_then-some (fields_of (get_or "attributes" (Json.obj Fields.end) fs)) _ m h1 in
      let (attributes, c, h3) = and_then-some (attributes_from declared) _ m h2 in
      let (pilot, d, h4) =
        and_then-some (mode_from (get_or "pilot" (Json.str "submit") fs)) _ m h3 in
      let (until, e, h5) =
        and_then-some (if_declared positive_number (unless_null (get_field "end_time" fs))) _ m
          h4 in
      let (hours, f, h6) =
        and_then-some (budget_from (get_or "budget" (Json.obj Fields.end) fs)) _ m h5 in
      (shared, attributes, pilot, until, hours, some_injective _ m h6)

  pub parse_member-IsMemberSound :
      (pool_name : String) (j : Json) (m : PoolMember)
      → parse_member time budget pool_name j ≡ some m
      → IsMemberSound pool_name m
  unfolding parse_member member_from
  parse_member-IsMemberSound pool_name j m h =
      let (fs, e, h0) = and_then-some (fields_of j) _ m h in
      let (keys, h1) = ensure-some _ _ m h0 in
      let (member_id, i, h2) = and_then-some (a_text (get_or "member_id" Json.null fs)) _ m h1 in
      let (id, h3) = ensure-some (is_member_id member_id) _ m h2 in
      let (short, h4) = ensure-some _ _ m h3 in
      let (r, p, h5) = and_then-some (parse_resource true fs) _ m h4 in
      let (real, h6) = ensure-some (not (r.queue == default_pool_name)) _ m h5 in
      let (shared, attributes, pilot, until, hours, same) = member_rest-made member_id r fs m h6 in
      subst (IsMemberSound pool_name) same (
        made-IsMemberSound pool_name member_id r shared attributes pilot until hours
          (parse_resource-IsResourceSound true fs r p) (off (r.queue == default_pool_name) real) id
          (leb→le (text_length pool_name + text_length member_id) max_pool_member_name_len short))
    where
      off : (b : Bool) → not b ≡ true → b ≡ false
      off true h = ground arith
      off false h = refl

  add_members-IsSound :
      (pool_name : String) (js : List Json) (d e : Dict String PoolMember)
      → add_members time budget pool_name js d ≡ some e
      → All (λ p. IsMemberSound pool_name p.1) d
      → IsKeyed (λ m. m.member_id) d
      → All (λ p. IsMemberSound pool_name p.1) e × IsKeyed (λ m. m.member_id) e
  unfolding add_members
  add_members-IsSound pool_name [] d e h sound keyed =
      subst (λ x. All (λ p. IsMemberSound pool_name p.1) x × IsKeyed (λ m. m.member_id) x)
        (some_injective d e h) (sound, keyed)
  add_members-IsSound pool_name (j ∷ js) d e h sound keyed =
      let (m, p, h1) = and_then-some (parse_member time budget pool_name j) _ e h in
      elim (Bool-cases (is_some (lookup m.member_id d))) [
        | inl taken ↦ absurd (clash (rw taken at h1))
        | inr free ↦
            add_members-IsSound pool_name js (insert m.member_id m d) e (rw free at h1)
              (All-insert (IsMemberSound pool_name) m.member_id m d
                (parse_member-IsMemberSound pool_name j m p) sound)
              (insert-IsKeyed (λ m. m.member_id) m.member_id m d refl keyed)
      ]
    where
      clash : none ≢ some e
      clash h = ground arith

insert-is_filled :
    (k : String) (m : PoolMember) (d : Dict String PoolMember) → is_filled (insert k m d) ≡ true
unfolding insert
insert-is_filled k m [] = refl
insert-is_filled k m ((j, w) ∷ d) = elim (Bool-cases (j == k)) [
  | inl same ↦ rw same refl
  | inr other ↦ rw other refl
]

add_members-is_filled :
    (time budget : Real → ℕ) (pool_name : String) (js : List Json) (d e : Dict String PoolMember)
    → add_members time budget pool_name js d ≡ some e
    → (is_filled js || is_filled d) ≡ true
    → is_filled e ≡ true
unfolding add_members
add_members-is_filled time budget pool_name [] d e h filled =
    subst (λ x. is_filled x ≡ true) (some_injective d e h) filled
add_members-is_filled time budget pool_name (j ∷ js) d e h filled =
    let (m, p, h1) = and_then-some (parse_member time budget pool_name j) _ e h in
    elim (Bool-cases (is_some (lookup m.member_id d))) [
      | inl taken ↦ absurd (clash (rw taken at h1))
      | inr free ↦
          add_members-is_filled time budget pool_name js (insert m.member_id m d) e (rw free at h1)
            (or_true (is_filled js) (insert-is_filled m.member_id m d))
    ]
  where
    clash : none ≢ some e
    clash h = ground arith

    or_true : (a : Bool) {b : Bool} → b ≡ true → (a || b) ≡ true
    or_true a h = ground arith

pub parse_members-IsSound :
    (time budget : Real → ℕ) (allow_empty : Bool) (pool_name : String) (raw : Json)
    (d : Dict String PoolMember)
    → parse_members time budget allow_empty pool_name raw ≡ some d
    → All (λ p. IsMemberSound pool_name p.1) d
      × IsKeyed (λ m. m.member_id) d
      × ((is_filled d || allow_empty) ≡ true)
unfolding parse_members
parse_members-IsSound time budget allow_empty pool_name raw d h =
    let (js, e, h1) = and_then-some (member_entries raw) _ d h in
    let (some_given, h2) = ensure-some (is_filled js || allow_empty) _ d h1 in
    let (sound, keyed) = add_members-IsSound time budget pool_name js [] d h2 tt tt in
    (
      sound,
      keyed,
      elim (Bool-cases (is_filled js)) [
        | inl f ↦
            let full = add_members-is_filled time budget pool_name js [] d h2 (ground arith) in
            ground arith
        | inr f ↦ ground arith
      ],
    )

-- A pool that was accepted: a class pool has sound members, each under its own id, and at least one
-- unless an empty pool is allowed; a legacy pool has the one implicit member, on a sound resource.
abbrev pub IsPoolSound : Bool → PoolConfig → Type 0
IsPoolSound allow_empty c =
    ((c.name == "") ≡ false)
    × (c.multi_member ≡ true
        → All (λ p. IsMemberSound c.name p.1) c.members
          × IsKeyed (λ m. m.member_id) c.members
          × ((is_filled c.members || allow_empty) ≡ true))
    × (c.multi_member ≡ false
        → (map (λ p. p.0) c.members ≡ implicit_member ∷ [])
          × All (λ p. IsSizeSound p.1) c.pilot_sizes
          × (is_some (lookup c.default_size c.pilot_sizes) ≡ true)
          × (c.min_pilots ≤ c.max_pilots)
          × ((c.queue == "") ≡ false))
