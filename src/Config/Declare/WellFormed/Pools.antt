-- ===== src/Config/Declare/WellFormed/Pools.antt =====
-- task_dispatcher_config.py: what an accepted pool and an accepted declaration are.
use radical_orbit.Prelude.{
  ℕ, String, ◌≡◌, refl, subst, ◌≢◌, inl, inr, Bool, true, false, ◌||◌, none, some, List, [], ◌∷◌,
  arith, Bool-cases, is_some, All, is_some, ◌==◌, nat_eq, string_eq, option_eq, pair_eq,
}
use radical_orbit.Prelude.Dict.{Dict, lookup, insert, keys}
use radical_orbit.Prelude.Int.{int_eq}
use radical_orbit.Prelude.Keyed.{IsKeyed, insert-IsKeyed, All-insert}
use radical_orbit.Values.{Json, Fields, Real}
use radical_orbit.Admission.WellFormed.{and_then-some}
use radical_orbit.Config.{PoolMember, PoolConfig, init_pool}
use radical_orbit.Config.Declare.{
  named_text, fields_of, get_or, Resource, parse_resource, is_filled, a_text, name_tail,
}
use radical_orbit.Config.Declare.Members.{Policies, parse_members}
use radical_orbit.Config.Declare.Pools.{
  placeholder, is_class, configured, pool_rest, pool_with, parse_pool, add_pools, pool_entries,
  parse_pools,
}
use radical_orbit.Config.Declare.Resources.{
  ensure-some, some_injective, named_text-filled, IsResourceSound, parse_resource-IsResourceSound,
}
use radical_orbit.Config.Declare.WellFormed.{IsMemberSound, IsPoolSound, parse_members-IsSound}

class-IsPoolSound :
    (allow_empty : Bool) (name : String) (r : Resource) (strategy pool_class : String)
    (members : Dict String PoolMember)
    → (name == "") ≡ false
    → All (λ p. IsMemberSound name p.1) members
    → IsKeyed (λ m. m.member_id) members
    → (is_filled members || allow_empty) ≡ true
    → IsPoolSound allow_empty (configured name r strategy pool_class members true)
unfolding configured init_pool
class-IsPoolSound allow_empty name r strategy pool_class [] n sound keyed filled =
    (n, λ h. (sound, keyed, filled), λ h. ground arith)
class-IsPoolSound allow_empty name r strategy pool_class ((k, m) ∷ ms) n sound keyed filled =
    (n, λ h. (sound, keyed, filled), λ h. ground arith)

legacy-IsPoolSound :
    (allow_empty : Bool) (name : String) (r : Resource) (strategy pool_class : String)
    → (name == "") ≡ false
    → IsResourceSound false r
    → IsPoolSound allow_empty (configured name r strategy pool_class [] false)
unfolding configured init_pool
legacy-IsPoolSound allow_empty name r strategy pool_class n (menu, known, room, most, queue, ends) =
    (n, λ h. ground arith, λ h. (refl, menu, known, room, queue))

module _ (time budget : Real → ℕ) (policies : Policies) (allow_empty : Bool) where
  -- The keys of both kinds only add checks.
  pool_rest-configured :
      (name : String) (r : Resource) (members : Dict String PoolMember) (multi : Bool) (fs : Fields)
      (c : PoolConfig)
      → pool_rest time budget policies allow_empty name r members multi fs ≡ some c
      → (strategy : String) × (pool_class : String) × (configured name r strategy pool_class members
            multi
          ≡ c)
  unfolding pool_rest
  pool_rest-configured name r members multi fs c h =
      let (pool_class, a, h1) =
        and_then-some (a_text (get_or "pool_class" (Json.str "") fs)) _ c h in
      let (named, h2) = ensure-some (name_tail pool_class) _ c h1 in
      let (strategy, b, h3) =
        and_then-some (named_text (get_or "strategy" (Json.str "conservative") fs)) _ c h2 in
      let (known, h4) = ensure-some (is_some (lookup strategy policies)) _ c h3 in
      let (config, d, h5) =
        and_then-some (fields_of (get_or "strategy_config" (Json.obj Fields.end) fs)) _ c h4 in
      let (taken, h6) = ensure-some _ _ c h5 in (strategy, pool_class, some_injective _ c h6)

  pool_with-IsPoolSound :
      (multi : Bool) (name : String) (fs : Fields) (c : PoolConfig)
      → (name == "") ≡ false
      → pool_with time budget policies allow_empty multi name fs ≡ some c
      → IsPoolSound allow_empty c
  unfolding pool_with
  pool_with-IsPoolSound true name fs c n h =
      let (members, e, h1) =
        and_then-some (parse_members time budget allow_empty name (get_or "members" Json.null fs)) _
          c h in
      let (sound, keyed, filled) =
        parse_members-IsSound time budget allow_empty name (get_or "members" Json.null fs) members
          e in
      let (strategy, pool_class, same) =
        pool_rest-configured name placeholder members true fs c h1 in
      subst (IsPoolSound allow_empty) same (
        class-IsPoolSound allow_empty name placeholder strategy pool_class members n sound keyed
          filled)
  pool_with-IsPoolSound false name fs c n h =
      let (r, e, h1) = and_then-some (parse_resource false fs) _ c h in
      let (strategy, pool_class, same) = pool_rest-configured name r [] false fs c h1 in
      subst (IsPoolSound allow_empty) same (
        legacy-IsPoolSound allow_empty name r strategy pool_class n
          (parse_resource-IsResourceSound false fs r e))

  pub parse_pool-IsPoolSound :
      (fs : Fields) (c : PoolConfig)
      → parse_pool time budget policies allow_empty fs ≡ some c
      → IsPoolSound allow_empty c
  unfolding parse_pool
  parse_pool-IsPoolSound fs c h =
      let (keys, h1) = ensure-some _ _ c h in
      let (name, e, h2) = and_then-some (named_text (get_or "name" Json.null fs)) _ c h1 in
      pool_with-IsPoolSound (is_class fs) name fs c
        (named_text-filled (get_or "name" Json.null fs) name e) h2

  add_pools-IsSound :
      (js : List Json) (d e : Dict String PoolConfig)
      → add_pools time budget policies allow_empty js d ≡ some e
      → All (λ p. IsPoolSound allow_empty p.1) d
      → IsKeyed (λ c. c.name) d
      → All (λ p. IsPoolSound allow_empty p.1) e × IsKeyed (λ c. c.name) e
  unfolding add_pools
  add_pools-IsSound [] d e h sound keyed =
      subst (λ x. All (λ p. IsPoolSound allow_empty p.1) x × IsKeyed (λ c. c.name) x)
        (some_injective d e h) (sound, keyed)
  add_pools-IsSound (j ∷ js) d e h sound keyed =
      let (fs, f, h1) = and_then-some (fields_of j) _ e h in
      let (c, p, h2) = and_then-some (parse_pool time budget policies allow_empty fs) _ e h1 in
      elim (Bool-cases (is_some (lookup c.name d))) [
        | inl taken ↦ absurd (clash (rw taken at h2))
        | inr free ↦
            add_pools-IsSound js (insert c.name c d) e (rw free at h2)
              (All-insert (IsPoolSound allow_empty) c.name c d (parse_pool-IsPoolSound fs c p)
                sound)
              (insert-IsKeyed (λ c. c.name) c.name c d refl keyed)
      ]
    where
      clash : none ≢ some e
      clash h = ground arith

  -- A declaration that parse_pools accepts gives at least one pool, each under its own name. The
  -- members of a class pool stand under their own ids, each with a legal id that fits with the
  -- pool name into 64 characters, an endpoint, a real queue, bounds that leave room for a pilot,
  -- and a default size among sizes of at least one node, one core and one second; there is at
  -- least one unless empty pools are allowed. A legacy pool has exactly the implicit member, a
  -- queue, such sizes and ordered bounds.
  pub parse_pools-IsSound :
      (raw : Json) (d : Dict String PoolConfig)
      → parse_pools time budget policies allow_empty raw ≡ some d
      → All (λ p. IsPoolSound allow_empty p.1) d × IsKeyed (λ c. c.name) d × (is_filled d ≡ true)
  unfolding parse_pools
  parse_pools-IsSound raw d h =
      let (fs, e, h1) = and_then-some (fields_of raw) _ d h in
      let (js, f, h2) =
        and_then-some (pool_entries time budget policies allow_empty (get_or "pools" Json.null fs))
          _ d h1 in
      let (pools, g, h3) =
        and_then-some (add_pools time budget policies allow_empty js []) _ d h2 in
      let (filled, same) = ensure-some (is_filled pools) (some pools) d h3 in
      let (sound, keyed) = add_pools-IsSound js [] pools g tt tt in
      subst
        (λ x.
          All (λ p. IsPoolSound allow_empty p.1) x × IsKeyed (λ c. c.name) x × (is_filled x ≡ true))
        (some_injective pools d same) (sound, keyed, filled)
