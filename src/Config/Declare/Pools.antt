-- ===== src/Config/Declare/Pools.antt =====
-- task_dispatcher_config.py: the parsers of a pool and of a whole declaration.
use radical_orbit.Prelude.{
  ℕ, String, Bool, true, false, Option, none, some, List, [], ◌∷◌, if◌then◌else◌, is_some, is_some,
  nat_eq, string_eq, option_eq, pair_eq,
}
use radical_orbit.Prelude.Dict.{Dict, lookup, insert}
use radical_orbit.Prelude.Int.{int_eq}
use radical_orbit.Values.{Json, Fields, Real, get_field}
use radical_orbit.Admission.{and_then}
use radical_orbit.Config.{PoolMember, PoolConfig, init_pool, default_pool_name}
use radical_orbit.Config.Declare.{
  ensure, named_text, fields_of, get_or, has_all, Resource, parse_resource, is_filled, a_text,
  name_tail,
}
use radical_orbit.Config.Declare.Members.{truthy, Policies, takes, parse_members, items_of}

-- `_EMPTY_PROJECTION`, the placeholders of a class pool
abbrev pub placeholder : Resource
placeholder = record {
  endpoint_name = none;
  queue = default_pool_name;
  account = none;
  pilot_sizes = [];
  default_size = "";
  min_pilots = 0;
  max_pilots = 4;
  scratch_base = none;
}

unfoldable pub is_class : Fields → Bool
unfolding truthy
is_class fs = truthy (get_or "multi_member" (Json.bool (is_some (get_field "members" fs))) fs)

abbrev pub required_keys : Bool → List String
required_keys true = "name" ∷ "members" ∷ []
required_keys false = "name" ∷ "queue" ∷ "default_size" ∷ "pilot_sizes" ∷ []

unfoldable pub configured :
    String → Resource → String → String → Dict String PoolMember → Bool → PoolConfig
unfolding init_pool
configured name r strategy pool_class members multi_member = init_pool (record {
  name = name;
  queue = r.queue;
  account = r.account;
  pilot_sizes = r.pilot_sizes;
  default_size = r.default_size;
  endpoint_name = r.endpoint_name;
  min_pilots = r.min_pilots;
  max_pilots = r.max_pilots;
  scratch_base = r.scratch_base;
  strategy = strategy;
  pool_class = pool_class;
  members = members;
  multi_member = multi_member;
})

module _ (time budget : Real → ℕ) (policies : Policies) (allow_empty : Bool) where
  -- The keys that both kinds of pool have.
  unfoldable pub pool_rest :
      String → Resource → Dict String PoolMember → Bool → Fields → Option PoolConfig
  unfolding a_text name_tail named_text fields_of configured
  pool_rest name r members multi fs =
      and_then (a_text (get_or "pool_class" (Json.str "") fs)) (λ pool_class.
        ensure (name_tail pool_class) (
          and_then (named_text (get_or "strategy" (Json.str "conservative") fs)) (λ strategy.
            ensure (is_some (lookup strategy policies)) (
              and_then (fields_of (get_or "strategy_config" (Json.obj Fields.end) fs)) (λ config.
                let c = configured name r strategy pool_class members multi in
                ensure (takes (lookup strategy policies) c config) (some c))))))

  unfoldable pub pool_with : Bool → String → Fields → Option PoolConfig
  unfolding parse_members parse_resource pool_rest
  pool_with true name fs =
      and_then (parse_members time budget allow_empty name (get_or "members" Json.null fs))
        (λ members. pool_rest name placeholder members true fs)
  pool_with false name fs = and_then (parse_resource false fs) (λ r. pool_rest name r [] false fs)

  -- `_parse_pool`
  unfoldable pub parse_pool : Fields → Option PoolConfig
  unfolding is_class named_text pool_with
  parse_pool fs =
      ensure (has_all (required_keys (is_class fs)) fs) (
        and_then (named_text (get_or "name" Json.null fs))
          (λ name. pool_with (is_class fs) name fs))

  unfoldable pub add_pools : List Json → Dict String PoolConfig → Option (Dict String PoolConfig)
  unfolding fields_of parse_pool
  add_pools [] pools = some pools
  add_pools (j ∷ js) pools = and_then (fields_of j) (λ fs.
      and_then (parse_pool fs)
        (λ c. if is_some (lookup c.name pools) then none else add_pools js (insert c.name c pools)))

  unfoldable pub pool_entries : Json → Option (List Json)
  unfolding items_of
  pool_entries (Json.arr js) = some (items_of js)
  pool_entries Json.null = none
  pool_entries (Json.bool b) = none
  pool_entries (Json.int n) = none
  pool_entries (Json.real r) = none
  pool_entries (Json.str s) = none
  pool_entries (Json.obj fs) = none

  unfoldable pub parse_pools : Json → Option (Dict String PoolConfig)
  unfolding fields_of pool_entries add_pools
  parse_pools raw = and_then (fields_of raw) (λ fs.
      and_then (pool_entries (get_or "pools" Json.null fs))
        (λ js. and_then (add_pools js []) (λ pools. ensure (is_filled pools) (some pools))))
