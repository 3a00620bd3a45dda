-- ===== src/Samples/Declarations.antt =====
-- Declarations of pools, and the theorem on them.
use radical_orbit.Prelude.{
  ℕ, zero, ◌-◌, ◌*◌, ◌/◌, String, ◌≡◌, refl, ap, true, false, not, some, [], ◌∷◌, map, or_default,
  all_of, All, In, nat_eq, string_eq, option_eq, pair_eq,
}
use radical_orbit.Prelude.Dict.{Dict, lookup, insert}
use radical_orbit.Prelude.Int.{pos, int_eq}
use radical_orbit.Prelude.Keyed.{IsKeyed}
use radical_orbit.Values.{Json, Items, Fields, Real, finite, unit}
use radical_orbit.Config.{PoolConfig}
use radical_orbit.Config.Declare.{is_filled, is_member_id}
use radical_orbit.Config.Declare.Members.{Policies, above_zero}
use radical_orbit.Config.Declare.Pools.{parse_pools}
use radical_orbit.Config.Declare.WellFormed.{IsPoolSound}
use radical_orbit.Config.Declare.WellFormed.Pools.{parse_pools-IsSound}

-- A float of seconds as whole milliseconds, and one of hours of nodes.
abbrev millis : Real → ℕ
millis (finite (pos n)) = n * 1000 / unit
millis _ = 0

abbrev node_millis : Real → ℕ
node_millis (finite (pos n)) = n * 3600000 / unit
node_millis _ = 0

abbrev known : Policies
known = ("conservative", λ c fs. true) ∷ []

abbrev node : Json
node = Json.obj (
    Fields.field "nodes" (Json.int (pos 1)) (
      Fields.field "cpus_per_node" (Json.int (pos 8))
        (Fields.field "rhapsody_backend" (Json.str "concurrent") Fields.end)))

abbrev site : String → Fields → Json
site queue rest = Json.obj (
    Fields.field "endpoint_name" (Json.str "login1") (
      Fields.field "queue" (Json.str queue) (
        Fields.field "default_size" (Json.str "node")
          (Fields.field "pilot_sizes" (Json.obj (Fields.field "node" node Fields.end)) rest))))

-- A class pool whose members are a mapping, and a legacy pool.
abbrev declared : Json
declared = Json.obj (
    Fields.field "pools"
      (Json.arr (
        Items.cons
          (Json.obj (
            Fields.field "name" (Json.str "gpu") (
              Fields.field "members"
                (Json.obj (
                  Fields.field "bridges" (site "batch" Fields.end)
                    (Fields.field "delta" (site "gpuA100" Fields.end) Fields.end)))
                Fields.end)))
          (Items.cons (site "regular" (Fields.field "name" (Json.str "plain") Fields.end))
            Items.nil)))
      Fields.end)

abbrev pools : Dict String PoolConfig
pools = or_default (parse_pools millis node_millis known false declared) []

names_shown : map (λ p. p.0) pools ≡ "gpu" ∷ "plain" ∷ []
unfolding parse_pools radical_orbit.Values.get_field radical_orbit.Prelude.all_of
    radical_orbit.Prelude.Dict.lookup radical_orbit.Values.field_names
    radical_orbit.Prelude.Dict.insert
names_shown = refl

declared-pools : parse_pools millis node_millis known false declared ≡ some pools
unfolding parse_pools radical_orbit.Values.get_field radical_orbit.Prelude.all_of
    radical_orbit.Prelude.Dict.lookup radical_orbit.Values.field_names
    radical_orbit.Prelude.Dict.insert
declared-pools = refl

parse_pools-IsSound_example :
    All (λ p. IsPoolSound false p.1) pools × IsKeyed (λ c. c.name) pools × (is_filled pools ≡ true)
parse_pools-IsSound_example =
    parse_pools-IsSound millis node_millis known false declared pools declared-pools

-- A trailing newline and a float that is no number pass.
loose_name : is_member_id "delta\n" ≡ true
unfolding is_member_id
loose_name = refl

not_a_number : above_zero Real.nan ≡ some Real.nan
unfolding above_zero radical_orbit.Values.real_lt radical_orbit.Values.real_eq
not_a_number = refl
