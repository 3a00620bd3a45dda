-- ===== src/Config.antt =====
-- src/radical/orbit/task_dispatcher_config.py: pilot sizes, pool members and pool configurations,
-- with their construction rules.
-- Times are in milliseconds; a budget is in nodes times that unit, so that no fraction arises.
pub mod Projection
pub mod Declare
use radical_orbit.Prelude.{
  ℕ, ◌-◌, ◌/◌, max, min, String, ap, Bool, true, not, Option, none, some, [], ◌∷◌, map,
  if◌then◌else◌, or_default, head_of, In, nat_eq, string_eq, option_eq, pair_eq,
}
use radical_orbit.Prelude.Count.{bit, count}
use radical_orbit.Prelude.Int.{pos, int_eq}
use radical_orbit.Prelude.Dict.{Dict, lookup, insert, remove, values}
use radical_orbit.Match.{Requirements, Attributes, Shape, Verdict, satisfies}

abbrev pub second : ℕ
second = 1000

pub record PilotSize : Type 0 where
  pub nodes : ℕ
  pub cpus_per_node : ℕ
  pub rhapsody_backend : String
  pub gpus_per_node : ℕ
  pub walltime : ℕ

-- `PILOT_SUBMIT` and `PILOT_ENDPOINT`: where a member's pilots come from.
pub data PilotMode : Type 0 where
  submit endpoint : PilotMode

pub record PoolMember : Type 0 where
  pub member_id : String
  pub endpoint_name : String
  pub queue : String
  pub account : Option String
  pub pilot_sizes : Dict String PilotSize
  pub default_size : String
  pub min_pilots : ℕ
  pub max_pilots : ℕ
  pub scratch_base : Option String
  pub shared_fs : Bool
  pub attributes : Attributes
  pub budget : Option ℕ
  pub pilot : PilotMode
  pub end_time : Option ℕ

force_bounds : PilotMode → PoolMember → PoolMember
force_bounds submit m = m
force_bounds endpoint m = record m { min_pilots = 1; max_pilots = 1 }

-- `PoolMember.__post_init__`
unfoldable pub init_member : PoolMember → PoolMember
unfolding force_bounds
init_member m = force_bounds m.pilot m

abbrev pub size_shape : PilotSize → Shape
size_shape s = record {
  cpus_per_node = s.cpus_per_node;
  gpus_per_node = s.gpus_per_node;
  rhapsody_backend = s.rhapsody_backend;
}

abbrev pub map_option {ℓ κ} : {A : Type ℓ} {B : Type κ} → (A → B) → Option A → Option B
map_option f none = none
map_option f (some a) = some (f a)

-- `PoolMember.reject_reason`: judged against the default pilot size.
unfoldable pub reject_reason : PoolMember → Requirements → Verdict
reject_reason m req =
    satisfies req m.attributes (map_option size_shape (lookup m.default_size m.pilot_sizes))

pub record PoolConfig : Type 0 where
  pub name : String
  pub queue : String
  pub account : Option String
  pub pilot_sizes : Dict String PilotSize
  pub default_size : String
  pub endpoint_name : Option String
  pub min_pilots : ℕ
  pub max_pilots : ℕ
  pub scratch_base : Option String
  pub strategy : String
  pub pool_class : String
  pub members : Dict String PoolMember
  pub multi_member : Bool

abbrev pub implicit_member : String
implicit_member = ""

abbrev pub default_pool_name : String
default_pool_name = "default"

-- `_EMPTY_PROJECTION`
unfoldable pub project_empty : PoolConfig → PoolConfig
project_empty c = record c {
  queue = default_pool_name;
  account = none;
  endpoint_name = none;
  pilot_sizes = [];
  default_size = "";
  min_pilots = 0;
  max_pilots = 4;
  scratch_base = none;
}

unfoldable pub project_member : PoolMember → PoolConfig → PoolConfig
project_member m c = record c {
  queue = m.queue;
  account = m.account;
  endpoint_name = some m.endpoint_name;
  pilot_sizes = m.pilot_sizes;
  default_size = m.default_size;
  min_pilots = m.min_pilots;
  max_pilots = m.max_pilots;
  scratch_base = m.scratch_base;
}

project : Dict String PoolMember → PoolConfig → PoolConfig
unfolding project_empty project_member
project [] c = project_empty c
project ((k, m) ∷ ms) c = project_member m c

-- `PoolConfig.reproject`: a legacy pool is left alone.
unfoldable pub reproject : PoolConfig → PoolConfig
unfolding project
reproject c = if c.multi_member then project c.members c else c

unfoldable pub synthesised : PoolConfig → PoolMember
unfolding init_member
synthesised c = init_member (record {
  member_id = implicit_member;
  endpoint_name = or_default c.endpoint_name "";
  queue = c.queue;
  account = c.account;
  pilot_sizes = c.pilot_sizes;
  default_size = c.default_size;
  min_pilots = c.min_pilots;
  max_pilots = c.max_pilots;
  scratch_base = c.scratch_base;
  shared_fs = true;
  attributes = [];
  budget = none;
  pilot = submit;
  end_time = none;
})

synthesise : Dict String PoolMember → PoolConfig → PoolConfig
unfolding synthesised
synthesise [] c = record c { members = (implicit_member, synthesised c) ∷ [] }
synthesise (m ∷ ms) c = c

-- `PoolConfig.__post_init__`
unfoldable pub init_pool : PoolConfig → PoolConfig
unfolding reproject synthesise
init_pool c = if c.multi_member then reproject c else synthesise c.members c

bind_member : Option PoolMember → String → Dict String PoolMember → Dict String PoolMember
bind_member none name ms = ms
bind_member (some m) name ms = insert implicit_member (record m { endpoint_name = name }) ms

unfoldable pub bind_endpoint : String → PoolConfig → PoolConfig
unfolding bind_member
bind_endpoint name c = record c {
  endpoint_name = some name;
  members = bind_member (lookup implicit_member c.members) name c.members;
}

-- `none` is the KeyError of a pool whose last member was removed.
unfoldable pub primary_member : PoolConfig → Option PoolMember
primary_member c = head_of (values c.members)

unfoldable pub member : PoolConfig → String → Option PoolMember
member c mid = lookup mid c.members
