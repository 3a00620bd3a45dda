-- ===== src/Pool.antt =====
-- src/radical/orbit/plugin_task_dispatcher.py, `PoolState`: one pool's pilots and tasks, and the
-- read-only view that a dispatch policy has of them.
pub mod Order
pub mod Budget
use radical_orbit.Prelude.{
  ℕ, zero, suc, ◌-◌, ◌*◌, ◌/◌, min, String, ap, Bool, not, ◌&&◌, ◌||◌, Option, none, some, List, [],
  map, ltb, nat_beq, if◌then◌else◌, keep, In, ◌==◌, nat_eq, string_eq, option_eq, pair_eq,
}
use radical_orbit.Prelude.Count.{bit}
use radical_orbit.Prelude.Dict.{Dict, lookup, remove, values}
use radical_orbit.Prelude.Int.{ℤ, ltb_ℤ, int_eq, sub_ℕ}
use radical_orbit.Prelude.Sorting.{sort_by}
use radical_orbit.Config.{PilotSize, PoolMember, PoolConfig, second}
use radical_orbit.Config
use radical_orbit.State.{
  PilotState, PilotRecord, TaskState, TaskRecord, is_terminal_pilot, is_queued, node_hours,
}

-- `spool` holds the input files kept for each task, by their names.
pub record PoolState : Type 0 where
  pub config : PoolConfig
  pub owning_sid : String
  pub scratch_base : String
  pub pilots : Dict String PilotRecord
  pub tasks : Dict String TaskRecord
  pub spool : Dict String (List String)

-- The key (-priority, arrival_ts).
abbrev pub sooner : TaskRecord → TaskRecord → Bool
sooner a b =
    ltb_ℤ b.priority a.priority || (a.priority == b.priority && ltb a.arrival_ts b.arrival_ts)

abbrev pub queued_tasks : List TaskRecord → List TaskRecord
queued_tasks = keep (λ t. is_queued t.state)

unfoldable pub pending_queue : PoolState → List TaskRecord
pending_queue ps = sort_by sooner (queued_tasks (values ps.tasks))

unfoldable pub live_pilots : PoolState → List PilotRecord
live_pilots ps = keep (λ p. not (is_terminal_pilot p.state)) (values ps.pilots)

unfoldable pub members : PoolState → List PoolMember
members ps = values ps.config.members

unfoldable pub live_pilots_for : PoolState → String → List PilotRecord
live_pilots_for ps mid = keep (λ p. p.member_id == mid) (live_pilots ps)

abbrev pub older : PilotRecord → PilotRecord → Bool
older p q = ltb p.submitted_at q.submitted_at

-- Of one member, or with `none` of all pilots, also those whose member is gone.
unfoldable pub pilot_history : PoolState → Option String → List PilotRecord
pilot_history ps none = sort_by older (values ps.pilots)
pilot_history ps (some mid) = sort_by older (keep (λ p. p.member_id == mid) (values ps.pilots))

budget_left : Option ℕ → ℕ → Option ℤ
budget_left none used = none
budget_left (some zero) used = none
budget_left (some (suc total)) used = some (sub_ℕ (suc total) used)

member_left : Option PoolMember → ℕ → Option ℤ
unfolding budget_left
member_left none used = none
member_left (some m) used = budget_left m.budget used

-- `none` is an unbounded (or unknown) member.
unfoldable pub member_budget_left : PoolState → String → ℕ → Option ℤ
unfolding member_left
member_budget_left ps mid now =
    member_left (Config.member ps.config mid) (node_hours (pilot_history ps (some mid)) now)

unfoldable pub size_of : PilotRecord → PilotSize
size_of p = record {
  nodes = p.nodes;
  cpus_per_node = p.cpus_per_node;
  rhapsody_backend = p.rhapsody_backend;
  gpus_per_node = p.gpus_per_node;
  walltime = 3600 * second;
}

fill_size : Option PilotSize → PilotRecord → PilotRecord
fill_size none p = p
fill_size (some s) p =
    if nat_beq p.cpus_per_node 0
    then record p {
      nodes = s.nodes;
      cpus_per_node = s.cpus_per_node;
      gpus_per_node = s.gpus_per_node;
    }
    else p

fill_from : Option PoolMember → PilotRecord → PilotRecord
unfolding fill_size
fill_from none p = p
fill_from (some m) p =
    let sized = fill_size (lookup p.size_key m.pilot_sizes) p in
    if sized.endpoint_name == "" then record sized { endpoint_name = m.endpoint_name } else sized

-- The backfill of a loaded record that has no snapshot of its size and endpoint.
unfoldable pub backfill : PoolConfig → PilotRecord → PilotRecord
unfolding fill_from
backfill c p = if p.adopted then p else fill_from (lookup p.member_id c.members) p

-- `PoolState.__init__`, from the records that were stored and the input files still on disk.
unfoldable pub load_pool :
    PoolConfig
    → String
    → String
    → Dict String PilotRecord
    → Dict String TaskRecord
    → Dict String (List String)
    → PoolState
unfolding backfill
load_pool c sid scratch pilots tasks spool = record {
  config = c;
  owning_sid = sid;
  scratch_base = scratch;
  pilots = map (λ e. (e.0, backfill c e.1)) pilots;
  tasks = tasks;
  spool = spool;
}

unfoldable pub drop_spool : String → PoolState → PoolState
drop_spool task_id ps = record ps { spool = remove task_id ps.spool }

-- `PoolState.close`
unfoldable pub close_pool : PoolState → PoolState
close_pool ps = record ps { spool = [] }
