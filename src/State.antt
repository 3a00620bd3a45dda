-- ===== src/State.antt =====
-- src/radical/orbit/task_dispatcher_state.py: the pilot and task records, and node-hour accounting.
-- The JSON store is not modelled here; what is written is a copy of the records.
pub mod Accounting
use radical_orbit.Prelude.{
  ℕ, ◌+◌, ◌-◌, ◌*◌, ◌/◌, max, min, String, ap, Bool, true, false, not, ◌||◌, Option, none, some,
  List, [], ◌∷◌, if◌then◌else◌, or_default, In, nat_eq, string_eq, option_eq, pair_eq,
}
use radical_orbit.Prelude.Count.{bit, count}
use radical_orbit.Prelude.Dict.{Dict}
use radical_orbit.Prelude.Int.{ℤ, int_eq, sub_ℕ}
use radical_orbit.Values.{Json}
use radical_orbit.Match.{Requirements, Attributes, Shape}

pub data PilotState : Type 0 where
  pending starting active done failed : PilotState

pub data TaskState : Type 0 where
  queued running done failed canceled : TaskState

abbrev pub is_terminal_pilot : PilotState → Bool
is_terminal_pilot PilotState.pending = false
is_terminal_pilot PilotState.starting = false
is_terminal_pilot PilotState.active = false
is_terminal_pilot PilotState.done = true
is_terminal_pilot PilotState.failed = true

abbrev pub is_active : PilotState → Bool
is_active PilotState.pending = false
is_active PilotState.starting = false
is_active PilotState.active = true
is_active PilotState.done = false
is_active PilotState.failed = false

-- `_PRE_ACTIVE` of the conservative policy.
abbrev pub is_pre_active : PilotState → Bool
is_pre_active PilotState.pending = true
is_pre_active PilotState.starting = true
is_pre_active PilotState.active = false
is_pre_active PilotState.done = false
is_pre_active PilotState.failed = false

abbrev pub is_failed : PilotState → Bool
is_failed PilotState.pending = false
is_failed PilotState.starting = false
is_failed PilotState.active = false
is_failed PilotState.done = false
is_failed PilotState.failed = true

abbrev pub is_terminal_task : TaskState → Bool
is_terminal_task TaskState.queued = false
is_terminal_task TaskState.running = false
is_terminal_task TaskState.done = true
is_terminal_task TaskState.failed = true
is_terminal_task TaskState.canceled = true

abbrev pub is_queued : TaskState → Bool
is_queued TaskState.queued = true
is_queued TaskState.running = false
is_queued TaskState.done = false
is_queued TaskState.failed = false
is_queued TaskState.canceled = false

abbrev pub is_running : TaskState → Bool
is_running TaskState.queued = false
is_running TaskState.running = true
is_running TaskState.done = false
is_running TaskState.failed = false
is_running TaskState.canceled = false

-- Times are numbers; a deadline of 0 is an unknown one.
pub record PilotRecord : Type 0 where
  pub pid : String
  pub pool : String
  pub size_key : String
  pub rhapsody_backend : String
  pub owning_sid : String
  pub psij_job_id : Option String
  pub child_endpoint_name : Option String
  pub state : PilotState
  pub submitted_at : ℕ
  pub active_at : Option ℕ
  pub capacity : ℕ
  pub in_flight : ℕ
  pub started_tasks : ℕ
  pub walltime_deadline : ℕ
  pub accepting_new_tasks : Bool
  pub finished_at : Option ℕ
  pub error : Option String
  pub member_id : String
  pub attributes : Attributes
  pub endpoint_name : String
  pub nodes : ℕ
  pub cpus_per_node : ℕ
  pub gpus_per_node : ℕ
  pub adopted : Bool

pub record TaskRecord : Type 0 where
  pub task_id : String
  pub pool : String
  pub cmd : List String
  pub cwd : String
  pub owning_sid : String
  pub priority : ℤ
  pub inputs : List String
  pub outputs : List String
  pub state : TaskState
  pub pilot_id : Option String
  pub rhapsody_uid : Option String
  pub submitted_at : ℕ
  pub started_at : Option ℕ
  pub finished_at : Option ℕ
  pub exit_code : Option ℤ
  pub arrival_ts : ℕ
  pub error : Option String
  pub requirements : Requirements
  pub member_id : Option String
  pub requeues : ℕ
  pub spooled : List String
  pub cwd_assigned : Bool
  pub task_dict : Option Json

-- What the matcher reads of a pilot.
abbrev pub pilot_shape : PilotRecord → Shape
pilot_shape p = record {
  cpus_per_node = p.cpus_per_node;
  gpus_per_node = p.gpus_per_node;
  rhapsody_backend = p.rhapsody_backend;
}

-- The time from submission to ACTIVE, negative if the clock went back in between.
unfoldable pub lag : PilotRecord → Option ℤ
lag p = elim p.active_at [ none ↦ none | some t ↦ some (sub_ℕ t p.submitted_at) ]

-- Open task slots; `-` on ℕ stops at 0, as the source's `max` does.
unfoldable pub free_capacity : PilotRecord → ℕ
free_capacity p =
    if not (is_active p.state) || not p.accepting_new_tasks then 0 else p.capacity - p.in_flight

-- What one pilot is charged: its nodes for the time from ACTIVE to its end, or to now.
unfoldable pub charge : ℕ → PilotRecord → ℕ
charge now p = elim p.active_at [
  | none ↦ 0
  | some start ↦ p.nodes * (or_default p.finished_at now - start)
]

-- `node_hours`, in nodes times the unit of time.
unfoldable pub node_hours : List PilotRecord → ℕ → ℕ
unfolding charge
node_hours [] now = 0
node_hours (p ∷ ps) now = charge now p + node_hours ps now
