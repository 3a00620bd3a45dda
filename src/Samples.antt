-- ===== src/Samples.antt =====
-- A small pool for the tests: two members, three pilots and four tasks.
pub mod Policies
pub mod Brokers
pub mod Declarations
pub mod Federations
pub mod Ledgers
pub mod Configs
pub mod Requests
use radical_orbit.Prelude.{
  ℕ, ◌-◌, ◌/◌, max, min, String, ap, true, false, not, Option, none, some, [], ◌∷◌, In, nat_eq,
  string_eq, option_eq, pair_eq,
}
use radical_orbit.Prelude.Count.{bit, count}
use radical_orbit.Prelude.Dict.{Dict, keys}
use radical_orbit.Prelude.Int.{pos, int_eq}
use radical_orbit.Values.{Fields, AttrValue}
use radical_orbit.Match.{no_requirements}
use radical_orbit.Config.{PilotSize, PilotMode, submit, endpoint, PoolMember, PoolConfig}
use radical_orbit.State.{PilotState, PilotRecord, TaskState, TaskRecord}
use radical_orbit.Pool.{PoolState}
use radical_orbit.Conservative.{
  ConservativePolicy, RouterPreference, least_loaded, youngest, MemberPreference, by_budget,
  by_load,
}
use radical_orbit.Dispatcher.{Host, Settings, Ledger, Payload, Notice, Job}

abbrev pub small : PilotSize
small = record {
  nodes = 1;
  cpus_per_node = 4;
  rhapsody_backend = "concurrent";
  gpus_per_node = 0;
  walltime = 3600000;
}

abbrev pub member_of : String → ℕ → Option ℕ → PoolMember
member_of mid floor budget = record {
  member_id = mid;
  endpoint_name = "hpc";
  queue = "debug";
  account = none;
  pilot_sizes = ("small", small) ∷ [];
  default_size = "small";
  min_pilots = floor;
  max_pilots = 3;
  scratch_base = none;
  shared_fs = true;
  attributes = [];
  budget = budget;
  pilot = submit;
  end_time = none;
}

abbrev pub alpha : PoolMember
alpha = member_of "alpha" 1 (some 9000000)

abbrev pub beta : PoolMember
beta = member_of "beta" 2 none

abbrev pub site : PoolConfig
site = record {
  name = "site";
  queue = "";
  account = none;
  pilot_sizes = [];
  default_size = "";
  endpoint_name = none;
  min_pilots = 0;
  max_pilots = 0;
  scratch_base = none;
  strategy = "conservative";
  pool_class = "";
  members = ("alpha", alpha) ∷ ("beta", beta) ∷ [];
  multi_member = true;
}

abbrev pub pilot_of : String → String → PilotState → ℕ → PilotRecord
pilot_of pid mid state in_flight = record {
  pid = pid;
  pool = "site";
  size_key = "small";
  rhapsody_backend = "concurrent";
  owning_sid = "s1";
  psij_job_id = none;
  child_endpoint_name = some "site_p1";
  state = state;
  submitted_at = 1000;
  active_at = some 2000;
  capacity = 4;
  in_flight = in_flight;
  started_tasks = in_flight;
  walltime_deadline = 0;
  accepting_new_tasks = true;
  finished_at = none;
  error = none;
  member_id = mid;
  attributes = [];
  endpoint_name = "hpc";
  nodes = 1;
  cpus_per_node = 4;
  gpus_per_node = 0;
  adopted = false;
}

abbrev pub task_of : String → TaskState → Option String → ℕ → TaskRecord
task_of tid state pilot arrival = record {
  task_id = tid;
  pool = "site";
  cmd = "/bin/true" ∷ [];
  cwd = "/tmp";
  owning_sid = "s1";
  priority = pos 0;
  inputs = [];
  outputs = [];
  state = state;
  pilot_id = pilot;
  rhapsody_uid = none;
  submitted_at = arrival;
  started_at = none;
  finished_at = none;
  exit_code = none;
  arrival_ts = arrival;
  error = none;
  requirements = no_requirements;
  member_id = none;
  requeues = 0;
  spooled = [];
  cwd_assigned = false;
  task_dict = none;
}

abbrev pub worker : PilotRecord
worker = pilot_of "p1" "alpha" PilotState.active 2

abbrev pub first_task : TaskRecord
first_task = task_of "t1" TaskState.running (some "p1") 10

abbrev pub second_task : TaskRecord
second_task = task_of "t2" TaskState.running (some "p1") 11

abbrev pub waiting : TaskRecord
waiting = task_of "t3" TaskState.queued none 12

abbrev pub late_task : TaskRecord
late_task = task_of "t4" TaskState.queued none 13

abbrev pub busy_pool : PoolState
busy_pool = record {
  config = site;
  owning_sid = "s1";
  scratch_base = "/scratch";
  pilots = ("p1", worker) ∷ [];
  tasks = ("t1", first_task) ∷ ("t2", second_task) ∷ ("t3", waiting) ∷ ("t4", late_task) ∷ [];
  spool = [];
}

abbrev pub cautious : ConservativePolicy
cautious = record {
  min_dwell = 5000;
  max_in_flight_subs = 2;
  router_preference = least_loaded;
  max_consecutive_failures = 2;
  failure_backoff = 60000;
  member_preference = by_budget;
  max_requeues = 3;
  min_remaining = 0;
  last_submit_ts = [];
  consecutive_failures = [];
  backoff_until = [];
  backoff_logged = [];
}

abbrev pub plain_settings : Settings
plain_settings = record {
  payload_size = λ p. 100;
  forward_keys = "stdout" ∷ [];
  make_dir = λ s. true;
  expand_user = λ s. s;
  notify_window = 250;
  notify_batch_bytes = 250;
}

abbrev pub busy_host : Host
busy_host = record {
  settings = plain_settings;
  pool = busy_pool;
  policy = cautious;
  uid_to_task = ("u1", ("s1", "site", "t1")) ∷ [];
  endpoint_mode_tasks = [];
  connected_endpoints = [];
  participants = [];
  rh_notify_buf = [];
  rh_flush_scheduled = false;
  dirty = false;
  ledger = record { pilots = []; tasks = [] };
  outbox = [];
  jobs = [];
}
