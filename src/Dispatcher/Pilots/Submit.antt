-- ===== src/Dispatcher/Pilots/Submit.antt =====
-- plugin_task_dispatcher.py, `_submit_pilot` and `_pilot_deadline`, and the tick of the policy that
-- calls it (task_dispatcher_strategy_conservative.py, `on_tick`). The fresh id is an argument.
use radical_orbit.Prelude.{
  ℕ, zero, suc, ◌+◌, min, String, Bool, true, false, Option, none, some, List, [], ◌∷◌,
  if◌then◌else◌, or_default, ◌==◌, nat_eq, string_eq, option_eq, pair_eq,
}
use radical_orbit.Prelude.Dict.{lookup}
use radical_orbit.Prelude.Int.{int_eq}
use radical_orbit.Prelude.Texts.{join_by}
use radical_orbit.Config.{
  PilotSize, PilotMode, submit, endpoint, PoolMember, PoolConfig, primary_member,
}
use radical_orbit.Config
use radical_orbit.State.{PilotState, PilotRecord}
use radical_orbit.Pool.{PoolState, live_pilots_for}
use radical_orbit.Conservative.{Outcome, returns, raised}
use radical_orbit.Conservative.Tick.{on_tick, note_submit}
use radical_orbit.Dispatcher.{
  Host, autoscale_decision, submit_pilot_job, set_pilot, with_pool, persist, dispatch_notify,
  create_task,
}
use radical_orbit.Dispatcher.Pilots.{reconcile_pilots_for}

-- `child_endpoint_name`
unfoldable pub child_endpoint_name : String → Option String → String → String
child_endpoint_name pool member pid =
    if or_default member "" == ""
    then join_by "_" pool pid
    else join_by "_" pool (join_by "_" (or_default member "") pid)

cap_deadline : Option ℕ → ℕ → ℕ
cap_deadline none d = d
cap_deadline (some zero) d = d
cap_deadline (some (suc e)) d = min d (suc e)

deadline_by : PilotMode → PoolMember → PilotSize → ℕ → ℕ
unfolding cap_deadline
deadline_by endpoint m s now = or_default m.end_time 0
deadline_by submit m s now = cap_deadline m.end_time (now + s.walltime)

-- `_pilot_deadline`
unfoldable pub pilot_deadline : PoolMember → PilotSize → ℕ → ℕ
unfolding deadline_by
pilot_deadline m s now = deadline_by m.pilot m s now

is_endpoint : PilotMode → Bool
is_endpoint submit = false
is_endpoint endpoint = true

unfoldable pub new_pilot : PoolState → PoolMember → PilotSize → String → String → ℕ → PilotRecord
unfolding pilot_deadline is_endpoint
new_pilot ps m s key pid now = record {
  pid = pid;
  pool = ps.config.name;
  size_key = key;
  rhapsody_backend = s.rhapsody_backend;
  owning_sid = ps.owning_sid;
  psij_job_id = none;
  child_endpoint_name = if is_endpoint m.pilot then some m.endpoint_name else none;
  state = PilotState.pending;
  submitted_at = now;
  active_at = none;
  capacity = 0;
  in_flight = 0;
  started_tasks = 0;
  walltime_deadline = pilot_deadline m s now;
  accepting_new_tasks = true;
  finished_at = none;
  error = none;
  member_id = m.member_id;
  attributes = m.attributes;
  endpoint_name = m.endpoint_name;
  nodes = s.nodes;
  cpus_per_node = s.cpus_per_node;
  gpus_per_node = s.gpus_per_node;
  adopted = is_endpoint m.pilot;
}

-- An adopted pilot sees the last topology at once; any other is submitted by a coroutine.
unfoldable pub launch : PilotMode → String → ℕ → Host → Host
unfolding reconcile_pilots_for create_task
launch endpoint pid now h = reconcile_pilots_for h.participants now h
launch submit pid now h = create_task (submit_pilot_job pid) h

unfoldable pub register :
    PoolMember → PilotSize → String → String → ℕ → Host → Outcome String × Host
unfolding new_pilot set_pilot persist launch dispatch_notify is_endpoint
register m s key pid now h = (
  returns pid,
  dispatch_notify (autoscale_decision (is_endpoint m.pilot) pid key m.member_id) (
      launch m.pilot pid now
        (persist (with_pool (set_pilot pid (new_pilot h.pool m s key pid now) h.pool) h))),
)

unfoldable pub adopt_once :
    PilotMode
    → List PilotRecord
    → PoolMember
    → PilotSize
    → String
    → String
    → ℕ
    → Host
    → Outcome String × Host
unfolding register
adopt_once submit live m s key pid now h = register m s key pid now h
adopt_once endpoint [] m s key pid now h = register m s key pid now h
adopt_once endpoint (p ∷ ps) m s key pid now h = (returns p.pid, h)

unfoldable pub with_size :
    Option PilotSize → PoolMember → String → String → ℕ → Host → Outcome String × Host
unfolding adopt_once
with_size none m key pid now h = (raised, h)
with_size (some s) m key pid now h =
    adopt_once m.pilot (live_pilots_for h.pool m.member_id) m s key pid now h

unfoldable pub with_member :
    Option PoolMember → Option String → String → ℕ → Host → Outcome String × Host
unfolding with_size
with_member none key pid now h = (raised, h)
with_member (some m) key pid now h =
    let k = if or_default key "" == "" then m.default_size else or_default key "" in
    with_size (lookup k m.pilot_sizes) m k pid now h

-- `_submit_pilot`; `raised` is a KeyError of an unknown member or size.
unfoldable pub submit_pilot :
    Option String → Option String → String → ℕ → Host → Outcome String × Host
unfolding with_member
submit_pilot key mid pid now h =
    with_member
      (if or_default mid "" == ""
        then primary_member h.pool.config
        else Config.member h.pool.config (or_default mid ""))
      key pid now h

unfoldable pub noted : String → ℕ → Outcome String × Host → Host
unfolding note_submit
noted mid now (raised, h) = h
noted mid now (returns pid, h) = record h { policy = note_submit mid now h.policy }

unfoldable pub request : Outcome (Option PoolMember) → String → ℕ → Host → Host
unfolding noted submit_pilot
request raised pid now h = h
request (returns none) pid now h = h
request (returns (some m)) pid now h =
    noted m.member_id now (submit_pilot none (some m.member_id) pid now h)

-- One tick of the policy: at most one pilot is requested, under the given fresh id.
unfoldable pub tick : String → ℕ → Host → Host
unfolding request on_tick
tick pid now h =
    let (choice, policy) = on_tick h.policy h.pool now in
    request choice pid now (record h { policy = policy })
