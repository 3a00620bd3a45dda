-- ===== src/Dispatcher/Pilots.antt =====
-- plugin_task_dispatcher.py: the life of a pilot, from its handshake to its end.
pub mod Submit
use radical_orbit.Prelude.{
  ℕ, zero, ◌+◌, ◌-◌, ◌*◌, max, min, String, ap, Bool, true, false, not, ◌&&◌, ◌||◌, Option, none,
  some, List, [], ◌∷◌, map, ltb, leb, nat_beq, if◌then◌else◌, or_default, In, ◌==◌, nat_eq,
  string_eq, option_eq, pair_eq,
}
use radical_orbit.Prelude.Count.{bit}
use radical_orbit.Prelude.Dict.{Dict, lookup, remove, keys}
use radical_orbit.Prelude.Int.{int_eq}
use radical_orbit.Prelude.Texts.{clip}
use radical_orbit.Values.{Fields, contains}
use radical_orbit.State.{
  is_queued, PilotState, PilotRecord, TaskState, TaskRecord, is_terminal_task, is_terminal_pilot,
  is_active, is_pre_active, is_failed,
}
use radical_orbit.Pool.{PoolState}
use radical_orbit.Conservative.{on_pilot_state}
use radical_orbit.Dispatcher.{
  Host, Notice, pilot_status, task_status, Liveness, present, suspect, lost, set_task, set_pilot,
  with_pool, persist, dispatch_notify,
}
use radical_orbit.Dispatcher.Ending.{mark_task_failed}
use radical_orbit.Dispatcher.Claims.{drain_pending}

abbrev pilot_error_max : ℕ
pilot_error_max = 300

unfoldable pub stamp : PilotRecord → PilotState → String → ℕ → PilotRecord
stamp p new reason now = record p {
  state = new;
  error =
      if is_failed new && not (reason == "") then some (clip pilot_error_max reason) else p.error;
  finished_at = some (or_default p.finished_at now);
}

abbrev pub requeued_task : TaskRecord → TaskRecord
requeued_task t = record t {
  rhapsody_uid = none;
  requeues = t.requeues + 1;
  pilot_id = none;
  member_id = none;
}

-- The uid leaves the mapping, if the task has one.
unfoldable pub forget_uid : Option String → Host → Host
forget_uid none h = h
forget_uid (some uid) h =
    if uid == "" then h else record h { uid_to_task = remove uid h.uid_to_task }

unfoldable pub settle : String → TaskRecord → Host → ℕ → Host
unfolding set_task mark_task_failed dispatch_notify
settle tid t h now =
    if ltb h.policy.max_requeues t.requeues
    then mark_task_failed tid "requeued too often (pilot lost)" now
        (with_pool (set_task tid t h.pool) h)
    else dispatch_notify (task_status (record t { state = TaskState.queued }))
        (with_pool (set_task tid (record t { state = TaskState.queued }) h.pool) h)

unfoldable pub reclaim_task : String → TaskRecord → ℕ → Host → Host
unfolding settle forget_uid
reclaim_task tid t now h = settle tid (requeued_task t) (forget_uid t.rhapsody_uid h) now

unfoldable pub holds_task : String → TaskRecord → Bool
holds_task pid t = t.pilot_id == some pid && not (is_terminal_task t.state)

-- The loop over the tasks, as they were when it began.
unfoldable pub reclaim_tasks : String → Dict String TaskRecord → ℕ → Host → Host
unfolding reclaim_task holds_task
reclaim_tasks pid [] now h = h
reclaim_tasks pid ((tid, t) ∷ ts) now h =
    reclaim_tasks pid ts now (if holds_task pid t then reclaim_task tid t now h else h)

unfoldable pub signal : PilotRecord → PilotState → PilotState → ℕ → Host → Host
signal p old new now h = record h { policy = on_pilot_state p old new now h.policy }

unfoldable pub finalize_found : String → Option PilotRecord → PilotState → String → ℕ → Host → Host
unfolding stamp reclaim_tasks set_pilot dispatch_notify persist signal
finalize_found pid none new reason now h = h
finalize_found pid (some p) new reason now h =
    let ended = stamp p new reason now in
    let told =
      dispatch_notify (pilot_status pid new (some reason))
        (with_pool (set_pilot pid ended h.pool) h) in
    signal ended p.state new now (persist (reclaim_tasks pid told.pool.tasks now told))

-- `_finalize_pilot`
unfoldable pub finalize_pilot : String → PilotState → String → ℕ → Host → Host
unfolding finalize_found
finalize_pilot pid new reason now h = finalize_found pid (lookup pid h.pool.pilots) new reason now h

unfoldable pub mark_pilot_failed : String → String → ℕ → Host → Host
unfolding finalize_pilot
mark_pilot_failed pid reason now h = finalize_pilot pid PilotState.failed reason now h

unfoldable pub mark_pilot_done : String → String → ℕ → Host → Host
unfolding finalize_pilot
mark_pilot_done pid reason now h = finalize_pilot pid PilotState.done reason now h

unfoldable pub serves_rhapsody : Host → PilotRecord → Bool
serves_rhapsody h p =
    contains (or_default (lookup (or_default p.child_endpoint_name "") h.connected_endpoints) [])
      "rhapsody"

unfoldable pub bind_pilot : String → PilotRecord → ℕ → Host → Host
unfolding set_pilot persist dispatch_notify signal drain_pending
bind_pilot pid p now h =
    let bound = record p {
      capacity = p.nodes * p.cpus_per_node;
      state = PilotState.active;
      active_at = some now;
    } in
    drain_pending now (
      signal bound p.state PilotState.active now (
        dispatch_notify (pilot_status pid PilotState.active none)
          (persist (with_pool (set_pilot pid bound h.pool) h))))

-- `_activate_pilot`
unfoldable pub activate_pilot : String → PilotRecord → ℕ → Host → Host
unfolding bind_pilot serves_rhapsody mark_pilot_failed
activate_pilot pid p now h =
    if nat_beq (p.nodes * p.cpus_per_node) 0
    then (if p.adopted then mark_pilot_failed pid "pilot size has zero capacity" now h else h)
    else if p.adopted && not (serves_rhapsody h p)
    then mark_pilot_failed pid "endpoint serves no rhapsody" now h
    else bind_pilot pid p now h

unfoldable pub resume_or_activate : String → PilotRecord → ℕ → Host → Host
unfolding activate_pilot set_pilot persist drain_pending
resume_or_activate pid p now h =
    if is_pre_active p.state
    then activate_pilot pid p now h
    else if is_active p.state && not p.accepting_new_tasks
    then drain_pending now
        (persist (with_pool (set_pilot pid (record p { accepting_new_tasks = true }) h.pool) h))
    else h

unfoldable pub pause : String → PilotRecord → Host → Host
unfolding set_pilot persist
pause pid p h =
    if is_active p.state && p.accepting_new_tasks
    then persist (with_pool (set_pilot pid (record p { accepting_new_tasks = false }) h.pool) h)
    else h

unfoldable pub lose : String → PilotRecord → ℕ → Host → Host
unfolding mark_pilot_done mark_pilot_failed drain_pending
lose pid p now h = drain_pending now (
    if p.adopted
    then mark_pilot_done pid "adopted endpoint gone" now h
    else if leb p.walltime_deadline now
    then mark_pilot_done pid "walltime reached" now h
    else mark_pilot_failed pid "child endpoint lost before walltime" now h)

unfoldable pub apply_liveness : String → PilotRecord → Option Liveness → ℕ → Host → Host
unfolding resume_or_activate pause lose
apply_liveness pid p none now h = h
apply_liveness pid p (some present) now h = resume_or_activate pid p now h
apply_liveness pid p (some suspect) now h = pause pid p h
apply_liveness pid p (some lost) now h = lose pid p now h

unfoldable pub reconcile_found :
    String → Option PilotRecord → Dict String Liveness → ℕ → Host → Host
unfolding apply_liveness
reconcile_found pid none seen now h = h
reconcile_found pid (some p) seen now h =
    if or_default p.child_endpoint_name "" == "" || is_terminal_pilot p.state
    then h
    else apply_liveness pid p (lookup (or_default p.child_endpoint_name "") seen) now h

-- The loop over the pilots' ids, as they were when it began; each record is read when its turn comes.
unfoldable pub reconcile_each : List String → Dict String Liveness → ℕ → Host → Host
unfolding reconcile_found
reconcile_each [] seen now h = h
reconcile_each (pid ∷ pids) seen now h =
    reconcile_each pids seen now (reconcile_found pid (lookup pid h.pool.pilots) seen now h)

-- `_reconcile_pilots_for`
unfoldable pub reconcile_pilots_for : Dict String Liveness → ℕ → Host → Host
unfolding reconcile_each
reconcile_pilots_for seen now h = reconcile_each (keys h.pool.pilots) seen now h
