-- ===== src/Dispatcher/Ending.antt =====
-- plugin_task_dispatcher.py: how one task ends before its pilot reports it. A cancel of a RUNNING
-- task awaits the pilot's endpoint in between, and so it is two steps.
use radical_orbit.Prelude.{
  ℕ, ◌-◌, String, Option, none, some, if◌then◌else◌, or_default, is_some, is_some, nat_eq,
  string_eq, option_eq, pair_eq,
}
use radical_orbit.Prelude.Dict.{lookup}
use radical_orbit.Prelude.Int.{int_eq}
use radical_orbit.Values.{Fields}
use radical_orbit.State.{PilotRecord, TaskState, TaskRecord, is_terminal_task, is_queued}
use radical_orbit.Pool.{PoolState, drop_spool}
use radical_orbit.Dispatcher.{Host, set_task, set_pilot, with_pool, mark_dirty, notify_task}

unfoldable pub unslot : String → Option PilotRecord → PoolState → PoolState
unfolding set_pilot
unslot pid none ps = ps
unslot pid (some p) ps = set_pilot pid (record p { in_flight = p.in_flight - 1 }) ps

-- pilot = pilots.get(pilot_id or ''); if there is one, its in_flight falls, not below 0.
unfoldable pub free_slot : Option String → PoolState → PoolState
unfolding unslot
free_slot owner ps = unslot (or_default owner "") (lookup (or_default owner "") ps.pilots) ps

-- What every end of a task does to the pool: `slot` is the pilot whose slot is freed, if any.
unfoldable pub end_task : String → TaskRecord → Option String → PoolState → PoolState
unfolding set_task free_slot
end_task tid ended slot ps = free_slot slot (drop_spool tid (set_task tid ended ps))

abbrev pub failed_task : TaskRecord → String → ℕ → TaskRecord
failed_task t reason now = record t {
  state = TaskState.failed;
  error = some reason;
  finished_at = some now;
}

abbrev pub canceled_task : TaskRecord → ℕ → TaskRecord
canceled_task t now = record t { state = TaskState.canceled; finished_at = some now }

unfoldable pub fail_found : String → Option TaskRecord → String → ℕ → Host → Host
unfolding end_task mark_dirty notify_task
fail_found tid none reason now h = h
fail_found tid (some t) reason now h =
    notify_task (failed_task t reason now) Fields.end
      (mark_dirty (with_pool (end_task tid (failed_task t reason now) t.pilot_id h.pool) h))

-- `_mark_task_failed`
unfoldable pub mark_task_failed : String → String → ℕ → Host → Host
unfolding fail_found
mark_task_failed tid reason now h = fail_found tid (lookup tid h.pool.tasks) reason now h

-- What `_cancel_task` awaits: the cancel of this uid on this pilot. `none`: it is finished.
abbrev pub CancelWait : Type 0
CancelWait = Option (Option String)

unfoldable pub cancel_queued : String → TaskRecord → ℕ → Host → Host
unfolding set_task mark_dirty notify_task
cancel_queued tid t now h =
    notify_task (canceled_task t now) Fields.end
      (mark_dirty (with_pool (drop_spool tid (set_task tid (canceled_task t now) h.pool)) h))

present_pilot : PoolState → Option String → Option String
present_pilot ps owner =
    if is_some (lookup (or_default owner "") ps.pilots) then some (or_default owner "") else none

unfoldable pub begin_found : String → Option TaskRecord → ℕ → Host → Host × CancelWait
unfolding cancel_queued present_pilot
begin_found tid none now h = (h, none)
begin_found tid (some t) now h =
    if is_terminal_task t.state
    then (h, none)
    else if is_queued t.state
    then (cancel_queued tid t now h, none)
    else (h, some (present_pilot h.pool t.pilot_id))

-- `_cancel_task` up to its await, with the pilot that it looked up.
unfoldable pub begin_cancel : String → ℕ → Host → Host × CancelWait
unfolding begin_found
begin_cancel tid now h = begin_found tid (lookup tid h.pool.tasks) now h

unfoldable pub finish_found : String → Option TaskRecord → Option String → ℕ → Host → Host
unfolding end_task mark_dirty notify_task
finish_found tid none pilot now h = h
finish_found tid (some t) pilot now h =
    notify_task (canceled_task t now) Fields.end
      (mark_dirty (with_pool (end_task tid (canceled_task t now) pilot h.pool) h))

-- `_cancel_task` after its await: it does not look at the task's state again.
unfoldable pub finish_cancel : String → Option String → ℕ → Host → Host
unfolding finish_found
finish_cancel tid pilot now h = finish_found tid (lookup tid h.pool.tasks) pilot now h
