-- ===== src/Dispatcher/Terminal.antt =====
-- plugin_task_dispatcher.py, `_on_event`, `_on_task_status` and `_handle_task_terminal`: what a
-- pilot's rhapsody reports of a task.
use radical_orbit.Prelude.{
  ℕ, String, Option, none, some, List, [], ◌∷◌, if◌then◌else◌, ◌==◌, nat_eq, string_eq, option_eq,
  pair_eq,
}
use radical_orbit.Prelude.Dict.{lookup, remove}
use radical_orbit.Prelude.Int.{ℤ, int_eq}
use radical_orbit.Values.{Fields}
use radical_orbit.State.{TaskState, TaskRecord, is_terminal_task}
use radical_orbit.Dispatcher.{
  Host, endpoint_task, is_own_pool, with_pool, dispatch_notify, mark_dirty, notify_task,
}
use radical_orbit.Dispatcher.Ending.{end_task}
use radical_orbit.Dispatcher.Claims.{drain_pending}

-- One status item; `state` is in upper case already.
pub record TaskEvent : Type 0 where
  pub uid : Option String
  pub state : String
  pub exit_code : Option ℤ
  pub error : Option String
  pub fields : Fields

-- A raw event of the broker, by plugin and topic.
pub data TapEvent : Type 0 where
  rhapsody_status : TaskEvent → TapEvent
  rhapsody_batch : List TaskEvent → TapEvent
  other_event : TapEvent

abbrev pub reported_task : TaskRecord → TaskState → TaskEvent → ℕ → TaskRecord
reported_task t target ev now = record t {
  state = target;
  exit_code = ev.exit_code;
  error = ev.error;
  finished_at = some now;
}

unfoldable pub end_reported : String → Option TaskRecord → TaskState → TaskEvent → ℕ → Host → Host
unfolding end_task mark_dirty notify_task drain_pending
end_reported tid none target ev now h = h
end_reported tid (some t) target ev now h =
    if is_terminal_task t.state
    then h
    else drain_pending now (
        notify_task (reported_task t target ev now) ev.fields (
          mark_dirty
            (with_pool (end_task tid (reported_task t target ev now) t.pilot_id h.pool) h)))

unfoldable pub end_mapped :
    String → Option (String × String × String) → TaskState → TaskEvent → ℕ → Host → Host
unfolding end_reported is_own_pool
end_mapped uid none target ev now h = h
end_mapped uid (some (sid, name, tid)) target ev now h =
    let popped = record h { uid_to_task = remove uid h.uid_to_task } in
    if is_own_pool h sid name
    then end_reported tid (lookup tid h.pool.tasks) target ev now popped
    else popped

unfoldable pub end_by_mode : String → Option String → TaskState → TaskEvent → ℕ → Host → Host
unfolding end_mapped dispatch_notify
end_by_mode uid none target ev now h = end_mapped uid (lookup uid h.uid_to_task) target ev now h
end_by_mode uid (some endpoint) target ev now h =
    dispatch_notify (endpoint_task uid endpoint target ev.exit_code ev.error)
      (record h { endpoint_mode_tasks = remove uid h.endpoint_mode_tasks })

-- `_handle_task_terminal`
unfoldable pub handle_task_terminal : String → TaskState → TaskEvent → ℕ → Host → Host
unfolding end_by_mode
handle_task_terminal uid target ev now h =
    end_by_mode uid (lookup uid h.endpoint_mode_tasks) target ev now h

unfoldable pub target_state : String → Option TaskState
target_state s =
    if s == "DONE"
    then some TaskState.done
    else if s == "COMPLETED"
    then some TaskState.done
    else if s == "FAILED"
    then some TaskState.failed
    else if s == "CANCELED"
    then some TaskState.canceled
    else none

unfoldable pub status_of : Option String → Option TaskState → TaskEvent → ℕ → Host → Host
unfolding handle_task_terminal
status_of none target ev now h = h
status_of (some uid) none ev now h = h
status_of (some uid) (some target) ev now h =
    if uid == "" then h else handle_task_terminal uid target ev now h

-- `_on_task_status`
unfoldable pub on_task_status : TaskEvent → ℕ → Host → Host
unfolding status_of target_state
on_task_status ev now h = status_of ev.uid (target_state ev.state) ev now h

unfoldable pub on_statuses : List TaskEvent → ℕ → Host → Host
unfolding on_task_status
on_statuses [] now h = h
on_statuses (ev ∷ evs) now h = on_statuses evs now (on_task_status ev now h)

-- `_on_event`
unfoldable pub on_event : TapEvent → ℕ → Host → Host
unfolding on_statuses on_task_status
on_event (rhapsody_status ev) now h = on_task_status ev now h
on_event (rhapsody_batch evs) now h = on_statuses evs now h
on_event other_event now h = h
