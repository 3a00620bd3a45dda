-- ===== src/Dispatcher.antt =====
-- src/radical/orbit/plugin_task_dispatcher.py: the dispatcher of one pool, with its ledger, its
-- notifications and the coroutines that it schedules. A handler runs to its next `await` without
-- interruption; what runs at one reading of the clock has the time as an argument.
pub mod Frames
pub mod Ending
pub mod Claims
pub mod Terminal
pub mod Pilots
pub mod Quiet
pub mod Slots
pub mod Sound
use radical_orbit.Prelude.{
  ℕ, ◌+◌, ◌-◌, ◌/◌, min, String, ap, Bool, true, false, not, ◌&&◌, ◌||◌, Option, none, some, List,
  [], ◌∷◌, ◌++◌, ltb, leb, nat_beq, if◌then◌else◌, is_some, length, keep, In, is_some, ◌==◌, nat_eq,
  string_eq, option_eq, pair_eq,
}
use radical_orbit.Prelude.Count.{bit}
use radical_orbit.Prelude.Dict.{Dict, insert, keys}
use radical_orbit.Prelude.Int.{ℤ, int_eq}
use radical_orbit.Values.{Fields, field_names, contains}
use radical_orbit.State.{PilotState, PilotRecord, TaskState, TaskRecord}
use radical_orbit.Pool.{PoolState}
use radical_orbit.Conservative.{ConservativePolicy}

-- A record of the pool is shared by all its holders: the model keeps it under its id.
unfoldable pub set_task : String → TaskRecord → PoolState → PoolState
set_task tid t ps = record ps { tasks = insert tid t ps.tasks }

unfoldable pub set_pilot : String → PilotRecord → PoolState → PoolState
set_pilot pid p ps = record ps { pilots = insert pid p ps.pilots }

-- One task of a rhapsody notification. `forwarded` holds the fields of the event that are passed on.
pub record Payload : Type 0 where
  pub uid : String
  pub state : TaskState
  pub forwarded : Fields
  pub error : Option String
  pub exit_code : Option ℤ

-- A frame that `_dispatch_notify` sends.
pub data Notice : Type 0 where
  pilot_status : String → PilotState → Option String → Notice
  task_status : TaskRecord → Notice
  endpoint_task : String → String → TaskState → Option ℤ → Option String → Notice
  rh_status : Payload → Notice
  rh_batch : List Payload → Notice
  autoscale_decision : Bool → String → String → String → Notice

-- A coroutine that was scheduled.
pub data Job : Type 0 where
  submit_pilot_job : String → Job
  submit_tasks : String → List String → Job
  flush_later : ℕ → Job

pub data Liveness : Type 0 where
  present suspect lost : Liveness

-- What the code outside `src` and the environment provide: the size of a payload as JSON, the fields
-- of an event that rhapsody consumers read, whether a directory can be made, and `~` expanded.
pub record Settings : Type 0 where
  pub payload_size : Payload → ℕ
  pub forward_keys : List String
  pub make_dir : String → Bool
  pub expand_user : String → String
  pub notify_window : ℕ
  pub notify_batch_bytes : ℕ

pub record Ledger : Type 0 where
  pub pilots : Dict String PilotRecord
  pub tasks : Dict String TaskRecord

-- `uid_to_task` gives session, pool and task id of a rhapsody uid.
pub record Host : Type 0 where
  pub settings : Settings
  pub pool : PoolState
  pub policy : ConservativePolicy
  pub uid_to_task : Dict String (String × String × String)
  pub endpoint_mode_tasks : Dict String String
  pub connected_endpoints : Dict String (List String)
  pub participants : Dict String Liveness
  pub rh_notify_buf : List Payload
  pub rh_flush_scheduled : Bool
  pub dirty : Bool
  pub ledger : Ledger
  pub outbox : List Notice
  pub jobs : List Job

unfoldable pub dispatch_notify : Notice → Host → Host
dispatch_notify n h = record h { outbox = h.outbox ++ (n ∷ []) }

unfoldable pub create_task : Job → Host → Host
create_task j h = record h { jobs = h.jobs ++ (j ∷ []) }

-- `PoolState.persist`
unfoldable pub persist : Host → Host
persist h = record h { ledger = record { pilots = h.pool.pilots; tasks = h.pool.tasks } }

abbrev pub with_pool : PoolState → Host → Host
with_pool ps h = record h { pool = ps }

-- `_find_pool`, of the one pool there is.
unfoldable pub is_own_pool : Host → String → String → Bool
is_own_pool h sid name = h.pool.owning_sid == sid && h.pool.config.name == name

abbrev notify_batch_size : ℕ
notify_batch_size = 1024

abbrev pub sum_sizes : (Payload → ℕ) → List Payload → ℕ
sum_sizes size [] = 0
sum_sizes size (p ∷ ps) = size p + sum_sizes size ps

-- The frames of a flush: a frame is closed when the next payload would exceed the budget.
unfoldable pub split_frames :
    (Payload → ℕ) → ℕ → List Payload → ℕ → List Payload → List (List Payload)
split_frames size budget frame nbytes [] = frame ∷ []
split_frames size budget [] nbytes (p ∷ ps) = split_frames size budget (p ∷ []) (nbytes + size p) ps
split_frames size budget (f ∷ fs) nbytes (p ∷ ps) =
    let closed = split_frames size budget (p ∷ []) (size p) ps in
    let grown = split_frames size budget (f ∷ fs ++ (p ∷ [])) (nbytes + size p) ps in
    if ltb budget (nbytes + size p) then (f ∷ fs) ∷ closed else grown

send_frame : List Payload → Host → Host
unfolding dispatch_notify
send_frame [] h = h
send_frame (p ∷ []) h = dispatch_notify (rh_status p) h
send_frame (p ∷ q ∷ ps) h = dispatch_notify (rh_batch (p ∷ q ∷ ps)) h

send_frames : List (List Payload) → Host → Host
unfolding send_frame
send_frames [] h = h
send_frames (f ∷ fs) h = send_frames fs (send_frame f h)

send_batch : List Payload → Host → Host
unfolding send_frames split_frames
send_batch [] h = h
send_batch (p ∷ ps) h =
    send_frames (split_frames h.settings.payload_size h.settings.notify_batch_bytes [] 0 (p ∷ ps)) h

-- `_flush_rh`
unfoldable pub flush_rh : Host → Host
unfolding persist send_batch
flush_rh h =
    let emptied = record h { rh_flush_scheduled = false; rh_notify_buf = []; dirty = false } in
    send_batch h.rh_notify_buf (if h.dirty then persist emptied else emptied)

-- `_schedule_rh_flush`
unfoldable pub schedule_rh_flush : Host → Host
unfolding create_task
schedule_rh_flush h =
    if h.rh_flush_scheduled
    then h
    else create_task (flush_later h.settings.notify_window) (record h { rh_flush_scheduled = true })

-- `_queue_rh_notification`
unfoldable pub queue_rh_notification : Payload → Host → Host
unfolding flush_rh schedule_rh_flush
queue_rh_notification p h =
    let buffered = record h { rh_notify_buf = h.rh_notify_buf ++ (p ∷ []) } in
    if leb notify_batch_size (length buffered.rh_notify_buf)
      || leb h.settings.notify_batch_bytes
          (sum_sizes h.settings.payload_size buffered.rh_notify_buf)
    then flush_rh buffered
    else schedule_rh_flush buffered

-- `_mark_dirty`
unfoldable pub mark_dirty : Host → Host
unfolding persist schedule_rh_flush
mark_dirty h =
    if nat_beq h.settings.notify_window 0
    then persist h
    else schedule_rh_flush (record h { dirty = true })

pick_fields : List String → Fields → Fields
pick_fields ks Fields.end = Fields.end
pick_fields ks (Fields.field k v fs) =
    let rest = pick_fields ks fs in if contains ks k then Fields.field k v rest else rest

-- payload.setdefault(key, value), where nothing is set for None.
abbrev unless_given : {A : Type 0} → String → Fields → Option A → Option A
unless_given k fs o = if contains (field_names fs) k then none else o

notify_by : Bool → TaskRecord → Fields → Host → Host
unfolding dispatch_notify queue_rh_notification pick_fields
notify_by false t child h = dispatch_notify (task_status t) h
notify_by true t child h =
    let fwd = pick_fields h.settings.forward_keys child in
    queue_rh_notification
      (record {
        uid = t.task_id;
        state = t.state;
        forwarded = fwd;
        error = unless_given "error" fwd t.error;
        exit_code = unless_given "exit_code" fwd t.exit_code;
      })
      h

-- `_notify_task`: a task in the rhapsody dialect is buffered, any other is notified at once.
unfoldable pub notify_task : TaskRecord → Fields → Host → Host
unfolding notify_by
notify_task t child h = notify_by (is_some t.task_dict) t child h
