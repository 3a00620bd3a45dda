-- ===== src/Dispatcher/Quiet.antt =====
-- plugin_task_dispatcher.py: the pool across notifications, flushes and persists.
use radical_orbit.Prelude.{
  ◌≡◌, refl, ◌∙◌, inl, inr, Bool, true, false, ◌||◌, List, [], ◌∷◌, ◌++◌, leb, nat_beq,
  if◌then◌else◌, Bool-cases, is_some, length, is_some, nat_eq, string_eq, option_eq, pair_eq,
}
use radical_orbit.Prelude.Int.{int_eq}
use radical_orbit.Values.{Fields}
use radical_orbit.State.{TaskRecord}
use radical_orbit.Pool.{PoolState}
use radical_orbit.Dispatcher.{
  with_pool, Host, Payload, dispatch_notify, create_task, persist, send_frame, send_frames,
  send_batch, split_frames, flush_rh, schedule_rh_flush, queue_rh_notification, mark_dirty,
  notify_batch_size, sum_sizes, notify_by, notify_task, pick_fields, unless_given,
}

pool-send_frame : (f : List Payload) (h : Host) → (send_frame f h).pool ≡ h.pool
unfolding send_frame dispatch_notify
pool-send_frame [] h = refl
pool-send_frame (p ∷ []) h = refl
pool-send_frame (p ∷ q ∷ ps) h = refl

pool-send_frames : (fs : List (List Payload)) (h : Host) → (send_frames fs h).pool ≡ h.pool
unfolding send_frames
pool-send_frames [] h = refl
pool-send_frames (f ∷ fs) h = pool-send_frames fs (send_frame f h) ∙ pool-send_frame f h

pool-send_batch : (ps : List Payload) (h : Host) → (send_batch ps h).pool ≡ h.pool
unfolding send_batch
pool-send_batch [] h = refl
pool-send_batch (p ∷ ps) h =
    pool-send_frames
      (split_frames h.settings.payload_size h.settings.notify_batch_bytes [] 0 (p ∷ ps)) h

pool-flush_rh : (h : Host) → (flush_rh h).pool ≡ h.pool
unfolding flush_rh persist
pool-flush_rh h = pool-send_batch h.rh_notify_buf _ ∙ either h.dirty
  where
    emptied : Host
    emptied = record h { rh_flush_scheduled = false; rh_notify_buf = []; dirty = false }

    either : (b : Bool) → (if b then persist emptied else emptied).pool ≡ h.pool
    either true = refl
    either false = refl

pool-schedule_rh_flush : (h : Host) → (schedule_rh_flush h).pool ≡ h.pool
unfolding schedule_rh_flush create_task
pool-schedule_rh_flush h = elim (Bool-cases h.rh_flush_scheduled) [
  | inl e ↦ rw e refl
  | inr e ↦ rw e refl
]

pool-queue_rh_notification : (p : Payload) (h : Host) → (queue_rh_notification p h).pool ≡ h.pool
unfolding queue_rh_notification
pool-queue_rh_notification p h = either (
    leb notify_batch_size (length buffered.rh_notify_buf)
    || leb h.settings.notify_batch_bytes (sum_sizes h.settings.payload_size buffered.rh_notify_buf))
  where
    buffered : Host
    buffered = record h { rh_notify_buf = h.rh_notify_buf ++ (p ∷ []) }

    either :
        (b : Bool) → (if b then flush_rh buffered else schedule_rh_flush buffered).pool ≡ h.pool
    either true = pool-flush_rh buffered
    either false = pool-schedule_rh_flush buffered

-- Marking a pool for its next persist does not change it.
pub pool-mark_dirty : (h : Host) → (mark_dirty h).pool ≡ h.pool
unfolding mark_dirty persist
pool-mark_dirty h = either (nat_beq h.settings.notify_window 0)
  where
    either :
        (b : Bool)
        → (if b then persist h else schedule_rh_flush (record h { dirty = true })).pool ≡ h.pool
    either true = refl
    either false = pool-schedule_rh_flush (record h { dirty = true })

pool-notify_by :
    (b : Bool) (t : TaskRecord) (child : Fields) (h : Host) → (notify_by b t child h).pool ≡ h.pool
unfolding notify_by dispatch_notify
pool-notify_by false t child h = refl
pool-notify_by true t child h =
    let fwd = pick_fields h.settings.forward_keys child in
    pool-queue_rh_notification
      (record {
        uid = t.task_id;
        state = t.state;
        forwarded = fwd;
        error = unless_given "error" fwd t.error;
        exit_code = unless_given "exit_code" fwd t.exit_code;
      })
      h

-- Notifying of a task does not change the pool.
pub pool-notify_task :
    (t : TaskRecord) (child : Fields) (h : Host) → (notify_task t child h).pool ≡ h.pool
unfolding notify_task
pool-notify_task t child h = pool-notify_by (is_some t.task_dict) t child h

-- The last steps of every handler that ends a task: store the pool, mark it and notify.
pub pool-notified :
    (t : TaskRecord) (child : Fields) (ps : PoolState) (h : Host)
    → (notify_task t child (mark_dirty (with_pool ps h))).pool ≡ ps
pool-notified t child ps h =
    pool-notify_task t child (mark_dirty (with_pool ps h)) ∙ pool-mark_dirty (with_pool ps h)
