-- ===== src/Dispatcher/Sound/Reports.antt =====
-- plugin_task_dispatcher.py: `_on_event` with all that it calls, and the ledger.
use radical_orbit.Prelude.{
  ℕ, String, ◌≡◌, refl, sym, subst, ◌∙◌, ◌≢◌, ◌⊎◌, inl, inr, true, false, Option, none, some, List,
  [], ◌∷◌, arith, Bool-cases, Option-cases, ◌==◌, nat_eq, string_eq, option_eq, pair_eq,
}
use radical_orbit.Prelude.Dict.{lookup, remove}
use radical_orbit.Prelude.Int.{int_eq}
use radical_orbit.Prelude.Keyed.{key-lookup}
use radical_orbit.State.{TaskState, TaskRecord, is_terminal_task, is_running, is_queued}
use radical_orbit.Pool.{PoolState}
use radical_orbit.Dispatcher.{Host, dispatch_notify, is_own_pool}
use radical_orbit.Dispatcher.Ending.{end_task}
use radical_orbit.Dispatcher.Quiet.{pool-notified}
use radical_orbit.Dispatcher.Terminal.{
  TaskEvent, TapEvent, rhapsody_status, rhapsody_batch, other_event, reported_task, end_reported,
  end_mapped, end_by_mode, handle_task_terminal, target_state, status_of, on_task_status,
  on_statuses, on_event,
}
use radical_orbit.Dispatcher.Sound.{IsSound, end_task-IsSound, set_task-IsSound}
use radical_orbit.Dispatcher.Sound.Drain.{drain_pending-IsSound}
use radical_orbit.Dispatcher.Sound.Claim.{end_task-none}

live_cases :
    (s : TaskState) → is_terminal_task s ≡ false → (is_running s ≡ true) ⊎ (is_queued s ≡ true)
live_cases TaskState.queued h = inr refl
live_cases TaskState.running h = inl refl
live_cases TaskState.done h = ground arith
live_cases TaskState.failed h = ground arith
live_cases TaskState.canceled h = ground arith

terminal_idle :
    (s : TaskState) → is_terminal_task s ≡ true → (is_running s ≡ false) × (is_queued s ≡ false)
terminal_idle s h = (ground arith, ground arith)

-- A task that has not ended ends, wherever it is.
pub end_live-IsSound :
    (tid : String) (t ended : TaskRecord) (ps : PoolState)
    → IsSound ps
    → lookup tid ps.tasks ≡ some t
    → is_terminal_task t.state ≡ false
    → is_terminal_task ended.state ≡ true
    → ended.task_id ≡ t.task_id
    → IsSound (end_task tid ended t.pilot_id ps)
end_live-IsSound tid t ended ps sound h live over key = elim (live_cases t.state live) [
  | inl run ↦ end_task-IsSound tid t ended ps sound h run over own_key
  | inr que ↦
      subst (λ o. IsSound (end_task tid ended o ps)) (sym ((sound.3 tid t h).1 que))
        (subst IsSound (sym (end_task-none tid ended ps sound.0.0)) (
          set_task-IsSound tid t ended ps sound h (not_running t.state que)
            (terminal_idle ended.state over).0 (λ q. absurd (clash ended.state over q)) own_key))
]
  where
    own_key : ended.task_id ≡ tid
    own_key = key ∙ key-lookup (λ t. t.task_id) tid t ps.tasks sound.2 h

    not_running : (s : TaskState) → is_queued s ≡ true → is_running s ≡ false
    not_running s q = ground arith

    clash : (s : TaskState) → is_terminal_task s ≡ true → is_queued s ≢ true
    clash s o q = ground arith

end_reported-IsSound :
    (tid : String) (o : Option TaskRecord) (target : TaskState) (ev : TaskEvent) (now : ℕ)
    (h : Host)
    → o ≡ lookup tid h.pool.tasks
    → is_terminal_task target ≡ true
    → IsSound h.pool
    → IsSound (end_reported tid o target ev now h).pool
unfolding end_reported
end_reported-IsSound tid none target ev now h e over sound = sound
end_reported-IsSound tid (some t) target ev now h e over sound =
    elim (Bool-cases (is_terminal_task t.state)) [
      | inl ended ↦ rw ended sound
      | inr live ↦ rw live (
          drain_pending-IsSound now _ (
            subst IsSound (sym (pool-notified (reported_task t target ev now) ev.fields _ h)) (
              end_live-IsSound tid t (reported_task t target ev now) h.pool sound (sym e) live over
                refl)))
    ]

end_mapped-IsSound :
    (uid : String) (o : Option (String × String × String)) (target : TaskState) (ev : TaskEvent)
    (now : ℕ) (h : Host)
    → is_terminal_task target ≡ true
    → IsSound h.pool
    → IsSound (end_mapped uid o target ev now h).pool
unfolding end_mapped
end_mapped-IsSound uid none target ev now h over sound = sound
end_mapped-IsSound uid (some (sid, name, tid)) target ev now h over sound =
    elim (Bool-cases (is_own_pool h sid name)) [
      | inl own ↦ rw own (
          end_reported-IsSound tid (lookup tid h.pool.tasks) target ev now
            (record h { uid_to_task = remove uid h.uid_to_task }) refl over sound)
      | inr other ↦ rw other sound
    ]

handle_task_terminal-IsSound :
    (uid : String) (target : TaskState) (ev : TaskEvent) (now : ℕ) (h : Host)
    → is_terminal_task target ≡ true
    → IsSound h.pool
    → IsSound (handle_task_terminal uid target ev now h).pool
unfolding handle_task_terminal end_by_mode dispatch_notify
handle_task_terminal-IsSound uid target ev now h over sound =
    elim (Option-cases (lookup uid h.endpoint_mode_tasks)) [
      | inl e ↦ rw e (end_mapped-IsSound uid (lookup uid h.uid_to_task) target ev now h over sound)
      | inr (endpoint, e) ↦ rw e sound
    ]

target_state-terminal :
    (s : String) (target : TaskState)
    → target_state s ≡ some target
    → is_terminal_task target ≡ true
unfolding target_state
target_state-terminal s target h = ground arith

status_of-IsSound :
    (uid : Option String) (o : Option TaskState) (ev : TaskEvent) (now : ℕ) (h : Host)
    → target_state ev.state ≡ o
    → IsSound h.pool
    → IsSound (status_of uid o ev now h).pool
unfolding status_of
status_of-IsSound none o ev now h e sound = sound
status_of-IsSound (some uid) none ev now h e sound = sound
status_of-IsSound (some uid) (some target) ev now h e sound = elim (Bool-cases (uid == "")) [
  | inl none_ ↦ rw none_ sound
  | inr given ↦ rw given (
      handle_task_terminal-IsSound uid target ev now h (target_state-terminal ev.state target e)
        sound)
]

on_statuses-IsSound :
    (evs : List TaskEvent) (now : ℕ) (h : Host)
    → IsSound h.pool
    → IsSound (on_statuses evs now h).pool
unfolding on_statuses on_task_status
on_statuses-IsSound [] now h sound = sound
on_statuses-IsSound (ev ∷ evs) now h sound =
    on_statuses-IsSound evs now (on_task_status ev now h)
      (status_of-IsSound ev.uid (target_state ev.state) ev now h refl sound)

-- Any event of the broker keeps the ledger sound: also one for an unknown, an ended or a re-queued
-- task, one that repeats, and a batch; the dispatches that follow are included.
pub on_event-IsSound :
    (ev : TapEvent) (now : ℕ) (h : Host) → IsSound h.pool → IsSound (on_event ev now h).pool
unfolding on_event on_task_status
on_event-IsSound (rhapsody_status ev) now h sound =
    status_of-IsSound ev.uid (target_state ev.state) ev now h refl sound
on_event-IsSound (rhapsody_batch evs) now h sound = on_statuses-IsSound evs now h sound
on_event-IsSound other_event now h sound = sound
