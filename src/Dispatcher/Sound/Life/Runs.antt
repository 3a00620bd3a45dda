-- ===== src/Dispatcher/Sound/Life/Runs.antt =====
-- plugin_task_dispatcher.py: the handlers in every order. A coroutine is cut at its awaits.
use radical_orbit.Prelude.{
  ℕ, String, ◌≡◌, refl, sym, subst, inl, inr, true, Option, none, some, arith, Bool-cases, nat_eq,
  string_eq, option_eq, pair_eq,
}
use radical_orbit.Prelude.Dict.{Dict, lookup}
use radical_orbit.Prelude.Int.{int_eq}
use radical_orbit.Prelude.Keyed.{key-lookup}
use radical_orbit.Values.{Fields}
use radical_orbit.State.{
  PilotState, TaskRecord, is_terminal_pilot, is_running, is_terminal_task, is_queued,
}
use radical_orbit.Pool.{drop_spool}
use radical_orbit.Dispatcher.{Host, Liveness, set_task}
use radical_orbit.Dispatcher.Quiet.{pool-notified}
use radical_orbit.Dispatcher.Ending.{
  canceled_task, end_task, begin_cancel, begin_found, cancel_queued, finish_cancel,
}
use radical_orbit.Dispatcher.Claims.{drain_pending}
use radical_orbit.Dispatcher.Terminal.{TapEvent, on_event}
use radical_orbit.Dispatcher.Pilots.{reconcile_pilots_for, finalize_pilot}
use radical_orbit.Dispatcher.Pilots.Submit.{tick}
use radical_orbit.Dispatcher.Slots.Race.{pool-finish_cancel}
use radical_orbit.Dispatcher.Sound.{IsSound, end_task-IsSound, set_task-IsSound}
use radical_orbit.Dispatcher.Sound.Drain.{drain_pending-IsSound}
use radical_orbit.Dispatcher.Sound.Claim.{idle_queued}
use radical_orbit.Dispatcher.Sound.Reports.{on_event-IsSound}
use radical_orbit.Dispatcher.Sound.Loss.{finalize_pilot-IsSound}
use radical_orbit.Dispatcher.Sound.Life.{reconcile_pilots_for-IsSound}
use radical_orbit.Dispatcher.Sound.Life.Steps.{IsFresh, tick-IsSound}

cancel_queued-IsSound :
    (tid : String) (t : TaskRecord) (now : ℕ) (h : Host)
    → IsSound h.pool
    → lookup tid h.pool.tasks ≡ some t
    → is_queued t.state ≡ true
    → IsSound (cancel_queued tid t now h).pool
unfolding cancel_queued
cancel_queued-IsSound tid t now h sound e que =
    subst IsSound
      (sym (
        pool-notified (canceled_task t now) Fields.end
          (drop_spool tid (set_task tid (canceled_task t now) h.pool)) h))
      (set_task-IsSound tid t (canceled_task t now) h.pool sound e (idle_queued t.state que) refl
        (λ q. ground arith) (key-lookup (λ t. t.task_id) tid t h.pool.tasks sound.2 e))

begin_found-IsSound :
    (tid : String) (o : Option TaskRecord) (now : ℕ) (h : Host)
    → IsSound h.pool
    → lookup tid h.pool.tasks ≡ o
    → IsSound (begin_found tid o now h).0.pool
unfolding begin_found
begin_found-IsSound tid none now h sound e = sound
begin_found-IsSound tid (some t) now h sound e = elim (Bool-cases (is_terminal_task t.state)) [
  | inl over ↦ rw over sound
  | inr live ↦ rw live (elim (Bool-cases (is_queued t.state)) [
    | inl que ↦ rw que (cancel_queued-IsSound tid t now h sound e que)
    | inr run ↦ rw run sound
  ])
]

begin_cancel-IsSound :
    (tid : String) (now : ℕ) (h : Host) → IsSound h.pool → IsSound (begin_cancel tid now h).0.pool
unfolding begin_cancel
begin_cancel-IsSound tid now h sound =
    begin_found-IsSound tid (lookup tid h.pool.tasks) now h sound refl

finish_cancel-IsSound :
    (tid pid : String) (t : TaskRecord) (now : ℕ) (h : Host)
    → IsSound h.pool
    → lookup tid h.pool.tasks ≡ some t
    → is_running t.state ≡ true
    → t.pilot_id ≡ some pid
    → IsSound (finish_cancel tid (some pid) now h).pool
finish_cancel-IsSound tid pid t now h sound e run own =
    subst IsSound (sym (pool-finish_cancel tid pid t now h e)) (
      subst (λ o. IsSound (end_task tid (canceled_task t now) o h.pool)) own
        (end_task-IsSound tid t (canceled_task t now) h.pool sound e run refl
          (key-lookup (λ t. t.task_id) tid t h.pool.tasks sound.2 e)))

-- One handler, or one stretch of a coroutine between two awaits.
pub data Step : Host → Host → Type 0 where
  reported : (ev : TapEvent) (now : ℕ) (h : Host) → Step h (on_event ev now h)
  topology :
      (seen : Dict String Liveness) (now : ℕ) (h : Host) → Step h (reconcile_pilots_for seen now h)
  ticked : (pid : String) (now : ℕ) (h : Host) → IsFresh pid h → Step h (tick pid now h)
  drained : (now : ℕ) (h : Host) → Step h (drain_pending now h)
  ended :
      (pid reason : String) (new : PilotState) (now : ℕ) (h : Host)
      → is_terminal_pilot new ≡ true
      → Step h (finalize_pilot pid new reason now h)
  cancel_begun : (tid : String) (now : ℕ) (h : Host) → Step h (begin_cancel tid now h).0
  cancel_ended :
      (tid pid : String) (t : TaskRecord) (now : ℕ) (h : Host)
      → lookup tid h.pool.tasks ≡ some t
      → is_running t.state ≡ true
      → t.pilot_id ≡ some pid
      → Step h (finish_cancel tid (some pid) now h)

pub data Run : Host → Host → Type 0 where
  stays : (h : Host) → Run h h
  goes : (g h k : Host) → Run g h → Step h k → Run g k

Step-IsSound : (h k : Host) → Step h k → IsSound h.pool → IsSound k.pool
Step-IsSound h k (reported ev now g) sound = on_event-IsSound ev now g sound
Step-IsSound h k (topology seen now g) sound = reconcile_pilots_for-IsSound seen now g sound
Step-IsSound h k (ticked pid now g fresh) sound = tick-IsSound pid now g sound fresh
Step-IsSound h k (drained now g) sound = drain_pending-IsSound now g sound
Step-IsSound h k (ended pid reason new now g over) sound =
    finalize_pilot-IsSound pid reason new now g over sound
Step-IsSound h k (cancel_begun tid now g) sound = begin_cancel-IsSound tid now g sound
Step-IsSound h k (cancel_ended tid pid t now g e run own) sound =
    finish_cancel-IsSound tid pid t now g sound e run own

-- From a sound ledger, however the events, topology changes, ticks, drains, pilot ends and cancels
-- interleave, the ledger stays sound, provided that each cancel that awaited its pilot finds its
-- task still running on that pilot, and that new pilots get fresh ids.
pub run-IsSound : (h k : Host) → Run h k → IsSound h.pool → IsSound k.pool
run-IsSound h k (stays g) sound = sound
run-IsSound h k (goes f g k' run step) sound = Step-IsSound g k' step (run-IsSound f g run sound)
