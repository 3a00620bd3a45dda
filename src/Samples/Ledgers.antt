-- ===== src/Samples/Ledgers.antt =====
-- plugin_task_dispatcher.py: runs on the small pool.
use radical_orbit.Prelude.{
  ◌+◌, ◌-◌, String, ◌≡◌, refl, subst, ◌≢◌, ◌⊎◌, inl, inr, true, false, Option, none, some, List, [],
  ◌∷◌, ◌++◌, arith, if◌then◌else◌, Bool-cases, keep, All, ◌==◌, nat_eq, string_eq, str_iff,
  option_eq, pair_eq,
}
use radical_orbit.Prelude.Sorting.{sort_by}
use radical_orbit.Prelude.Count.{count}
use radical_orbit.Prelude.Dict.{Dict, lookup}
use radical_orbit.Prelude.Int.{pos, int_eq}
use radical_orbit.Prelude.Sorting.{sort_by}
use radical_orbit.Values.{Fields}
use radical_orbit.State.{PilotState, PilotRecord, TaskState, TaskRecord, is_queued, is_running}
use radical_orbit.Pool.{PoolState, pending_queue}
use radical_orbit.Dispatcher.{Host, Notice, Payload, split_frames, flush_rh, with_pool}
use radical_orbit.Dispatcher.Frames.{carried, IsFrameNotice, flush_rh_lem}
use radical_orbit.Dispatcher.Ending.{canceled_task, finish_cancel}
use radical_orbit.Dispatcher.Claims.{drain_loop, finish_drain, drain_pending}
use radical_orbit.Dispatcher.Terminal.{rhapsody_status, TaskEvent, on_event}
use radical_orbit.Dispatcher.Slots.{running_on, Slots, IsAccounted, some_same}
use radical_orbit.Dispatcher.Slots.Race.{finish_cancel-running, finish_cancel-undercounts}
use radical_orbit.Dispatcher.Sound.{IsSound, IsPlaced}
use radical_orbit.Dispatcher.Sound.Drain.{drain_pending-IsSound}
use radical_orbit.Dispatcher.Sound.Enough.{drain_pending-enough}
use radical_orbit.Dispatcher.Sound.Reports.{on_event-IsSound}
use radical_orbit.Dispatcher.{suspect}
use radical_orbit.Dispatcher.Pilots.{finalize_pilot, reconcile_pilots_for}
use radical_orbit.Dispatcher.Pilots.Submit.{submit_pilot}
use radical_orbit.Dispatcher.Sound.Life.{reconcile_pilots_for-IsSound}
use radical_orbit.Dispatcher.Sound.Life.Steps.{submit_pilot-IsSound}
use radical_orbit.Dispatcher.Sound.Life.Runs.{reported, ended, Run, stays, goes, run-IsSound}
use radical_orbit.Dispatcher.Sound.Loss.{finalize_pilot-IsSound}
use radical_orbit.Samples.{
  worker, first_task, second_task, waiting, late_task, busy_pool, busy_host,
}

some_clash {ℓ} : {A : Type ℓ} (a : A) → ◌≢◌ {A = Option A} none (some a)
some_clash a h = ground arith

worker-Slots : Slots worker 2
worker-Slots = (λ h. ground arith, λ h. refl, omega arith, λ h. ground arith)

busy_pool-IsAccounted : IsAccounted busy_pool
unfolding lookup count
busy_pool-IsAccounted = (refl, λ pid p h. at pid p (Bool-cases ("p1" == pid)) h)
  where
    at :
        (pid : String) (p : PilotRecord)
        → (("p1" == pid) ≡ true) ⊎ (("p1" == pid) ≡ false)
        → lookup pid busy_pool.pilots ≡ some p
        → Slots p (running_on pid busy_pool)
    at pid p (inl same) h =
        subst (λ q. Slots q (running_on pid busy_pool)) (some_same worker p (rw same at h))
          (subst (λ k. Slots worker (running_on k busy_pool)) ((str_iff "p1" pid).0 same)
            worker-Slots)
    at pid p (inr other) h = absurd (some_clash p (rw other at h))

abbrev PlacedIn : TaskRecord → Type 0
PlacedIn t = IsPlaced busy_pool t

running_placed : (t : TaskRecord) → is_queued t.state ≡ false → t.pilot_id ≡ some "p1" → PlacedIn t
unfolding lookup
running_placed t not_queued own = (λ r. ("p1", worker, own, refl), λ q. absurd (clash q not_queued))
  where
    clash : is_queued t.state ≡ true → is_queued t.state ≢ false
    clash q n = ground arith

queued_placed : (t : TaskRecord) → is_running t.state ≡ false → t.pilot_id ≡ none → PlacedIn t
queued_placed t idle own = (λ r. absurd (clash r idle), λ q. own)
  where
    clash : is_running t.state ≡ true → is_running t.state ≢ false
    clash q n = ground arith

-- What holds of each entry holds of whatever is found.
found_all :
    (P : TaskRecord → Type 0) (d : Dict String TaskRecord)
    → All (λ e. P e.1) d
    → (tid : String) (t : TaskRecord) → lookup tid d ≡ some t
    → P t
unfolding lookup
found_all P [] h tid t e = absurd (some_clash t e)
found_all P ((k, v) ∷ d) h tid t e = elim (Bool-cases (k == tid)) [
  | inl same ↦ subst P (some_same v t (rw same at e)) h.0
  | inr other ↦ found_all P d h.1 tid t (rw other at e)
]

busy_pool-IsSound : IsSound busy_pool
unfolding lookup
busy_pool-IsSound = (
  busy_pool-IsAccounted,
  (refl, refl, tt),
  (refl, refl, (refl, refl, (refl, refl, (refl, refl, tt)))),
  found_all PlacedIn busy_pool.tasks (
    running_placed first_task refl refl,
    (
      running_placed second_task refl refl,
      (queued_placed waiting refl refl, (queued_placed late_task refl refl, tt)),
    ),
  ),
)

drain_pending-IsSound_example : IsSound (drain_pending 50 busy_host).pool
drain_pending-IsSound_example = drain_pending-IsSound 50 busy_host busy_pool-IsSound

drain_pending-enough_example :
    finish_drain (drain_loop 7 50 busy_host []) ≡ drain_pending 50 busy_host
unfolding pending_queue sort_by keep
drain_pending-enough_example = drain_pending-enough 7 50 busy_host busy_pool-IsSound (omega arith)

abbrev first_done : TaskEvent
first_done = record {
  uid = some "u1";
  state = "DONE";
  exit_code = some (pos 0);
  error = none;
  fields = Fields.end;
}

on_event-IsSound_example : IsSound (on_event (rhapsody_status first_done) 60 busy_host).pool
on_event-IsSound_example =
    on_event-IsSound (rhapsody_status first_done) 60 busy_host busy_pool-IsSound

finish_cancel-running_example :
    let after = (finish_cancel "t1" (some "p1") 70 busy_host).pool in
    ((other : String)
      → lookup other after.tasks ≡ (
          if "t1" == other
          then some (canceled_task first_task 70)
          else lookup other busy_pool.tasks))
    × ((other : String)
        → lookup other after.pilots ≡ (
            if "p1" == other
            then some (record worker { in_flight = worker.in_flight - 1 })
            else lookup other busy_pool.pilots))
    × (running_on "p1" after + 1 ≡ running_on "p1" busy_pool)
    × IsAccounted after
unfolding lookup
finish_cancel-running_example =
    finish_cancel-running "t1" "p1" first_task worker 70 busy_host busy_pool-IsAccounted refl refl
      refl refl

abbrev ended_task : TaskRecord
ended_task = record first_task { state = TaskState.done; finished_at = some 65 }

-- The pool when the pilot has reported the end of the first task.
abbrev reported_pool : PoolState
reported_pool = record busy_pool {
  pilots = ("p1", record worker { in_flight = 1 }) ∷ [];
  tasks = ("t1", ended_task) ∷ ("t2", second_task) ∷ ("t3", waiting) ∷ ("t4", late_task) ∷ [];
}

finish_cancel-undercounts_example :
    let after = (finish_cancel "t1" (some "p1") 70 (with_pool reported_pool busy_host)).pool in
    (lookup "t1" after.tasks ≡ some (canceled_task ended_task 70))
    × (lookup "p1" after.pilots ≡ some (record worker { in_flight = 0 }))
    × (running_on "p1" after ≡ 1)
unfolding lookup count
finish_cancel-undercounts_example =
    finish_cancel-undercounts "t1" "p1" ended_task (record worker { in_flight = 1 }) 0 70
      (with_pool reported_pool busy_host) refl refl refl refl refl

abbrev payload_of : String → Payload
payload_of uid = record {
  uid = uid;
  state = TaskState.done;
  forwarded = Fields.end;
  error = none;
  exit_code = none;
}

abbrev three : List Payload
three = payload_of "a" ∷ payload_of "b" ∷ payload_of "c" ∷ []

abbrev buffering : Host
buffering = record busy_host { rh_notify_buf = three; dirty = true }

flush_rh_lem_example :
    let after = flush_rh buffering in
    ((sent : List Notice) × (after.outbox ≡ buffering.outbox ++ sent)
      × (carried sent ≡ three)
      × All (IsFrameNotice buffering.settings) sent)
    × (after.rh_notify_buf ≡ [])
    × (after.rh_flush_scheduled ≡ false)
    × (after.dirty ≡ false)
    × (after.ledger ≡ (
        if buffering.dirty
        then record { pilots = busy_pool.pilots; tasks = busy_pool.tasks }
        else buffering.ledger))
flush_rh_lem_example = flush_rh_lem buffering

two_frames :
    split_frames (λ p. 100) 250 [] 0 three
    ≡ (payload_of "a" ∷ payload_of "b" ∷ []) ∷ (payload_of "c" ∷ []) ∷ []
unfolding split_frames
two_frames = refl

finalize_pilot-IsSound_example :
    IsSound (finalize_pilot "p1" PilotState.failed "lost" 80 busy_host).pool
finalize_pilot-IsSound_example =
    finalize_pilot-IsSound "p1" "lost" PilotState.failed 80 busy_host refl busy_pool-IsSound

reconcile_pilots_for-IsSound_example :
    IsSound (reconcile_pilots_for (("site_p1", suspect) ∷ []) 90 busy_host).pool
reconcile_pilots_for-IsSound_example =
    reconcile_pilots_for-IsSound (("site_p1", suspect) ∷ []) 90 busy_host busy_pool-IsSound

submit_pilot-IsSound_example : IsSound (submit_pilot none (some "alpha") "p2" 95 busy_host).1.pool
unfolding lookup
submit_pilot-IsSound_example =
    submit_pilot-IsSound none (some "alpha") "p2" 95 busy_host busy_pool-IsSound (refl, refl)

-- The first task ends, and then the pilot is lost.
abbrev two_steps : Run busy_host (
    finalize_pilot "p1" PilotState.failed "lost" 80
      (on_event (rhapsody_status first_done) 60 busy_host))
two_steps =
    goes busy_host (on_event (rhapsody_status first_done) 60 busy_host)
      (finalize_pilot "p1" PilotState.failed "lost" 80
        (on_event (rhapsody_status first_done) 60 busy_host))
      (goes busy_host busy_host (on_event (rhapsody_status first_done) 60 busy_host)
        (stays busy_host) (reported (rhapsody_status first_done) 60 busy_host))
      (ended "p1" "lost" PilotState.failed 80 (on_event (rhapsody_status first_done) 60 busy_host)
        refl)

run-IsSound_example :
    IsSound
      (finalize_pilot "p1" PilotState.failed "lost" 80
        (on_event (rhapsody_status first_done) 60 busy_host)).pool
run-IsSound_example =
    run-IsSound busy_host
      (finalize_pilot "p1" PilotState.failed "lost" 80
        (on_event (rhapsody_status first_done) 60 busy_host))
      two_steps busy_pool-IsSound
