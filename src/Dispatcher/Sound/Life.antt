-- ===== src/Dispatcher/Sound/Life.antt =====
-- plugin_task_dispatcher.py: the liveness of pilots' endpoints, and the ledger.
pub mod Steps
pub mod Runs
use radical_orbit.Prelude.{
  ℕ, zero, ◌-◌, ◌*◌, ◌≤◌, min, String, ◌≡◌, refl, ap, ◌∙◌, inl, inr, Bool, true, false, not, ◌&&◌,
  ◌||◌, Option, none, some, List, [], ◌∷◌, arith, leb, nat_beq, if◌then◌else◌, Bool-cases,
  or_default, keep, In, ◌==◌, nat_eq, string_eq, option_eq, pair_eq,
}
use radical_orbit.Prelude.Count.{bit, count}
use radical_orbit.Prelude.Dict.{Dict, lookup, insert, lookup-insert, keys}
use radical_orbit.Prelude.Int.{int_eq}
use radical_orbit.Prelude.Sorting.{place}
use radical_orbit.Prelude.Keyed.{IsKeyed, insert-IsKeyed}
use radical_orbit.State.{
  PilotState, PilotRecord, TaskState, TaskRecord, is_terminal_pilot, is_pre_active, is_active,
  is_running,
}
use radical_orbit.Pool.{PoolState}
use radical_orbit.Dispatcher.{
  Host, Notice, pilot_status, Liveness, present, suspect, lost, set_pilot, with_pool, persist,
  dispatch_notify,
}
use radical_orbit.Dispatcher.Claims.{drain_pending}
use radical_orbit.Dispatcher.Pilots.{
  serves_rhapsody, signal, mark_pilot_failed, mark_pilot_done, finalize_pilot, bind_pilot,
  activate_pilot, resume_or_activate, pause, lose, apply_liveness, reconcile_found, reconcile_each,
  reconcile_pilots_for,
}
use radical_orbit.Dispatcher.Slots.{Slots, running_on, one_pilot-IsAccounted}
use radical_orbit.Dispatcher.Sound.{IsSound, still-IsPlaced, key_of}
use radical_orbit.Dispatcher.Sound.Drain.{drain_pending-IsSound}
use radical_orbit.Dispatcher.Sound.Loss.{finalize_pilot-IsSound, set_pilot-KeepsPilots}

-- A pilot's record changes, and not the tasks that run on it.
pub set_pilot-IsSound :
    (pid : String) (p changed : PilotRecord) (ps : PoolState)
    → IsSound ps
    → lookup pid ps.pilots ≡ some p
    → changed.pid ≡ p.pid
    → Slots changed (running_on pid ps)
    → IsSound (set_pilot pid changed ps)
unfolding set_pilot
set_pilot-IsSound pid p changed ps (acc, pk, tk, all_placed) found key slots = (
  one_pilot-IsAccounted pid p changed ps (set_pilot pid changed ps) acc found
      (λ q. lookup-insert pid q changed ps.pilots) slots (λ q other. refl),
  insert-IsKeyed (λ p. p.pid) pid changed ps.pilots (key ∙ key_of pid p ps.pilots pk found) pk,
  tk,
  λ tid t h.
      still-IsPlaced ps (set_pilot pid changed ps) t (set_pilot-KeepsPilots pid changed ps)
        (all_placed tid t h),
)

abbrev bound_pilot : PilotRecord → ℕ → PilotRecord
bound_pilot p now = record p {
  capacity = p.nodes * p.cpus_per_node;
  state = PilotState.active;
  active_at = some now;
}

Slots-bound :
    (p : PilotRecord) (now n : ℕ)
    → is_pre_active p.state ≡ true
    → Slots p n
    → Slots (bound_pilot p now) n
Slots-bound p now n early (ended, live, fit, none_) = (
  λ h. ground arith,
  λ h. live (not_ended p.state early),
  small p.in_flight p.capacity (p.nodes * p.cpus_per_node) fit (none_ early),
  λ h. ground arith,
)
  where
    not_ended : (s : PilotState) → is_pre_active s ≡ true → is_terminal_pilot s ≡ false
    not_ended s h = ground arith

    small : (a b c : ℕ) → a ≤ b → b ≡ 0 → a ≤ c
    small a b c h k = omega arith

bind_pilot-IsSound :
    (pid : String) (p : PilotRecord) (now : ℕ) (h : Host)
    → IsSound h.pool
    → lookup pid h.pool.pilots ≡ some p
    → is_pre_active p.state ≡ true
    → IsSound (bind_pilot pid p now h).pool
unfolding bind_pilot persist dispatch_notify signal
bind_pilot-IsSound pid p now h sound found early = drain_pending-IsSound now _ (
    set_pilot-IsSound pid p (bound_pilot p now) h.pool sound found refl
      (Slots-bound p now (running_on pid h.pool) early (sound.0.1 pid p found)))

failed-IsSound :
    (pid reason : String) (now : ℕ) (h : Host)
    → IsSound h.pool
    → IsSound (mark_pilot_failed pid reason now h).pool
unfolding mark_pilot_failed
failed-IsSound pid reason now h sound =
    finalize_pilot-IsSound pid reason PilotState.failed now h refl sound

done-IsSound :
    (pid reason : String) (now : ℕ) (h : Host)
    → IsSound h.pool
    → IsSound (mark_pilot_done pid reason now h).pool
unfolding mark_pilot_done
done-IsSound pid reason now h sound =
    finalize_pilot-IsSound pid reason PilotState.done now h refl sound

either-IsSound :
    (b : Bool) (g k : Host) → IsSound g.pool → IsSound k.pool → IsSound (if b then g else k).pool
either-IsSound true g k s t = s
either-IsSound false g k s t = t

activate_pilot-IsSound :
    (pid : String) (p : PilotRecord) (now : ℕ) (h : Host)
    → IsSound h.pool
    → lookup pid h.pool.pilots ≡ some p
    → is_pre_active p.state ≡ true
    → IsSound (activate_pilot pid p now h).pool
unfolding activate_pilot
activate_pilot-IsSound pid p now h sound found early =
    either-IsSound (nat_beq (p.nodes * p.cpus_per_node) 0)
      (if p.adopted then mark_pilot_failed pid "pilot size has zero capacity" now h else h)
      (if p.adopted && not (serves_rhapsody h p) then unserved else bind_pilot pid p now h)
      (either-IsSound p.adopted (mark_pilot_failed pid "pilot size has zero capacity" now h) h
        (failed-IsSound pid "pilot size has zero capacity" now h sound) sound)
      (either-IsSound (p.adopted && not (serves_rhapsody h p)) unserved (bind_pilot pid p now h)
        (failed-IsSound pid "endpoint serves no rhapsody" now h sound)
        (bind_pilot-IsSound pid p now h sound found early))
  where
    unserved : Host
    unserved = mark_pilot_failed pid "endpoint serves no rhapsody" now h

-- Whether a pilot accepts new tasks does not touch its slots.
flag-IsSound :
    (pid : String) (p : PilotRecord) (b : Bool) (h : Host)
    → IsSound h.pool
    → lookup pid h.pool.pilots ≡ some p
    → IsSound (set_pilot pid (record p { accepting_new_tasks = b }) h.pool)
flag-IsSound pid p b h sound found =
    set_pilot-IsSound pid p (record p { accepting_new_tasks = b }) h.pool sound found refl
      (sound.0.1 pid p found)

resume_or_activate-IsSound :
    (pid : String) (p : PilotRecord) (now : ℕ) (h : Host)
    → IsSound h.pool
    → lookup pid h.pool.pilots ≡ some p
    → IsSound (resume_or_activate pid p now h).pool
unfolding resume_or_activate persist
resume_or_activate-IsSound pid p now h sound found = elim (Bool-cases (is_pre_active p.state)) [
  | inl early ↦ rw early (activate_pilot-IsSound pid p now h sound found early)
  | inr late ↦ rw late (
      either-IsSound (is_active p.state && not p.accepting_new_tasks) (drain_pending now resumed) h
        (drain_pending-IsSound now resumed (flag-IsSound pid p true h sound found)) sound)
]
  where
    resumed : Host
    resumed = persist (with_pool (set_pilot pid (record p { accepting_new_tasks = true }) h.pool) h)

pause-IsSound :
    (pid : String) (p : PilotRecord) (h : Host)
    → IsSound h.pool
    → lookup pid h.pool.pilots ≡ some p
    → IsSound (pause pid p h).pool
unfolding pause persist
pause-IsSound pid p h sound found =
    either-IsSound (is_active p.state && p.accepting_new_tasks)
      (persist (with_pool (set_pilot pid (record p { accepting_new_tasks = false }) h.pool) h)) h
      (flag-IsSound pid p false h sound found) sound

lose-IsSound :
    (pid : String) (p : PilotRecord) (now : ℕ) (h : Host)
    → IsSound h.pool
    → IsSound (lose pid p now h).pool
unfolding lose
lose-IsSound pid p now h sound =
    drain_pending-IsSound now
      (if p.adopted then gone else if leb p.walltime_deadline now then expired else broken)
      (either-IsSound p.adopted gone (if leb p.walltime_deadline now then expired else broken)
        (done-IsSound pid "adopted endpoint gone" now h sound)
        (either-IsSound (leb p.walltime_deadline now) expired broken
          (done-IsSound pid "walltime reached" now h sound)
          (failed-IsSound pid "child endpoint lost before walltime" now h sound)))
  where
    gone : Host
    gone = mark_pilot_done pid "adopted endpoint gone" now h

    expired : Host
    expired = mark_pilot_done pid "walltime reached" now h

    broken : Host
    broken = mark_pilot_failed pid "child endpoint lost before walltime" now h

apply_liveness-IsSound :
    (pid : String) (p : PilotRecord) (o : Option Liveness) (now : ℕ) (h : Host)
    → IsSound h.pool
    → lookup pid h.pool.pilots ≡ some p
    → IsSound (apply_liveness pid p o now h).pool
unfolding apply_liveness
apply_liveness-IsSound pid p none now h sound found = sound
apply_liveness-IsSound pid p (some present) now h sound found =
    resume_or_activate-IsSound pid p now h sound found
apply_liveness-IsSound pid p (some suspect) now h sound found = pause-IsSound pid p h sound found
apply_liveness-IsSound pid p (some lost) now h sound found = lose-IsSound pid p now h sound

reconcile_found-IsSound :
    (pid : String) (o : Option PilotRecord) (seen : Dict String Liveness) (now : ℕ) (h : Host)
    → lookup pid h.pool.pilots ≡ o
    → IsSound h.pool
    → IsSound (reconcile_found pid o seen now h).pool
unfolding reconcile_found
reconcile_found-IsSound pid none seen now h found sound = sound
reconcile_found-IsSound pid (some p) seen now h found sound =
    let child = or_default p.child_endpoint_name "" in
    either-IsSound (child == "" || is_terminal_pilot p.state) h
      (apply_liveness pid p (lookup child seen) now h) sound
      (apply_liveness-IsSound pid p (lookup child seen) now h sound found)

reconcile_each-IsSound :
    (pids : List String) (seen : Dict String Liveness) (now : ℕ) (h : Host)
    → IsSound h.pool
    → IsSound (reconcile_each pids seen now h).pool
unfolding reconcile_each
reconcile_each-IsSound [] seen now h sound = sound
reconcile_each-IsSound (pid ∷ pids) seen now h sound =
    reconcile_each-IsSound pids seen now (reconcile_found pid (lookup pid h.pool.pilots) seen now h)
      (reconcile_found-IsSound pid (lookup pid h.pool.pilots) seen now h refl sound)

-- Whatever the topology shows of the endpoints, its delivery keeps the ledger sound: activations,
-- pauses, resumptions, losses and the dispatches that follow from them.
pub reconcile_pilots_for-IsSound :
    (seen : Dict String Liveness) (now : ℕ) (h : Host)
    → IsSound h.pool
    → IsSound (reconcile_pilots_for seen now h).pool
unfolding reconcile_pilots_for
reconcile_pilots_for-IsSound seen now h sound =
    reconcile_each-IsSound (keys h.pool.pilots) seen now h sound
