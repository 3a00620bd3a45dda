-- ===== src/Dispatcher/Sound/Drain.antt =====
-- plugin_task_dispatcher.py: the loop of `_drain_pending`, and the ledger.
use radical_orbit.Prelude.{
  ℕ, zero, suc, String, ◌≡◌, refl, sym, subst, ◌∙◌, Bool, true, false, Option, none, some, List, [],
  ◌∷◌, length, nat_eq, string_eq, option_eq, pair_eq,
}
use radical_orbit.Prelude.Dict.{lookup}
use radical_orbit.Prelude.Int.{int_eq}
use radical_orbit.Values.{Fields}
use radical_orbit.State.{PilotRecord, TaskRecord}
use radical_orbit.Pool.{pending_queue}
use radical_orbit.Conservative.{Outcome, returns, raised}
use radical_orbit.Conservative.Dispatch.{pick_dispatch}
use radical_orbit.Dispatcher.{Host, submit_tasks, persist, create_task}
use radical_orbit.Dispatcher.Quiet.{pool-notify_task}
use radical_orbit.Dispatcher.Claims.{
  claim, Assigned, after_claim, drain_pick, drain_loop, notify_found, notify_tasks, start_submits,
  finish_drain, drain_pending,
}
use radical_orbit.Dispatcher.Sound.{IsSound}
use radical_orbit.Dispatcher.Sound.Claim.{claim-IsSound, picked}

continue-IsSound :
    (rest : Host → Assigned → Host × Assigned) (k : Host × Bool) (pid tid : String) (a : Assigned)
    → ((h : Host) (a : Assigned) → IsSound h.pool → IsSound (rest h a).0.pool)
    → IsSound k.0.pool
    → IsSound (after_claim rest k pid tid a).0.pool
unfolding after_claim
continue-IsSound rest (k, true) pid tid a later s = later k _ s
continue-IsSound rest (k, false) pid tid a later s = later k a s

drain_pick-IsSound :
    (rest : Host → Assigned → Host × Assigned) (o : Outcome (Option (TaskRecord × PilotRecord)))
    (now : ℕ) (h : Host) (a : Assigned)
    → ((h : Host) (a : Assigned) → IsSound h.pool → IsSound (rest h a).0.pool)
    → pick_dispatch h.policy h.pool now ≡ o
    → IsSound h.pool
    → IsSound (drain_pick rest o now h a).0.pool
unfolding drain_pick
drain_pick-IsSound rest raised now h a later e sound = sound
drain_pick-IsSound rest (returns none) now h a later e sound = sound
drain_pick-IsSound rest (returns (some (t, p))) now h a later e sound =
    let (there, found, que, free) = picked h.policy h.pool now t p sound e in
    rw que (
      continue-IsSound rest (claim t p now h) p.pid t.task_id a later
        (claim-IsSound t p now h sound there found que free))

drain_loop-IsSound :
    (n now : ℕ) (h : Host) (a : Assigned) → IsSound h.pool → IsSound (drain_loop n now h a).0.pool
unfolding drain_loop
drain_loop-IsSound zero now h a sound = sound
drain_loop-IsSound (suc n) now h a sound =
    drain_pick-IsSound (drain_loop n now) (pick_dispatch h.policy h.pool now) now h a
      (λ k b s. drain_loop-IsSound n now k b s) refl sound

pool-notify_found : (o : Option TaskRecord) (h : Host) → (notify_found o h).pool ≡ h.pool
unfolding notify_found
pool-notify_found none h = refl
pool-notify_found (some t) h = pool-notify_task t Fields.end h

pool-notify_tasks : (tids : List String) (h : Host) → (notify_tasks tids h).pool ≡ h.pool
unfolding notify_tasks
pool-notify_tasks [] h = refl
pool-notify_tasks (tid ∷ tids) h =
    pool-notify_tasks tids (notify_found (lookup tid h.pool.tasks) h)
    ∙ pool-notify_found (lookup tid h.pool.tasks) h

pool-start_submits : (a : Assigned) (h : Host) → (start_submits a h).pool ≡ h.pool
unfolding start_submits create_task
pool-start_submits [] h = refl
pool-start_submits ((pid, tids) ∷ a) h =
    pool-start_submits a (create_task (submit_tasks pid tids) (notify_tasks tids h))
    ∙ pool-notify_tasks tids h

pool-finish_drain : (r : Host × Assigned) → (finish_drain r).pool ≡ r.0.pool
unfolding finish_drain persist
pool-finish_drain (h, []) = refl
pool-finish_drain (h, (e ∷ a)) = pool-start_submits (e ∷ a) (persist h)

-- A drain under the conservative policy keeps the ledger sound: every pilot that has not ended
-- counts in in_flight exactly the tasks that run on it and at most its capacity, and an ended pilot
-- has none.
pub drain_pending-IsSound :
    (now : ℕ) (h : Host) → IsSound h.pool → IsSound (drain_pending now h).pool
unfolding drain_pending
drain_pending-IsSound now h sound =
    let n = length (pending_queue h.pool) in
    subst IsSound (sym (pool-finish_drain (drain_loop n now h [])))
      (drain_loop-IsSound n now h [] sound)
