-- ===== src/Dispatcher/Sound/Enough.antt =====
-- plugin_task_dispatcher.py: the budget of the loop in `_drain_pending`.
use radical_orbit.Prelude.{
  ℕ, zero, suc, ◌+◌, ◌≤◌, String, ◌≡◌, refl, ap, ◌∙◌, inl, inr, Bool, true, false, Option, none,
  some, [], arith, Bool-cases, length, nat_eq, string_eq, option_eq, pair_eq,
}
use radical_orbit.Prelude.Count.{count, count-less, count-same, length-keep}
use radical_orbit.Prelude.Dict.{lookup, lookup-insert_self, values}
use radical_orbit.Prelude.Sorting.{length-sort_by}
use radical_orbit.Prelude.Int.{int_eq}
use radical_orbit.Config.{PoolMember}
use radical_orbit.Config
use radical_orbit.State.{PilotRecord, TaskRecord, is_queued}
use radical_orbit.Pool.{PoolState, drop_spool, pending_queue, queued_tasks, sooner}
use radical_orbit.Conservative.{Outcome, returns, raised}
use radical_orbit.Conservative.Dispatch.{pick_dispatch}
use radical_orbit.Dispatcher.{Host, set_task, set_pilot, with_pool}
use radical_orbit.Dispatcher.Ending.{end_task, failed_task, mark_task_failed}
use radical_orbit.Dispatcher.Slots.{tasks-free_slot}
use radical_orbit.Dispatcher.Claims.{
  run_on, place_cwd, may_place, claim, Assigned, after_claim, drain_pick, drain_loop, finish_drain,
  drain_pending,
}
use radical_orbit.Dispatcher.Sound.{IsSound}
use radical_orbit.Dispatcher.Sound.Claim.{
  claim-IsSound, picked, pool-mark_task_failed, SameBut, place_cwd-SameBut,
}

abbrev waits : TaskRecord → Bool
waits t = is_queued t.state

queued : PoolState → ℕ
queued ps = count waits ps.tasks

length-pending_queue : (ps : PoolState) → length (pending_queue ps) ≡ queued ps
unfolding pending_queue queued
length-pending_queue ps =
    length-sort_by sooner (queued_tasks (values ps.tasks)) ∙ length-keep waits ps.tasks

accepted :
    (t placed : TaskRecord) (p : PilotRecord) (now : ℕ) (ps : PoolState)
    → lookup t.task_id ps.tasks ≡ some t
    → is_queued t.state ≡ true
    → SameBut t placed
    → queued (run_on placed p now ps) + 1 ≡ queued ps
unfolding queued run_on set_task set_pilot
accepted t placed p now ps e que same =
    count-less waits placed.task_id t _ ps.tasks (ap (λ k. lookup k ps.tasks) same.0 ∙ e) que refl

refused :
    (t placed : TaskRecord) (reason : String) (now : ℕ) (h : Host)
    → lookup t.task_id h.pool.tasks ≡ some t
    → is_queued t.state ≡ true
    → SameBut t placed
    → queued
          (mark_task_failed t.task_id reason now
            (with_pool (set_task t.task_id placed h.pool) h)).pool
        + 1
      ≡ queued h.pool
unfolding queued set_task end_task drop_spool
refused t placed reason now h e que same =
    ap (λ ps. count waits ps.tasks + 1)
      (pool-mark_task_failed t.task_id placed reason now moved there)
    ∙ ap (λ d. count waits d + 1) (tasks-free_slot placed.pilot_id _)
    ∙ count-less waits t.task_id placed (failed_task placed reason now) moved.pool.tasks there
        (ap is_queued same.1 ∙ que) refl
    ∙ count-same waits t.task_id t placed h.pool.tasks e (ap is_queued same.1)
  where
    moved : Host
    moved = with_pool (set_task t.task_id placed h.pool) h

    there : lookup t.task_id moved.pool.tasks ≡ some placed
    there = lookup-insert_self t.task_id placed h.pool.tasks

-- A claim takes its task off the queue, also when the task has to be failed.
queued-claim :
    (t : TaskRecord) (p : PilotRecord) (now : ℕ) (h : Host)
    → lookup t.task_id h.pool.tasks ≡ some t
    → is_queued t.state ≡ true
    → queued (claim t p now h).0.pool + 1 ≡ queued h.pool
unfolding claim
queued-claim t p now h e que = elim (Bool-cases (may_place h placed m)) [
  | inl yes_ ↦ rw yes_ (accepted t placed p now h.pool e que (place_cwd-SameBut h t m))
  | inr no_ ↦ rw no_ (refused t placed _ now h e que (place_cwd-SameBut h t m))
]
  where
    m : Option PoolMember
    m = Config.member h.pool.config p.member_id

    placed : TaskRecord
    placed = place_cwd h t m

Ended : (Host → Assigned → Host × Assigned) → (Host → Assigned → Host × Assigned) → ℕ → Type 0
Ended more less n =
    (h : Host) (a : Assigned) → IsSound h.pool → queued h.pool ≤ n → more h a ≡ less h a

after_claim-agrees :
    (more less : Host → Assigned → Host × Assigned) (n : ℕ) (k : Host × Bool) (pid tid : String)
    → (a : Assigned) → Ended more less n
    → IsSound k.0.pool
    → queued k.0.pool ≤ n
    → after_claim more k pid tid a ≡ after_claim less k pid tid a
unfolding after_claim Ended
after_claim-agrees more less n (k, true) pid tid a agree sound few = agree k _ sound few
after_claim-agrees more less n (k, false) pid tid a agree sound few = agree k a sound few

drain_pick-agrees :
    (more less : Host → Assigned → Host × Assigned) (n : ℕ)
    → (o : Outcome (Option (TaskRecord × PilotRecord))) (now : ℕ) (h : Host) (a : Assigned)
    → Ended more less n
    → pick_dispatch h.policy h.pool now ≡ o
    → IsSound h.pool
    → queued h.pool ≤ suc n
    → drain_pick more o now h a ≡ drain_pick less o now h a
unfolding drain_pick
drain_pick-agrees more less n raised now h a agree e sound few = refl
drain_pick-agrees more less n (returns none) now h a agree e sound few = refl
drain_pick-agrees more less n (returns (some (t, p))) now h a agree e sound few =
    let (there, found, que, free) = picked h.policy h.pool now t p sound e in
    rw que (
      after_claim-agrees more less n (claim t p now h) p.pid t.task_id a agree
        (claim-IsSound t p now h sound there found que free)
        (omega (arith, queued-claim t p now h there que)))

-- Nothing is picked from an empty queue.
drain_pick-empty :
    (more : Host → Assigned → Host × Assigned)
    → (o : Outcome (Option (TaskRecord × PilotRecord))) (now : ℕ) (h : Host) (a : Assigned)
    → pick_dispatch h.policy h.pool now ≡ o
    → IsSound h.pool
    → queued h.pool ≤ 0
    → drain_pick more o now h a ≡ (h, a)
unfolding drain_pick
drain_pick-empty more raised now h a e sound few = refl
drain_pick-empty more (returns none) now h a e sound few = refl
drain_pick-empty more (returns (some (t, p))) now h a e sound few =
    let (there, found, que, free) = picked h.policy h.pool now t p sound e in
    absurd (omega (arith, queued-claim t p now h there que))

drain_loop-agrees : (m n now : ℕ) → n ≤ m → Ended (drain_loop m now) (drain_loop n now) n
unfolding drain_loop Ended
drain_loop-agrees zero zero now le h a sound few = refl
drain_loop-agrees zero (suc n) now le h a sound few = absurd (omega arith)
drain_loop-agrees (suc m) zero now le h a sound few =
    drain_pick-empty (drain_loop m now) (pick_dispatch h.policy h.pool now) now h a refl sound few
drain_loop-agrees (suc m) (suc n) now le h a sound few =
    drain_pick-agrees (drain_loop m now) (drain_loop n now) n (pick_dispatch h.policy h.pool now)
      now h a (drain_loop-agrees m n now (omega arith)) refl sound few

-- The budget of a drain never cuts it short: on a sound ledger every budget of at least the length
-- of the pending queue gives the same result.
pub drain_pending-enough :
    (m now : ℕ) (h : Host)
    → IsSound h.pool
    → length (pending_queue h.pool) ≤ m
    → finish_drain (drain_loop m now h []) ≡ drain_pending now h
unfolding drain_pending Ended
drain_pending-enough m now h sound le = ap finish_drain (
    drain_loop-agrees m (length (pending_queue h.pool)) now le h [] sound
      (omega (arith, length-pending_queue h.pool)))
