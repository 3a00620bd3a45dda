-- ===== src/Dispatcher/Sound/Claim.antt =====
-- plugin_task_dispatcher.py: one `_claim`, and the ledger.
use radical_orbit.Prelude.{
  ℕ, ◌+◌, String, ◌≡◌, refl, sym, ap, subst, ◌∙◌, inl, inr, true, false, not, Option, none, some,
  arith, ltb, Bool-cases, In-keep, ◌==◌, nat_eq, string_eq, option_eq, pair_eq,
}
use radical_orbit.Prelude.Dict.{lookup, lookup-insert, lookup-insert_self, values}
use radical_orbit.Prelude.Int.{int_eq}
use radical_orbit.Prelude.Sorting.{In-sort_by}
use radical_orbit.Prelude.Keyed.{insert-IsKeyed, lookup-key}
use radical_orbit.Values.{Fields}
use radical_orbit.Config.{PoolMember}
use radical_orbit.Config
use radical_orbit.State.{
  PilotRecord, TaskState, TaskRecord, is_running, is_queued, is_terminal_pilot, free_capacity,
}
use radical_orbit.Pool.{PoolState, drop_spool, pending_queue, live_pilots, sooner, queued_tasks}
use radical_orbit.Conservative.{ConservativePolicy, returns}
use radical_orbit.Conservative.Dispatch.{pick_dispatch}
use radical_orbit.Conservative.Dispatch.Choice.{pick_dispatch-IsBest}
use radical_orbit.Dispatcher.{Host, set_task, set_pilot, with_pool}
use radical_orbit.Dispatcher.Ending.{
  free_slot, unslot, end_task, failed_task, mark_task_failed, fail_found,
}
use radical_orbit.Dispatcher.Quiet.{pool-notified}
use radical_orbit.Dispatcher.Claims.{place_cwd, may_place, run_on, claim}
use radical_orbit.Dispatcher.Slots.{run_on-IsAccounted}
use radical_orbit.Dispatcher.Sound.{IsSound, KeepsPilots, one_task-IsPlaced, set_task-IsSound}

abbrev busier : PilotRecord → PilotRecord
busier p = record p { in_flight = p.in_flight + 1; started_tasks = p.started_tasks + 1 }

run_on-KeepsPilots :
    (t : TaskRecord) (p : PilotRecord) (now : ℕ) (ps : PoolState)
    → KeepsPilots ps (run_on t p now ps)
unfolding run_on set_task set_pilot
run_on-KeepsPilots t p now ps q r h = elim (Bool-cases (p.pid == q)) [
  | inl same ↦ (busier p, lookup-insert p.pid q (busier p) ps.pilots ∙ rw same refl)
  | inr other ↦ (r, lookup-insert p.pid q (busier p) ps.pilots ∙ rw other h)
]

pub idle_queued : (s : TaskState) → is_queued s ≡ true → is_running s ≡ false
idle_queued s h = ground arith

-- A queued task that is handed to a pilot with a free slot.
pub run_on-IsSound :
    (t old : TaskRecord) (p : PilotRecord) (now : ℕ) (ps : PoolState)
    → IsSound ps
    → lookup t.task_id ps.tasks ≡ some old
    → lookup p.pid ps.pilots ≡ some p
    → is_queued old.state ≡ true
    → ltb 0 (free_capacity p) ≡ true
    → IsSound (run_on t p now ps)
unfolding run_on set_task set_pilot
run_on-IsSound t old p now ps (acc, pk, tk, all_placed) h found que free = (
  run_on-IsAccounted t old p now ps acc h found (idle_queued old.state que) free,
  insert-IsKeyed (λ p. p.pid) p.pid _ ps.pilots refl pk,
  insert-IsKeyed (λ t. t.task_id) t.task_id _ ps.tasks refl tk,
  one_task-IsPlaced t.task_id _ ps (run_on t p now ps) all_placed (run_on-KeepsPilots t p now ps)
      refl (λ r. (p.pid, _, refl, lookup-insert_self p.pid _ ps.pilots), λ q. ground arith),
)

pub pool-mark_task_failed :
    (tid : String) (t : TaskRecord) (reason : String) (now : ℕ) (h : Host)
    → lookup tid h.pool.tasks ≡ some t
    → (mark_task_failed tid reason now h).pool
      ≡ end_task tid (failed_task t reason now) t.pilot_id h.pool
unfolding mark_task_failed fail_found
pool-mark_task_failed tid t reason now h e = rw e (
    pool-notified (failed_task t reason now) Fields.end
      (end_task tid (failed_task t reason now) t.pilot_id h.pool) h)

pub end_task-none :
    (tid : String) (ended : TaskRecord) (ps : PoolState)
    → lookup "" ps.pilots ≡ none
    → end_task tid ended none ps ≡ drop_spool tid (set_task tid ended ps)
unfolding end_task free_slot unslot set_task drop_spool
end_task-none tid ended ps e = rw e refl

-- Placing a task changes its working directory at most.
abbrev pub SameBut : TaskRecord → TaskRecord → Type 0
SameBut t placed =
    (placed.task_id ≡ t.task_id) × (placed.state ≡ t.state) × (placed.pilot_id ≡ t.pilot_id)

pub place_cwd-SameBut :
    (h : Host) (t : TaskRecord) (m : Option PoolMember) → SameBut t (place_cwd h t m)
unfolding place_cwd
place_cwd-SameBut h t m = elim (Bool-cases t.cwd_assigned) [
  | inl e ↦ rw e (refl, refl, refl)
  | inr e ↦ rw e (refl, refl, refl)
]

-- The claim fails: the task has ended, and no pilot was touched.
refused-IsSound :
    (t placed : TaskRecord) (reason : String) (now : ℕ) (h : Host)
    → IsSound h.pool
    → lookup t.task_id h.pool.tasks ≡ some t
    → is_queued t.state ≡ true
    → SameBut t placed
    → IsSound
        (mark_task_failed t.task_id reason now
          (with_pool (set_task t.task_id placed h.pool) h)).pool
unfolding set_task drop_spool
refused-IsSound t placed reason now h sound e que (key, state, owner) =
    subst IsSound
      (sym (
        pool-mark_task_failed t.task_id placed reason now
          (with_pool (set_task t.task_id placed h.pool) h) there))
      (subst (λ o. IsSound (end_task t.task_id failed o moved)) (sym none_owner)
        (subst IsSound (sym (end_task-none t.task_id failed moved sound.0.0)) ended))
  where
    failed : TaskRecord
    failed = failed_task placed reason now

    moved : PoolState
    moved = set_task t.task_id placed h.pool

    there : lookup t.task_id moved.tasks ≡ some placed
    there = lookup-insert_self t.task_id placed h.pool.tasks

    none_owner : placed.pilot_id ≡ none
    none_owner = owner ∙ (sound.3 t.task_id t e).1 que

    idle : is_running placed.state ≡ false
    idle = ap is_running state ∙ idle_queued t.state que

    moved_sound : IsSound moved
    moved_sound =
        set_task-IsSound t.task_id t placed h.pool sound e (idle_queued t.state que) idle
          (λ q. none_owner) key

    ended : IsSound (drop_spool t.task_id (set_task t.task_id failed moved))
    ended =
        set_task-IsSound t.task_id placed failed moved moved_sound there idle refl
          (λ q. ground arith) key

accepted-IsSound :
    (t placed : TaskRecord) (p : PilotRecord) (now : ℕ) (h : Host)
    → IsSound h.pool
    → lookup t.task_id h.pool.tasks ≡ some t
    → lookup p.pid h.pool.pilots ≡ some p
    → is_queued t.state ≡ true
    → ltb 0 (free_capacity p) ≡ true
    → SameBut t placed
    → IsSound (run_on placed p now h.pool)
accepted-IsSound t placed p now h sound e found que free (key, state, owner) =
    run_on-IsSound placed t p now h.pool sound (ap (λ k. lookup k h.pool.tasks) key ∙ e) found que
      free

-- A claim of a queued task for a pilot with a free slot keeps the ledger sound, whether it stands
-- or the task's directory cannot be made.
pub claim-IsSound :
    (t : TaskRecord) (p : PilotRecord) (now : ℕ) (h : Host)
    → IsSound h.pool
    → lookup t.task_id h.pool.tasks ≡ some t
    → lookup p.pid h.pool.pilots ≡ some p
    → is_queued t.state ≡ true
    → ltb 0 (free_capacity p) ≡ true
    → IsSound (claim t p now h).0.pool
unfolding claim
claim-IsSound t p now h sound e found que free = elim (Bool-cases (may_place h placed m)) [
  | inl yes_ ↦ rw yes_ (accepted-IsSound t placed p now h sound e found que free same)
  | inr no_ ↦ rw no_ (refused-IsSound t placed _ now h sound e que same)
]
  where
    m : Option PoolMember
    m = Config.member h.pool.config p.member_id

    placed : TaskRecord
    placed = place_cwd h t m

    same : SameBut t placed
    same = place_cwd-SameBut h t m

-- A pick stands in the ledger.
pub picked :
    (c : ConservativePolicy) (ps : PoolState) (now : ℕ) (t : TaskRecord) (p : PilotRecord)
    → IsSound ps
    → pick_dispatch c ps now ≡ returns (some (t, p))
    → (lookup t.task_id ps.tasks ≡ some t)
      × (lookup p.pid ps.pilots ≡ some p)
      × (is_queued t.state ≡ true)
      × (ltb 0 (free_capacity p) ≡ true)
unfolding pending_queue live_pilots
picked c ps now t p (acc, pk, tk, all_placed) h =
    let (que, waits, avail, live, best, skipped) = pick_dispatch-IsBest c ps now t p h in
    (
      lookup-key (λ t. t.task_id) t ps.tasks tk
          (In-keep (λ s. is_queued s.state) t (values ps.tasks)
            (In-sort_by sooner t (queued_tasks (values ps.tasks)) waits)).1,
      lookup-key (λ p. p.pid) p ps.pilots pk
          (In-keep (λ q. not (is_terminal_pilot q.state)) p (values ps.pilots) live).1,
      que,
      ground arith,
    )
