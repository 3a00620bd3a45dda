-- ===== src/Dispatcher/Slots/Race.antt =====
-- plugin_task_dispatcher.py, `_cancel_task`: the step after its await, when the task has ended by then.
use radical_orbit.Prelude.{
  ℕ, suc, ◌+◌, ◌-◌, String, ◌≡◌, refl, ap, ◌∙◌, true, false, some, arith, if◌then◌else◌, ◌==◌,
  nat_eq, string_eq, option_eq, ==_refl, pair_eq,
}
use radical_orbit.Prelude.Count.{bit, count}
use radical_orbit.Prelude.Dict.{lookup, lookup-insert, lookup-insert_self}
use radical_orbit.Prelude.Int.{int_eq}
use radical_orbit.Values.{Fields}
use radical_orbit.State.{PilotRecord, TaskState, TaskRecord, is_terminal_task, is_running}
use radical_orbit.Pool.{PoolState, drop_spool}
use radical_orbit.Dispatcher.{Host, set_task}
use radical_orbit.Dispatcher.Quiet.{pool-notified}
use radical_orbit.Dispatcher.Ending.{end_task, canceled_task, finish_cancel, finish_found}
use radical_orbit.Dispatcher.Slots.{
  runs_on, running_on, running_on-set_task, one_less, lookup-free_slot, tasks-free_slot,
  IsAccounted, end_task-IsAccounted, ended_count,
}

pub pool-finish_cancel :
    (tid pid : String) (t : TaskRecord) (now : ℕ) (h : Host)
    → lookup tid h.pool.tasks ≡ some t
    → (finish_cancel tid (some pid) now h).pool
      ≡ end_task tid (canceled_task t now) (some pid) h.pool
unfolding finish_cancel finish_found
pool-finish_cancel tid pid t now h e = rw e (
    pool-notified (canceled_task t now) Fields.end
      (end_task tid (canceled_task t now) (some pid) h.pool) h)

-- A cancel whose task still runs on the same pilot when its await ends cancels exactly that task: it
-- is CANCELED, no other task changes, its pilot gives up one slot and no other pilot changes, one
-- task less runs on the pilot, and every count of in_flight stays right.
pub finish_cancel-running :
    (tid pid : String) (t : TaskRecord) (p : PilotRecord) (now : ℕ) (h : Host)
    → IsAccounted h.pool
    → lookup tid h.pool.tasks ≡ some t
    → lookup pid h.pool.pilots ≡ some p
    → is_running t.state ≡ true
    → t.pilot_id ≡ some pid
    → let after = (finish_cancel tid (some pid) now h).pool in
      ((other : String)
        → lookup other after.tasks ≡ (
            if tid == other
            then some (record t { state = TaskState.canceled; finished_at = some now })
            else lookup other h.pool.tasks))
      × ((other : String)
          → lookup other after.pilots ≡ (
              if pid == other
              then some (record p { in_flight = p.in_flight - 1 })
              else lookup other h.pool.pilots))
      × (running_on pid after + 1 ≡ running_on pid h.pool)
      × IsAccounted after
unfolding end_task drop_spool set_task
finish_cancel-running tid pid t p now h acc e found run own =
    rw (pool-finish_cancel tid pid t now h e) (
      λ other.
          ap (lookup other) (tasks-free_slot (some pid) done)
          ∙ lookup-insert tid other (canceled_task t now) h.pool.tasks,
      λ other. lookup-free_slot pid other p done found,
      ap (λ d. count (runs_on pid) d + 1) (tasks-free_slot (some pid) done) ∙ fewer,
      end_task-IsAccounted tid pid t (canceled_task t now) p h.pool acc e found run own refl,
    )
  where
    done : PoolState
    done = drop_spool tid (set_task tid (canceled_task t now) h.pool)

    fewer : running_on pid (set_task tid (canceled_task t now) h.pool) + 1 ≡ running_on pid h.pool
    fewer = omega (
      arith,
      ended_count pid tid pid t (canceled_task t now) h.pool e run own refl,
      ap bit (==_refl pid),
    )

idle-terminal : (s : TaskState) → is_terminal_task s ≡ true → is_running s ≡ false
idle-terminal TaskState.queued h = ground arith
idle-terminal TaskState.running h = ground arith
idle-terminal TaskState.done h = refl
idle-terminal TaskState.failed h = refl
idle-terminal TaskState.canceled h = refl

-- A cancel whose task ended during its await, as the pilot reported, does not notice: the reported
-- state becomes CANCELED, and the pilot gives up a second slot, so that one more task runs on it
-- than its record counts.
pub finish_cancel-undercounts :
    (tid pid : String) (t : TaskRecord) (p : PilotRecord) (n now : ℕ) (h : Host)
    → lookup tid h.pool.tasks ≡ some t
    → is_terminal_task t.state ≡ true
    → lookup pid h.pool.pilots ≡ some p
    → p.in_flight ≡ suc n
    → running_on pid h.pool ≡ suc n
    → let after = (finish_cancel tid (some pid) now h).pool in
      (lookup tid after.tasks ≡ some (canceled_task t now))
      × (lookup pid after.pilots ≡ some (record p { in_flight = n }))
      × (running_on pid after ≡ suc n)
unfolding end_task drop_spool set_task
finish_cancel-undercounts tid pid t p n now h e over found full counted =
    rw (pool-finish_cancel tid pid t now h e) (
      ap (lookup tid) (tasks-free_slot (some pid) done) ∙ lookup-insert_self tid _ h.pool.tasks,
      lookup-free_slot pid pid p done found ∙ rw (==_refl pid) (ap some less),
      ap (count (runs_on pid)) (tasks-free_slot (some pid) done) ∙ same,
    )
  where
    done : PoolState
    done = drop_spool tid (set_task tid (canceled_task t now) h.pool)

    less : one_less p ≡ record p { in_flight = n }
    less = ap (λ k. record p { in_flight = k }) (omega (arith, full))

    same : running_on pid (set_task tid (canceled_task t now) h.pool) ≡ suc n
    same = omega (
      arith,
      running_on-set_task pid tid t (canceled_task t now) h.pool e,
      ap bit (idle (idle-terminal t.state over)),
      counted,
    )
      where
        idle : is_running t.state ≡ false → runs_on pid t ≡ false
        idle r = rw r refl
