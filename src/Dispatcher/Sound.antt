-- ===== src/Dispatcher/Sound.antt =====
-- plugin_task_dispatcher.py: the invariant of a pool's ledger, and the ends of its tasks.
pub mod Drain
pub mod Claim
pub mod Enough
pub mod Loss
pub mod Closing
pub mod Life
pub mod Reports
use radical_orbit.Prelude.{
  ◌-◌, min, String, ◌≡◌, refl, sym, ap, subst, ◌∙◌, ◌≢◌, ◌⊎◌, inl, inr, Bool, true, false, not,
  none, some, arith, if◌then◌else◌, Bool-cases, keep, In, ◌==◌, nat_eq, string_eq, option_eq,
  pair_eq,
}
use radical_orbit.Prelude.Count.{bit, count}
use radical_orbit.Prelude.Dict.{Dict, lookup, insert, lookup-insert}
use radical_orbit.Prelude.Int.{int_eq}
use radical_orbit.Prelude.Sorting.{place}
use radical_orbit.Prelude.Keyed.{IsKeyed, insert-IsKeyed, key-lookup}
use radical_orbit.Values.{Fields}
use radical_orbit.State.{
  PilotState, PilotRecord, TaskState, TaskRecord, is_terminal_task, is_running, is_queued,
}
use radical_orbit.Pool.{PoolState, drop_spool}
use radical_orbit.Dispatcher.{Host, set_task, set_pilot, with_pool, mark_dirty, notify_task}
use radical_orbit.Dispatcher.Ending.{free_slot, unslot, end_task}
use radical_orbit.Dispatcher.Slots.{
  IsAccounted, end_task-IsAccounted, set_task-IsAccounted, lookup-free_slot, tasks-free_slot,
  one_less, some_same,
}

-- Where a task is: a running one is on a pilot of the pool, a queued one is on none.
abbrev pub IsPlaced : PoolState → TaskRecord → Type 0
IsPlaced ps t =
    (is_running t.state ≡ true
      → (pid : String) × (p : PilotRecord) × (t.pilot_id ≡ some pid)
        × (lookup pid ps.pilots ≡ some p))
    × (is_queued t.state ≡ true → t.pilot_id ≡ none)

-- The ledger: the slots are counted right, records stand under their ids, and tasks are placed.
abbrev pub IsSound : PoolState → Type 0
IsSound ps =
    IsAccounted ps
    × IsKeyed (λ p. p.pid) ps.pilots
    × IsKeyed (λ t. t.task_id) ps.tasks
    × ((tid : String) (t : TaskRecord) → lookup tid ps.tasks ≡ some t → IsPlaced ps t)

abbrev pub KeepsPilots : PoolState → PoolState → Type 0
KeepsPilots ps after =
    (pid : String) (p : PilotRecord)
    → lookup pid ps.pilots ≡ some p
    → (q : PilotRecord) × (lookup pid after.pilots ≡ some q)

pub still-IsPlaced :
    (ps after : PoolState) (t : TaskRecord)
    → KeepsPilots ps after
    → IsPlaced ps t
    → IsPlaced after t
still-IsPlaced ps after t keeps (run, que) = (
  λ r.
      let (pid, p, own, found) = run r in
      let (q, found') = keeps pid p found in (pid, q, own, found'),
  que,
)

-- A step that changes one task and drops no pilot.
pub one_task-IsPlaced :
    (tid : String) (changed : TaskRecord) (ps after : PoolState)
    → ((s : String) (t : TaskRecord) → lookup s ps.tasks ≡ some t → IsPlaced ps t)
    → KeepsPilots ps after
    → after.tasks ≡ insert tid changed ps.tasks
    → IsPlaced after changed
    → (s : String) (t : TaskRecord) → lookup s after.tasks ≡ some t
    → IsPlaced after t
one_task-IsPlaced tid changed ps after all_placed keeps e own s t h = split (Bool-cases (tid == s))
  where
    found : (if tid == s then some changed else lookup s ps.tasks) ≡ some t
    found = sym (lookup-insert tid s changed ps.tasks) ∙ sym (ap (lookup s) e) ∙ h

    split : ((tid == s) ≡ true) ⊎ ((tid == s) ≡ false) → IsPlaced after t
    split (inl same) = subst (IsPlaced after) (some_same changed t (rw same at found)) own
    split (inr other) = still-IsPlaced ps after t keeps (all_placed s t (rw other at found))

free_slot-KeepsPilots :
    (pid : String) (p : PilotRecord) (ps : PoolState)
    → lookup pid ps.pilots ≡ some p
    → KeepsPilots ps (free_slot (some pid) ps)
free_slot-KeepsPilots pid p ps found q r h = elim (Bool-cases (pid == q)) [
  | inl same ↦ (one_less p, lookup-free_slot pid q p ps found ∙ rw same refl)
  | inr other ↦ (r, lookup-free_slot pid q p ps found ∙ rw other h)
]

pub ended-IsPlaced :
    (ps : PoolState) (t : TaskRecord) → is_terminal_task t.state ≡ true → IsPlaced ps t
ended-IsPlaced ps t over =
    (λ r. absurd (not_running t.state over r), λ q. absurd (not_queued t.state over q))
  where
    not_running : (s : TaskState) → is_terminal_task s ≡ true → is_running s ≢ true
    not_running s h k = ground arith

    not_queued : (s : TaskState) → is_terminal_task s ≡ true → is_queued s ≢ true
    not_queued s h k = ground arith

pilots-free_slot :
    (pid : String) (p : PilotRecord) (ps : PoolState)
    → lookup pid ps.pilots ≡ some p
    → (free_slot (some pid) ps).pilots ≡ insert pid (one_less p) ps.pilots
unfolding free_slot unslot set_pilot
pilots-free_slot pid p ps found = rw found refl

pub key_of :
    (pid : String) (p : PilotRecord) (d : Dict String PilotRecord)
    → IsKeyed (λ p. p.pid) d
    → lookup pid d ≡ some p
    → p.pid ≡ pid
key_of pid p d keyed found = key-lookup (λ p. p.pid) pid p d keyed found

-- The end of a running task, whatever ended it, keeps the ledger sound.
pub end_task-IsSound :
    (tid : String) (t ended : TaskRecord) (ps : PoolState)
    → IsSound ps
    → lookup tid ps.tasks ≡ some t
    → is_running t.state ≡ true
    → is_terminal_task ended.state ≡ true
    → ended.task_id ≡ tid
    → IsSound (end_task tid ended t.pilot_id ps)
unfolding end_task set_task drop_spool
end_task-IsSound tid t ended ps (acc, pk, tk, all_placed) h run over key =
    let (pid, p, own, found) = (all_placed tid t h).0 run in
    subst (λ o. IsSound (end_task tid ended o ps)) (sym own) (at_home pid p own found)
  where
    done : PoolState
    done = drop_spool tid (set_task tid ended ps)

    idle : (s : TaskState) → is_terminal_task s ≡ true → is_running s ≡ false
    idle s k = ground arith

    at_home :
        (pid : String) (p : PilotRecord)
        → t.pilot_id ≡ some pid
        → lookup pid ps.pilots ≡ some p
        → IsSound (end_task tid ended (some pid) ps)
    at_home pid p own found = (
      end_task-IsAccounted tid pid t ended p ps acc h found run own (idle ended.state over),
      subst (IsKeyed (λ p. p.pid)) (sym (pilots-free_slot pid p done found)) (
          insert-IsKeyed (λ p. p.pid) pid (one_less p) ps.pilots (key_of pid p ps.pilots pk found)
            pk),
      subst (IsKeyed (λ t. t.task_id)) (sym (tasks-free_slot (some pid) done))
          (insert-IsKeyed (λ t. t.task_id) tid ended ps.tasks key tk),
      one_task-IsPlaced tid ended ps (free_slot (some pid) done) all_placed
          (free_slot-KeepsPilots pid p done found) (tasks-free_slot (some pid) done)
          (ended-IsPlaced (free_slot (some pid) done) ended over),
    )

-- So does a change of a task that did not run and does not run afterwards.
pub set_task-IsSound :
    (tid : String) (t changed : TaskRecord) (ps : PoolState)
    → IsSound ps
    → lookup tid ps.tasks ≡ some t
    → is_running t.state ≡ false
    → is_running changed.state ≡ false
    → (is_queued changed.state ≡ true → changed.pilot_id ≡ none)
    → changed.task_id ≡ tid
    → IsSound (drop_spool tid (set_task tid changed ps))
unfolding set_task drop_spool
set_task-IsSound tid t changed ps (acc, pk, tk, all_placed) h idle idle' lost_ key = (
  set_task-IsAccounted tid t changed ps acc h idle idle',
  pk,
  insert-IsKeyed (λ t. t.task_id) tid changed ps.tasks key tk,
  one_task-IsPlaced tid changed ps (drop_spool tid (set_task tid changed ps)) all_placed
      (λ pid p found. (p, found)) refl (λ r. absurd (clash r idle'), lost_),
)
  where
    clash : is_running changed.state ≡ true → is_running changed.state ≢ false
    clash r i = ground arith
