-- ===== src/Dispatcher/Sound/Closing.antt =====
-- plugin_task_dispatcher.py, `_finalize_pilot`: the ledger while the tasks of an ended pilot are
-- given back, one by one.
use radical_orbit.Prelude.{
  ℕ, String, ◌≡◌, refl, sym, ap, subst, ◌∙◌, ◌≢◌, inl, inr, Bool, true, false, not, ◌&&◌, Option,
  none, some, [], ◌∷◌, arith, ltb, Bool-cases, All, ◌==◌, nat_eq, string_eq, str_iff, option_eq,
  pair_eq,
}
use radical_orbit.Prelude.Count.{bit, count}
use radical_orbit.Prelude.Dict.{
  Dict, lookup, insert, lookup-insert, lookup-insert_self, insert-insert,
}
use radical_orbit.Prelude.Int.{int_eq}
use radical_orbit.Prelude.Keyed.{IsKeyed, insert-IsKeyed}
use radical_orbit.State.{PilotRecord, TaskState, TaskRecord, is_terminal_task, is_running}
use radical_orbit.Pool.{PoolState, drop_spool}
use radical_orbit.Dispatcher.{Host, set_task, with_pool, dispatch_notify}
use radical_orbit.Dispatcher.Ending.{end_task, failed_task, mark_task_failed}
use radical_orbit.Dispatcher.Pilots.{settle, holds_task}
use radical_orbit.Dispatcher.Slots.{Slots, runs_on, running_on, running_on-set_task}
use radical_orbit.Dispatcher.Sound.{IsPlaced, one_task-IsPlaced}
use radical_orbit.Dispatcher.Sound.Claim.{pool-mark_task_failed, end_task-none}

-- The ledger while the tasks `rest` are still to be looked at, for the pilot that ended.
abbrev pub IsClosing : String → PilotRecord → Dict String TaskRecord → PoolState → Type 0
IsClosing pid ended rest ps =
    (lookup "" ps.pilots ≡ none)
    × (lookup pid ps.pilots ≡ some ended)
    × ((q : String) (r : PilotRecord)
        → (pid == q) ≡ false
        → lookup q ps.pilots ≡ some r
        → Slots r (running_on q ps))
    × (running_on pid ps ≡ count (runs_on pid) rest)
    × IsKeyed (λ p. p.pid) ps.pilots
    × IsKeyed (λ t. t.task_id) ps.tasks
    × ((tid : String) (t : TaskRecord) → lookup tid ps.tasks ≡ some t → IsPlaced ps t)

abbrev pub AreThere : Dict String TaskRecord → PoolState → Type 0
AreThere rest ps = All (λ e. lookup e.0 ps.tasks ≡ some e.1) rest

-- The pool after one task was given back.
abbrev pub GivenBack : String → TaskRecord → PoolState → PoolState → Type 0
GivenBack tid back ps after = (after.pilots ≡ ps.pilots) × (after.tasks ≡ insert tid back ps.tasks)

abbrev pub IsBack : String → TaskRecord → Type 0
IsBack tid back = (is_running back.state ≡ false) × (back.pilot_id ≡ none) × (back.task_id ≡ tid)

pub settle_cases :
    (tid : String) (t : TaskRecord) (h : Host) (now : ℕ)
    → lookup "" h.pool.pilots ≡ none
    → t.pilot_id ≡ none
    → t.task_id ≡ tid
    → (back : TaskRecord) × IsBack tid back × GivenBack tid back h.pool (settle tid t h now).pool
unfolding settle set_task dispatch_notify drop_spool
settle_cases tid t h now e own key = elim (Bool-cases (ltb h.policy.max_requeues t.requeues)) [
  | inr few ↦ (record t { state = TaskState.queued }, (refl, own, key), rw few (refl, refl))
  | inl many ↦ (
    failed,
    (refl, own, key),
    rw many (
      ap (λ ps. ps.pilots) moved,
      ap (λ ps. ps.tasks) moved ∙ insert-insert tid failed t h.pool.tasks,
    ),
  )
]
  where
    unfolded : PoolState
    unfolded = set_task tid t h.pool

    reason : String
    reason = "requeued too often (pilot lost)"

    failed : TaskRecord
    failed = failed_task t reason now

    moved :
        (mark_task_failed tid reason now (with_pool unfolded h)).pool
        ≡ drop_spool tid (set_task tid failed unfolded)
    moved =
        pool-mark_task_failed tid t reason now (with_pool unfolded h)
          (lookup-insert_self tid t h.pool.tasks)
        ∙ ap (λ o. end_task tid failed o unfolded) own
        ∙ end_task-none tid failed unfolded e

pub IsClosing-GivenBack :
    (pid tid : String) (ended : PilotRecord) (back : TaskRecord) (rest : Dict String TaskRecord)
    (ps after : PoolState)
    → IsClosing pid ended rest (set_task tid back ps)
    → GivenBack tid back ps after
    → IsClosing pid ended rest after
unfolding set_task
IsClosing-GivenBack pid tid ended back rest ps after h (e, f) =
    subst (λ d. IsClosing pid ended rest (record after { pilots = d })) (sym e)
      (subst (λ d. IsClosing pid ended rest (record after { pilots = ps.pilots; tasks = d }))
        (sym f) h)

-- A task of the ended pilot is given back.
pub IsClosing-set_task :
    (pid tid : String) (ended : PilotRecord) (t back : TaskRecord) (rest : Dict String TaskRecord)
    (ps : PoolState)
    → IsClosing pid ended ((tid, t) ∷ rest) ps
    → lookup tid ps.tasks ≡ some t
    → t.pilot_id ≡ some pid
    → IsBack tid back
    → IsClosing pid ended rest (set_task tid back ps)
unfolding set_task count
IsClosing-set_task pid tid ended t back rest ps (e, own, others, left, pk, tk, all_placed) h mine
      (idle, none_, key) =
    (
      e,
      own,
      λ q r other found. subst (Slots r) (same q other) (others q r other found),
      fewer,
      pk,
      insert-IsKeyed (λ t. t.task_id) tid back ps.tasks key tk,
      one_task-IsPlaced tid back ps (set_task tid back ps) all_placed (λ q r found. (r, found)) refl
          (λ r. absurd (clash r idle), λ q. none_),
    )
  where
    clash : is_running back.state ≡ true → is_running back.state ≢ false
    clash r i = ground arith

    not_back : (q : String) → runs_on q back ≡ false
    not_back q = rw idle refl

    away : (q : String) → (pid == q) ≡ false → runs_on q t ≡ false
    away q other = rw (mine, other) (falls (is_running t.state))
      where
        falls : (b : Bool) → (b && false) ≡ false
        falls true = refl
        falls false = refl

    same : (q : String) → (pid == q) ≡ false → running_on q ps ≡ running_on q (set_task tid back ps)
    same q other =
        omega
          (arith, running_on-set_task q tid t back ps h, ap bit (not_back q), ap bit (away q other))

    fewer : running_on pid (set_task tid back ps) ≡ count (runs_on pid) rest
    fewer = omega (arith, running_on-set_task pid tid t back ps h, ap bit (not_back pid), left)

pub AreThere-insert :
    (tid : String) (back : TaskRecord) (rest : Dict String TaskRecord) (ps after : PoolState)
    → lookup tid rest ≡ none
    → after.tasks ≡ insert tid back ps.tasks
    → AreThere rest ps
    → AreThere rest after
unfolding lookup
AreThere-insert tid back [] ps after fresh e h = tt
AreThere-insert tid back ((k, v) ∷ rest) ps after fresh e (h, hs) = elim (Bool-cases (k == tid)) [
  | inl same ↦ absurd (clash v (rw same at fresh))
  | inr other ↦ (
    ap (lookup k) e ∙ lookup-insert tid k back ps.tasks ∙ rw (swap other) h,
    AreThere-insert tid back rest ps after (rw other at fresh) e hs,
  )
]
  where
    clash : (v : TaskRecord) → ◌≢◌ {A = Option TaskRecord} (some v) none
    clash v x = ground arith

    swap : (k == tid) ≡ false → (tid == k) ≡ false
    swap x = ground (arith, str_iff k tid, str_iff tid k)

pub skipped : (pid : String) (t : TaskRecord) → holds_task pid t ≡ false → runs_on pid t ≡ false
unfolding holds_task
skipped pid t h = by_state t.state (t.pilot_id == some pid) h
  where
    by_state :
        (s : TaskState) (b : Bool)
        → (b && not (is_terminal_task s)) ≡ false
        → (is_running s && b) ≡ false
    by_state s b k = ground arith
