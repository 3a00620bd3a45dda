-- ===== src/Dispatcher/Slots.antt =====
-- plugin_task_dispatcher.py: a pilot's `in_flight` and the tasks that run on it.
pub mod Race
use radical_orbit.Prelude.{
  ℕ, ◌+◌, ◌-◌, ◌≤◌, min, String, ◌≡◌, refl, sym, ap, subst, ◌∙◌, ◌≢◌, ◌⊎◌, inl, inr, Bool, true,
  false, not, ◌&&◌, Option, none, some, arith, ltb, if◌then◌else◌, Bool-cases, Option-cases,
  or_default, take, In, ◌==◌, nat_eq, string_eq, str_iff, option_eq, ==_refl, pair_eq,
}
use radical_orbit.Prelude.Count.{bit, weight, count, count-insert}
use radical_orbit.Prelude.Dict.{Dict, lookup, insert, lookup-insert}
use radical_orbit.Prelude.Int.{int_eq}
use radical_orbit.Values.{Fields}
use radical_orbit.State.{
  PilotState, PilotRecord, TaskState, TaskRecord, is_terminal_pilot, is_pre_active,
  is_terminal_task, is_running, is_queued, free_capacity,
}
use radical_orbit.Pool.{PoolState, drop_spool}
use radical_orbit.Dispatcher.{Host, set_task, set_pilot}
use radical_orbit.Dispatcher.Ending.{free_slot, unslot, end_task}
use radical_orbit.Dispatcher.Claims.{run_on}

abbrev pub runs_on : String → TaskRecord → Bool
runs_on pid t = is_running t.state && t.pilot_id == some pid

abbrev pub running_on : String → PoolState → ℕ
running_on pid ps = count (runs_on pid) ps.tasks

-- What a pilot's record says, when `n` tasks run on it: an ended pilot has none; any other counts
-- them exactly; they never exceed its capacity; and it has none until it is ACTIVE.
abbrev pub Slots : PilotRecord → ℕ → Type 0
Slots p n =
    (is_terminal_pilot p.state ≡ true → n ≡ 0)
    × (is_terminal_pilot p.state ≡ false → p.in_flight ≡ n)
    × (p.in_flight ≤ p.capacity)
    × (is_pre_active p.state ≡ true → p.capacity ≡ 0)

-- The ledger agrees with itself; no pilot has the empty id.
abbrev pub IsAccounted : PoolState → Type 0
IsAccounted ps =
    (lookup "" ps.pilots ≡ none)
    × ((pid : String) (p : PilotRecord)
        → lookup pid ps.pilots ≡ some p
        → Slots p (running_on pid ps))

pub running_on-set_task :
    (pid tid : String) (t ended : TaskRecord) (ps : PoolState)
    → lookup tid ps.tasks ≡ some t
    → running_on pid (set_task tid ended ps) + bit (runs_on pid t)
      ≡ running_on pid ps + bit (runs_on pid ended)
unfolding set_task
running_on-set_task pid tid t ended ps h =
    ap (λ o. running_on pid (set_task tid ended ps) + weight (runs_on pid) o) (sym h)
    ∙ count-insert (runs_on pid) tid ended ps.tasks

-- A task that neither ran before nor runs after changes no count.
pub set_task-IsAccounted :
    (tid : String) (t changed : TaskRecord) (ps : PoolState)
    → IsAccounted ps
    → lookup tid ps.tasks ≡ some t
    → is_running t.state ≡ false
    → is_running changed.state ≡ false
    → IsAccounted (drop_spool tid (set_task tid changed ps))
unfolding set_task drop_spool
set_task-IsAccounted tid t changed ps (e, acc) h k l =
    (e, λ pid p found. same pid p (acc pid p found))
  where
    same :
        (pid : String) (p : PilotRecord)
        → Slots p (running_on pid ps)
        → Slots p (running_on pid (set_task tid changed ps))
    same pid p s = subst (Slots p) (ground (arith, running_on-set_task pid tid t changed ps h)) s

abbrev pub one_less : PilotRecord → PilotRecord
one_less p = record p { in_flight = p.in_flight - 1 }

pub lookup-free_slot :
    (pid q : String) (p : PilotRecord) (ps : PoolState)
    → lookup pid ps.pilots ≡ some p
    → lookup q (free_slot (some pid) ps).pilots
      ≡ (if pid == q then some (one_less p) else lookup q ps.pilots)
unfolding free_slot unslot set_pilot
lookup-free_slot pid q p ps h = rw (h, lookup-insert pid q (one_less p) ps.pilots) refl

pub some_same {ℓ} : {A : Type ℓ} (a b : A) → some a ≡ some b → a ≡ b
some_same a b h = cc

-- The pilot whose task ended, and any other.
Slots-one_less :
    (p : PilotRecord) (before after : ℕ)
    → Slots p before
    → after + 1 ≡ before
    → Slots (one_less p) after
Slots-one_less p before after s h = ground arith

pub ended_count :
    (pid tid q : String) (t ended : TaskRecord) (ps : PoolState)
    → lookup tid ps.tasks ≡ some t
    → is_running t.state ≡ true
    → t.pilot_id ≡ some pid
    → is_running ended.state ≡ false
    → running_on q (set_task tid ended ps) + bit (pid == q) ≡ running_on q ps
ended_count pid tid q t ended ps h run own over =
    omega
      (arith, running_on-set_task q tid t ended ps h, ap bit (owned run own), ap bit (idle over))
  where
    owned : is_running t.state ≡ true → t.pilot_id ≡ some pid → runs_on q t ≡ (pid == q)
    owned r o = rw (r, o) refl

    idle : is_running ended.state ≡ false → runs_on q ended ≡ false
    idle r = rw r refl

pub tasks-free_slot :
    (owner : Option String) (ps : PoolState) → (free_slot owner ps).tasks ≡ ps.tasks
unfolding free_slot unslot set_pilot
tasks-free_slot owner ps = elim (Option-cases (lookup (or_default owner "") ps.pilots)) [
  | inl e ↦ rw e refl
  | inr (p, e) ↦ rw e refl
]

pub not_empty :
    (d : Dict String PilotRecord) (pid : String) (p : PilotRecord)
    → lookup "" d ≡ none
    → lookup pid d ≡ some p
    → (pid == "") ≡ false
not_empty d pid p e found = elim (Bool-cases (pid == "")) [
  | inr no_ ↦ no_
  | inl yes_ ↦ absurd (clash (sym e ∙ sym (ap (λ k. lookup k d) ((str_iff pid "").0 yes_)) ∙ found))
]
  where
    clash : ◌≢◌ {A = Option PilotRecord} none (some p)
    clash k = ground arith

-- A step that changes one pilot, and the number of tasks on no other.
pub one_pilot-IsAccounted :
    (pid : String) (p changed : PilotRecord) (ps after : PoolState)
    → IsAccounted ps
    → lookup pid ps.pilots ≡ some p
    → ((q : String)
        → lookup q after.pilots ≡ (if pid == q then some changed else lookup q ps.pilots))
    → Slots changed (running_on pid after)
    → ((q : String) → (pid == q) ≡ false → running_on q after ≡ running_on q ps)
    → IsAccounted after
one_pilot-IsAccounted pid p changed ps after (e, acc) found pilots own others = (
  pilots "" ∙ rw (not_empty ps.pilots pid p e found) e,
  λ q r k. elim (Bool-cases (pid == q)) [
    | inl same ↦ this q r same (sym (choose_true q same) ∙ sym (pilots q) ∙ k)
    | inr other ↦
        subst (Slots r) (sym (others q other))
          (acc q r (sym (choose_false q other) ∙ sym (pilots q) ∙ k))
  ],
)
  where
    choose_true :
        (q : String)
        → (pid == q) ≡ true
        → (if pid == q then some changed else lookup q ps.pilots) ≡ some changed
    choose_true q same = rw same refl

    choose_false :
        (q : String)
        → (pid == q) ≡ false
        → (if pid == q then some changed else lookup q ps.pilots) ≡ lookup q ps.pilots
    choose_false q other = rw other refl

    this :
        (q : String) (r : PilotRecord)
        → (pid == q) ≡ true
        → some changed ≡ some r
        → Slots r (running_on q after)
    this q r same k =
        subst (λ z. Slots z (running_on q after)) (some_same changed r k)
          (subst (λ z. Slots changed (running_on z after)) ((str_iff pid q).0 same) own)

-- A running task that ends frees the slot that it held, whatever its end is.
pub end_task-IsAccounted :
    (tid pid : String) (t ended : TaskRecord) (p : PilotRecord) (ps : PoolState)
    → IsAccounted ps
    → lookup tid ps.tasks ≡ some t
    → lookup pid ps.pilots ≡ some p
    → is_running t.state ≡ true
    → t.pilot_id ≡ some pid
    → is_running ended.state ≡ false
    → IsAccounted (end_task tid ended (some pid) ps)
unfolding end_task set_task drop_spool
end_task-IsAccounted tid pid t ended p ps (e, acc) h found run own over =
    one_pilot-IsAccounted pid p (one_less p) ps after (e, acc) found
      (λ q. lookup-free_slot pid q p done found)
      (Slots-one_less p (running_on pid ps) (running_on pid after) (acc pid p found)
        (ap (λ b. running_on pid after + bit b) (sym (==_refl pid)) ∙ counts pid))
      (λ q other. left_alone q (counts q) other)
  where
    done : PoolState
    done = drop_spool tid (set_task tid ended ps)

    after : PoolState
    after = free_slot (some pid) done

    counts : (q : String) → running_on q after + bit (pid == q) ≡ running_on q ps
    counts q =
        ap (λ d. count (runs_on q) d + bit (pid == q)) (tasks-free_slot (some pid) done)
        ∙ ended_count pid tid q t ended ps h run own over

    left_alone :
        (q : String)
        → running_on q after + bit (pid == q) ≡ running_on q ps
        → (pid == q) ≡ false
        → running_on q after ≡ running_on q ps
    left_alone q c other = ground arith

-- A queued task that is claimed takes a free slot of the pilot.
pub run_on-IsAccounted :
    (t old : TaskRecord) (p : PilotRecord) (now : ℕ) (ps : PoolState)
    → IsAccounted ps
    → lookup t.task_id ps.tasks ≡ some old
    → lookup p.pid ps.pilots ≡ some p
    → is_running old.state ≡ false
    → ltb 0 (free_capacity p) ≡ true
    → IsAccounted (run_on t p now ps)
unfolding run_on set_task set_pilot free_capacity
run_on-IsAccounted t old p now ps (e, acc) h found idle free =
    one_pilot-IsAccounted p.pid p
      (record p { in_flight = p.in_flight + 1; started_tasks = p.started_tasks + 1 }) ps
      (run_on t p now ps) (e, acc) found (λ q. lookup-insert p.pid q _ ps.pilots)
      (room (running_on p.pid ps) (running_on p.pid (run_on t p now ps)) (acc p.pid p found)
        (plus p.pid (==_refl p.pid)))
      (λ q other. same q other)
  where
    counted :
        (q : String)
        → running_on q (run_on t p now ps) + bit (runs_on q old)
          ≡ running_on q ps + bit (p.pid == q)
    counted q = running_on-set_task q t.task_id old _ ps h

    plus :
        (q : String) → (p.pid == q) ≡ true → running_on q (run_on t p now ps) ≡ running_on q ps + 1
    plus q yes_ = ground (arith, counted q)

    same : (q : String) → (p.pid == q) ≡ false → running_on q (run_on t p now ps) ≡ running_on q ps
    same q no_ = ground (arith, counted q)

    room :
        (before after : ℕ)
        → Slots p before
        → after ≡ before + 1
        → Slots
            (record p { in_flight = p.in_flight + 1; started_tasks = p.started_tasks + 1 })
            after
    room before after s k = ground arith
