-- ===== src/Dispatcher/Sound/Loss.antt =====
-- plugin_task_dispatcher.py: `_finalize_pilot`, and the ledger.
use radical_orbit.Prelude.{
  ℕ, ◌+◌, ◌≤◌, String, ◌≡◌, refl, sym, ap, subst, ◌∙◌, ◌≢◌, ◌⊎◌, inl, inr, Bool, true, false, not,
  ◌&&◌, Option, none, some, [], ◌∷◌, arith, if◌then◌else◌, Bool-cases, Option-cases, All, All-map,
  ◌==◌, nat_eq, string_eq, str_iff, option_eq, ==_refl, ==_iff, pair_eq,
}
use radical_orbit.Prelude.Count.{bit, count}
use radical_orbit.Prelude.Dict.{Dict, lookup, insert, lookup-insert, lookup-insert_self}
use radical_orbit.Prelude.Int.{int_eq}
use radical_orbit.Prelude.Keyed.{IsKeyed, insert-IsKeyed}
use radical_orbit.State.{
  PilotState, PilotRecord, TaskRecord, is_terminal_task, is_terminal_pilot, is_pre_active,
}
use radical_orbit.Pool.{PoolState}
use radical_orbit.Dispatcher.{pilot_status, Host, set_pilot, with_pool, persist, dispatch_notify}
use radical_orbit.Dispatcher.Pilots.{
  requeued_task, forget_uid, reclaim_task, reclaim_tasks, holds_task, signal, stamp, finalize_found,
  finalize_pilot,
}
use radical_orbit.Dispatcher.Slots.{Slots, runs_on, running_on, not_empty, some_same}
use radical_orbit.Dispatcher.Sound.{IsSound, KeepsPilots, still-IsPlaced, key_of}
use radical_orbit.Dispatcher.Sound.Closing.{
  IsClosing, AreThere, GivenBack, IsBack, settle_cases, IsClosing-GivenBack, IsClosing-set_task,
  AreThere-insert, skipped,
}

pool-forget_uid : (o : Option String) (h : Host) → (forget_uid o h).pool ≡ h.pool
unfolding forget_uid
pool-forget_uid none h = refl
pool-forget_uid (some uid) h = elim (Bool-cases (uid == "")) [
  | inl e ↦ rw e refl
  | inr e ↦ rw e refl
]

reclaim_cases :
    (tid : String) (t : TaskRecord) (now : ℕ) (h : Host)
    → lookup "" h.pool.pilots ≡ none
    → t.task_id ≡ tid
    → (back : TaskRecord) × IsBack tid back
      × GivenBack tid back h.pool (reclaim_task tid t now h).pool
unfolding reclaim_task
reclaim_cases tid t now h e key =
    let kept = pool-forget_uid t.rhapsody_uid h in
    let forgot = forget_uid t.rhapsody_uid h in
    let (back, is_back, given) =
      settle_cases tid (requeued_task t) forgot now (ap (λ ps. lookup "" ps.pilots) kept ∙ e) refl
        key in
    (
      back,
      is_back,
      (given.0 ∙ ap (λ ps. ps.pilots) kept, given.1 ∙ ap (λ ps. insert tid back ps.tasks) kept),
    )

owner : (pid : String) (t : TaskRecord) → holds_task pid t ≡ true → t.pilot_id ≡ some pid
unfolding holds_task
owner pid t h =
    (==_iff t.pilot_id (some pid)).0 (first (t.pilot_id == some pid) (is_terminal_task t.state) h)
  where
    first : (b c : Bool) → (b && not c) ≡ true → b ≡ true
    first b c k = ground arith

reclaim_tasks-IsClosing :
    (pid : String) (ended : PilotRecord) (ts : Dict String TaskRecord) (now : ℕ) (h : Host)
    → IsKeyed (λ t. t.task_id) ts
    → AreThere ts h.pool
    → IsClosing pid ended ts h.pool
    → IsClosing pid ended [] (reclaim_tasks pid ts now h).pool
unfolding reclaim_tasks count
reclaim_tasks-IsClosing pid ended [] now h keyed there c = c
reclaim_tasks-IsClosing pid ended ((tid, t) ∷ ts) now h (key, fresh, keyed) (at, there) c =
    elim (Bool-cases (holds_task pid t)) [
      | inl mine ↦
          let (back, is_back, given) = reclaim_cases tid t now h c.0 key in
          rw (reclaim_tasks, mine)
            (reclaim_tasks-IsClosing pid ended ts now (reclaim_task tid t now h) keyed
              (AreThere-insert tid back ts h.pool (reclaim_task tid t now h).pool fresh given.1
                there)
              (IsClosing-GivenBack pid tid ended back ts h.pool (reclaim_task tid t now h).pool
                (IsClosing-set_task pid tid ended t back ts h.pool c at (owner pid t mine) is_back)
                given))
      | inr other ↦
          rw (reclaim_tasks, other)
            (reclaim_tasks-IsClosing pid ended ts now h keyed there (
              c.0,
              c.1,
              c.2,
              c.3
                  ∙ ap (λ b. bit b + count (runs_on pid) ts) (skipped pid t other)
                  ∙ zero_plus (count (runs_on pid) ts),
              c.4,
              c.5,
              c.6,
            ))
    ]
  where
    zero_plus : (n : ℕ) → 0 + n ≡ n
    zero_plus n = omega arith

closed-IsSound :
    (pid : String) (ended : PilotRecord) (ps : PoolState)
    → is_terminal_pilot ended.state ≡ true
    → ended.in_flight ≤ ended.capacity
    → IsClosing pid ended [] ps
    → IsSound ps
unfolding count
closed-IsSound pid ended ps over fit (e, own, others, left, pk, tk, all_placed) =
    ((e, λ q r found. at q r found (Bool-cases (pid == q))), pk, tk, all_placed)
  where
    slots : Slots ended (running_on pid ps)
    slots = (λ h. left, λ h. absurd (clash h over), fit, λ h. absurd (early ended.state h over))
      where
        early : (s : PilotState) → is_pre_active s ≡ true → is_terminal_pilot s ≢ true
        early s h k = ground arith

        clash : is_terminal_pilot ended.state ≡ false → is_terminal_pilot ended.state ≢ true
        clash h k = ground arith

    at :
        (q : String) (r : PilotRecord)
        → lookup q ps.pilots ≡ some r
        → ((pid == q) ≡ true) ⊎ ((pid == q) ≡ false)
        → Slots r (running_on q ps)
    at q r found (inr other) = others q r other found
    at q r found (inl same) =
        subst (λ z. Slots z (running_on q ps))
          (some_same ended r
            (sym own ∙ ap (λ k. lookup k ps.pilots) ((str_iff pid q).0 same) ∙ found))
          (subst (λ z. Slots ended (running_on z ps)) ((str_iff pid q).0 same) slots)

behind :
    (k j : String) (v w : TaskRecord) (d : Dict String TaskRecord)
    → lookup k d ≡ none
    → lookup j d ≡ some w
    → lookup j ((k, v) ∷ d) ≡ some w
unfolding lookup
behind k j v w d fresh h = elim (Bool-cases (k == j)) [
  | inr other ↦ rw other h
  | inl same ↦ absurd (clash (sym fresh ∙ ap (λ i. lookup i d) ((str_iff k j).0 same) ∙ h))
]
  where
    clash : ◌≢◌ {A = Option TaskRecord} none (some w)
    clash x = ground arith

ts-AreThere :
    (ts : Dict String TaskRecord)
    → IsKeyed (λ t. t.task_id) ts
    → All (λ e. lookup e.0 ts ≡ some e.1) ts
unfolding lookup
ts-AreThere [] keyed = tt
ts-AreThere ((k, v) ∷ ts) (key, fresh, keyed) = (
  rw (==_refl k) refl,
  All-map _ _ (λ e h. behind k e.0 v e.1 ts fresh h) ts (ts-AreThere ts keyed),
)

pub set_pilot-KeepsPilots :
    (pid : String) (ended : PilotRecord) (ps : PoolState) → KeepsPilots ps (set_pilot pid ended ps)
unfolding set_pilot
set_pilot-KeepsPilots pid ended ps q r h = elim (Bool-cases (pid == q)) [
  | inl same ↦ (ended, lookup-insert pid q ended ps.pilots ∙ rw same refl)
  | inr other ↦ (r, lookup-insert pid q ended ps.pilots ∙ rw other h)
]

set_pilot-IsClosing :
    (pid : String) (p ended : PilotRecord) (ps : PoolState)
    → IsSound ps
    → lookup pid ps.pilots ≡ some p
    → ended.pid ≡ pid
    → IsClosing pid ended ps.tasks (set_pilot pid ended ps)
unfolding set_pilot
set_pilot-IsClosing pid p ended ps (acc, pk, tk, all_placed) found key = (
  lookup-insert pid "" ended ps.pilots ∙ rw (not_empty ps.pilots pid p acc.0 found) acc.0,
  lookup-insert_self pid ended ps.pilots,
  λ q r other h. acc.1 q r (elsewhere q r other (lookup-insert pid q ended ps.pilots) h),
  refl,
  insert-IsKeyed (λ p. p.pid) pid ended ps.pilots key pk,
  tk,
  λ tid t h.
      still-IsPlaced ps (set_pilot pid ended ps) t (set_pilot-KeepsPilots pid ended ps)
        (all_placed tid t h),
)
  where
    elsewhere :
        (q : String) (r : PilotRecord)
        → (pid == q) ≡ false
        → lookup q (insert pid ended ps.pilots)
          ≡ (if pid == q then some ended else lookup q ps.pilots)
        → lookup q (insert pid ended ps.pilots) ≡ some r
        → lookup q ps.pilots ≡ some r
    elsewhere q r other e h = sym (rw other at e) ∙ h

lost-IsSound :
    (pid reason : String) (new : PilotState) (now : ℕ) (p : PilotRecord) (h : Host)
    → is_terminal_pilot new ≡ true
    → IsSound h.pool
    → lookup pid h.pool.pilots ≡ some p
    → IsSound (finalize_found pid (some p) new reason now h).pool
unfolding finalize_found stamp dispatch_notify persist signal set_pilot
lost-IsSound pid reason new now p h over sound e =
    closed-IsSound pid (stamp p new reason now) (reclaim_tasks pid h.pool.tasks now told).pool over
      (sound.0.1 pid p e).2
      (reclaim_tasks-IsClosing pid (stamp p new reason now) h.pool.tasks now told sound.2
        (ts-AreThere h.pool.tasks sound.2)
        (set_pilot-IsClosing pid p (stamp p new reason now) h.pool sound e
          (key_of pid p h.pool.pilots sound.1 e)))
  where
    told : Host
    told =
        dispatch_notify (pilot_status pid new (some reason))
          (with_pool (set_pilot pid (stamp p new reason now) h.pool) h)

-- The end of a pilot, whatever its state and whatever runs on it, keeps the ledger sound: as it has
-- ended, no task is left running on it, and the other pilots still count theirs exactly.
pub finalize_pilot-IsSound :
    (pid reason : String) (new : PilotState) (now : ℕ) (h : Host)
    → is_terminal_pilot new ≡ true
    → IsSound h.pool
    → IsSound (finalize_pilot pid new reason now h).pool
unfolding finalize_pilot finalize_found
finalize_pilot-IsSound pid reason new now h over sound =
    elim (Option-cases (lookup pid h.pool.pilots)) [
      | inl e ↦ rw e sound
      | inr (p, e) ↦ rw e (lost-IsSound pid reason new now p h over sound e)
    ]
