-- ===== src/Dispatcher/Sound/Life/Steps.antt =====
-- plugin_task_dispatcher.py: new pilots, the tick of the policy, and every order of the handlers.
use radical_orbit.Prelude.{
  ℕ, String, ◌≡◌, refl, sym, ap, subst, ◌∙◌, ◌≢◌, ◌⊎◌, inl, inr, Bool, true, false, Option, none,
  some, List, [], ◌∷◌, arith, if◌then◌else◌, Bool-cases, or_default, All, All-In, ◌==◌, nat_eq,
  string_eq, str_iff, option_eq, pair_eq,
}
use radical_orbit.Prelude.Count.{bit, count}
use radical_orbit.Prelude.Dict.{Dict, lookup, lookup-insert, values}
use radical_orbit.Prelude.Int.{int_eq}
use radical_orbit.Prelude.Keyed.{insert-IsKeyed, lookup-key}
use radical_orbit.Config.{PilotSize, PilotMode, submit, endpoint, PoolMember, primary_member}
use radical_orbit.Config
use radical_orbit.State.{PilotRecord, TaskRecord, is_running}
use radical_orbit.Pool.{PoolState, live_pilots_for}
use radical_orbit.Conservative.{Outcome, returns, raised}
use radical_orbit.Conservative.Tick.{on_tick}
use radical_orbit.Dispatcher.{Host, set_pilot, with_pool, persist, dispatch_notify, create_task}
use radical_orbit.Dispatcher.Pilots.Submit.{
  new_pilot, launch, register, adopt_once, with_size, with_member, submit_pilot, noted, request,
  tick,
}
use radical_orbit.Dispatcher.Slots.{Slots, runs_on, running_on, some_same}
use radical_orbit.Dispatcher.Sound.{IsSound, IsPlaced, still-IsPlaced}
use radical_orbit.Dispatcher.Sound.Loss.{set_pilot-KeepsPilots}
use radical_orbit.Dispatcher.Sound.Life.{reconcile_pilots_for-IsSound}

count-none :
    (p : TaskRecord → Bool) (d : Dict String TaskRecord)
    → All (λ t. p t ≡ false) (values d)
    → count p d ≡ 0
unfolding count
count-none p [] h = refl
count-none p ((k, t) ∷ d) h = omega (arith, ap bit h.0, count-none p d h.1)

homeless :
    (pid : String) (ps : PoolState) (t : TaskRecord)
    → lookup pid ps.pilots ≡ none
    → IsPlaced ps t
    → runs_on pid t ≡ false
homeless pid ps t fresh placed = elim (Bool-cases (is_running t.state)) [
  | inr idle ↦ rw idle refl
  | inl run ↦
      let (home, p, own, found) = placed.0 run in
      rw (run, own) (elsewhere home p found (Bool-cases (home == pid)))
]
  where
    clash : (p : PilotRecord) → ◌≢◌ {A = Option PilotRecord} none (some p)
    clash p h = ground arith

    elsewhere :
        (home : String) (p : PilotRecord)
        → lookup home ps.pilots ≡ some p
        → ((home == pid) ≡ true) ⊎ ((home == pid) ≡ false)
        → (home == pid) ≡ false
    elsewhere home p found (inr other) = other
    elsewhere home p found (inl same) = absurd (
        clash p
          (sym fresh ∙ ap (λ k. lookup k ps.pilots) (sym ((str_iff home pid).0 same)) ∙ found))

running_on-none :
    (pid : String) (ps : PoolState)
    → IsSound ps
    → lookup pid ps.pilots ≡ none
    → running_on pid ps ≡ 0
running_on-none pid ps (acc, pk, tk, all_placed) fresh = count-none (runs_on pid) ps.tasks (
    All-In _ (values ps.tasks) (λ t i.
      homeless pid ps t fresh
        (all_placed t.task_id t (lookup-key (λ t. t.task_id) t ps.tasks tk i))))

-- A new pilot, under a fresh id.
new_pilot-IsSound :
    (pid key : String) (m : PoolMember) (s : PilotSize) (now : ℕ) (ps : PoolState)
    → IsSound ps
    → lookup pid ps.pilots ≡ none
    → (pid == "") ≡ false
    → IsSound (set_pilot pid (new_pilot ps m s key pid now) ps)
unfolding set_pilot new_pilot
new_pilot-IsSound pid key m s now ps (acc, pk, tk, all_placed) fresh proper = (
  (
    lookup-insert pid "" made ps.pilots ∙ rw proper acc.0,
    λ q r h. at q r (sym (lookup-insert pid q made ps.pilots) ∙ h) (Bool-cases (pid == q)),
  ),
  insert-IsKeyed (λ p. p.pid) pid made ps.pilots refl pk,
  tk,
  λ tid t h.
      still-IsPlaced ps (set_pilot pid made ps) t (set_pilot-KeepsPilots pid made ps)
        (all_placed tid t h),
)
  where
    made : PilotRecord
    made = new_pilot ps m s key pid now

    empty : running_on pid ps ≡ 0
    empty = running_on-none pid ps (acc, pk, tk, all_placed) fresh

    slots : Slots made (running_on pid ps)
    slots = (λ h. empty, λ h. sym empty, omega arith, λ h. refl)

    at :
        (q : String) (r : PilotRecord)
        → (if pid == q then some made else lookup q ps.pilots) ≡ some r
        → ((pid == q) ≡ true) ⊎ ((pid == q) ≡ false)
        → Slots r (running_on q ps)
    at q r h (inr other) = acc.1 q r (rw other at h)
    at q r h (inl same) =
        subst (λ z. Slots z (running_on q ps)) (some_same made r (rw same at h))
          (subst (λ z. Slots made (running_on z ps)) ((str_iff pid q).0 same) slots)

-- A fresh id for a pilot.
abbrev pub IsFresh : String → Host → Type 0
IsFresh pid h = (lookup pid h.pool.pilots ≡ none) × ((pid == "") ≡ false)

launch-IsSound :
    (mode : PilotMode) (pid : String) (now : ℕ) (h : Host)
    → IsSound h.pool
    → IsSound (launch mode pid now h).pool
unfolding launch create_task
launch-IsSound endpoint pid now h sound = reconcile_pilots_for-IsSound h.participants now h sound
launch-IsSound submit pid now h sound = sound

register-IsSound :
    (m : PoolMember) (s : PilotSize) (key pid : String) (now : ℕ) (h : Host)
    → IsSound h.pool
    → IsFresh pid h
    → IsSound (register m s key pid now h).1.pool
unfolding register persist dispatch_notify
register-IsSound m s key pid now h sound (fresh, proper) =
    launch-IsSound m.pilot pid now
      (persist (with_pool (set_pilot pid (new_pilot h.pool m s key pid now) h.pool) h))
      (new_pilot-IsSound pid key m s now h.pool sound fresh proper)

adopt_once-IsSound :
    (mode : PilotMode) (live : List PilotRecord) (m : PoolMember) (s : PilotSize) (key pid : String)
    (now : ℕ) (h : Host)
    → IsSound h.pool
    → IsFresh pid h
    → IsSound (adopt_once mode live m s key pid now h).1.pool
unfolding adopt_once
adopt_once-IsSound submit live m s key pid now h sound fresh =
    register-IsSound m s key pid now h sound fresh
adopt_once-IsSound endpoint [] m s key pid now h sound fresh =
    register-IsSound m s key pid now h sound fresh
adopt_once-IsSound endpoint (p ∷ ps) m s key pid now h sound fresh = sound

with_size-IsSound :
    (o : Option PilotSize) (m : PoolMember) (key pid : String) (now : ℕ) (h : Host)
    → IsSound h.pool
    → IsFresh pid h
    → IsSound (with_size o m key pid now h).1.pool
unfolding with_size
with_size-IsSound none m key pid now h sound fresh = sound
with_size-IsSound (some s) m key pid now h sound fresh =
    adopt_once-IsSound m.pilot (live_pilots_for h.pool m.member_id) m s key pid now h sound fresh

with_member-IsSound :
    (o : Option PoolMember) (key : Option String) (pid : String) (now : ℕ) (h : Host)
    → IsSound h.pool
    → IsFresh pid h
    → IsSound (with_member o key pid now h).1.pool
unfolding with_member
with_member-IsSound none key pid now h sound fresh = sound
with_member-IsSound (some m) key pid now h sound fresh =
    let k = if or_default key "" == "" then m.default_size else or_default key "" in
    with_size-IsSound (lookup k m.pilot_sizes) m k pid now h sound fresh

-- A request for a pilot under a fresh id keeps the ledger sound, also when it is refused, when the
-- endpoint is adopted already, and when an adopted one is activated at once.
pub submit_pilot-IsSound :
    (key mid : Option String) (pid : String) (now : ℕ) (h : Host)
    → IsSound h.pool
    → IsFresh pid h
    → IsSound (submit_pilot key mid pid now h).1.pool
unfolding submit_pilot
submit_pilot-IsSound key mid pid now h sound fresh =
    with_member-IsSound
      (if or_default mid "" == ""
        then primary_member h.pool.config
        else Config.member h.pool.config (or_default mid ""))
      key pid now h sound fresh

noted-IsSound :
    (mid : String) (now : ℕ) (r : Outcome String × Host)
    → IsSound r.1.pool
    → IsSound (noted mid now r).pool
unfolding noted
noted-IsSound mid now (raised, h) sound = sound
noted-IsSound mid now (returns pid, h) sound = sound

request-IsSound :
    (o : Outcome (Option PoolMember)) (pid : String) (now : ℕ) (h : Host)
    → IsSound h.pool
    → IsFresh pid h
    → IsSound (request o pid now h).pool
unfolding request
request-IsSound raised pid now h sound fresh = sound
request-IsSound (returns none) pid now h sound fresh = sound
request-IsSound (returns (some m)) pid now h sound fresh =
    noted-IsSound m.member_id now (submit_pilot none (some m.member_id) pid now h)
      (submit_pilot-IsSound none (some m.member_id) pid now h sound fresh)

pub tick-IsSound :
    (pid : String) (now : ℕ) (h : Host)
    → IsSound h.pool
    → IsFresh pid h
    → IsSound (tick pid now h).pool
unfolding tick
tick-IsSound pid now h sound fresh =
    request-IsSound (on_tick h.policy h.pool now).0 pid now
      (record h { policy = (on_tick h.policy h.pool now).1 }) sound fresh
