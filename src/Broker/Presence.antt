-- ===== src/Broker/Presence.antt =====
-- broker.py: what a pending loss can and cannot do.
use radical_orbit.Prelude.{
  ℕ, ◌+◌, String, ◌≡◌, refl, sym, ap, ◌∙◌, ◌≢◌, inl, inr, false, none, some, List, [], ◌∷◌, ◌++◌,
  arith, nat_beq_iff, Bool-cases, In, In-All, ◌==◌, nat_eq, string_eq, option_eq, ==_refl, ==_iff,
  pair_eq,
}
use radical_orbit.Prelude.Int.{int_eq}
use radical_orbit.Prelude.Dict.{lookup, insert, remove, lookup-remove, lookup-insert_self}
use radical_orbit.Dispatcher.{Liveness}
use radical_orbit.Broker.{Broker, Task, Timer, spawn}
use radical_orbit.Broker.Endpoints.{holds, arm_grace, fire_lost, cancel_grace}
use radical_orbit.Broker.Calls.{on_lost}
use radical_orbit.Broker.Steps.{IsReachable}
use radical_orbit.Broker.Sound.{IsSound, TaskIsSafe, new_broker-IsSound}
use radical_orbit.Broker.Sound.Runs.{Run-IsSound}

-- Whatever happens to a broker after its start, in whatever order: a name is known to the
-- registry, the participants, the liveness, the resume keys, the queues and the senders, or to
-- none of them; the sender of a present participant runs and that of a suspect one is paused; no
-- socket is newer than the last accepted one; and whenever a timer or a task is still to find a
-- socket lost that is the live one of its name, that name is suspect.
pub reachable-IsSound : (b : Broker) → IsReachable b → IsSound b
reachable-IsSound b (IsReachable.from tuning auth token seq_max host run) =
    Run-IsSound (new_broker-IsSound tuning auth token seq_max host) run

not_held :
    (name : String) (ws : ℕ) (b : Broker)
    → lookup name b.liveness ≡ some Liveness.present
    → (lookup name b.registry ≡ some ws → lookup name b.liveness ≡ some Liveness.suspect)
    → holds name ws b ≡ false
unfolding holds
not_held name ws b here imp = elim (Bool-cases (lookup name b.registry == some ws)) [
  | inr e ↦ e
  | inl e ↦ absurd (clash (sym here ∙ imp ((==_iff (lookup name b.registry) (some ws)).0 e)))
]
  where
    clash : some Liveness.present ≢ some Liveness.suspect
    clash h = ground arith

-- In every broker that can come about, a loss that is still to be dealt with does nothing to a
-- participant that is present: whoever resumed in time is not removed, whatever timers fired in
-- the meantime.
pub on_lost-present :
    (name : String) (ws : ℕ) (b : Broker)
    → IsReachable b
    → In (Task.lost name ws) b.spawned
    → lookup name b.liveness ≡ some Liveness.present
    → on_lost name ws b ≡ b
unfolding on_lost
on_lost-present name ws b reached due here =
    let sound = reachable-IsSound b reached in
    let safe = In-All (TaskIsSafe b) (Task.lost name ws) b.spawned sound.3 due in
    rw (not_held name ws b here safe.1) refl

not_live :
    (name : String) (old live : ℕ) (c : Broker)
    → lookup name c.registry ≡ some live
    → old == live ≡ false
    → holds name old c ≡ false
unfolding holds
not_live name old live c h other =
    rw h (ground (arith, nat_beq_iff live old, nat_beq_iff old live, other))

not_pending :
    (name : String) (old live : ℕ) (tasks : List Task)
    → old == live ≡ false
    → ¬ In (Task.lost name live) tasks
    → ¬ In (Task.lost name live) (tasks ++ Task.lost name old ∷ [])
not_pending name old live [] other h (inl same) = clash other (ap socket same)
  where
    socket : Task → ℕ
    socket (Task.lost n ws) = ws
    socket _ = 0

    clash : old == live ≡ false → live ≡ old → ⊥
    clash other e = ground (arith, nat_beq_iff old live)
not_pending name old live [] other h (inr i) = elim i [ ]
not_pending name old live (t ∷ ts) other h (inl same) = h (inl same)
not_pending name old live (t ∷ ts) other h (inr i) =
    not_pending name old live ts other (λ j. h (inr j)) i

-- The name has a newer socket, which is suspect, with its own timer and no loss of it under way. A
-- teardown of the old socket that goes on after its broadcast replaces that timer by one for the old
-- socket. When it fires, the loss of the old socket changes nothing: the name keeps its socket and
-- stays suspect, with no timer and no loss of its socket under way.
pub arm_grace-stale :
    (name : String) (old live now : ℕ) (t : Timer) (b : Broker)
    → old == live ≡ false
    → lookup name b.registry ≡ some live
    → lookup name b.liveness ≡ some Liveness.suspect
    → lookup name b.grace_timers ≡ some t
    → t.ws ≡ live
    → ¬ In (Task.lost name live) b.spawned
    → let armed = arm_grace name old now b in
      let c = fire_lost name old armed in
      (lookup name armed.grace_timers ≡ some (record { ws = old; due = now + b.tuning.grace }))
      × (on_lost name old c ≡ c)
      × (lookup name c.registry ≡ some live)
      × (lookup name c.liveness ≡ some Liveness.suspect)
      × (lookup name c.grace_timers ≡ none)
      × (¬ In (Task.lost name live) c.spawned)
unfolding fire_lost spawn arm_grace cancel_grace on_lost
arm_grace-stale name old live now t b other here quiet timer own idle =
    let stale : Timer = record { ws = old; due = now + b.tuning.grace } in
    let c = fire_lost name old (arm_grace name old now b) in
    (
      lookup-insert_self name stale (remove name b.grace_timers),
      rw (not_live name old live c here other) refl,
      here,
      quiet,
      lookup-remove name name (insert name stale (remove name b.grace_timers))
          ∙ rw (==_refl name) refl,
      not_pending name old live b.spawned other idle,
    )
