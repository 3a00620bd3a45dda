-- ===== src/Broker/Sound/Tables.antt =====
-- broker.py: the changes of the tables keep the invariant.
use radical_orbit.Prelude.{
  ℕ, ◌+◌, ◌<◌, String, ◌≡◌, refl, sym, ap, subst, ◌∙◌, ◌≢◌, inl, inr, none, some, [], ◌∷◌, arith,
  Bool-cases, All-append, ◌==◌, nat_eq, string_eq, str_iff, option_eq, pair_eq,
}
use radical_orbit.Prelude.Int.{int_eq}
use radical_orbit.Prelude.Dict.{
  Dict, lookup, insert, remove, lookup-insert, lookup-remove, lookup-insert_self,
}
use radical_orbit.Dispatcher.{Liveness}
use radical_orbit.Broker.{Broker, Register, Timer, Task, spawn}
use radical_orbit.Broker.Endpoints.{
  cancel_grace, arm_grace, remove_participant, describes, install, enter, suspect, fire_lost,
}
use radical_orbit.Broker.Senders.{
  sender, queued, sender-pause_sender, queued-pause_sender, sender-restart_sender,
  queued-restart_sender, sender-add_endpoint, queued-add_endpoint, sender-remove_endpoint,
  queued-remove_endpoint,
}
use radical_orbit.Broker.Sound.{
  agree, Agrees, IsSafe, TaskIsSafe, IsSound, KeepsSafe, KeepsSafe-tasks, timer_elsewhere,
  agree-resumed, agree-suspected,
}

-- A socket that is new to a broker that has accepted all others.
enter-Agrees :
    (ws : ℕ) (msg : Register) (key name n : String) (b : Broker)
    → Agrees n b
    → Agrees n (enter ws msg key name b)
unfolding enter agree
enter-Agrees ws msg key name n b h = elim (Bool-cases (name == n)) [
  | inl e ↦
      rw
        (
          lookup-insert name n ws b.registry,
          lookup-insert name n (describes msg) b.participants,
          lookup-insert name n Liveness.present b.liveness,
          lookup-insert name n key b.resume_keys,
          queued-add_endpoint n name b.events,
          sender-add_endpoint n name b.events,
          e,
        )
        refl
  | inr e ↦
      rw
        (
          lookup-insert name n ws b.registry,
          lookup-insert name n (describes msg) b.participants,
          lookup-insert name n Liveness.present b.liveness,
          lookup-insert name n key b.resume_keys,
          queued-add_endpoint n name b.events,
          sender-add_endpoint n name b.events,
          e,
        )
        h
]

install-Agrees :
    (old ws : ℕ) (msg : Register) (name n : String) (b : Broker)
    → lookup name b.registry ≡ some old
    → Agrees n b
    → Agrees n (install ws msg name b)
unfolding install cancel_grace
install-Agrees old ws msg name n b here h = elim (Bool-cases (name == n)) [
  | inl e ↦
      rw
        (
          lookup-insert name n ws b.registry,
          lookup-insert name n (describes msg) b.participants,
          lookup-insert name n Liveness.present b.liveness,
          queued-restart_sender n name b.events,
          sender-restart_sender n name b.events,
          e,
        )
        (agree-resumed old ws (lookup n b.participants) (describes msg) (lookup n b.liveness)
          (lookup n b.resume_keys) (queued n b.events) (sender n b.events)
          (rw (sym here, (str_iff name n).0 e) h))
  | inr e ↦
      rw
        (
          lookup-insert name n ws b.registry,
          lookup-insert name n (describes msg) b.participants,
          lookup-insert name n Liveness.present b.liveness,
          queued-restart_sender n name b.events,
          sender-restart_sender n name b.events,
          e,
        )
        h
]

remove_participant-Agrees :
    (name n : String) (b : Broker) → Agrees n b → Agrees n (remove_participant name b)
unfolding remove_participant cancel_grace agree
remove_participant-Agrees name n b h = elim (Bool-cases (name == n)) [
  | inl e ↦
      rw
        (
          lookup-remove name n b.registry,
          lookup-remove name n b.participants,
          lookup-remove name n b.liveness,
          lookup-remove name n b.resume_keys,
          queued-remove_endpoint n name b.events,
          sender-remove_endpoint n name b.events,
          e,
        )
        refl
  | inr e ↦
      rw
        (
          lookup-remove name n b.registry,
          lookup-remove name n b.participants,
          lookup-remove name n b.liveness,
          lookup-remove name n b.resume_keys,
          queued-remove_endpoint n name b.events,
          sender-remove_endpoint n name b.events,
          e,
        )
        h
]

suspect-Agrees :
    (ws : ℕ) (name n : String) (b : Broker)
    → lookup name b.registry ≡ some ws
    → Agrees n b
    → Agrees n (suspect name b)
unfolding suspect
suspect-Agrees ws name n b here h = elim (Bool-cases (name == n)) [
  | inl e ↦
      rw
        (
          lookup-insert name n Liveness.suspect b.liveness,
          queued-pause_sender n name b.events,
          sender-pause_sender n name b.events,
          e,
          sym (ap (λ k. lookup k b.registry) ((str_iff name n).0 e)) ∙ here,
        )
        (agree-suspected ws (lookup n b.participants) (lookup n b.liveness) (lookup n b.resume_keys)
          (queued n b.events) (sender n b.events) (rw (sym here, (str_iff name n).0 e) h))
  | inr e ↦
      rw
        (
          lookup-insert name n Liveness.suspect b.liveness,
          queued-pause_sender n name b.events,
          sender-pause_sender n name b.events,
          e,
        )
        h
]

abbrev pub accept : Broker → Broker
accept b = record b { accepted = b.accepted + 1 }

-- A new socket is not one whose loss is pending.
newcomer-KeepsSafe :
    (n name : String) (ws : ℕ) (b : Broker)
    → IsSafe n ws b
    → lookup n (insert name b.accepted b.registry) ≡ some ws
    → lookup n (insert name Liveness.present b.liveness) ≡ some Liveness.suspect
newcomer-KeepsSafe n name ws b safe h = elim (Bool-cases (name == n)) [
  | inl e ↦ absurd (clash (rw e at (sym (lookup-insert name n b.accepted b.registry) ∙ h)) safe.0)
  | inr e ↦
      lookup-insert name n Liveness.present b.liveness
      ∙ rw e (safe.1 (rw e at (sym (lookup-insert name n b.accepted b.registry) ∙ h)))
]
  where
    clash : some b.accepted ≡ some ws → ¬ (ws < b.accepted)
    clash e lt = ground arith

newcomer-known :
    (n name : String) (ws : ℕ) (b : Broker)
    → ((k : String) (v : ℕ) → lookup k b.registry ≡ some v → v < b.accepted)
    → lookup n (insert name b.accepted b.registry) ≡ some ws
    → ws < b.accepted + 1
newcomer-known n name ws b known h =
    ground (arith, lookup-insert name n b.accepted b.registry, known n ws)

pub accept-IsSound : (b : Broker) → IsSound b → IsSound (accept b)
accept-IsSound b (agrees, known, timers, tasks) = (
  agrees,
  λ n ws h. let k = known n ws h in omega arith,
  λ n t h. let s = timers n t h in ((let lt = s.0 in omega arith), s.1),
  KeepsSafe-tasks b (accept b) (λ n ws s. ((let lt = s.0 in omega arith), s.1)) b.spawned tasks,
)

enter-KeepsSafe :
    (msg : Register) (key name : String) (b : Broker)
    → KeepsSafe b (enter b.accepted msg key name (accept b))
unfolding enter
enter-KeepsSafe msg key name b n ws safe =
    ((let lt = safe.0 in omega arith), newcomer-KeepsSafe n name ws b safe)

pub enter-IsSound :
    (msg : Register) (key name : String) (b : Broker)
    → IsSound b
    → IsSound (enter b.accepted msg key name (accept b))
unfolding enter
enter-IsSound msg key name b (agrees, known, timers, tasks) = (
  λ n. enter-Agrees b.accepted msg key name n (accept b) (agrees n),
  λ n ws h. newcomer-known n name ws b known h,
  λ n t h. enter-KeepsSafe msg key name b n t.ws (timers n t h),
  KeepsSafe-tasks b (enter b.accepted msg key name (accept b)) (enter-KeepsSafe msg key name b)
      b.spawned tasks,
)

install-KeepsSafe :
    (msg : Register) (name : String) (b : Broker)
    → KeepsSafe b (install b.accepted msg name (accept b))
unfolding install cancel_grace
install-KeepsSafe msg name b n ws safe =
    ((let lt = safe.0 in omega arith), newcomer-KeepsSafe n name ws b safe)

pub install-IsSound :
    (old : ℕ) (msg : Register) (name : String) (b : Broker)
    → lookup name b.registry ≡ some old
    → IsSound b
    → IsSound (install b.accepted msg name (accept b))
unfolding install cancel_grace
install-IsSound old msg name b here (agrees, known, timers, tasks) = (
  λ n. install-Agrees old b.accepted msg name n (accept b) here (agrees n),
  λ n ws h. newcomer-known n name ws b known h,
  λ n t h.
      install-KeepsSafe msg name b n t.ws (timers n t (timer_elsewhere name n t b.grace_timers h)),
  KeepsSafe-tasks b (install b.accepted msg name (accept b)) (install-KeepsSafe msg name b)
      b.spawned tasks,
)

remove_participant-KeepsSafe :
    (name : String) (b : Broker) → KeepsSafe b (remove_participant name b)
unfolding remove_participant cancel_grace
remove_participant-KeepsSafe name b n ws (lt, imp) = (
  lt,
  λ h. elim (Bool-cases (name == n)) [
    | inl e ↦ absurd (clash (rw e at (sym (lookup-remove name n b.registry) ∙ h)))
    | inr e ↦
        lookup-remove name n b.liveness
        ∙ rw e (imp (rw e at (sym (lookup-remove name n b.registry) ∙ h)))
  ],
)
  where
    clash : none ≢ some ws
    clash e = ground arith

pub remove_participant-IsSound :
    (name : String) (b : Broker) → IsSound b → IsSound (remove_participant name b)
unfolding remove_participant cancel_grace
remove_participant-IsSound name b (agrees, known, timers, tasks) = (
  λ n. remove_participant-Agrees name n b (agrees n),
  λ n ws h. ground (arith, lookup-remove name n b.registry, known n ws),
  λ n t h.
      remove_participant-KeepsSafe name b n t.ws
        (timers n t (timer_elsewhere name n t b.grace_timers h)),
  KeepsSafe-tasks b (remove_participant name b) (remove_participant-KeepsSafe name b) b.spawned
      tasks,
)

suspect-KeepsSafe : (name : String) (b : Broker) → KeepsSafe b (suspect name b)
unfolding suspect
suspect-KeepsSafe name b n ws (lt, imp) =
    (lt, λ h. ground (arith, lookup-insert name n Liveness.suspect b.liveness, imp h))

pub suspect-IsSound :
    (name : String) (ws : ℕ) (b : Broker)
    → lookup name b.registry ≡ some ws
    → IsSound b
    → IsSound (suspect name b)
unfolding suspect
suspect-IsSound name ws b here (agrees, known, timers, tasks) = (
  λ n. suspect-Agrees ws name n b here (agrees n),
  known,
  λ n t h. suspect-KeepsSafe name b n t.ws (timers n t h),
  KeepsSafe-tasks b (suspect name b) (suspect-KeepsSafe name b) b.spawned tasks,
)

-- The live socket of a name that was just found to be suspect may be found lost.
pub suspect-IsSafe :
    (name : String) (ws : ℕ) (b : Broker)
    → lookup name b.registry ≡ some ws
    → IsSound b
    → IsSafe name ws (suspect name b)
unfolding suspect
suspect-IsSafe name ws b here sound =
    (sound.1 name ws here, λ h. lookup-insert_self name Liveness.suspect b.liveness)

pub arm_grace-IsSound :
    (name : String) (ws now : ℕ) (b : Broker)
    → IsSafe name ws b
    → IsSound b
    → IsSound (arm_grace name ws now b)
unfolding arm_grace cancel_grace
arm_grace-IsSound name ws now b safe (agrees, known, timers, tasks) =
    (agrees, known, λ n t h. armed n t h, tasks)
  where
    timer : Timer
    timer = record { ws = ws; due = now + b.tuning.grace }

    held : Dict String Timer
    held = remove name b.grace_timers

    same : (u t : Timer) → some u ≡ some t → u ≡ t
    same u t h = cc

    armed : (n : String) (t : Timer) → lookup n (insert name timer held) ≡ some t → IsSafe n t.ws b
    armed n t h = elim (Bool-cases (name == n)) [
      | inl e ↦
          subst (λ u. IsSafe n u.ws b)
            (same timer t (rw e at (sym (lookup-insert name n timer held) ∙ h)))
            (subst (λ k. IsSafe k ws b) ((str_iff name n).0 e) safe)
      | inr e ↦ timers n t (
          timer_elsewhere name n t b.grace_timers
            (rw e at (sym (lookup-insert name n timer held) ∙ h)))
    ]

pub fire_lost-IsSound :
    (name : String) (t : Timer) (b : Broker)
    → lookup name b.grace_timers ≡ some t
    → IsSound b
    → IsSound (fire_lost name t.ws b)
unfolding fire_lost spawn
fire_lost-IsSound name t b due (agrees, known, timers, tasks) = (
  agrees,
  known,
  λ n u h. timers n u (timer_elsewhere name n u b.grace_timers h),
  All-append (TaskIsSafe b) b.spawned (Task.lost name t.ws ∷ []) tasks (timers name t due, tt),
)

pub spawn-IsSound :
    (task : Task) (b : Broker) → TaskIsSafe b task → IsSound b → IsSound (spawn task b)
unfolding spawn
spawn-IsSound task b safe (agrees, known, timers, tasks) =
    (agrees, known, timers, All-append (TaskIsSafe b) b.spawned (task ∷ []) tasks (safe, tt))
