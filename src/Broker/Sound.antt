-- ===== src/Broker/Sound.antt =====
-- broker.py: the invariant of the broker's tables and of what is still to run.
pub mod Tables
pub mod Entry
pub mod Runs
use radical_orbit.Prelude.{
  ℕ, ◌-◌, ◌<◌, max, min, String, ◌≡◌, refl, Bool, true, false, Option, none, some, List, [], ◌∷◌,
  arith, keep, All, In, nat_eq, string_eq, option_eq, pair_eq,
}
use radical_orbit.Prelude.Count.{bit}
use radical_orbit.Prelude.Int.{int_eq}
use radical_orbit.Prelude.Dict.{Dict, lookup, remove, lookup-remove, keys}
use radical_orbit.Events.{
  EventRouter, Sender, add_endpoint, remove_endpoint, pause_sender, restart_sender,
}
use radical_orbit.Dispatcher.{Liveness}
use radical_orbit.Broker.{
  Broker, BrokerTuning, PluginInfo, Participant, Register, Timer, Task, Frame, new_broker,
}
use radical_orbit.Broker.Endpoints.{
  cancel_grace, arm_grace, remove_participant, describes, install, enter, suspect,
}
use radical_orbit.Broker.Senders.{
  sender, queued, paused, sender-pause_sender, queued-pause_sender, sender-restart_sender,
  queued-restart_sender, sender-add_endpoint, queued-add_endpoint, sender-remove_endpoint,
  queued-remove_endpoint,
}
use radical_orbit.Broker.Quiet.{Told, Quiet}

-- A name is known to all tables or to none; the sender of a present participant runs, that of a
-- suspect one is paused.
unfoldable pub agree :
    Option ℕ → Option Participant → Option Liveness → Option String → Bool → Option Sender → Bool
agree none none none none false none = true
agree (some w) (some p) (some Liveness.present) (some k) true (some Sender.running) = true
agree (some w) (some p) (some Liveness.suspect) (some k) true (some Sender.cancelled) = true
agree _ _ _ _ _ _ = false

-- What the tables say of one name.
abbrev pub Agrees : String → Broker → Type 0
Agrees n b =
    agree (lookup n b.registry) (lookup n b.participants) (lookup n b.liveness)
      (lookup n b.resume_keys) (queued n b.events) (sender n b.events)
    ≡ true

-- A loss that is still to be found out about: should the socket be the live one of its name, then
-- the name is suspect.
abbrev pub IsSafe : String → ℕ → Broker → Type 0
IsSafe n ws b =
    (ws < b.accepted)
    × (lookup n b.registry ≡ some ws → lookup n b.liveness ≡ some Liveness.suspect)

abbrev pub TaskIsSafe : Broker → Task → Type 0
TaskIsSafe b (Task.lost n ws) = IsSafe n ws b
TaskIsSafe b (Task.arm n ws) = IsSafe n ws b
TaskIsSafe b (Task.close ws) = Unit
TaskIsSafe b (Task.dispatch n raw) = Unit
TaskIsSafe b Task.terminate = Unit

abbrev pub IsSound : Broker → Type 0
IsSound b =
    ((n : String) → Agrees n b)
    × ((n : String) (ws : ℕ) → lookup n b.registry ≡ some ws → ws < b.accepted)
    × ((n : String) (t : Timer) → lookup n b.grace_timers ≡ some t → IsSafe n t.ws b)
    × All (TaskIsSafe b) b.spawned

-- A change of the registry or of the liveness that keeps what is pending safe.
abbrev pub KeepsSafe : Broker → Broker → Type 0
KeepsSafe b c = (n : String) (ws : ℕ) → IsSafe n ws b → IsSafe n ws c

pub KeepsSafe-task :
    (b c : Broker) → KeepsSafe b c → (task : Task) → TaskIsSafe b task → TaskIsSafe c task
KeepsSafe-task b c keeps (Task.lost n ws) h = keeps n ws h
KeepsSafe-task b c keeps (Task.arm n ws) h = keeps n ws h
KeepsSafe-task b c keeps (Task.close ws) h = tt
KeepsSafe-task b c keeps (Task.dispatch n raw) h = tt
KeepsSafe-task b c keeps Task.terminate h = tt

pub KeepsSafe-tasks :
    (b c : Broker)
    → KeepsSafe b c
    → (tasks : List Task) → All (TaskIsSafe b) tasks
    → All (TaskIsSafe c) tasks
KeepsSafe-tasks b c keeps [] h = tt
KeepsSafe-tasks b c keeps (t ∷ ts) (h, hs) =
    (KeepsSafe-task b c keeps t h, KeepsSafe-tasks b c keeps ts hs)

pub Told-IsSound : {b c : Broker} → Told b c → IsSound b → IsSound c
Told-IsSound (Told.told r s d p) sound = sound

pub Told-KeepsSafe : {b c : Broker} → Told b c → KeepsSafe b c
Told-KeepsSafe (Told.told r s d p) n ws safe = safe

pub Quiet-IsSound : {b c : Broker} → Quiet b c → IsSound b → IsSound c
Quiet-IsSound (Quiet.quiet cs nf (Told.told r s d p)) sound = sound

pub new_broker-IsSound :
    (tuning : BrokerTuning) (auth : Bool) (token : Option String) (seq_max : ℕ)
    (host : Option (Dict String PluginInfo))
    → IsSound (new_broker tuning auth token seq_max host)
unfolding lookup agree
new_broker-IsSound tuning auth token seq_max host =
    (λ n. refl, λ n ws h. ground arith, λ n t h. ground arith, tt)

pub timer_elsewhere :
    (name n : String) (t : Timer) (d : Dict String Timer)
    → lookup n (remove name d) ≡ some t
    → lookup n d ≡ some t
timer_elsewhere name n t d h = ground (arith, lookup-remove name n d, h)

pub agree-resumed :
    (w w' : ℕ) (p : Option Participant) (p' : Participant) (l : Option Liveness) (k : Option String)
    (q : Bool) (s : Option Sender)
    → agree (some w) p l k q s ≡ true
    → agree (some w') (some p') (some Liveness.present) k q (some Sender.running) ≡ true
unfolding agree
agree-resumed w w' p p' l k q s h = ground arith

pub agree-suspected :
    (w : ℕ) (p : Option Participant) (l : Option Liveness) (k : Option String) (q : Bool)
    (s : Option Sender)
    → agree (some w) p l k q s ≡ true
    → agree (some w) p (some Liveness.suspect) k q (paused s) ≡ true
unfolding agree
agree-suspected w p l k q s h = ground arith
