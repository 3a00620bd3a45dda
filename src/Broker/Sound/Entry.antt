-- ===== src/Broker/Sound/Entry.antt =====
-- broker.py: registration and resumption keep the invariant.
use radical_orbit.Prelude.{
  ℕ, String, ◌≡◌, refl, inl, inr, Bool, true, false, Option, none, some, Bool-cases, or_default,
  ◌==◌, nat_eq, string_eq, option_eq, pair_eq,
}
use radical_orbit.Prelude.Int.{int_eq}
use radical_orbit.Prelude.Dict.{lookup}
use radical_orbit.Broker.{Broker, Register, Task, Frame, send, broadcast_topology, broker_name}
use radical_orbit.Broker.Endpoints.{
  ack, refuse, resume, install, enter, close_old, admit, occupied, register, connect, may_enter,
  may_resume, closed,
}
use radical_orbit.Broker.Quiet.{send-Told, broadcast_topology-Told}
use radical_orbit.Broker.Sound.{IsSound, Told-IsSound}
use radical_orbit.Broker.Sound.Tables.{
  accept, accept-IsSound, enter-IsSound, install-IsSound, spawn-IsSound,
}

pub broadcast-IsSound : (b : Broker) → IsSound b → IsSound (broadcast_topology b)
broadcast-IsSound b = Told-IsSound (broadcast_topology-Told b)

pub send-IsSound : (o : Option ℕ) (f : Frame) (b : Broker) → IsSound b → IsSound (send o f b)
send-IsSound o f b = Told-IsSound (send-Told o f b)

close_old-IsSound : (old ws : ℕ) (b : Broker) → IsSound b → IsSound (close_old old ws b)
unfolding close_old
close_old-IsSound old ws b sound = elim (Bool-cases (old == ws)) [
  | inl e ↦ rw e sound
  | inr e ↦ rw e (spawn-IsSound (Task.close old) b tt sound)
]

refuse-IsSound :
    (ws : ℕ) (reason : String) (b : Broker) → IsSound b → IsSound (refuse ws reason b).1
unfolding refuse
refuse-IsSound ws reason b = send-IsSound (some ws) (ack false "" (some reason)) b

admit-IsSound :
    (msg : Register) (key name : String) (b : Broker)
    → IsSound b
    → IsSound (admit b.accepted msg key name (accept b))
unfolding admit
admit-IsSound msg key name b sound =
    let b' = enter b.accepted msg key name (accept b) in
    let answer = ack true key none in
    broadcast-IsSound (send (some b.accepted) answer b')
      (send-IsSound (some b.accepted) answer b' (enter-IsSound msg key name b sound))

resume-IsSound :
    (old : ℕ) (msg : Register) (name : String) (b : Broker)
    → lookup name b.registry ≡ some old
    → IsSound b
    → IsSound (resume old b.accepted msg name (accept b))
unfolding resume
resume-IsSound old msg name b e sound =
    let b' = install b.accepted msg name (accept b) in
    let answer = ack true (or_default (lookup name b'.resume_keys) "") none in
    let b'' = send (some b.accepted) answer b' in
    broadcast-IsSound (close_old old b.accepted b'') (
      close_old-IsSound old b.accepted b''
        (send-IsSound (some b.accepted) answer b' (install-IsSound old msg name b e sound)))

-- The registration of a socket that was just accepted.
occupied-IsSound :
    (o : Option ℕ) (msg : Register) (key name : String) (b : Broker)
    → lookup name b.registry ≡ o
    → IsSound b
    → IsSound (occupied o b.accepted msg key name (accept b)).1
unfolding occupied
occupied-IsSound none msg key name b e sound = admit-IsSound msg key name b sound
occupied-IsSound (some old) msg key name b e sound =
    elim (Bool-cases (may_resume msg name (accept b))) [
      | inl f ↦ rw f (resume-IsSound old msg name b e sound)
      | inr f ↦ rw f (refuse-IsSound b.accepted "name-in-use" (accept b) (accept-IsSound b sound))
    ]

register-IsSound :
    (msg : Register) (key : String) (b : Broker)
    → IsSound b
    → IsSound (register b.accepted msg key (accept b)).1
unfolding register
register-IsSound msg key b sound = elim (Bool-cases (may_enter msg (accept b))) [
  | inr e ↦
      rw e (refuse-IsSound b.accepted "invalid-credential" (accept b) (accept-IsSound b sound))
  | inl e ↦ rw e (elim (Bool-cases (msg.identity.name == broker_name)) [
    | inl f ↦ rw f (refuse-IsSound b.accepted "name-reserved" (accept b) (accept-IsSound b sound))
    | inr f ↦ rw f (
        occupied-IsSound (lookup msg.identity.name b.registry) msg key msg.identity.name b refl
          sound)
  ])
]

closed-IsSound :
    (ws : ℕ) (answer : (Bool × Option String) × Broker)
    → IsSound answer.1
    → IsSound (closed ws answer)
unfolding closed
closed-IsSound ws ((true, name), b) sound = sound
closed-IsSound ws ((false, name), b) sound = spawn-IsSound (Task.close ws) b tt sound

pub connect-IsSound :
    (msg : Register) (key : String) (b : Broker) → IsSound b → IsSound (connect msg key b)
unfolding connect
connect-IsSound msg key b sound =
    closed-IsSound b.accepted (register b.accepted msg key (accept b))
      (register-IsSound msg key b sound)
