-- ===== src/Broker/Endpoints.antt =====
-- broker.py: registration and resumption, the loss of a socket, the grace period and removal.
-- A handler runs whole between its awaits. A send is buffered by the transport, so that handlers
-- are cut only where one continues after its broadcast.
use radical_orbit.Prelude.{
  ℕ, ◌+◌, String, Bool, true, false, not, ◌||◌, Option, none, some, if◌then◌else◌, or_default, ◌==◌,
  nat_eq, string_eq, option_eq, pair_eq,
}
use radical_orbit.Prelude.Dict.{lookup, insert, remove}
use radical_orbit.Prelude.Int.{int_eq}
use radical_orbit.Events.{add_endpoint, remove_endpoint, pause_sender, restart_sender}
use radical_orbit.Dispatcher.{Liveness}
use radical_orbit.Broker.{
  Broker, Register, Participant, Task, Frame, send, spawn, tokens_match, broadcast_topology,
  plugins_list_to_dict, broker_name,
}

abbrev pub ack : Bool → String → Option String → Frame
ack ok resume_key reason = Frame.register_ack ok reason resume_key

unfoldable pub cancel_grace : String → Broker → Broker
cancel_grace name b = record b { grace_timers = remove name b.grace_timers }

-- `now` is the loop's clock.
unfoldable pub arm_grace : String → ℕ → ℕ → Broker → Broker
unfolding cancel_grace
arm_grace name ws now b =
    let b' = cancel_grace name b in
    record b' {
      grace_timers = insert name (record { ws = ws; due = now + b.tuning.grace }) b'.grace_timers;
    }

unfoldable pub remove_participant : String → Broker → Broker
unfolding cancel_grace remove_endpoint
remove_participant name b =
    let b' = cancel_grace name (record b {
      registry = remove name b.registry;
      participants = remove name b.participants;
      liveness = remove name b.liveness;
      resume_keys = remove name b.resume_keys;
    }) in
    record b' { events = remove_endpoint name b'.events }

unfoldable pub describes : Register → Participant
unfolding plugins_list_to_dict
describes msg = record { role = msg.role; plugins = plugins_list_to_dict msg.plugins }

unfoldable pub close_old : ℕ → ℕ → Broker → Broker
unfolding spawn
close_old old ws b = if old == ws then b else spawn (Task.close old) b

unfoldable pub may_resume : Register → String → Broker → Bool
may_resume msg name b = tokens_match msg.identity.resume_key (lookup name b.resume_keys)

-- The new socket takes the place of the old one.
unfoldable pub install : ℕ → Register → String → Broker → Broker
unfolding cancel_grace describes restart_sender
install ws msg name b =
    let b' = cancel_grace name (record b { registry = insert name ws b.registry }) in
    record b' {
      liveness = insert name Liveness.present b'.liveness;
      participants = insert name (describes msg) b'.participants;
      events = restart_sender name b'.events;
    }

unfoldable pub resume : ℕ → ℕ → Register → String → Broker → Broker
unfolding install send close_old broadcast_topology
resume old ws msg name b =
    let b' = install ws msg name b in
    broadcast_topology (
      close_old old ws
        (send (some ws) (ack true (or_default (lookup name b'.resume_keys) "") none) b'))

-- `key` is the uuid that `mint_id` made.
unfoldable pub enter : ℕ → Register → String → String → Broker → Broker
unfolding describes add_endpoint
enter ws msg key name b = record b {
  registry = insert name ws b.registry;
  resume_keys = insert name key b.resume_keys;
  liveness = insert name Liveness.present b.liveness;
  participants = insert name (describes msg) b.participants;
  events = add_endpoint name b.events;
}

unfoldable pub admit : ℕ → Register → String → String → Broker → Broker
unfolding enter send broadcast_topology
admit ws msg key name b =
    broadcast_topology (send (some ws) (ack true key none) (enter ws msg key name b))

unfoldable pub refuse : ℕ → String → Broker → (Bool × Option String) × Broker
unfolding send
refuse ws reason b = ((false, none), send (some ws) (ack false "" (some reason)) b)

unfoldable pub occupied :
    Option ℕ → ℕ → Register → String → String → Broker → (Bool × Option String) × Broker
unfolding refuse admit resume may_resume
occupied none ws msg key name b = ((true, some name), admit ws msg key name b)
occupied (some old) ws msg key name b =
    if may_resume msg name b
    then ((true, some name), resume old ws msg name b)
    else refuse ws "name-in-use" b

unfoldable pub may_enter : Register → Broker → Bool
may_enter msg b = not b.auth_enabled || tokens_match msg.identity.credential b.token

unfoldable pub register : ℕ → Register → String → Broker → (Bool × Option String) × Broker
unfolding occupied refuse may_enter
register ws msg key b =
    let name = msg.identity.name in
    if not (may_enter msg b)
    then refuse ws "invalid-credential" b
    else if name == broker_name
    then refuse ws "name-reserved" b
    else occupied (lookup name b.registry) ws msg key name b

unfoldable pub closed : ℕ → (Bool × Option String) × Broker → Broker
unfolding spawn
closed ws ((true, name), b) = b
closed ws ((false, name), b) = spawn (Task.close ws) b

-- A connection is accepted and its first frame is a `register`; a refused one is closed.
unfoldable pub connect : Register → String → Broker → Broker
unfolding register closed
connect msg key b =
    closed b.accepted (register b.accepted msg key (record b { accepted = b.accepted + 1 }))

-- Whether the socket is the live one of the name.
unfoldable pub holds : String → ℕ → Broker → Bool
holds name ws b = lookup name b.registry == some ws

unfoldable pub leave : String → Broker → Broker
unfolding remove_participant broadcast_topology
leave name b = broadcast_topology (remove_participant name b)

unfoldable pub suspect : String → Broker → Broker
unfolding pause_sender
suspect name b = record b {
  liveness = insert name Liveness.suspect b.liveness;
  events = pause_sender name b.events;
}

-- The teardown of a socket's handler; an unclean one goes on with `arm_grace` after its broadcast.
unfoldable pub on_socket_drop : String → ℕ → Bool → Broker → Broker
unfolding holds leave suspect broadcast_topology spawn
on_socket_drop name ws clean b =
    if not (holds name ws b)
    then b
    else if clean
    then leave name b
    else spawn (Task.arm name ws) (broadcast_topology (suspect name b))

unfoldable pub fire_lost : String → ℕ → Broker → Broker
unfolding spawn
fire_lost name ws b =
    spawn (Task.lost name ws) (record b { grace_timers = remove name b.grace_timers })

unfoldable pub ask_exit : String → ℕ → Broker → Broker
unfolding send spawn
ask_exit target ws b = spawn (Task.close ws) (send (some ws) (Frame.control target "terminate") b)

unfoldable pub dismiss : Option ℕ → String → Broker → Broker
unfolding leave ask_exit
dismiss none target b = b
dismiss (some ws) target b = ask_exit target ws (leave target b)

unfoldable pub disconnect : String → Broker → Broker
unfolding dismiss
disconnect target b = dismiss (lookup target b.registry) target b
