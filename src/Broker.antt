-- ===== src/Broker.antt =====
-- src/radical/orbit/broker.py, with the wire records of protocol.py that it builds and reads.
-- A websocket is the number of the connection; a time is a number; a frame is the record that
-- msgpack encodes. What a handler does besides its own state is kept in order: the frames sent, the
-- results that the waiting callers get, the tasks that are spawned and the topologies that the
-- hosted plugins are shown. Threads, TLS, logging, profiling and start-up are left out.
pub mod Endpoints
pub mod Calls
pub mod Shown
pub mod Paths
pub mod Takeover
pub mod Answered
pub mod Presence
pub mod Sweep
pub mod Bounds
pub mod Table
pub mod Sound
pub mod Senders
pub mod Steps
pub mod Quiet
use Prim.Native.String.{◌++◌ as text_append}
use radical_orbit.Prelude.{
  ℕ, suc, ◌+◌, ◌-◌, ◌/◌, max, min, String, ap, Bool, true, false, not, ◌&&◌, Option, none, some,
  List, [], ◌∷◌, ◌++◌, if◌then◌else◌, or_default, is_some, keep, In, is_some, ◌==◌, nat_eq,
  string_eq, option_eq, pair_eq,
}
use radical_orbit.Prelude.Count.{bit, count}
use radical_orbit.Prelude.Dict.{Dict, lookup, insert, keys}
use radical_orbit.Prelude.Int.{int_eq}
use radical_orbit.Prelude.Texts.{strip_prefix, starts_with, decimal}
use radical_orbit.Values.{Json}
use radical_orbit.Subscriptions.{SubscribePattern, no_empty}
use radical_orbit.Events.{EventRouter, RawEvent, Event, fresh_router}
use radical_orbit.Dispatcher.{Liveness}

abbrev pub broker_name : String
broker_name = "broker"

abbrev pub broker_caps : String
broker_caps = "_broker"

-- One entry of `register.plugins` or of a topology's `plugins`: the names it gives itself, and the
-- rest of what the plugin publishes.
pub record PluginInfo : Type 0 where
  pub name : Option String
  pub kind : Option String
  pub rest : Json

pub record ParticipantInfo : Type 0 where
  pub role : String
  pub plugins : Dict String PluginInfo
  pub liveness : Liveness

pub record Identity : Type 0 where
  pub name : String
  pub credential : Option String
  pub resume_key : Option String

pub record Register : Type 0 where
  pub identity : Identity
  pub role : String
  pub plugins : List PluginInfo

-- A frame that a participant sent, as the dict that arrives: a missing key is `none`, and the keys
-- that only some kinds have are all listed. `event` and `patterns` are what the router reads of it.
pub record Raw : Type 0 where
  pub kind : Option String
  pub src : Option String
  pub dst : Option String
  pub corr_id : Option String
  pub op : Option String
  pub target : Option String
  pub method : Option String
  pub path : Option String
  pub status : ℕ
  pub body : Json
  pub event : RawEvent Json
  pub patterns : List (Option SubscribePattern)

-- protocol.Response
pub record Response : Type 0 where
  pub src : String
  pub dst : Option String
  pub status : ℕ
  pub reason : String
  pub corr_id : Option String

pub data Frame : Type 0 where
  register_ack : Bool → Option String → String → Frame
  forwarded : Raw → Frame
  request : String → String → String → Json → Option String → Frame
  response : Response → Frame
  topology : Dict String ParticipantInfo → Frame
  control : String → String → Frame
  event : Event Json → Frame

-- What the future of a call is set to: the response that arrived, or one made up for it.
pub data Outcome : Type 0 where
  answered : Raw → Outcome
  failed : String → Outcome

-- `future` is none for a call that is only forwarded.
pub record Call : Type 0 where
  pub src : String
  pub dst : String
  pub future : Option ℕ
  pub deadline : ℕ

pub record Participant : Type 0 where
  pub role : String
  pub plugins : Dict String PluginInfo

pub record Timer : Type 0 where
  pub ws : ℕ
  pub due : ℕ

-- What is left to run later on the routing loop: a task that was spawned, or the rest of a handler
-- that is suspended at its broadcast (`arm`).
pub data Task : Type 0 where
  close : ℕ → Task
  dispatch : String → Raw → Task
  lost arm : String → ℕ → Task
  terminate : Task

pub record BrokerTuning : Type 0 where
  pub grace : ℕ
  pub call_cap : ℕ
  pub forwarded_call_cap : ℕ
  pub call_timeout : ℕ
  pub event_queue : ℕ

-- `accepted` counts the connections: it is the next one's number. `host` is what the hosted plugins
-- publish, none without a plugin host.
pub record Broker : Type 0 where
  pub tuning : BrokerTuning
  pub auth_enabled : Bool
  pub token : Option String
  pub accepted : ℕ
  pub registry : Dict String ℕ
  pub participants : Dict String Participant
  pub liveness : Dict String Liveness
  pub resume_keys : Dict String String
  pub grace_timers : Dict String Timer
  pub calls : Dict (Option String) Call
  pub events : EventRouter Frame
  pub host : Option (Dict String PluginInfo)
  pub host_topology_prev : Dict String ParticipantInfo
  pub sent : List (ℕ × Frame)
  pub next_future : ℕ
  pub results : Dict ℕ Outcome
  pub spawned : List Task
  pub delivered : List (Dict String ParticipantInfo)

abbrev pub new_broker :
    BrokerTuning → Bool → Option String → ℕ → Option (Dict String PluginInfo) → Broker
new_broker tuning auth token seq_max host = record {
  tuning = tuning;
  auth_enabled = auth;
  token = token;
  accepted = 0;
  registry = [];
  participants = [];
  liveness = [];
  resume_keys = [];
  grace_timers = [];
  calls = [];
  events = fresh_router tuning.event_queue seq_max;
  host = host;
  host_topology_prev = [];
  sent = [];
  next_future = 0;
  results = [];
  spawned = [];
  delivered = [];
}

-- `ws` is none where the registry has no such name.
unfoldable pub send : Option ℕ → Frame → Broker → Broker
send none frame b = b
send (some ws) frame b = record b { sent = b.sent ++ (ws, frame) ∷ [] }

unfoldable pub spawn : Task → Broker → Broker
spawn task b = record b { spawned = b.spawned ++ task ∷ [] }

-- utils.tokens_match
abbrev pub tokens_match : Option String → Option String → Bool
tokens_match (some p) (some e) = not (p == "") && not (e == "") && p == e
tokens_match _ _ = false

-- protocol.is_reserved
unfoldable pub is_reserved : String → Bool
is_reserved name = starts_with "_" name

unfoldable pub public_plugins : Dict String PluginInfo → Dict String PluginInfo
unfolding is_reserved
public_plugins plugins = keep (λ p. not (is_reserved p.0)) plugins

unfoldable pub public_topology : Dict String ParticipantInfo → Dict String ParticipantInfo
unfolding public_plugins
public_topology [] = []
public_topology ((name, info) ∷ rest) =
    (name, record info { plugins = public_plugins info.plugins }) ∷ public_topology rest

-- `a or b`, where an empty text is no text.
abbrev or_else : Option String → Option String → Option String
or_else none b = b
or_else (some a) b = some a

unfoldable pub plugin_key : ℕ → PluginInfo → String
plugin_key i p =
    or_default (or_else (no_empty p.name) (no_empty p.kind)) (text_append "plugin." (decimal i))

add_plugins : ℕ → List PluginInfo → Dict String PluginInfo → Dict String PluginInfo
unfolding plugin_key is_reserved
add_plugins i [] out = out
add_plugins i (p ∷ ps) out =
    let key = plugin_key i p in
    add_plugins (i + 1) ps (if is_reserved key then out else insert key p out)

unfoldable pub plugins_list_to_dict : List PluginInfo → Dict String PluginInfo
unfolding add_plugins
plugins_list_to_dict plugins = add_plugins 0 plugins []

abbrev pub broker_caps_entry : PluginInfo
broker_caps_entry = record { name = some broker_caps; kind = some broker_caps; rest = Json.null }

infos : Dict String Liveness → Dict String Participant → Dict String ParticipantInfo
infos liveness [] = []
infos liveness ((name, info) ∷ rest) =
    (
      name,
      record {
        role = info.role;
        plugins = info.plugins;
        liveness = or_default (lookup name liveness) Liveness.present;
      },
    )
    ∷ infos liveness rest

unfoldable pub participants_for_topology : Broker → Dict String ParticipantInfo
unfolding infos
participants_for_topology b =
    insert broker_name
      (record {
        role = "broker";
        plugins = insert broker_caps broker_caps_entry (or_default b.host []);
        liveness = Liveness.present;
      })
      (infos b.liveness b.participants)

unfoldable pub topology_snapshot : Broker → Dict String ParticipantInfo
unfolding participants_for_topology public_topology
topology_snapshot b = public_topology (participants_for_topology b)

abbrev pub is_live : Liveness → Bool
is_live Liveness.present = true
is_live Liveness.suspect = true
is_live Liveness.lost = false

unfoldable pub absent_from : Dict String ParticipantInfo → String → Bool
absent_from curr name = not (is_some (lookup name curr))

-- The loop over the previous delivery: who was there and is gone is shown as lost.
unfoldable pub add_lost :
    Dict String ParticipantInfo
    → Dict String ParticipantInfo
    → Dict String ParticipantInfo
    → Dict String ParticipantInfo
unfolding absent_from
add_lost curr [] out = out
add_lost curr ((name, info) ∷ prev) out = add_lost curr prev (
    if absent_from curr name && is_live info.liveness
    then insert name (record info { liveness = Liveness.lost }) out
    else out)

unfoldable pub show_host : Option (Dict String PluginInfo) → Broker → Broker
unfolding topology_snapshot add_lost
show_host none b = b
show_host (some plugins) b =
    let curr = topology_snapshot b in
    record b {
      delivered = b.delivered ++ add_lost curr b.host_topology_prev curr ∷ [];
      host_topology_prev = curr;
    }

unfoldable pub deliver_topology_to_host : Broker → Broker
unfolding show_host
deliver_topology_to_host b = show_host b.host b

unfoldable pub send_all : Dict String ℕ → Frame → Broker → Broker
unfolding send
send_all [] frame b = b
send_all ((name, ws) ∷ rest) frame b = send_all rest frame (send (some ws) frame b)

unfoldable pub broadcast_topology : Broker → Broker
unfolding participants_for_topology send_all deliver_topology_to_host
broadcast_topology b =
    deliver_topology_to_host (send_all b.registry (Frame.topology (participants_for_topology b)) b)

-- The paths that reach the hosted plugins, without their leading '/broker'.
unfoldable pub strip_broker_prefix : String → String
strip_broker_prefix path =
    if path == "/broker"
    then "/"
    else if starts_with "/broker/" path
    then or_default (strip_prefix "/broker" path) path
    else if starts_with "/broker?" path
    then text_append "/" (or_default (strip_prefix "/broker" path) path)
    else path
