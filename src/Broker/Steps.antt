-- ===== src/Broker/Steps.antt =====
-- broker.py: the routing loop, as handlers and tasks that run in any order.
use radical_orbit.Prelude.{
  ℕ, String, ◌≡◌, Bool, Option, some, List, ◌∷◌, ◌++◌, nat_eq, string_eq, option_eq, pair_eq,
}
use radical_orbit.Prelude.Dict.{Dict, lookup}
use radical_orbit.Prelude.Int.{int_eq}
use radical_orbit.Values.{Json}
use radical_orbit.Broker.{
  Broker, BrokerTuning, Raw, Register, Task, Timer, PluginInfo, broadcast_topology, new_broker,
}
use radical_orbit.Broker.Endpoints.{connect, on_socket_drop, fire_lost, arm_grace}
use radical_orbit.Broker.Calls.{
  route_frame, dispatch_to_host, on_lost, reap_calls, broker_call, pop_call,
}

-- A task gets its turn. A socket that is closed ends its own handler, by another step.
unfoldable pub run_task : (String → String → Json → ℕ × String) → ℕ → Task → Broker → Broker
unfolding dispatch_to_host on_lost arm_grace
run_task answer now (Task.close ws) b = b
run_task answer now (Task.dispatch src raw) b = dispatch_to_host answer src raw b
run_task answer now (Task.lost name ws) b = on_lost name ws b
run_task answer now (Task.arm name ws) b = arm_grace name ws now b
run_task answer now Task.terminate b = b

-- A hosted plugin was registered: the loop shows the topology again.
unfoldable pub host_changed : Dict String PluginInfo → Broker → Broker
unfolding broadcast_topology
host_changed plugins b = broadcast_topology (record b { host = some plugins })

abbrev pub taken : List Task → Broker → Broker
taken tasks b = record b { spawned = tasks }

pub data Step : Broker → Broker → Type 0 where
  connects : (msg : Register) (key : String) (b : Broker) → Step b (connect msg key b)
  frames : (name : String) (now : ℕ) (raw : Raw) (b : Broker) → Step b (route_frame name now raw b)
  drops :
      (name : String) (ws : ℕ) (clean : Bool) (b : Broker) → Step b (on_socket_drop name ws clean b)
  expires :
      (name : String) (t : Timer) (b : Broker)
      → lookup name b.grace_timers ≡ some t
      → Step b (fire_lost name t.ws b)
  runs :
      (answer : String → String → Json → ℕ × String) (now : ℕ) (task : Task)
      (before after : List Task) (b : Broker)
      → b.spawned ≡ before ++ task ∷ after
      → Step b (run_task answer now task (taken (before ++ after) b))
  reaps : (now : ℕ) (b : Broker) → Step b (reap_calls now b)
  calls_out :
      (dst method path : String) (body : Json) (fits : Bool) (corr_id : String) (now : ℕ)
      (b : Broker)
      → Step b (broker_call dst method path body fits corr_id now b).1
  gives_up : (corr_id : Option String) (b : Broker) → Step b (pop_call corr_id b)
  rehosts : (plugins : Dict String PluginInfo) (b : Broker) → Step b (host_changed plugins b)

pub data Run (start : Broker) : Broker → Type 0 where
  here : Run start start
  next : {b c : Broker} → Run start b → Step b c → Run start c

-- What a broker can come to after its start, with any settings.
pub data IsReachable : Broker → Type 0 where
  from :
      (tuning : BrokerTuning) (auth : Bool) (token : Option String) (seq_max : ℕ)
      (host : Option (Dict String PluginInfo)) {b : Broker}
      → Run (new_broker tuning auth token seq_max host) b
      → IsReachable b
