-- ===== src/Samples/Brokers.antt =====
-- Runs of the broker, and the theorems on them.
use radical_orbit.Prelude.{
  ℕ, ◌+◌, ◌-◌, ◌/◌, ◌≤◌, String, ◌≡◌, refl, ap, ◌⊎◌, inl, true, false, not, ◌&&◌, Option, none,
  some, [], ◌∷◌, ◌++◌, arith, is_some, length, take, keep, In, is_some, ◌==◌, nat_eq, string_eq,
  option_eq, pair_eq,
}
use radical_orbit.Prelude.Int.{int_eq}
use radical_orbit.Prelude.Dict.{Dict, lookup, insert, remove}
use radical_orbit.Prelude.Count.{bit, count}
use radical_orbit.Values.{Json}
use radical_orbit.Events.Counters.{Distinct}
use radical_orbit.Dispatcher.{Liveness}
use radical_orbit.Broker.{
  Broker, BrokerTuning, Register, Raw, Task, PluginInfo, new_broker, deliver_topology_to_host,
  topology_snapshot, add_lost, participants_for_topology, Call, Frame,
}
use radical_orbit.Broker.Endpoints.{
  connect, on_socket_drop, fire_lost, arm_grace, remove_participant,
}
use radical_orbit.Broker.Calls.{
  route_frame, broker_call, reap_calls, on_lost, is_ours, is_forwarded,
}
use radical_orbit.Broker.Steps.{Step, Run, IsReachable, run_task, taken}
use radical_orbit.Broker.Sound.{IsSound}
use radical_orbit.Broker.Presence.{reachable-IsSound, on_lost-present, arm_grace-stale}
use radical_orbit.Broker.Bounds.{run-IsBounded}
use radical_orbit.Broker.Sweep.{lost_verdict, reap_verdict, answers}
use radical_orbit.Broker.Answered.{Answered, reap_calls-Answered, to_all, on_lost-Answered}
use radical_orbit.Broker.Takeover.{registered, Resumed}
use radical_orbit.Broker.Takeover.Entry.{Step-registered}
use radical_orbit.Broker.Shown.{expected, deliver_topology_to_host_lem}

abbrev tuning : BrokerTuning
tuning = record {
  grace = 10;
  call_cap = 2;
  forwarded_call_cap = 3;
  call_timeout = 30;
  event_queue = 4;
}

abbrev hosted : Dict String PluginInfo
hosted = ("math", record { name = some "math"; kind = none; rest = Json.null }) ∷ []

abbrev start : Broker
start = new_broker tuning true (some "secret") 8 (some hosted)

abbrev hello : String → Option String → Register
hello name resume_key = record {
  identity = record { name = name; credential = some "secret"; resume_key = resume_key };
  role = "endpoint";
  plugins = [];
}

-- Two participants, on the sockets 0 and 1.
abbrev one_in : Broker
one_in = connect (hello "alpha" none) "k0" start

abbrev both_in : Broker
both_in = connect (hello "beta" none) "k1" one_in

both : Run start both_in
both =
    Run.next (Run.next Run.here (Step.connects (hello "alpha" none) "k0" start))
      (Step.connects (hello "beta" none) "k1" one_in)

abbrev ask : Raw
ask = record {
  kind = some "request";
  src = some "mallory";
  dst = some "beta";
  corr_id = some "c1";
  op = none;
  target = none;
  method = some "GET";
  path = some "/math/add";
  status = 0;
  body = Json.null;
  event = record { plugin = none; topic = none; session = none; body = Json.null };
  patterns = [];
}

-- A call that is forwarded, and one of the broker's own.
abbrev asked : Broker
asked = route_frame "alpha" 5 ask both_in

abbrev busy : Broker
busy = (broker_call "beta" "GET" "/x" Json.null true "c2" 7 asked).1

calling : Run start busy
calling =
    Run.next (Run.next both (Step.frames "alpha" 5 ask both_in))
      (Step.calls_out "beta" "GET" "/x" Json.null true "c2" 7 asked)

abbrev busy-IsReachable : IsReachable busy
busy-IsReachable = IsReachable.from tuning true (some "secret") 8 (some hosted) calling

two_calls : length busy.calls ≡ 2
unfolding broker_call route_frame radical_orbit.Prelude.Dict.lookup connect
    radical_orbit.Prelude.Dict.insert radical_orbit.Prelude.Count.count
two_calls = refl

reachable-IsSound_example : IsSound busy
reachable-IsSound_example = reachable-IsSound busy busy-IsReachable

run-IsBounded_example :
    (count is_forwarded busy.calls ≤ 3) × (count is_ours busy.calls ≤ 2) × (length busy.calls ≤ 5)
run-IsBounded_example = run-IsBounded tuning true (some "secret") 8 (some hosted) busy calling

-- Both calls are past their deadlines at 40.
reap_calls-Answered_example : Answered (reap_verdict 40) "call timed out" busy (reap_calls 40 busy)
reap_calls-Answered_example = reap_calls-Answered 40 busy busy-IsReachable

busy_beta : registered "beta" busy ≡ some 1
unfolding broker_call route_frame connect reap_calls on_socket_drop run_task fire_lost lookup insert
    remove count deliver_topology_to_host
busy_beta = refl

on_lost-Answered_example :
    let c = on_lost "beta" 1 busy in
    let others = remove "beta" busy.registry in
    let topology = Frame.topology (participants_for_topology (remove_participant "beta" busy)) in
    (c.calls ≡ keep (λ e. not (e.1.dst == "beta") && not (e.1.src == "beta")) busy.calls)
    × (c.sent
        ≡ busy.sent
          ++ (answers (lost_verdict "beta") "endpoint lost" others busy.calls
              ++ to_all others topology))
    × ((k : Option String) (call : Call) (f : ℕ)
        → In (k, call) busy.calls
        → call.dst == "beta" ≡ true
        → call.future ≡ some f
        → is_some (lookup f c.results) ≡ true)
on_lost-Answered_example = on_lost-Answered "beta" 1 busy busy-IsReachable busy_beta

-- One answer is sent and one result is set.
reaped : (length (reap_calls 40 busy).sent ≡ 8) × (length (reap_calls 40 busy).results ≡ 1)
unfolding broker_call route_frame connect reap_calls on_socket_drop run_task fire_lost lookup insert
    remove count deliver_topology_to_host
reaped = (refl, refl)

silent : String → String → Json → ℕ × String
silent method path body = (200, "")

-- The socket of alpha drops, its grace period ends, and it is back before the loss is dealt with.
abbrev alpha_dropped : Broker
alpha_dropped = on_socket_drop "alpha" 0 false both_in

abbrev armed : Broker
armed = run_task silent 3 (Task.arm "alpha" 0) (taken [] alpha_dropped)

abbrev fired : Broker
fired = fire_lost "alpha" 0 armed

abbrev back : Broker
back = connect (hello "alpha" (some "k0")) "k2" fired

alpha_dropped_tasks : alpha_dropped.spawned ≡ Task.arm "alpha" 0 ∷ []
unfolding broker_call route_frame connect reap_calls on_socket_drop run_task fire_lost lookup insert
    remove count deliver_topology_to_host
alpha_dropped_tasks = refl

armed_timer : lookup "alpha" armed.grace_timers ≡ some (record { ws = 0; due = 13 })
unfolding broker_call route_frame connect reap_calls on_socket_drop run_task fire_lost lookup insert
    remove count deliver_topology_to_host
armed_timer = refl

returning : Run start back
returning =
    Run.next
      (Run.next
        (Run.next (Run.next both (Step.drops "alpha" 0 false both_in))
          (Step.runs silent 3 (Task.arm "alpha" 0) [] [] alpha_dropped alpha_dropped_tasks))
        (Step.expires "alpha" (record { ws = 0; due = 13 }) armed armed_timer))
      (Step.connects (hello "alpha" (some "k0")) "k2" fired)

back_present : lookup "alpha" back.liveness ≡ some Liveness.present
unfolding broker_call route_frame connect reap_calls on_socket_drop run_task fire_lost lookup insert
    remove count deliver_topology_to_host
back_present = refl

back_pending : In (Task.lost "alpha" 0) back.spawned
unfolding broker_call route_frame connect reap_calls on_socket_drop run_task fire_lost lookup insert
    remove count deliver_topology_to_host
back_pending = inl refl

on_lost-present_example : on_lost "alpha" 0 back ≡ back
on_lost-present_example =
    on_lost-present "alpha" 0 back
      (IsReachable.from tuning true (some "secret") 8 (some hosted) returning) back_pending
      back_present

fired_holder : registered "alpha" fired ≡ some 0
unfolding broker_call route_frame connect reap_calls on_socket_drop run_task fire_lost lookup insert
    remove count deliver_topology_to_host
fired_holder = refl

Step-registered_example :
    (registered "alpha" back ≡ some 0)
    ⊎ (registered "alpha" back ≡ none)
    ⊎ Resumed "alpha" fired back
Step-registered_example =
    Step-registered "alpha" 0 fired back (Step.connects (hello "alpha" (some "k0")) "k2" fired)
      fired_holder

-- Alpha drops again, from its new socket 2, while the teardown of socket 0 is not over.
abbrev again : Broker
again =
    on_socket_drop "alpha" 2 false
      (connect (hello "alpha" (some "k0")) "k2" (on_socket_drop "alpha" 0 false both_in))

-- The teardown of socket 2 has armed its timer.
abbrev rearmed : Broker
rearmed =
    run_task silent 5 (Task.arm "alpha" 2) (taken (Task.arm "alpha" 0 ∷ Task.close 0 ∷ []) again)

rearmed_facts :
    (again.spawned ≡ Task.arm "alpha" 0 ∷ Task.close 0 ∷ Task.arm "alpha" 2 ∷ [])
    × (registered "alpha" rearmed ≡ some 2)
    × (lookup "alpha" rearmed.liveness ≡ some Liveness.suspect)
    × (lookup "alpha" rearmed.grace_timers ≡ some (record { ws = 2; due = 15 }))
unfolding broker_call route_frame connect reap_calls on_socket_drop run_task fire_lost lookup insert
    remove count deliver_topology_to_host
rearmed_facts = (refl, refl, refl, refl)

rearmed_idle : ¬ In (Task.lost "alpha" 2) rearmed.spawned
unfolding broker_call route_frame connect reap_calls on_socket_drop run_task fire_lost lookup insert
    remove count deliver_topology_to_host
rearmed_idle h = ground arith

arm_grace-stale_example :
    let armed_stale = arm_grace "alpha" 0 9 rearmed in
    let c = fire_lost "alpha" 0 armed_stale in
    (lookup "alpha" armed_stale.grace_timers
      ≡ some (record { ws = 0; due = 9 + rearmed.tuning.grace }))
    × (on_lost "alpha" 0 c ≡ c)
    × (registered "alpha" c ≡ some 2)
    × (lookup "alpha" c.liveness ≡ some Liveness.suspect)
    × (lookup "alpha" c.grace_timers ≡ none)
    × (¬ In (Task.lost "alpha" 2) c.spawned)
arm_grace-stale_example =
    arm_grace-stale "alpha" 0 2 9 (record { ws = 2; due = 15 }) rearmed refl rearmed_facts.1
      rearmed_facts.2 rearmed_facts.3 refl rearmed_idle

-- Beta was shown, then left by itself.
abbrev gone : Broker
gone = record both_in { participants = []; registry = [] }

gone_host : gone.host ≡ some hosted
unfolding connect lookup insert
gone_host = refl

both_prev : Distinct both_in.host_topology_prev
unfolding broker_call route_frame connect reap_calls on_socket_drop run_task fire_lost lookup insert
    remove count deliver_topology_to_host
both_prev = (refl, (refl, (refl, tt)))

deliver_topology_to_host_lem_example :
    let c = deliver_topology_to_host gone in
    let curr = topology_snapshot gone in
    let shown = add_lost curr gone.host_topology_prev curr in
    (c.delivered ≡ gone.delivered ++ shown ∷ [])
    × (lookup "beta" shown ≡ expected (lookup "beta" curr) (lookup "beta" gone.host_topology_prev))
    × ((deliver_topology_to_host c).delivered ≡ c.delivered ++ topology_snapshot c ∷ [])
deliver_topology_to_host_lem_example =
    deliver_topology_to_host_lem hosted gone "beta" gone_host both_prev
