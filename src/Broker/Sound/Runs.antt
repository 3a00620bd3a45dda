-- ===== src/Broker/Sound/Runs.antt =====
-- broker.py: every handler and task keeps the invariant, in whatever order they run.
use radical_orbit.Prelude.{
  ℕ, String, ◌≡◌, subst, inl, inr, Bool, true, false, Option, none, some, List, [], ◌∷◌, ◌++◌,
  if◌then◌else◌, Bool-cases, All, ◌==◌, nat_eq, string_eq, option_eq, ==_iff, pair_eq,
}
use radical_orbit.Prelude.Int.{int_eq}
use radical_orbit.Prelude.Dict.{Dict, lookup}
use radical_orbit.Values.{Json}
use radical_orbit.Events.{ingest, update_subscription, reindex}
use radical_orbit.Broker.{
  Broker, PluginInfo, Raw, Task, Frame, spawn, send, broadcast_topology, broker_name,
}
use radical_orbit.Broker.Endpoints.{
  holds, leave, remove_participant, suspect, on_socket_drop, ask_exit, dismiss, disconnect,
}
use radical_orbit.Broker.Calls.{
  request_some, route_request, disconnect_named, handle_control, route_frame, fail_inflight_for,
  on_lost, reap_calls, signed,
}
use radical_orbit.Broker.Senders.{sender-ingest}
use radical_orbit.Broker.Quiet.{
  broadcast_topology-Told, route_to-Quiet, route_response-Quiet, broker_call-Quiet, pop_call-Quiet,
  fail_each-Quiet, reap_each-Quiet, dispatch_to_host-Told,
}
use radical_orbit.Broker.Steps.{Step, Run, run_task, taken, host_changed}
use radical_orbit.Broker.Sound.{
  TaskIsSafe, IsSound, IsSafe, Told-IsSound, Told-KeepsSafe, KeepsSafe-task, KeepsSafe-tasks,
  Quiet-IsSound,
}
use radical_orbit.Broker.Sound.Entry.{broadcast-IsSound, send-IsSound, connect-IsSound}
use radical_orbit.Broker.Sound.Tables.{
  remove_participant-IsSound, suspect-IsSound, suspect-IsSafe, arm_grace-IsSound, fire_lost-IsSound,
  spawn-IsSound,
}

leave-IsSound : (name : String) (b : Broker) → IsSound b → IsSound (leave name b)
unfolding leave
leave-IsSound name b sound =
    broadcast-IsSound (remove_participant name b) (remove_participant-IsSound name b sound)

pub on_socket_drop-IsSound :
    (name : String) (ws : ℕ) (clean : Bool) (b : Broker)
    → IsSound b
    → IsSound (on_socket_drop name ws clean b)
unfolding on_socket_drop holds
on_socket_drop-IsSound name ws clean b sound =
    elim (Bool-cases (lookup name b.registry == some ws)) [
      | inr e ↦ rw e sound
      | inl e ↦ rw e (dropped clean ((==_iff (lookup name b.registry) (some ws)).0 e))
    ]
  where
    shown : Broker
    shown = broadcast_topology (suspect name b)

    shown-safe : lookup name b.registry ≡ some ws → IsSafe name ws shown
    shown-safe h =
        Told-KeepsSafe (broadcast_topology-Told (suspect name b)) name ws
          (suspect-IsSafe name ws b h sound)

    dropped :
        (clean : Bool)
        → lookup name b.registry ≡ some ws
        → IsSound (if clean then leave name b else spawn (Task.arm name ws) shown)
    dropped true h = leave-IsSound name b sound
    dropped false h =
        spawn-IsSound (Task.arm name ws) shown (shown-safe h)
          (broadcast-IsSound (suspect name b) (suspect-IsSound name ws b h sound))

ask_exit-IsSound : (name : String) (ws : ℕ) (b : Broker) → IsSound b → IsSound (ask_exit name ws b)
unfolding ask_exit
ask_exit-IsSound name ws b sound =
    spawn-IsSound (Task.close ws) (send (some ws) (Frame.control name "terminate") b) tt
      (send-IsSound (some ws) (Frame.control name "terminate") b sound)

dismiss-IsSound :
    (o : Option ℕ) (name : String) (b : Broker) → IsSound b → IsSound (dismiss o name b)
unfolding dismiss
dismiss-IsSound none name b sound = sound
dismiss-IsSound (some ws) name b sound =
    ask_exit-IsSound name ws (leave name b) (leave-IsSound name b sound)

disconnect_named-IsSound :
    (o : Option String) (b : Broker) → IsSound b → IsSound (disconnect_named o b)
unfolding disconnect_named disconnect
disconnect_named-IsSound none b sound = sound
disconnect_named-IsSound (some name) b sound = elim (Bool-cases (name == "")) [
  | inl e ↦ rw e sound
  | inr e ↦ rw e (dismiss-IsSound (lookup name b.registry) name b sound)
]

handle_control-IsSound : (raw : Raw) (b : Broker) → IsSound b → IsSound (handle_control raw b)
unfolding handle_control
handle_control-IsSound raw b sound = elim (Bool-cases (raw.op == some "terminate")) [
  | inl e ↦ rw e (spawn-IsSound Task.terminate b tt sound)
  | inr e ↦ rw e (elim (Bool-cases (raw.op == some "disconnect")) [
    | inl f ↦ rw f (disconnect_named-IsSound raw.target b sound)
    | inr f ↦ rw f sound
  ])
]

request_some-IsSound :
    (o : Option String) (src : String) (now : ℕ) (raw : Raw) (b : Broker)
    → IsSound b
    → IsSound (request_some o src now raw b)
unfolding request_some
request_some-IsSound none src now raw b sound = send-IsSound (lookup src b.registry) _ b sound
request_some-IsSound (some dst) src now raw b sound = elim (Bool-cases (dst == broker_name)) [
  | inl e ↦ rw e (spawn-IsSound (Task.dispatch src raw) b tt sound)
  | inr e ↦ rw e (Quiet-IsSound (route_to-Quiet (lookup dst b.registry) dst src now raw b) sound)
]

ingest-IsSound :
    (name : String) (now : ℕ) (raw : Raw) (b : Broker)
    → IsSound b
    → IsSound (record b { events = (ingest Frame.event name raw.event now b.events).1 })
ingest-IsSound name now raw b (agrees, known, timers, tasks) = (
  λ n.
      let same = sender-ingest Frame.event n name raw.event now b.events in
      rw (same.0, same.1) (agrees n),
  known,
  timers,
  KeepsSafe-tasks b (record b { events = (ingest Frame.event name raw.event now b.events).1 })
      (λ n ws safe. safe) b.spawned tasks,
)

subscribed-IsSound :
    (name : String) (raw : Raw) (add : Bool) (b : Broker)
    → IsSound b
    → IsSound (record b { events = update_subscription name raw.patterns add b.events })
unfolding update_subscription reindex
subscribed-IsSound name raw add b (agrees, known, timers, tasks) = (
  agrees,
  known,
  timers,
  KeepsSafe-tasks b (record b { events = update_subscription name raw.patterns add b.events })
      (λ n ws safe. safe) b.spawned tasks,
)

pub route_frame-IsSound :
    (name : String) (now : ℕ) (raw : Raw) (b : Broker)
    → IsSound b
    → IsSound (route_frame name now raw b)
unfolding route_frame route_request signed
route_frame-IsSound name now raw b sound = elim (Bool-cases (raw.kind == some "request")) [
  | inl e ↦ rw e (request_some-IsSound raw.dst name now (signed name raw) b sound)
  | inr e ↦ rw e (elim (Bool-cases (raw.kind == some "response")) [
    | inl e ↦ rw e (Quiet-IsSound (route_response-Quiet name raw b) sound)
    | inr e ↦ rw e (elim (Bool-cases (raw.kind == some "event")) [
      | inl e ↦ rw e (ingest-IsSound name now raw b sound)
      | inr e ↦ rw e (elim (Bool-cases (raw.kind == some "subscribe")) [
        | inl e ↦ rw e (subscribed-IsSound name raw true b sound)
        | inr e ↦ rw e (elim (Bool-cases (raw.kind == some "unsubscribe")) [
          | inl e ↦ rw e (subscribed-IsSound name raw false b sound)
          | inr e ↦ rw e (elim (Bool-cases (raw.kind == some "control")) [
            | inl e ↦ rw e (handle_control-IsSound raw b sound)
            | inr e ↦ rw e sound
          ])
        ])
      ])
    ])
  ])
]

pub on_lost-IsSound :
    (name : String) (ws : ℕ) (b : Broker) → IsSound b → IsSound (on_lost name ws b)
unfolding on_lost fail_inflight_for
on_lost-IsSound name ws b sound =
    let c = remove_participant name b in
    elim (Bool-cases (holds name ws b)) [
      | inr e ↦ rw e sound
      | inl e ↦ rw e (
          broadcast-IsSound (fail_inflight_for name c) (
            Quiet-IsSound (fail_each-Quiet name c.calls c)
              (remove_participant-IsSound name b sound)))
    ]

-- What is left when a task is taken to run.
All-remove :
    (b : Broker) (task : Task) (before after : List Task)
    → All (TaskIsSafe b) (before ++ task ∷ after)
    → TaskIsSafe b task × All (TaskIsSafe b) (before ++ after)
All-remove b task [] after h = h
All-remove b task (t ∷ before) after (h, hs) =
    let rest = All-remove b task before after hs in (rest.0, (h, rest.1))

run_task-IsSound :
    (answer : String → String → Json → ℕ × String) (now : ℕ) (task : Task) (b : Broker)
    → TaskIsSafe b task
    → IsSound b
    → IsSound (run_task answer now task b)
unfolding run_task
run_task-IsSound answer now (Task.close ws) b safe sound = sound
run_task-IsSound answer now (Task.dispatch src raw) b safe sound =
    Told-IsSound (dispatch_to_host-Told answer src raw b) sound
run_task-IsSound answer now (Task.lost name ws) b safe sound = on_lost-IsSound name ws b sound
run_task-IsSound answer now (Task.arm name ws) b safe sound =
    arm_grace-IsSound name ws now b safe sound
run_task-IsSound answer now Task.terminate b safe sound = sound

taken-IsSafe :
    (tasks : List Task) (b : Broker) (task : Task)
    → TaskIsSafe b task
    → TaskIsSafe (taken tasks b) task
taken-IsSafe tasks b = KeepsSafe-task b (taken tasks b) (λ n ws safe. safe)

runs-IsSound :
    (answer : String → String → Json → ℕ × String) (now : ℕ) (task : Task)
    (before after : List Task) (b : Broker)
    → b.spawned ≡ before ++ task ∷ after
    → IsSound b
    → IsSound (run_task answer now task (taken (before ++ after) b))
runs-IsSound answer now task before after b e (agrees, known, timers, tasks) =
    let split = All-remove b task before after (subst (All (TaskIsSafe b)) e tasks) in
    let b' = taken (before ++ after) b in
    run_task-IsSound answer now task b' (taken-IsSafe (before ++ after) b task split.0)
      (agrees, known, timers, KeepsSafe-tasks b b' (λ n ws safe. safe) (before ++ after) split.1)

rehosts-IsSound :
    (plugins : Dict String PluginInfo) (b : Broker) → IsSound b → IsSound (host_changed plugins b)
unfolding host_changed
rehosts-IsSound plugins b (agrees, known, timers, tasks) =
    let b' = record b { host = some plugins } in
    broadcast-IsSound b'
      (agrees, known, timers, KeepsSafe-tasks b b' (λ n ws safe. safe) b.spawned tasks)

pub Step-IsSound : {b c : Broker} → Step b c → IsSound b → IsSound c
unfolding reap_calls
Step-IsSound (Step.connects msg key b) sound = connect-IsSound msg key b sound
Step-IsSound (Step.frames name now raw b) sound = route_frame-IsSound name now raw b sound
Step-IsSound (Step.drops name ws clean b) sound = on_socket_drop-IsSound name ws clean b sound
Step-IsSound (Step.expires name t b due) sound = fire_lost-IsSound name t b due sound
Step-IsSound (Step.runs answer now task before after b e) sound =
    runs-IsSound answer now task before after b e sound
Step-IsSound (Step.reaps now b) sound = Quiet-IsSound (reap_each-Quiet now b.calls b) sound
Step-IsSound (Step.calls_out dst method path body fits corr_id now b) sound =
    Quiet-IsSound (broker_call-Quiet dst method path body fits corr_id now b) sound
Step-IsSound (Step.gives_up corr_id b) sound = Quiet-IsSound (pop_call-Quiet corr_id b) sound
Step-IsSound (Step.rehosts plugins b) sound = rehosts-IsSound plugins b sound

pub Run-IsSound : {b c : Broker} → IsSound b → Run b c → IsSound c
Run-IsSound sound Run.here = sound
Run-IsSound sound (Run.next r s) = Step-IsSound s (Run-IsSound sound r)
