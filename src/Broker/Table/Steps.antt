-- ===== src/Broker/Table/Steps.antt =====
-- broker.py: every step of the routing loop is a sequence of moves on the table of calls.
use radical_orbit.Prelude.{
  ℕ, ◌+◌, String, ◌≡◌, refl, ◌∙◌, inl, inr, Bool, true, false, Option, none, some, ◌++◌, Bool-cases,
  or_default, ◌==◌, nat_eq, string_eq, option_eq, pair_eq,
}
use radical_orbit.Prelude.Int.{int_eq}
use radical_orbit.Prelude.Dict.{lookup}
use radical_orbit.Values.{Json}
use radical_orbit.Broker.{
  Broker, Frame, Raw, Register, Task, send, broadcast_topology, spawn, broker_name,
}
use radical_orbit.Broker.Endpoints.{
  ack, refuse, resume, install, enter, close_old, admit, occupied, register, connect, closed,
  may_enter, may_resume, holds, leave, remove_participant, suspect, on_socket_drop, ask_exit,
  dismiss, disconnect, cancel_grace, arm_grace, fire_lost,
}
use radical_orbit.Broker.Calls.{
  route_request, disconnect_named, handle_control, route_frame, dispatch_to_host, signed,
  reap_calls,
}
use radical_orbit.Broker.Steps.{Step, Run, run_task, taken, host_changed}
use radical_orbit.Broker.Table.{
  Moves, Leads, table, Moves-trans, quietly, send-table, broadcast-table, sends, pop_call-Leads,
}
use radical_orbit.Broker.Table.Handlers.{
  reap_each-Leads, request_some-Leads, route_response-Leads, broker_call-Leads, on_lost-Leads,
}

close_old-table : (old ws : ℕ) (b : Broker) → table (close_old old ws b) ≡ table b
unfolding close_old spawn
close_old-table old ws b = elim (Bool-cases (old == ws)) [
  | inl e ↦ rw (close_old, e) refl
  | inr e ↦ rw (close_old, e) refl
]

admit-table :
    (ws : ℕ) (msg : Register) (key name : String) (b : Broker)
    → table (admit ws msg key name b) ≡ table b
unfolding admit enter
admit-table ws msg key name b =
    let b' = enter ws msg key name b in
    broadcast-table (send (some ws) (ack true key none) b')
    ∙ send-table (some ws) (ack true key none) b'

resume-table :
    (old ws : ℕ) (msg : Register) (name : String) (b : Broker)
    → table (resume old ws msg name b) ≡ table b
unfolding resume install cancel_grace
resume-table old ws msg name b =
    let b' = install ws msg name b in
    let answer = ack true (or_default (lookup name b'.resume_keys) "") none in
    let b'' = send (some ws) answer b' in
    broadcast-table (close_old old ws b'')
    ∙ close_old-table old ws b''
    ∙ send-table (some ws) answer b'

occupied-table :
    (o : Option ℕ) (ws : ℕ) (msg : Register) (key name : String) (b : Broker)
    → table (occupied o ws msg key name b).1 ≡ table b
unfolding occupied refuse
occupied-table none ws msg key name b = admit-table ws msg key name b
occupied-table (some old) ws msg key name b = elim (Bool-cases (may_resume msg name b)) [
  | inl e ↦ rw (occupied, e) (resume-table old ws msg name b)
  | inr e ↦ rw (occupied, e) (send-table (some ws) (ack false "" (some "name-in-use")) b)
]

register-table :
    (ws : ℕ) (msg : Register) (key : String) (b : Broker)
    → table (register ws msg key b).1 ≡ table b
unfolding register refuse
register-table ws msg key b = elim (Bool-cases (may_enter msg b)) [
  | inr e ↦ rw (register, e) (send-table (some ws) (ack false "" (some "invalid-credential")) b)
  | inl e ↦ elim (Bool-cases (msg.identity.name == broker_name)) [
    | inl f ↦ rw (register, e, f) (send-table (some ws) (ack false "" (some "name-reserved")) b)
    | inr f ↦
        rw (register, e, f)
          (occupied-table (lookup msg.identity.name b.registry) ws msg key msg.identity.name b)
  ]
]

closed-table :
    (ws : ℕ) (answer : (Bool × Option String) × Broker) → table (closed ws answer) ≡ table answer.1
unfolding closed spawn
closed-table ws ((true, name), b) = refl
closed-table ws ((false, name), b) = refl

connect-table : (msg : Register) (key : String) (b : Broker) → table (connect msg key b) ≡ table b
unfolding connect
connect-table msg key b =
    let b' = record b { accepted = b.accepted + 1 } in
    closed-table b.accepted (register b.accepted msg key b') ∙ register-table b.accepted msg key b'

leave-table : (name : String) (b : Broker) → table (leave name b) ≡ table b
unfolding leave remove_participant cancel_grace
leave-table name b = broadcast-table (remove_participant name b)

on_socket_drop-table :
    (name : String) (ws : ℕ) (clean : Bool) (b : Broker)
    → table (on_socket_drop name ws clean b) ≡ table b
unfolding on_socket_drop suspect spawn
on_socket_drop-table name ws clean b = elim (Bool-cases (holds name ws b)) [
  | inr e ↦ rw (on_socket_drop, e) refl
  | inl e ↦ elim (Bool-cases clean) [
    | inl f ↦ rw (on_socket_drop, e, f) (leave-table name b)
    | inr f ↦ rw (on_socket_drop, e, f) (broadcast-table (suspect name b))
  ]
]

dismiss-table : (o : Option ℕ) (name : String) (b : Broker) → table (dismiss o name b) ≡ table b
unfolding dismiss ask_exit spawn
dismiss-table none name b = refl
dismiss-table (some ws) name b =
    send-table (some ws) (Frame.control name "terminate") (leave name b) ∙ leave-table name b

disconnect_named-table : (o : Option String) (b : Broker) → table (disconnect_named o b) ≡ table b
unfolding disconnect_named disconnect
disconnect_named-table none b = refl
disconnect_named-table (some name) b = elim (Bool-cases (name == "")) [
  | inl e ↦ rw (disconnect_named, e) refl
  | inr e ↦ rw (disconnect_named, e) (dismiss-table (lookup name b.registry) name b)
]

handle_control-table : (raw : Raw) (b : Broker) → table (handle_control raw b) ≡ table b
unfolding handle_control spawn
handle_control-table raw b = elim (Bool-cases (raw.op == some "terminate")) [
  | inl e ↦ rw (handle_control, e) refl
  | inr e ↦ elim (Bool-cases (raw.op == some "disconnect")) [
    | inl f ↦ rw (handle_control, e, f) (disconnect_named-table raw.target b)
    | inr f ↦ rw (handle_control, e, f) refl
  ]
]

route_frame-Leads :
    (name : String) (now : ℕ) (raw : Raw) (b : Broker) → Leads b (route_frame name now raw b)
unfolding route_frame route_request signed
route_frame-Leads name now raw b = elim (Bool-cases (raw.kind == some "request")) [
  | inl e ↦ rw (route_frame, e) (request_some-Leads raw.dst name now (signed name raw) b)
  | inr e1 ↦ elim (Bool-cases (raw.kind == some "response")) [
    | inl e ↦ rw (route_frame, e1, e) (route_response-Leads name raw b)
    | inr e2 ↦ elim (Bool-cases (raw.kind == some "event")) [
      | inl e ↦ rw (route_frame, e1, e2, e) Moves.still
      | inr e3 ↦ elim (Bool-cases (raw.kind == some "subscribe")) [
        | inl e ↦ rw (route_frame, e1, e2, e3, e) Moves.still
        | inr e4 ↦ elim (Bool-cases (raw.kind == some "unsubscribe")) [
          | inl e ↦ rw (route_frame, e1, e2, e3, e4, e) Moves.still
          | inr e5 ↦ elim (Bool-cases (raw.kind == some "control")) [
            | inl e ↦
                rw (route_frame, e1, e2, e3, e4, e5, e)
                  (quietly b (handle_control raw b) (handle_control-table raw b))
            | inr e ↦ rw (route_frame, e1, e2, e3, e4, e5, e) Moves.still
          ]
        ]
      ]
    ]
  ]
]

run_task-Leads :
    (answer : String → String → Json → ℕ × String) (now : ℕ) (task : Task) (b : Broker)
    → Leads b (run_task answer now task b)
unfolding run_task dispatch_to_host arm_grace cancel_grace
run_task-Leads answer now (Task.close ws) b = Moves.still
run_task-Leads answer now (Task.dispatch src raw) b = sends (lookup src b.registry) _ b
run_task-Leads answer now (Task.lost name ws) b = on_lost-Leads name ws b
run_task-Leads answer now (Task.arm name ws) b = Moves.still
run_task-Leads answer now Task.terminate b = Moves.still

pub Step-Leads : {b c : Broker} → Step b c → Leads b c
unfolding reap_calls fire_lost spawn host_changed
Step-Leads (Step.connects msg key b) = quietly b (connect msg key b) (connect-table msg key b)
Step-Leads (Step.frames name now raw b) = route_frame-Leads name now raw b
Step-Leads (Step.drops name ws clean b) =
    quietly b (on_socket_drop name ws clean b) (on_socket_drop-table name ws clean b)
Step-Leads (Step.expires name t b due) = Moves.still
Step-Leads (Step.runs answer now task before after b e) =
    run_task-Leads answer now task (taken (before ++ after) b)
Step-Leads (Step.reaps now b) = reap_each-Leads now b.calls b
Step-Leads (Step.calls_out dst method path body fits corr_id now b) =
    broker_call-Leads dst method path body fits corr_id now b
Step-Leads (Step.gives_up corr_id b) = pop_call-Leads corr_id b
Step-Leads (Step.rehosts plugins b) =
    let b' = record b { host = some plugins } in
    quietly b (broadcast_topology b') (broadcast-table b')

pub Run-Leads : {b c : Broker} → Run b c → Leads b c
Run-Leads Run.here = Moves.still
Run-Leads (Run.next r s) = Moves-trans (Run-Leads r) (Step-Leads s)
