-- ===== src/Broker/Takeover.antt =====
-- broker.py: who may take the place of a participant.
pub mod Entry
use radical_orbit.Prelude.{
  ℕ, ◌-◌, min, String, ◌≡◌, refl, ap, ◌∙◌, ◌⊎◌, inl, inr, Bool, true, Option, none, some,
  Bool-cases, take, keep, In, ◌==◌, nat_eq, string_eq, option_eq, pair_eq,
}
use radical_orbit.Prelude.Count.{bit}
use radical_orbit.Prelude.Sorting.{place}
use radical_orbit.Prelude.Int.{int_eq}
use radical_orbit.Prelude.Dict.{Dict, lookup, remove, lookup-remove, keys}
use radical_orbit.Values.{Json}
use radical_orbit.Events.{ingest}
use radical_orbit.Broker.{
  Broker, Frame, Raw, Register, Task, send, broadcast_topology, spawn, broker_name, tokens_match,
}
use radical_orbit.Broker.Endpoints.{
  ack, refuse, resume, install, enter, close_old, admit, occupied, register, connect, closed,
  may_enter, may_resume, holds, leave, remove_participant, suspect, on_socket_drop, ask_exit,
  dismiss, disconnect, cancel_grace, arm_grace, fire_lost,
}
use radical_orbit.Broker.Calls.{
  request_some, route_request, disconnect_named, handle_control, route_frame, signed, reap_calls,
  on_lost, fail_inflight_for, pop_call,
}
use radical_orbit.Broker.Quiet.{
  Told, Quiet, Told-Quiet, send-Told, broadcast_topology-Told, route_to-Quiet, route_response-Quiet,
  broker_call-Quiet, pop_call-Quiet, fail_each-Quiet, reap_each-Quiet, dispatch_to_host-Told,
}
use radical_orbit.Broker.Steps.{Step, run_task, taken, host_changed}

abbrev pub registered : String → Broker → Option ℕ
registered name b = lookup name b.registry

-- The name keeps its socket, or is gone.
abbrev pub KeepsOrGoes : String → ℕ → Broker → Type 0
KeepsOrGoes name ws c = (registered name c ≡ some ws) ⊎ (registered name c ≡ none)

-- A newcomer under the name presented its resume key, and the token if one is asked for.
pub data Resumed (name : String) (b : Broker) : Broker → Type 0 where
  resumed :
      (msg : Register) (key : String)
      → msg.identity.name ≡ name
      → may_enter msg b ≡ true
      → tokens_match msg.identity.resume_key (lookup name b.resume_keys) ≡ true
      → Resumed name b (connect msg key b)

pub Quiet-registered :
    (name : String) {b c : Broker} → Quiet b c → registered name c ≡ registered name b
Quiet-registered name (Quiet.quiet cs n (Told.told r s d p)) = refl

pub Told-registered :
    (name : String) {b c : Broker} → Told b c → registered name c ≡ registered name b
Told-registered name (Told.told r s d p) = refl

module _ (name : String) (ws : ℕ) where
  -- What leaves the registry alone.
  kept :
      (b c : Broker)
      → registered name c ≡ registered name b
      → registered name b ≡ some ws
      → KeepsOrGoes name ws c
  kept b c e h = inl (e ∙ h)

  pub leave-registered :
      (n : String) (b : Broker) → registered name b ≡ some ws → KeepsOrGoes name ws (leave n b)
  unfolding leave remove_participant cancel_grace
  leave-registered n b h =
      let same = Told-registered name (broadcast_topology-Told (remove_participant n b)) in
      elim (Bool-cases (n == name)) [
        | inl e ↦ inr (same ∙ lookup-remove n name b.registry ∙ rw e refl)
        | inr e ↦ inl (same ∙ lookup-remove n name b.registry ∙ rw e h)
      ]

  pub on_socket_drop-registered :
      (n : String) (v : ℕ) (clean : Bool) (b : Broker)
      → registered name b ≡ some ws
      → KeepsOrGoes name ws (on_socket_drop n v clean b)
  unfolding on_socket_drop suspect spawn
  on_socket_drop-registered n v clean b h = elim (Bool-cases (holds n v b)) [
    | inr e ↦ rw e (inl h)
    | inl e ↦ rw e (elim (Bool-cases clean) [
      | inl f ↦ rw f (leave-registered n b h)
      | inr f ↦ rw f (inl (Told-registered name (broadcast_topology-Told (suspect n b)) ∙ h))
    ])
  ]

  dismiss-registered :
      (o : Option ℕ) (n : String) (b : Broker)
      → registered name b ≡ some ws
      → KeepsOrGoes name ws (dismiss o n b)
  unfolding dismiss ask_exit spawn send
  dismiss-registered none n b h = inl h
  dismiss-registered (some v) n b h = leave-registered n b h

  disconnect_named-registered :
      (o : Option String) (b : Broker)
      → registered name b ≡ some ws
      → KeepsOrGoes name ws (disconnect_named o b)
  unfolding disconnect_named disconnect
  disconnect_named-registered none b h = inl h
  disconnect_named-registered (some n) b h = elim (Bool-cases (n == "")) [
    | inl e ↦ rw e (inl h)
    | inr e ↦ rw e (dismiss-registered (registered n b) n b h)
  ]

  handle_control-registered :
      (raw : Raw) (b : Broker)
      → registered name b ≡ some ws
      → KeepsOrGoes name ws (handle_control raw b)
  unfolding handle_control spawn
  handle_control-registered raw b h = elim (Bool-cases (raw.op == some "terminate")) [
    | inl e ↦ rw e (inl h)
    | inr e ↦ rw e (elim (Bool-cases (raw.op == some "disconnect")) [
      | inl f ↦ rw f (disconnect_named-registered raw.target b h)
      | inr f ↦ rw f (inl h)
    ])
  ]

  request_some-registered :
      (o : Option String) (src : String) (now : ℕ) (raw : Raw) (b : Broker)
      → registered name (request_some o src now raw b) ≡ registered name b
  unfolding request_some spawn
  request_some-registered none src now raw b =
      Told-registered name (send-Told (lookup src b.registry) _ b)
  request_some-registered (some dst) src now raw b = elim (Bool-cases (dst == broker_name)) [
    | inl e ↦ rw e refl
    | inr e ↦
        rw e (Quiet-registered name (route_to-Quiet (lookup dst b.registry) dst src now raw b))
  ]

  pub route_frame-registered :
      (n : String) (now : ℕ) (raw : Raw) (b : Broker)
      → registered name b ≡ some ws
      → KeepsOrGoes name ws (route_frame n now raw b)
  unfolding route_frame route_request signed
  route_frame-registered n now raw b h = elim (Bool-cases (raw.kind == some "request")) [
    | inl e ↦ rw e (inl (request_some-registered raw.dst n now (signed n raw) b ∙ h))
    | inr e ↦ rw e (elim (Bool-cases (raw.kind == some "response")) [
      | inl e ↦ rw e (inl (Quiet-registered name (route_response-Quiet n raw b) ∙ h))
      | inr e ↦ rw e (elim (Bool-cases (raw.kind == some "event")) [
        | inl e ↦ rw e (inl h)
        | inr e ↦ rw e (elim (Bool-cases (raw.kind == some "subscribe")) [
          | inl e ↦ rw e (inl h)
          | inr e ↦ rw e (elim (Bool-cases (raw.kind == some "unsubscribe")) [
            | inl e ↦ rw e (inl h)
            | inr e ↦ rw e (elim (Bool-cases (raw.kind == some "control")) [
              | inl e ↦ rw e (handle_control-registered raw b h)
              | inr e ↦ rw e (inl h)
            ])
          ])
        ])
      ])
    ])
  ]

  on_lost-registered :
      (n : String) (v : ℕ) (b : Broker)
      → registered name b ≡ some ws
      → KeepsOrGoes name ws (on_lost n v b)
  unfolding on_lost fail_inflight_for remove_participant cancel_grace
  on_lost-registered n v b h = elim (Bool-cases (holds n v b)) [
    | inr e ↦ rw e (inl h)
    | inl e ↦
        let c = remove_participant n b in
        let same =
          Told-registered name (broadcast_topology-Told (fail_inflight_for n c))
          ∙ Quiet-registered name (fail_each-Quiet n c.calls c) in
        rw e (elim (Bool-cases (n == name)) [
          | inl f ↦ inr (same ∙ lookup-remove n name b.registry ∙ rw f refl)
          | inr f ↦ inl (same ∙ lookup-remove n name b.registry ∙ rw f h)
        ])
  ]

  pub run_task-registered :
      (answer : String → String → Json → ℕ × String) (now : ℕ) (task : Task) (b : Broker)
      → registered name b ≡ some ws
      → KeepsOrGoes name ws (run_task answer now task b)
  unfolding run_task arm_grace cancel_grace
  run_task-registered answer now (Task.close v) b h = inl h
  run_task-registered answer now (Task.dispatch src raw) b h =
      inl (Told-registered name (dispatch_to_host-Told answer src raw b) ∙ h)
  run_task-registered answer now (Task.lost n v) b h = on_lost-registered n v b h
  run_task-registered answer now (Task.arm n v) b h = inl h
  run_task-registered answer now Task.terminate b h = inl h
