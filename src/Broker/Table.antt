-- ===== src/Broker/Table.antt =====
-- broker.py: every handler as a sequence of small moves on the table of calls and on the results.
pub mod Handlers
pub mod Steps
use radical_orbit.Prelude.{
  ℕ, ◌+◌, ◌-◌, ◌<◌, String, ◌≡◌, refl, sym, ap, subst, ◌∙◌, inl, inr, Bool, false, not, Option,
  none, some, [], ◌∷◌, Bool-cases, is_some, length, take, In, is_some, nat_eq, string_eq, option_eq,
  pair_eq,
}
use radical_orbit.Prelude.Int.{int_eq}
use radical_orbit.Prelude.Dict.{Dict, lookup, insert, remove}
use radical_orbit.Prelude.Count.{bit, count}
use radical_orbit.Values.{Json}
use radical_orbit.Broker.{
  Broker, BrokerTuning, Call, Outcome, Frame, Raw, Register, Task, PluginInfo, send, send_all,
  show_host, deliver_topology_to_host, broadcast_topology, spawn, broker_name,
}
use radical_orbit.Broker.Endpoints.{
  refuse, resume, install, enter, close_old, admit, occupied, register, connect, closed, may_enter,
  may_resume, holds, leave, remove_participant, suspect, on_socket_drop, ask_exit, dismiss,
  disconnect, cancel_grace, arm_grace, fire_lost,
}
use radical_orbit.Broker.Calls.{
  set_result, settle, settle_call, fail_call, answer_504, pop_call, is_ours, is_forwarded, ours,
  forward, route_to, request_some, route_request, answer_to, answer_some, route_response,
  call_target, broker_call, fail_each, fail_inflight_for, on_lost, reap_each, reap_calls,
  disconnect_named, handle_control, route_frame, dispatch_to_host, signed,
}
use radical_orbit.Broker.Steps.{Step, Run, run_task, taken, host_changed}

-- What the broker knows of calls.
pub record Table : Type 0 where
  pub tuning : BrokerTuning
  pub calls : Dict (Option String) Call
  pub next_future : ℕ
  pub results : Dict ℕ Outcome

abbrev pub table : Broker → Table
table b = record {
  tuning = b.tuning;
  calls = b.calls;
  next_future = b.next_future;
  results = b.results;
}

pub data Move (t : Table) : Table → Type 0 where
  pops : (k : Option String) → Move t (record t { calls = remove k t.calls })
  settles :
      (f : ℕ) (o : Outcome)
      → is_some (lookup f t.results) ≡ false
      → Move t (record t { results = insert f o t.results })
  forwards :
      (k : Option String) (c : Call)
      → c.future ≡ none
      → length t.calls < t.tuning.forwarded_call_cap
      → Move t (record t { calls = insert k c t.calls })
  calls_out :
      (k : Option String) (c : Call)
      → c.future ≡ some t.next_future
      → count is_ours t.calls < t.tuning.call_cap
      → Move t (record t { calls = insert k c t.calls; next_future = t.next_future + 1 })

pub data Moves (t : Table) : Table → Type 0 where
  still : Moves t t
  then : {u v : Table} → Moves t u → Move u v → Moves t v

pub Moves-trans : {t u v : Table} → Moves t u → Moves u v → Moves t v
Moves-trans m Moves.still = m
Moves-trans m (Moves.then n s) = Moves.then (Moves-trans m n) s

-- From one broker to another.
abbrev pub Leads : Broker → Broker → Type 0
Leads b c = Moves (table b) (table c)

pub one : {t u : Table} → Move t u → Moves t u
one m = Moves.then Moves.still m

pub send-table : (o : Option ℕ) (f : Frame) (b : Broker) → table (send o f b) ≡ table b
unfolding send
send-table none f b = refl
send-table (some ws) f b = refl

send_all-table : (d : Dict String ℕ) (f : Frame) (b : Broker) → table (send_all d f b) ≡ table b
unfolding send_all
send_all-table [] f b = refl
send_all-table ((n, ws) ∷ d) f b =
    send_all-table d f (send (some ws) f b) ∙ send-table (some ws) f b

show_host-table :
    (o : Option (Dict String PluginInfo)) (b : Broker) → table (show_host o b) ≡ table b
unfolding show_host
show_host-table none b = refl
show_host-table (some plugins) b = refl

pub broadcast-table : (b : Broker) → table (broadcast_topology b) ≡ table b
unfolding broadcast_topology deliver_topology_to_host
broadcast-table b =
    show_host-table (send_all b.registry _ b).host (send_all b.registry _ b)
    ∙ send_all-table b.registry _ b

-- The handlers that do not touch calls.
pub quietly : (b c : Broker) → table c ≡ table b → Leads b c
quietly b c e = subst (λ t. Moves (table b) t) (sym e) Moves.still

pub sends : (o : Option ℕ) (f : Frame) (b : Broker) → Leads b (send o f b)
sends o f b = quietly b (send o f b) (send-table o f b)

set_result-Leads : (f : ℕ) (o : Outcome) (b : Broker) → Leads b (set_result f o b)
unfolding set_result
set_result-Leads f o b = elim (Bool-cases (is_some (lookup f b.results))) [
  | inl e ↦ rw e Moves.still
  | inr e ↦ rw e (one (Move.settles f o e))
]

settle-Leads : (x : Option ℕ) (o : Outcome) (b : Broker) → Leads b (settle x o b)
unfolding settle
settle-Leads none o b = Moves.still
settle-Leads (some f) o b = set_result-Leads f o b

pub settle_call-Leads : (c : Option Call) (o : Outcome) (b : Broker) → Leads b (settle_call c o b)
unfolding settle_call
settle_call-Leads none o b = Moves.still
settle_call-Leads (some c) o b = settle-Leads c.future o b

pub pop_call-Leads : (k : Option String) (b : Broker) → Leads b (pop_call k b)
unfolding pop_call
pop_call-Leads k b = one (Move.pops k)

pub fail_call-Leads :
    (k : Option String) (c : Call) (why : String) (b : Broker) → Leads b (fail_call k c why b)
unfolding fail_call
fail_call-Leads k c why b = elim (Bool-cases (is_ours c)) [
  | inl e ↦ rw e (settle_call-Leads (some c) (Outcome.failed why) b)
  | inr e ↦ rw e (sends (lookup c.src b.registry) (answer_504 k c why) b)
]
