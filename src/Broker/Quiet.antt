-- ===== src/Broker/Quiet.antt =====
-- broker.py: what the sends, answers and calls of the broker leave alone.
use radical_orbit.Prelude.{
  ℕ, ◌+◌, String, inl, inr, Bool, true, false, Option, none, some, List, [], ◌∷◌, ◌++◌, leb,
  Bool-cases, is_some, length, is_some, ◌==◌, nat_eq, string_eq, option_eq, pair_eq,
}
use radical_orbit.Prelude.Dict.{Dict, lookup, insert, remove}
use radical_orbit.Prelude.Int.{int_eq}
use radical_orbit.Broker.{
  Broker, Call, Outcome, Frame, ParticipantInfo, Raw, send, broadcast_topology, send_all,
  deliver_topology_to_host, PluginInfo, show_host, topology_snapshot, add_lost,
  participants_for_topology, broker_name,
}
use radical_orbit.Values.{Json}
use radical_orbit.Broker.Calls.{
  set_result, settle, settle_call, fail_call, pop_call, answer_504, is_ours, forward, reap_each,
  fail_each, route_to, answer_to, answer_some, route_response, call_target, broker_call,
  dispatch_to_host, ours,
}

-- Only frames, results and deliveries differ.
pub data Told (b : Broker) : Broker → Type 0 where
  told :
      (results : Dict ℕ Outcome) (sent : List (ℕ × Frame))
      (delivered : List (Dict String ParticipantInfo)) (prev : Dict String ParticipantInfo)
      → Told b (record b {
        results = results;
        sent = sent;
        delivered = delivered;
        host_topology_prev = prev;
      })

-- The table of calls may differ too.
pub data Quiet (b : Broker) : Broker → Type 0 where
  quiet :
      (calls : Dict (Option String) Call) (next_future : ℕ) {c : Broker}
      → Told (record b { calls = calls; next_future = next_future }) c
      → Quiet b c

pub Told-refl : (b : Broker) → Told b b
Told-refl b = told b.results b.sent b.delivered b.host_topology_prev

pub Told-trans : {a b c : Broker} → Told a b → Told b c → Told a c
Told-trans (told _ _ _ _) (told r s d p) = told r s d p

pub Told-Quiet : {b c : Broker} → Told b c → Quiet b c
Told-Quiet {b} t = quiet b.calls b.next_future t

pub Quiet-refl : (b : Broker) → Quiet b b
Quiet-refl b = Told-Quiet (Told-refl b)

pub Quiet-trans : {a b c : Broker} → Quiet a b → Quiet b c → Quiet a c
Quiet-trans (quiet _ _ (told _ _ _ _)) (quiet cs n (told r s d p)) = quiet cs n (told r s d p)

pub send-Told : (o : Option ℕ) (f : Frame) (b : Broker) → Told b (send o f b)
unfolding send
send-Told none f b = Told-refl b
send-Told (some ws) f b = told b.results (b.sent ++ (ws, f) ∷ []) b.delivered b.host_topology_prev

send_all-Told : (d : Dict String ℕ) (f : Frame) (b : Broker) → Told b (send_all d f b)
unfolding send_all
send_all-Told [] f b = Told-refl b
send_all-Told ((name, ws) ∷ d) f b =
    Told-trans (send-Told (some ws) f b) (send_all-Told d f (send (some ws) f b))

show_host-Told : (o : Option (Dict String PluginInfo)) (b : Broker) → Told b (show_host o b)
unfolding show_host
show_host-Told none b = Told-refl b
show_host-Told (some plugins) b =
    let curr = topology_snapshot b in
    told b.results b.sent (b.delivered ++ add_lost curr b.host_topology_prev curr ∷ []) curr

deliver-Told : (b : Broker) → Told b (deliver_topology_to_host b)
unfolding deliver_topology_to_host
deliver-Told b = show_host-Told b.host b

pub broadcast_topology-Told : (b : Broker) → Told b (broadcast_topology b)
unfolding broadcast_topology
broadcast_topology-Told b =
    let frame = Frame.topology (participants_for_topology b) in
    Told-trans (send_all-Told b.registry frame b) (deliver-Told (send_all b.registry frame b))

set_result-Told : (f : ℕ) (o : Outcome) (b : Broker) → Told b (set_result f o b)
unfolding set_result
set_result-Told f o b = elim (Bool-cases (is_some (lookup f b.results))) [
  | inl e ↦ rw e (Told-refl b)
  | inr e ↦ rw e (told (insert f o b.results) b.sent b.delivered b.host_topology_prev)
]

settle-Told : (f : Option ℕ) (o : Outcome) (b : Broker) → Told b (settle f o b)
unfolding settle
settle-Told none o b = Told-refl b
settle-Told (some f) o b = set_result-Told f o b

pub settle_call-Told : (c : Option Call) (o : Outcome) (b : Broker) → Told b (settle_call c o b)
unfolding settle_call
settle_call-Told none o b = Told-refl b
settle_call-Told (some c) o b = settle-Told c.future o b

pub fail_call-Told :
    (k : Option String) (c : Call) (why : String) (b : Broker) → Told b (fail_call k c why b)
unfolding fail_call
fail_call-Told k c why b = elim (Bool-cases (is_ours c)) [
  | inl e ↦ rw e (settle_call-Told (some c) (Outcome.failed why) b)
  | inr e ↦ rw e (send-Told (lookup c.src b.registry) (answer_504 k c why) b)
]

pub pop_call-Quiet : (k : Option String) (b : Broker) → Quiet b (pop_call k b)
unfolding pop_call
pop_call-Quiet k b = quiet (remove k b.calls) b.next_future (Told-refl _)

-- A step of a loop over a snapshot of the table.
pub fail_each-Quiet :
    (name : String) (d : Dict (Option String) Call) (b : Broker) → Quiet b (fail_each name d b)
unfolding fail_each
fail_each-Quiet name [] b = Quiet-refl b
fail_each-Quiet name ((k, c) ∷ d) b = elim (Bool-cases (c.dst == name)) [
  | inl e ↦ rw e (
      Quiet-trans (pop_call-Quiet k b) (
        Quiet-trans (Told-Quiet (fail_call-Told k c "endpoint lost" (pop_call k b)))
          (fail_each-Quiet name d (fail_call k c "endpoint lost" (pop_call k b)))))
  | inr e ↦ rw e (elim (Bool-cases (c.src == name)) [
    | inl f ↦ rw f (Quiet-trans (pop_call-Quiet k b) (fail_each-Quiet name d (pop_call k b)))
    | inr f ↦ rw f (fail_each-Quiet name d b)
  ])
]

pub reap_each-Quiet :
    (now : ℕ) (d : Dict (Option String) Call) (b : Broker) → Quiet b (reap_each now d b)
unfolding reap_each
reap_each-Quiet now [] b = Quiet-refl b
reap_each-Quiet now ((k, c) ∷ d) b = elim (Bool-cases (leb c.deadline now)) [
  | inl e ↦ rw e (
      Quiet-trans (pop_call-Quiet k b) (
        Quiet-trans (Told-Quiet (fail_call-Told k c "call timed out" (pop_call k b)))
          (reap_each-Quiet now d (fail_call k c "call timed out" (pop_call k b)))))
  | inr e ↦ rw e (reap_each-Quiet now d b)
]

forward-Quiet :
    (src : String) (ws now : ℕ) (raw : Raw) (dst : String) (b : Broker)
    → Quiet b (forward src ws now raw dst b)
unfolding forward
forward-Quiet src ws now raw dst b =
    let cs =
      insert raw.corr_id
        (record { src = src; dst = dst; future = none; deadline = now + b.tuning.call_timeout })
        b.calls in
    quiet cs b.next_future (send-Told (some ws) (Frame.forwarded raw) (record b { calls = cs }))

pub route_to-Quiet :
    (o : Option ℕ) (dst src : String) (now : ℕ) (raw : Raw) (b : Broker)
    → Quiet b (route_to o dst src now raw b)
unfolding route_to
route_to-Quiet none dst src now raw b = Told-Quiet (send-Told (lookup src b.registry) _ b)
route_to-Quiet (some ws) dst src now raw b =
    elim (Bool-cases (leb b.tuning.forwarded_call_cap (length b.calls))) [
      | inl e ↦ rw e (Told-Quiet (send-Told (lookup src b.registry) _ b))
      | inr e ↦ rw e (forward-Quiet src ws now raw dst b)
    ]

answer_to-Quiet :
    (dst : String) (c : Option Call) (raw : Raw) (b : Broker) → Quiet b (answer_to dst c raw b)
unfolding answer_to
answer_to-Quiet dst c raw b = elim (Bool-cases (dst == broker_name)) [
  | inl e ↦ rw e (Told-Quiet (settle_call-Told c (Outcome.answered raw) b))
  | inr e ↦ rw e (Told-Quiet (send-Told (lookup dst b.registry) (Frame.forwarded raw) b))
]

answer_some-Quiet :
    (o : Option String) (c : Option Call) (raw : Raw) (b : Broker) → Quiet b (answer_some o c raw b)
unfolding answer_some
answer_some-Quiet none c raw b = Quiet-refl b
answer_some-Quiet (some dst) c raw b = answer_to-Quiet dst c raw b

pub route_response-Quiet :
    (src : String) (raw : Raw) (b : Broker) → Quiet b (route_response src raw b)
unfolding route_response
route_response-Quiet src raw b =
    Quiet-trans (pop_call-Quiet raw.corr_id b)
      (answer_some-Quiet raw.dst (lookup raw.corr_id b.calls) raw (pop_call raw.corr_id b))

call_target-Quiet :
    (o : Option ℕ) (dst method path : String) (body : Json) (fits : Bool) (corr_id : String)
    (now : ℕ) (b : Broker)
    → Quiet b (call_target o dst method path body fits corr_id now b).1
unfolding call_target
call_target-Quiet none dst method path body fits corr_id now b = Quiet-refl b
call_target-Quiet (some ws) dst method path body false corr_id now b = Quiet-refl b
call_target-Quiet (some ws) dst method path body true corr_id now b =
    let cs =
      insert (some corr_id)
        (record {
          src = broker_name;
          dst = dst;
          future = some b.next_future;
          deadline = now + b.tuning.call_timeout;
        })
        b.calls in
    let b' = record b { calls = cs; next_future = b.next_future + 1 } in
    quiet cs (b.next_future + 1)
      (send-Told (some ws) (Frame.request dst method path body (some corr_id)) b')

pub broker_call-Quiet :
    (dst method path : String) (body : Json) (fits : Bool) (corr_id : String) (now : ℕ) (b : Broker)
    → Quiet b (broker_call dst method path body fits corr_id now b).1
unfolding broker_call
broker_call-Quiet dst method path body fits corr_id now b =
    elim (Bool-cases (leb b.tuning.call_cap (ours b))) [
      | inl e ↦ rw e (Quiet-refl b)
      | inr e ↦
          rw e (call_target-Quiet (lookup dst b.registry) dst method path body fits corr_id now b)
    ]

pub dispatch_to_host-Told :
    (answer : String → String → Json → ℕ × String) (src : String) (raw : Raw) (b : Broker)
    → Told b (dispatch_to_host answer src raw b)
unfolding dispatch_to_host
dispatch_to_host-Told answer src raw b = send-Told (lookup src b.registry) _ b
