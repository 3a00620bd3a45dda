-- ===== src/Broker/Table/Handlers.antt =====
-- broker.py: which moves each handler of the routing loop makes.
use radical_orbit.Prelude.{
  ℕ, ◌+◌, ◌<◌, String, refl, inl, inr, Bool, true, false, Option, none, some, [], ◌∷◌, arith, leb,
  Bool-cases, length, ◌==◌, nat_eq, string_eq, option_eq, pair_eq,
}
use radical_orbit.Prelude.Int.{int_eq}
use radical_orbit.Prelude.Dict.{Dict, lookup, insert}
use radical_orbit.Values.{Json}
use radical_orbit.Broker.{Broker, Call, Outcome, Frame, Raw, broadcast_topology, spawn, broker_name}
use radical_orbit.Broker.Endpoints.{holds, remove_participant, cancel_grace}
use radical_orbit.Broker.Calls.{
  fail_call, error_response, pop_call, ours, forward, route_to, request_some, answer_to,
  answer_some, route_response, call_target, broker_call, fail_each, fail_inflight_for, on_lost,
  reap_each,
}
use radical_orbit.Broker.Table.{
  Move, Moves, Leads, Moves-trans, quietly, broadcast-table, sends, one, settle_call-Leads,
  pop_call-Leads, fail_call-Leads,
}

pub fail_each-Leads :
    (name : String) (d : Dict (Option String) Call) (b : Broker) → Leads b (fail_each name d b)
unfolding fail_each
fail_each-Leads name [] b = Moves.still
fail_each-Leads name ((k, c) ∷ d) b = elim (Bool-cases (c.dst == name)) [
  | inl e ↦
      let b' = pop_call k b in
      let b'' = fail_call k c "endpoint lost" b' in
      rw (fail_each, e)
        (Moves-trans (pop_call-Leads k b)
          (Moves-trans (fail_call-Leads k c "endpoint lost" b') (fail_each-Leads name d b'')))
  | inr e ↦
      rw (fail_each, e)
        (elim (Bool-cases (c.src == name)) [
          | inl f ↦
              rw (fail_each, f)
                (Moves-trans (pop_call-Leads k b) (fail_each-Leads name d (pop_call k b)))
          | inr f ↦ rw (fail_each, f) (fail_each-Leads name d b)
        ])
]

pub reap_each-Leads :
    (now : ℕ) (d : Dict (Option String) Call) (b : Broker) → Leads b (reap_each now d b)
unfolding reap_each
reap_each-Leads now [] b = Moves.still
reap_each-Leads now ((k, c) ∷ d) b = elim (Bool-cases (leb c.deadline now)) [
  | inl e ↦
      let b' = pop_call k b in
      let b'' = fail_call k c "call timed out" b' in
      rw (reap_each, e)
        (Moves-trans (pop_call-Leads k b)
          (Moves-trans (fail_call-Leads k c "call timed out" b') (reap_each-Leads now d b'')))
  | inr e ↦ rw (reap_each, e) (reap_each-Leads now d b)
]

forward-Leads :
    (src : String) (ws now : ℕ) (raw : Raw) (dst : String) (b : Broker)
    → length b.calls < b.tuning.forwarded_call_cap
    → Leads b (forward src ws now raw dst b)
unfolding forward
forward-Leads src ws now raw dst b free =
    let c : Call = record {
      src = src;
      dst = dst;
      future = none;
      deadline = now + b.tuning.call_timeout;
    } in
    let b' = record b { calls = insert raw.corr_id c b.calls } in
    Moves-trans (one (Move.forwards raw.corr_id c refl free))
      (sends (some ws) (Frame.forwarded raw) b')

route_to-Leads :
    (o : Option ℕ) (dst src : String) (now : ℕ) (raw : Raw) (b : Broker)
    → Leads b (route_to o dst src now raw b)
unfolding route_to
route_to-Leads none dst src now raw b =
    sends (lookup src b.registry) (error_response raw 502 "endpoint unknown") b
route_to-Leads (some ws) dst src now raw b =
    elim (Bool-cases (leb b.tuning.forwarded_call_cap (length b.calls))) [
      | inl e ↦
          rw (route_to, e)
            (sends (lookup src b.registry)
              (error_response raw 503 "broker forwarded-call table at cap") b)
      | inr e ↦ rw (route_to, e) (forward-Leads src ws now raw dst b (ground arith))
    ]

pub request_some-Leads :
    (o : Option String) (src : String) (now : ℕ) (raw : Raw) (b : Broker)
    → Leads b (request_some o src now raw b)
unfolding request_some spawn
request_some-Leads none src now raw b =
    sends (lookup src b.registry) (error_response raw 502 "endpoint unknown") b
request_some-Leads (some dst) src now raw b = elim (Bool-cases (dst == broker_name)) [
  | inl e ↦ rw (request_some, e) Moves.still
  | inr e ↦ rw (request_some, e) (route_to-Leads (lookup dst b.registry) dst src now raw b)
]

answer_to-Leads :
    (dst : String) (c : Option Call) (raw : Raw) (b : Broker) → Leads b (answer_to dst c raw b)
unfolding answer_to
answer_to-Leads dst c raw b = elim (Bool-cases (dst == broker_name)) [
  | inl e ↦ rw (answer_to, e) (settle_call-Leads c (Outcome.answered raw) b)
  | inr e ↦ rw (answer_to, e) (sends (lookup dst b.registry) (Frame.forwarded raw) b)
]

answer_some-Leads :
    (o : Option String) (c : Option Call) (raw : Raw) (b : Broker) → Leads b (answer_some o c raw b)
unfolding answer_some
answer_some-Leads none c raw b = Moves.still
answer_some-Leads (some dst) c raw b = answer_to-Leads dst c raw b

pub route_response-Leads :
    (src : String) (raw : Raw) (b : Broker) → Leads b (route_response src raw b)
unfolding route_response
route_response-Leads src raw b =
    Moves-trans (pop_call-Leads raw.corr_id b)
      (answer_some-Leads raw.dst (lookup raw.corr_id b.calls) raw (pop_call raw.corr_id b))

call_target-Leads :
    (o : Option ℕ) (dst method path : String) (body : Json) (fits : Bool) (corr_id : String)
    (now : ℕ) (b : Broker)
    → ours b < b.tuning.call_cap
    → Leads b (call_target o dst method path body fits corr_id now b).1
unfolding call_target ours
call_target-Leads none dst method path body fits corr_id now b free = Moves.still
call_target-Leads (some ws) dst method path body false corr_id now b free = Moves.still
call_target-Leads (some ws) dst method path body true corr_id now b free =
    let c : Call = record {
      src = broker_name;
      dst = dst;
      future = some b.next_future;
      deadline = now + b.tuning.call_timeout;
    } in
    let b' = record b {
      calls = insert (some corr_id) c b.calls;
      next_future = b.next_future + 1;
    } in
    Moves-trans (one (Move.calls_out (some corr_id) c refl free))
      (sends (some ws) (Frame.request dst method path body (some corr_id)) b')

pub broker_call-Leads :
    (dst method path : String) (body : Json) (fits : Bool) (corr_id : String) (now : ℕ) (b : Broker)
    → Leads b (broker_call dst method path body fits corr_id now b).1
unfolding broker_call
broker_call-Leads dst method path body fits corr_id now b =
    elim (Bool-cases (leb b.tuning.call_cap (ours b))) [
      | inl e ↦ rw (broker_call, e) Moves.still
      | inr e ↦
          rw (broker_call, e)
            (call_target-Leads (lookup dst b.registry) dst method path body fits corr_id now b
              (ground arith))
    ]

pub on_lost-Leads : (name : String) (ws : ℕ) (b : Broker) → Leads b (on_lost name ws b)
unfolding on_lost fail_inflight_for remove_participant cancel_grace
on_lost-Leads name ws b =
    let c = remove_participant name b in
    elim (Bool-cases (holds name ws b)) [
      | inr e ↦ rw (on_lost, e) Moves.still
      | inl e ↦
          rw (on_lost, e)
            (Moves-trans (fail_each-Leads name c.calls c) (
              quietly (fail_each name c.calls c) (broadcast_topology (fail_each name c.calls c))
                (broadcast-table (fail_each name c.calls c))))
    ]
