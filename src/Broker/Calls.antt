-- ===== src/Broker/Calls.antt =====
-- broker.py: the table of calls in flight, and the routing of frames.
use radical_orbit.Prelude.{
  ℕ, ◌+◌, String, Bool, true, false, not, Option, none, some, [], ◌∷◌, leb, if◌then◌else◌,
  or_default, is_some, length, is_some, ◌==◌, nat_eq, string_eq, option_eq, pair_eq,
}
use radical_orbit.Prelude.Count.{count}
use radical_orbit.Prelude.Dict.{Dict, lookup, insert, remove}
use radical_orbit.Prelude.Int.{int_eq}
use radical_orbit.Values.{Json}
use radical_orbit.Events.{ingest, update_subscription}
use radical_orbit.Broker.{
  Broker, Raw, Frame, Outcome, Call, Task, send, spawn, broadcast_topology, broker_name,
  strip_broker_prefix,
}
use radical_orbit.Broker.Endpoints.{disconnect, holds, remove_participant}

abbrev pub is_forwarded : Call → Bool
is_forwarded c = not (is_some c.future)

abbrev pub is_ours : Call → Bool
is_ours c = is_some c.future

unfoldable pub set_result : ℕ → Outcome → Broker → Broker
set_result f outcome b =
    if is_some (lookup f b.results) then b else record b { results = insert f outcome b.results }

unfoldable pub settle : Option ℕ → Outcome → Broker → Broker
unfolding set_result
settle none outcome b = b
settle (some f) outcome b = set_result f outcome b

-- A future is set once: `done()` is asked first.
unfoldable pub settle_call : Option Call → Outcome → Broker → Broker
unfolding settle
settle_call none outcome b = b
settle_call (some c) outcome b = settle c.future outcome b

unfoldable pub error_response : Raw → ℕ → String → Frame
error_response raw status detail = Frame.response (record {
  src = broker_name;
  dst = raw.src;
  status = status;
  reason = detail;
  corr_id = raw.corr_id;
})

abbrev pub answer_504 : Option String → Call → String → Frame
answer_504 corr_id c reason =
    Frame.response
      (record { src = c.dst; dst = some c.src; status = 504; reason = reason; corr_id = corr_id })

unfoldable pub fail_call : Option String → Call → String → Broker → Broker
unfolding settle_call send
fail_call corr_id c reason b =
    if is_ours c
    then settle_call (some c) (Outcome.failed reason) b
    else send (lookup c.src b.registry) (answer_504 corr_id c reason) b

unfoldable pub pop_call : Option String → Broker → Broker
pop_call corr_id b = record b { calls = remove corr_id b.calls }

unfoldable pub forward : String → ℕ → ℕ → Raw → String → Broker → Broker
unfolding send
forward src_name target now raw dst b = send (some target) (Frame.forwarded raw) (record b {
  calls =
      insert raw.corr_id
        (record {
          src = src_name;
          dst = dst;
          future = none;
          deadline = now + b.tuning.call_timeout;
        })
        b.calls;
})

unfoldable pub route_to : Option ℕ → String → String → ℕ → Raw → Broker → Broker
unfolding send error_response forward
route_to none dst src_name now raw b =
    send (lookup src_name b.registry) (error_response raw 502 "endpoint unknown") b
route_to (some target) dst src_name now raw b =
    if leb b.tuning.forwarded_call_cap (length b.calls)
    then send (lookup src_name b.registry)
        (error_response raw 503 "broker forwarded-call table at cap") b
    else forward src_name target now raw dst b

-- The sender's registered name takes the place of the `src` that it claims.
unfoldable pub signed : String → Raw → Raw
signed src_name raw = record raw { src = some src_name }

unfoldable pub request_some : Option String → String → ℕ → Raw → Broker → Broker
unfolding route_to send error_response spawn
request_some none src_name now raw b =
    send (lookup src_name b.registry) (error_response raw 502 "endpoint unknown") b
request_some (some dst) src_name now raw b =
    if dst == broker_name
    then spawn (Task.dispatch src_name raw) b
    else route_to (lookup dst b.registry) dst src_name now raw b

unfoldable pub route_request : String → ℕ → Raw → Broker → Broker
unfolding signed request_some
route_request src_name now raw b = request_some raw.dst src_name now (signed src_name raw) b

unfoldable pub answer_to : String → Option Call → Raw → Broker → Broker
unfolding settle_call send
answer_to dst call raw b =
    if dst == broker_name
    then settle_call call (Outcome.answered raw) b
    else send (lookup dst b.registry) (Frame.forwarded raw) b

unfoldable pub answer_some : Option String → Option Call → Raw → Broker → Broker
unfolding answer_to
answer_some none call raw b = b
answer_some (some dst) call raw b = answer_to dst call raw b

unfoldable pub route_response : String → Raw → Broker → Broker
unfolding answer_some pop_call
route_response src_name raw b =
    answer_some raw.dst (lookup raw.corr_id b.calls) raw (pop_call raw.corr_id b)

-- What `_broker_call` comes to before it waits: it raises, answers at once, or waits for a future.
pub data Started : Type 0 where
  raised : String → Started
  too_large : Started
  waits : ℕ → Started

unfoldable pub ours : Broker → ℕ
ours b = count is_ours b.calls

unfoldable pub call_target :
    Option ℕ → String → String → String → Json → Bool → String → ℕ → Broker → Started × Broker
unfolding send
call_target none dst method path body fits corr_id now b = (Started.raised "endpoint unknown", b)
call_target (some target) dst method path body fits corr_id now b =
    if not fits then (Started.too_large, b) else (
      Started.waits b.next_future,
      send (some target) (Frame.request dst method path body (some corr_id)) (record b {
        next_future = b.next_future + 1;
        calls =
            insert (some corr_id)
              (record {
                src = broker_name;
                dst = dst;
                future = some b.next_future;
                deadline = now + b.tuning.call_timeout;
              })
              b.calls;
      }),
    )

-- `fits` says whether the packed request is within the cap on frames, `corr_id` is minted.
unfoldable pub broker_call :
    String → String → String → Json → Bool → String → ℕ → Broker → Started × Broker
unfolding call_target ours
broker_call dst method path body fits corr_id now b =
    if leb b.tuning.call_cap (ours b)
    then (Started.raised "broker in-flight calls at cap", b)
    else call_target (lookup dst b.registry) dst method path body fits corr_id now b

-- The loop over a snapshot of the table, in `_fail_inflight_for`.
unfoldable pub fail_each : String → Dict (Option String) Call → Broker → Broker
unfolding fail_call pop_call
fail_each name [] b = b
fail_each name ((corr_id, c) ∷ rest) b = fail_each name rest (
    if c.dst == name
    then fail_call corr_id c "endpoint lost" (pop_call corr_id b)
    else if c.src == name
    then pop_call corr_id b
    else b)

unfoldable pub fail_inflight_for : String → Broker → Broker
unfolding fail_each
fail_inflight_for name b = fail_each name b.calls b

unfoldable pub on_lost : String → ℕ → Broker → Broker
unfolding holds remove_participant fail_inflight_for broadcast_topology
on_lost name ws b =
    if not (holds name ws b)
    then b
    else broadcast_topology (fail_inflight_for name (remove_participant name b))

-- One round of the reaper, over a snapshot of the table.
unfoldable pub reap_each : ℕ → Dict (Option String) Call → Broker → Broker
unfolding fail_call pop_call
reap_each now [] b = b
reap_each now ((corr_id, c) ∷ rest) b =
    reap_each now rest
      (if leb c.deadline now then fail_call corr_id c "call timed out" (pop_call corr_id b) else b)

unfoldable pub reap_calls : ℕ → Broker → Broker
unfolding reap_each
reap_calls now b = reap_each now b.calls b

unfoldable pub disconnect_named : Option String → Broker → Broker
unfolding disconnect
disconnect_named none b = b
disconnect_named (some target) b = if target == "" then b else disconnect target b

unfoldable pub handle_control : Raw → Broker → Broker
unfolding disconnect_named spawn
handle_control raw b =
    if raw.op == some "terminate"
    then spawn Task.terminate b
    else if raw.op == some "disconnect"
    then disconnect_named raw.target b
    else b

unfoldable pub route_frame : String → ℕ → Raw → Broker → Broker
unfolding route_request route_response handle_control ingest update_subscription
route_frame name now raw b =
    if raw.kind == some "request"
    then route_request name now raw b
    else if raw.kind == some "response"
    then route_response name raw b
    else if raw.kind == some "event"
    then record b { events = (ingest Frame.event name raw.event now b.events).1 }
    else if raw.kind == some "subscribe"
    then record b { events = update_subscription name raw.patterns true b.events }
    else if raw.kind == some "unsubscribe"
    then record b { events = update_subscription name raw.patterns false b.events }
    else if raw.kind == some "control"
    then handle_control raw b
    else b

-- `_dispatch_to_host`: the path that the hosted plugins see, and the reply to the one who asked.
-- What they answer is the argument `answer`.
unfoldable pub dispatch_to_host :
    (String → String → Json → ℕ × String) → String → Raw → Broker → Broker
unfolding strip_broker_prefix send
dispatch_to_host answer src_name raw b =
    let (status, text) =
      answer (or_default raw.method "GET") (strip_broker_prefix (or_default raw.path "/"))
        raw.body in
    send (lookup src_name b.registry)
      (Frame.response (record {
        src = broker_name;
        dst = some src_name;
        status = status;
        reason = text;
        corr_id = raw.corr_id;
      }))
      b
