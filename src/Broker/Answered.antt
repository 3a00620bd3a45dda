-- ===== src/Broker/Answered.antt =====
-- broker.py: no call waits for ever.
use radical_orbit.Prelude.{
  ℕ, String, ◌≡◌, refl, sym, ap, subst, ◌∙◌, true, not, ◌&&◌, Option, none, some, List, [], ◌∷◌,
  ◌++◌, arith, is_some, keep, append_nil, append_assoc, keep-same, In, is_some, ◌==◌, nat_eq,
  string_eq, option_eq, ==_refl, pair_eq,
}
use radical_orbit.Prelude.Int.{int_eq}
use radical_orbit.Prelude.Dict.{Dict, lookup, remove}
use radical_orbit.Events.Counters.{Distinct, Distinct-remove, Distinct-insert}
use radical_orbit.Events.{remove_endpoint}
use radical_orbit.Broker.{
  Broker, Call, Frame, PluginInfo, send, send_all, show_host, deliver_topology_to_host,
  participants_for_topology, broadcast_topology,
}
use radical_orbit.Broker.Endpoints.{holds, remove_participant, cancel_grace}
use radical_orbit.Broker.Quiet.{Quiet, quiet, told, fail_each-Quiet}
use radical_orbit.Broker.Calls.{reap_calls, fail_inflight_for, on_lost}
use radical_orbit.Broker.Steps.{IsReachable}
use radical_orbit.Broker.Table.{Table, Move, Moves}
use radical_orbit.Broker.Table.Steps.{Run-Leads}
use radical_orbit.Broker.Sweep.{
  Verdict, stays, fails, sweep, answers, swept_self, lost_verdict, reap_verdict, fail_each-sweep,
  reap_each-sweep,
}
use radical_orbit.Broker.Sweep.Answers.{sweep-calls, sweep-sent, sweep-settles}

Move-Distinct : {t u : Table} → Move t u → Distinct t.calls → Distinct u.calls
Move-Distinct {t} (Move.pops k) h = Distinct-remove k t.calls h
Move-Distinct (Move.settles f o e) h = h
Move-Distinct {t} (Move.forwards k c e free) h = Distinct-insert k c t.calls h
Move-Distinct {t} (Move.calls_out k c e free) h = Distinct-insert k c t.calls h

Moves-Distinct : {t u : Table} → Moves t u → Distinct t.calls → Distinct u.calls
Moves-Distinct Moves.still h = h
Moves-Distinct (Moves.then m s) h = Move-Distinct s (Moves-Distinct m h)

pub calls-Distinct : (b : Broker) → IsReachable b → Distinct b.calls
calls-Distinct b (IsReachable.from tuning auth token seq_max host run) =
    Moves-Distinct (Run-Leads run) tt

-- What is promised of a loop that decides by `verdict`: the calls that stay are kept, each
-- participant whose forwarded call failed gets one answer, in the order of the table, and each
-- caller of the broker's own gets a result.
abbrev pub Answered : (Call → Verdict) → String → Broker → Broker → Type 0
Answered verdict why b c =
    (c.calls ≡ keep (λ e. stays (verdict e.1)) b.calls)
    × (c.sent ≡ b.sent ++ answers verdict why b.registry b.calls)
    × ((k : Option String) (call : Call) (f : ℕ)
        → In (k, call) b.calls
        → fails (verdict call) ≡ true
        → call.future ≡ some f
        → is_some (lookup f c.results) ≡ true)

sweep-Answered :
    (verdict : Call → Verdict) (why : String) (b : Broker)
    → Distinct b.calls
    → Answered verdict why b (sweep verdict why b.calls b)
sweep-Answered verdict why b d = (
  sweep-calls verdict why b.calls b ∙ swept_self verdict why b.calls d,
  sweep-sent verdict why b.calls b,
  λ k call f i h e. sweep-settles verdict why f k call b.calls b i h e,
)

-- A round of the reaper, on any broker that can come about, keeps exactly the calls whose
-- deadline is later, answers each overdue forwarded call once with a 504 if its caller is still
-- registered, in the order of the table and sending nothing else, and gives each overdue call of
-- the broker's own a result.
pub reap_calls-Answered :
    (now : ℕ) (b : Broker)
    → IsReachable b
    → Answered (reap_verdict now) "call timed out" b (reap_calls now b)
unfolding reap_calls
reap_calls-Answered now b reached =
    subst (Answered (reap_verdict now) "call timed out" b) (sym (reap_each-sweep now b.calls b))
      (sweep-Answered (reap_verdict now) "call timed out" b (calls-Distinct b reached))

fail_inflight_for-Answered :
    (name : String) (b : Broker)
    → Distinct b.calls
    → Answered (lost_verdict name) "endpoint lost" b (fail_inflight_for name b)
unfolding fail_inflight_for
fail_inflight_for-Answered name b d =
    subst (Answered (lost_verdict name) "endpoint lost" b) (sym (fail_each-sweep name b.calls b))
      (sweep-Answered (lost_verdict name) "endpoint lost" b d)

-- One frame for each of the sockets.
abbrev pub to_all : Dict String ℕ → Frame → List (ℕ × Frame)
to_all [] frame = []
to_all ((name, ws) ∷ rest) frame = (ws, frame) ∷ to_all rest frame

send_all_lem :
    (d : Dict String ℕ) (frame : Frame) (b : Broker)
    → send_all d frame b ≡ record b { sent = b.sent ++ to_all d frame }
unfolding send_all send
send_all_lem [] frame b = ap (λ s. record b { sent = s }) (sym (append_nil b.sent))
send_all_lem ((name, ws) ∷ d) frame b =
    send_all_lem d frame (send (some ws) frame b)
    ∙ ap (λ s. record b { sent = s }) (append_assoc b.sent ((ws, frame) ∷ []) (to_all d frame))

-- What a broadcast does to the calls, to their results and to what is sent.
abbrev SameCalls : Broker → List (ℕ × Frame) → Broker → Type 0
SameCalls b more c = (c.calls ≡ b.calls) × (c.results ≡ b.results) × (c.sent ≡ b.sent ++ more)

show_host-SameCalls :
    (o : Option (Dict String PluginInfo)) (more : List (ℕ × Frame)) (b : Broker)
    → SameCalls b more (show_host o (record b { sent = b.sent ++ more }))
unfolding show_host
show_host-SameCalls none more b = (refl, refl, refl)
show_host-SameCalls (some plugins) more b = (refl, refl, refl)

broadcast_topology-SameCalls :
    (b : Broker)
    → SameCalls b
        (to_all b.registry (Frame.topology (participants_for_topology b)))
        (broadcast_topology b)
unfolding broadcast_topology deliver_topology_to_host
broadcast_topology-SameCalls b =
    let frame = Frame.topology (participants_for_topology b) in
    subst (λ c. SameCalls b (to_all b.registry frame) (deliver_topology_to_host c))
      (sym (send_all_lem b.registry frame b))
      (show_host-SameCalls b.host (to_all b.registry frame) b)

Quiet-told :
    {b c : Broker}
    → Quiet b c
    → to_all c.registry (Frame.topology (participants_for_topology c))
      ≡ to_all b.registry (Frame.topology (participants_for_topology b))
unfolding participants_for_topology
Quiet-told (quiet calls n (told r s d p)) = refl

-- The end of an endpoint's grace period, on any broker that can come about, while the socket is
-- still the live one of the name: exactly the calls that neither come from the endpoint nor go to
-- it are kept; each other participant with a forwarded call to it gets one 504, in the order of
-- the table, then each other participant the topology without it, and nothing else is sent, so
-- that the calls that it made itself are dropped without an answer; the broker's own calls to it
-- get a result.
pub on_lost-Answered :
    (name : String) (ws : ℕ) (b : Broker)
    → IsReachable b
    → lookup name b.registry ≡ some ws
    → let c = on_lost name ws b in
      let others = remove name b.registry in
      let topology = Frame.topology (participants_for_topology (remove_participant name b)) in
      (c.calls ≡ keep (λ e. not (e.1.dst == name) && not (e.1.src == name)) b.calls)
      × (c.sent
          ≡ b.sent
            ++ (answers (lost_verdict name) "endpoint lost" others b.calls
                ++ to_all others topology))
      × ((k : Option String) (call : Call) (f : ℕ)
          → In (k, call) b.calls
          → call.dst == name ≡ true
          → call.future ≡ some f
          → is_some (lookup f c.results) ≡ true)
unfolding on_lost holds remove_participant cancel_grace remove_endpoint fail_inflight_for
on_lost-Answered name ws b reached here =
    rw (here, ==_refl (some ws))
      (
        told.0 ∙ failed.0 ∙ keep-same _ _ b.calls (λ e. kept e.1),
        told.2
            ∙ ap (λ s. s ++ to_all c.registry (Frame.topology (participants_for_topology c)))
                failed.1
            ∙ append_assoc b.sent
                (answers (lost_verdict name) "endpoint lost" left.registry b.calls) _
            ∙ ap
                (λ m.
                  b.sent
                  ++ (answers (lost_verdict name) "endpoint lost" left.registry b.calls ++ m))
                (Quiet-told (fail_each-Quiet name left.calls left)),
        λ k call f i e fut.
            ap (λ r. is_some (lookup f r)) told.1 ∙ failed.2 k call f i (overdue call e) fut,
      )
  where
    left : Broker
    left = remove_participant name b

    c : Broker
    c = fail_inflight_for name left

    failed : Answered (lost_verdict name) "endpoint lost" left c
    failed = fail_inflight_for-Answered name left (calls-Distinct b reached)

    told :
        SameCalls c
          (to_all c.registry (Frame.topology (participants_for_topology c)))
          (broadcast_topology c)
    told = broadcast_topology-SameCalls c

    kept :
        (call : Call)
        → stays (lost_verdict name call) ≡ (not (call.dst == name) && not (call.src == name))
    kept call = ground arith

    overdue : (call : Call) → call.dst == name ≡ true → fails (lost_verdict name call) ≡ true
    overdue call e = rw e refl
