-- ===== src/Events.antt =====
-- src/radical/orbit/broker_events.py: the broker's subscriptions and event delivery, with the
-- pattern type of protocol.py.
-- Each handler runs whole on the routing loop. Logging and profiling are left out. The sender
-- task of a subscriber is what `radical_orbit.Queues` models as the consumer of its queue; here
-- it is only running or cancelled. Taps are named by numbers; what a callback does is not modelled.
pub mod Counters
pub mod Delivery
mod Samples
pub mod Sequence
use radical_orbit.Prelude.{
  ℕ, ◌+◌, ◌-◌, ◌/◌, max, String, ap, Bool, true, not, ◌&&◌, ◌||◌, Option, none, some, List, [], ◌∷◌,
  ◌++◌, ltb, if◌then◌else◌, or_default, length, any_of, In, Eq, ◌==◌, nat_eq, string_eq, option_eq,
  pair_eq,
}
use radical_orbit.Prelude.Count.{bit, count}
use radical_orbit.Prelude.Int.{int_eq}
use radical_orbit.Prelude.Dict.{Dict, lookup, insert, remove}
use radical_orbit.Subscriptions.{
  SubscribePattern, StreamKey, PairKey, PatternIndex, matches, index_patterns, empty_index,
  discard_all, no_empty, parsed, indexed_match,
}
use radical_orbit.Queues.{BoundedDropOldestQueue, new_queue, push, tail}

-- The event as it arrives; `Body` stands for its payload.
pub record RawEvent (Body : Type 0) : Type 0 where
  pub plugin : Option String
  pub topic : Option String
  pub session : Option String
  pub body : Body

-- The event as it is delivered.
pub record Event (Body : Type 0) : Type 0 where
  pub src : String
  pub plugin : Option String
  pub topic : Option String
  pub session : Option String
  pub body : Body
  pub seq : ℕ
  pub ts : ℕ

pub data Sender : Type 0 where
  running cancelled : Sender

pub record EventRouter (Frame : Type 0) : Type 0 where
  pub event_queue : ℕ
  pub subscriptions : Dict String (List SubscribePattern)
  pub index : Dict String PatternIndex
  pub out : Dict String (BoundedDropOldestQueue Frame)
  pub senders : Dict String Sender
  pub session_seq : Dict StreamKey ℕ
  pub session_seq_max : ℕ
  pub session_seq_base : ℕ
  pub global_seq : ℕ
  pub taps : List ℕ

unfoldable pub pause : Option Sender → String → Dict String Sender → Dict String Sender
pause (some running) name d = insert name cancelled d
pause _ name d = d

unfoldable pub setdefault_patterns :
    Option (List SubscribePattern)
    → String
    → Dict String (List SubscribePattern)
    → Dict String (List SubscribePattern)
setdefault_patterns none name d = insert name [] d
setdefault_patterns (some ps) name d = d

module _ {Frame : Type 0} where
  unfoldable pub reindex : String → EventRouter Frame → EventRouter Frame
  unfolding index_patterns
  reindex name r = record r {
    index =
        insert name (index_patterns (or_default (lookup name r.subscriptions) []) empty_index)
          r.index;
  }

  unfoldable pub pause_sender : String → EventRouter Frame → EventRouter Frame
  unfolding pause
  pause_sender name r = record r { senders = pause (lookup name r.senders) name r.senders }

  unfoldable pub rearm :
      Option (BoundedDropOldestQueue Frame)
      → String
      → Dict String (BoundedDropOldestQueue Frame)
      → Dict String (BoundedDropOldestQueue Frame)
  rearm none name d = d
  rearm (some q) name d = elim q.buf [ [] ↦ d | x ∷ xs ↦ insert name (record q { wake = true }) d ]

  -- A new sender finds `wake` set whenever its queue holds a backlog.
  unfoldable pub restart_sender : String → EventRouter Frame → EventRouter Frame
  unfolding rearm pause_sender
  restart_sender name r =
      let r' = pause_sender name r in
      record r' {
        out = rearm (lookup name r'.out) name r'.out;
        senders = insert name running r'.senders;
      }

  unfoldable pub add_endpoint : String → EventRouter Frame → EventRouter Frame
  unfolding reindex restart_sender setdefault_patterns
  add_endpoint name r =
      let r' = reindex name (record r {
        subscriptions = setdefault_patterns (lookup name r.subscriptions) name r.subscriptions;
      }) in
      restart_sender name (record r' { out = insert name (new_queue r.event_queue) r'.out })

  unfoldable pub remove_endpoint : String → EventRouter Frame → EventRouter Frame
  unfolding pause_sender
  remove_endpoint name r =
      let r' = pause_sender name (record r {
        subscriptions = remove name r.subscriptions;
        index = remove name r.index;
        out = remove name r.out;
      }) in
      record r' { senders = remove name r'.senders }

  unfoldable pub dropped : String → EventRouter Frame → ℕ
  dropped name r = elim (lookup name r.out) [ none ↦ 0 | some q ↦ q.dropped ]

-- The number of a session event: the stream's counter, or the high-water mark for a new or
-- pruned stream. The stream becomes the most recently used; past the bound the least recently
-- used one goes.
abbrev pub bounded_table : ℕ → Dict StreamKey ℕ → Dict StreamKey ℕ
bounded_table n d = if ltb n (length d) then tail d else d

module _ {Frame : Type 0} where
  unfoldable pub update_subscription :
      String → List (Option SubscribePattern) → Bool → EventRouter Frame → EventRouter Frame
  unfolding parsed discard_all reindex
  update_subscription name raw add r =
      let cur = or_default (lookup name r.subscriptions) [] in
      let next = if add then cur ++ parsed raw else discard_all (parsed raw) cur in
      reindex name (record r { subscriptions = insert name next r.subscriptions })

  unfoldable pub tap : ℕ → EventRouter Frame → EventRouter Frame
  tap cb r = record r { taps = r.taps ++ cb ∷ [] }

  unfoldable pub next_seq : StreamKey → EventRouter Frame → ℕ
  next_seq key r = or_default (lookup key r.session_seq) r.session_seq_base

  unfoldable pub issue_session : StreamKey → EventRouter Frame → EventRouter Frame
  unfolding next_seq
  issue_session key r =
      let seq = next_seq key r in
      record r {
        session_seq =
            bounded_table r.session_seq_max (remove key r.session_seq ++ (key, seq + 1) ∷ []);
        session_seq_base = if ltb r.session_seq_base (seq + 1) then seq + 1 else r.session_seq_base;
      }

  unfoldable pub issue_global : EventRouter Frame → EventRouter Frame
  issue_global r = record r { global_seq = r.global_seq + 1 }

  unfoldable pub push_at :
      Option (BoundedDropOldestQueue Frame)
      → String
      → Frame
      → Dict String (BoundedDropOldestQueue Frame)
      → Dict String (BoundedDropOldestQueue Frame)
  push_at none name frame d = d
  push_at (some q) name frame d = insert name (push frame q) d

  -- The loop over the subscribers: a frame goes to each whose patterns match.
  unfoldable pub fan_out :
      (PatternIndex → Bool)
      → Frame
      → Dict String PatternIndex
      → Dict String (BoundedDropOldestQueue Frame)
      → Dict String (BoundedDropOldestQueue Frame)
  unfolding push_at
  fan_out wants frame [] d = d
  fan_out wants frame ((name, ix) ∷ rest) d =
      fan_out wants frame rest (if wants ix then push_at (lookup name d) name frame d else d)

unfoldable pub number :
    {Frame : Type 0}
    → Option String
    → String
    → Option String
    → EventRouter Frame
    → ℕ × EventRouter Frame
unfolding issue_session issue_global
number none src plugin r = (r.global_seq, issue_global r)
number (some s) src plugin r =
    let key : StreamKey = (src, (plugin, s)) in (next_seq key r, issue_session key r)

abbrev pub stamped : {Body : Type 0} → String → RawEvent Body → ℕ → ℕ → Event Body
stamped src raw seq now = record {
  src = src;
  plugin = raw.plugin;
  topic = raw.topic;
  session = no_empty raw.session;
  body = raw.body;
  seq = seq;
  ts = now;
}

module _ {Body Frame : Type 0} (pack : Event Body → Frame) where
  unfoldable pub deliver : String → RawEvent Body → ℕ → ℕ → EventRouter Frame → EventRouter Frame
  unfolding indexed_match fan_out
  deliver src raw seq now r = record r {
    out =
        fan_out (λ ix. indexed_match ix src raw.plugin raw.topic (no_empty raw.session))
          (pack (stamped src raw seq now)) r.index r.out;
  }

  -- Stamp the event, queue it for each matching subscriber; the number that it got is returned.
  unfoldable pub ingest : String → RawEvent Body → ℕ → EventRouter Frame → ℕ × EventRouter Frame
  unfolding number deliver
  ingest src raw now r =
      let (seq, r') = number (no_empty raw.session) src raw.plugin r in
      (seq, deliver src raw seq now r')

-- What the routing loop hands to the router, one call at a time.
pub data Call (Body : Type 0) : Type 0 where
  connects leaves suspects : String → Call Body
  subscribes : String → List (Option SubscribePattern) → Bool → Call Body
  taps_in : ℕ → Call Body
  arrives : String → RawEvent Body → ℕ → Call Body

-- The stream that numbers an event; `none` is the global one.
abbrev pub stream_for : String → Option String → Option String → Option StreamKey
stream_for src plugin none = none
stream_for src plugin (some s) = some (src, (plugin, s))

abbrev pub stream_of : {Body : Type 0} → String → RawEvent Body → Option StreamKey
stream_of src raw = stream_for src raw.plugin (no_empty raw.session)

module _ {Body Frame : Type 0} (pack : Event Body → Frame) where
  -- One call, with the stream and number of the event that it delivered, if any.
  unfoldable pub handle :
      Call Body → EventRouter Frame → List (Option StreamKey × ℕ) × EventRouter Frame
  unfolding ingest add_endpoint remove_endpoint pause_sender update_subscription tap
  handle (connects name) r = ([], add_endpoint name r)
  handle (leaves name) r = ([], remove_endpoint name r)
  handle (suspects name) r = ([], pause_sender name r)
  handle (subscribes name raw add) r = ([], update_subscription name raw add r)
  handle (taps_in cb) r = ([], tap cb r)
  handle (arrives src raw now) r =
      let (seq, r') = ingest pack src raw now r in ((stream_of src raw, seq) ∷ [], r')

  unfoldable pub handle_all :
      List (Call Body) → EventRouter Frame → List (Option StreamKey × ℕ) × EventRouter Frame
  unfolding handle
  handle_all [] r = ([], r)
  handle_all (c ∷ cs) r =
      let (issued, r') = handle c r in let (later, r'') = handle_all cs r' in (issued ++ later, r'')

abbrev pub fresh_router : {Frame : Type 0} → ℕ → ℕ → EventRouter Frame
fresh_router depth seq_max = record {
  event_queue = depth;
  subscriptions = [];
  index = [];
  out = [];
  senders = [];
  session_seq = [];
  session_seq_max = seq_max;
  session_seq_base = 0;
  global_seq = 0;
  taps = [];
}
