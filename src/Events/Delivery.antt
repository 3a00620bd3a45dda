-- ===== src/Events/Delivery.antt =====
-- broker_events.py: which subscribers get the frame of an event.
use mathlib.Core.Option
use radical_orbit.Prelude.{
  ℕ, String, ◌≡◌, refl, inl, inr, Bool, true, false, Option, none, some, List, [], ◌∷◌, arith,
  if◌then◌else◌, Bool-cases, Option-cases, or_default, ◌==◌, nat_eq, string_eq, str_iff, option_eq,
  pair_eq,
}
use radical_orbit.Prelude.Int.{int_eq}
use radical_orbit.Prelude.Dict.{
  Dict, lookup, insert, lookup-insert, lookup-remove, lookup-insert_self,
}
use radical_orbit.Queues.{BoundedDropOldestQueue, push}
use radical_orbit.Subscriptions.{
  SubscribePattern, PatternIndex, matches, index_patterns, empty_index, indexed_match, no_empty,
}
use radical_orbit.Events.{
  EventRouter, RawEvent, Event, Call, fan_out, push_at, ingest, deliver, number, stamped, reindex,
  add_endpoint, remove_endpoint, pause_sender, handle, handle_all, fresh_router, tap,
  setdefault_patterns, connects, leaves, suspects, subscribes, taps_in, arrives,
}
use radical_orbit.Events.Counters.{Distinct, Distinct-remove, Distinct-insert}
use radical_orbit.Subscriptions.Index.{reindex-matches}

abbrev wanted : (PatternIndex → Bool) → Option PatternIndex → Bool
wanted wants none = false
wanted wants (some ix) = wants ix

-- The test that the documentation gives: some pattern of the subscriber matches.
abbrev pub interested :
    Option (List SubscribePattern) → String → Option String → Option String → Option String → Bool
interested none src plugin topic session = false
interested (some ps) src plugin topic session = matches ps src plugin topic session

module _ {Frame : Type 0} where
  abbrev pub fed :
      Bool → Frame → Option (BoundedDropOldestQueue Frame) → Option (BoundedDropOldestQueue Frame)
  fed true frame q = Option.map (push frame) q
  fed false frame q = q

  lookup-push_at :
      (j name : String) (frame : Frame) (d : Dict String (BoundedDropOldestQueue Frame))
      → lookup j (push_at (lookup name d) name frame d) ≡ fed (name == j) frame (lookup j d)
  unfolding push_at
  lookup-push_at j name frame d = elim (Option-cases (lookup name d)) [
    | inl e ↦ ground (arith, e, str_iff name j)
    | inr (q, e) ↦ ground (arith, e, str_iff name j, lookup-insert name j (push frame q) d)
  ]

  lookup-fan_out :
      (wants : PatternIndex → Bool) (frame : Frame) (j : String) (ixs : Dict String PatternIndex)
      (d : Dict String (BoundedDropOldestQueue Frame))
      → Distinct ixs
      → lookup j (fan_out wants frame ixs d) ≡ fed (wanted wants (lookup j ixs)) frame (lookup j d)
  unfolding fan_out lookup
  lookup-fan_out wants frame j [] d h = refl
  lookup-fan_out wants frame j ((name, ix) ∷ rest) d h = elim (Bool-cases (wants ix)) [
    | inl e ↦ rw e (
        ground (
          arith,
          e,
          lookup-fan_out wants frame j rest (push_at (lookup name d) name frame d),
          lookup-push_at j name frame d,
          str_iff name j,
        ))
    | inr e ↦ rw e (ground (arith, e, lookup-fan_out wants frame j rest d, str_iff name j))
  ]

  -- The index of every subscriber is what `_reindex` builds from its pattern list.
  pub record IsIndexed (r : EventRouter Frame) : Type 0 where
    pub distinct : Distinct r.index
    pub built :
        (name : String)
        → lookup name r.index
          ≡ Option.map (λ ps. index_patterns ps empty_index) (lookup name r.subscriptions)

number_keeps :
    {Frame : Type 0} (o : Option String) (src : String) (plugin : Option String)
    (r : EventRouter Frame)
    → ((number o src plugin r).1.index ≡ r.index)
      × ((number o src plugin r).1.out ≡ r.out)
      × ((number o src plugin r).1.subscriptions ≡ r.subscriptions)
unfolding number
number_keeps none src plugin r = (refl, refl, refl)
number_keeps (some s) src plugin r = (refl, refl, refl)

wanted-interested :
    (src : String) (plugin topic session : Option String) (subs : Option (List SubscribePattern))
    → wanted
        (λ ix. indexed_match ix src plugin topic session)
        (Option.map (λ ps. index_patterns ps empty_index) subs)
      ≡ interested subs src plugin topic session
wanted-interested src plugin topic session none = refl
wanted-interested src plugin topic session (some ps) = reindex-matches src plugin topic session ps

module _ {Body Frame : Type 0} (pack : Event Body → Frame) where
  pub lookup-ingest :
      (src : String) (raw : RawEvent Body) (now : ℕ) (r : EventRouter Frame) (name : String)
      → IsIndexed r
      → lookup name (ingest pack src raw now r).1.out
        ≡ fed
            (interested
              (lookup name r.subscriptions)
              src
              raw.plugin
              raw.topic
              (no_empty raw.session))
            (pack (stamped src raw (ingest pack src raw now r).0 now))
            (lookup name r.out)
  unfolding ingest
  lookup-ingest src raw now r name v =
      let n = number_keeps (no_empty raw.session) src raw.plugin r in
      rw
        (
          n.0,
          n.1,
          lookup-fan_out (λ ix. indexed_match ix src raw.plugin raw.topic (no_empty raw.session))
              (pack (stamped src raw (number (no_empty raw.session) src raw.plugin r).0 now)) name
              r.index r.out v.distinct,
          v.built name,
          wanted-interested src raw.plugin raw.topic (no_empty raw.session)
              (lookup name r.subscriptions),
        )
        refl

lookup-setdefault :
    (name j : String) (d : Dict String (List SubscribePattern))
    → lookup j (setdefault_patterns (lookup name d) name d)
      ≡ (if name == j then some (or_default (lookup name d) []) else lookup j d)
unfolding setdefault_patterns
lookup-setdefault name j d = elim (Option-cases (lookup name d)) [
  | inl e ↦ ground (arith, e, lookup-insert name j [] d)
  | inr (ps, e) ↦ ground (arith, e, str_iff name j)
]

module _ {Frame : Type 0} where
  -- Assigning a subscriber's patterns and rebuilding its index.
  reindex-IsIndexed :
      (name : String) (ps : List SubscribePattern) (r : EventRouter Frame)
      → IsIndexed r
      → IsIndexed (reindex name (record r { subscriptions = insert name ps r.subscriptions }))
  unfolding reindex
  reindex-IsIndexed name ps r v = record {
    distinct = Distinct-insert name _ r.index v.distinct;
    built = λ j. rw lookup-insert_self (
        ground (
          arith,
          lookup-insert name j (index_patterns ps empty_index) r.index,
          lookup-insert name j ps r.subscriptions,
          v.built j,
        ));
  }

  forget-IsIndexed :
      (name : String) (r : EventRouter Frame) → IsIndexed r → IsIndexed (remove_endpoint name r)
  unfolding remove_endpoint
  forget-IsIndexed name r v = record {
    distinct = Distinct-remove name r.index v.distinct;
    built = λ j.
        ground
          (arith, lookup-remove name j r.index, lookup-remove name j r.subscriptions, v.built j);
  }

  connect-IsIndexed :
      (name : String) (r : EventRouter Frame) → IsIndexed r → IsIndexed (add_endpoint name r)
  unfolding add_endpoint
  connect-IsIndexed name r v =
      let subs = setdefault_patterns (lookup name r.subscriptions) name r.subscriptions in
      record {
        distinct = Distinct-insert name _ r.index v.distinct;
        built = λ j. ground (
          arith,
          lookup-insert name j (index_patterns (or_default (lookup name subs) []) empty_index)
              r.index,
          lookup-setdefault name j r.subscriptions,
          lookup-setdefault name name r.subscriptions,
          v.built j,
          str_iff name name,
          str_iff name j,
        );
      }

module _ {Body Frame : Type 0} (pack : Event Body → Frame) where
  handle-IsIndexed :
      (c : Call Body) (r : EventRouter Frame) → IsIndexed r → IsIndexed (handle pack c r).1
  unfolding handle
  handle-IsIndexed (connects name) r v = connect-IsIndexed name r v
  handle-IsIndexed (leaves name) r v = forget-IsIndexed name r v
  handle-IsIndexed (suspects name) r v =
      unfold pause_sender in record { distinct = v.distinct; built = v.built }
  handle-IsIndexed (subscribes name raw add) r v = reindex-IsIndexed name _ r v
  handle-IsIndexed (taps_in cb) r v =
      unfold tap in record { distinct = v.distinct; built = v.built }
  handle-IsIndexed (arrives src raw now) r v =
      let n = number_keeps (no_empty raw.session) src raw.plugin r in
      unfold deliver in
      record { distinct = rw n.0 v.distinct; built = λ j. rw (n.0, n.2) (v.built j) }

  handle_all-IsIndexed :
      (cs : List (Call Body)) (r : EventRouter Frame)
      → IsIndexed r
      → IsIndexed (handle_all pack cs r).1
  unfolding handle_all
  handle_all-IsIndexed [] r v = v
  handle_all-IsIndexed (c ∷ cs) r v =
      handle_all-IsIndexed cs (handle pack c r).1 (handle-IsIndexed c r v)

  fresh-IsIndexed : (depth seq_max : ℕ) → IsIndexed (fresh_router {Frame = Frame} depth seq_max)
  unfolding lookup
  fresh-IsIndexed depth seq_max = record { distinct = tt; built = λ name. refl }

  -- After any calls on a new router, an event is queued for exactly the subscribers with a pattern
  -- that matches it, once each, as one frame that carries the broker's number and time; every
  -- other queue stays as it was.
  pub lookup-ingest_reached :
      (depth seq_max : ℕ) (cs : List (Call Body)) (src : String) (raw : RawEvent Body) (now : ℕ)
      (name : String)
      → let r = (handle_all pack cs (fresh_router depth seq_max)).1 in
        lookup name (ingest pack src raw now r).1.out
        ≡ fed
            (interested
              (lookup name r.subscriptions)
              src
              raw.plugin
              raw.topic
              (no_empty raw.session))
            (pack (stamped src raw (ingest pack src raw now r).0 now))
            (lookup name r.out)
  lookup-ingest_reached depth seq_max cs src raw now name =
      lookup-ingest pack src raw now _ name
        (handle_all-IsIndexed cs (fresh_router depth seq_max) (fresh-IsIndexed depth seq_max))
