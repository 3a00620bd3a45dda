-- ===== src/Broker/Shown.antt =====
-- broker.py: what the hosted plugins are shown of the participants, one delivery after another.
use radical_orbit.Prelude.{
  String, ◌≡◌, refl, sym, ap, ◌∙◌, inl, inr, true, not, ◌&&◌, Option, none, some, [], ◌∷◌, ◌++◌,
  arith, if◌then◌else◌, Bool-cases, is_some, In, is_some, ◌==◌, nat_eq, string_eq, str_iff,
  option_eq, ==_refl, pair_eq,
}
use radical_orbit.Prelude.Int.{int_eq}
use radical_orbit.Prelude.Dict.{Dict, lookup, insert, lookup-insert}
use radical_orbit.Dispatcher.{Liveness}
use radical_orbit.Events.Counters.{Distinct}
use radical_orbit.Broker.{
  Broker, PluginInfo, ParticipantInfo, topology_snapshot, is_live, absent_from, add_lost, show_host,
  participants_for_topology, deliver_topology_to_host,
}

abbrev pub as_lost : ParticipantInfo → ParticipantInfo
as_lost info = record info { liveness = Liveness.lost }

-- The last word on a participant of the previous delivery that is not in this one: a participant
-- that was present or suspect is lost, and one that was lost is no longer mentioned.
abbrev word : Liveness → ParticipantInfo → Option ParticipantInfo
word Liveness.present info = some (as_lost info)
word Liveness.suspect info = some (as_lost info)
word Liveness.lost info = none

abbrev pub last_word : Option ParticipantInfo → Option ParticipantInfo
last_word none = none
last_word (some info) = word info.liveness info

-- What a delivery says of a name: its entry, or that it was lost since the one before.
abbrev pub expected : Option ParticipantInfo → Option ParticipantInfo → Option ParticipantInfo
expected (some info) prev = some info
expected none prev = last_word prev

abbrev last_live : Option ParticipantInfo → Option ParticipantInfo
last_live none = none
last_live (some info) = if is_live info.liveness then some (as_lost info) else none

same_word : (o : Option ParticipantInfo) → last_live o ≡ last_word o
same_word none = refl
same_word (some info) = by_state info.liveness
  where
    by_state : (l : Liveness) → (if is_live l then some (as_lost info) else none) ≡ word l info
    by_state Liveness.present = refl
    by_state Liveness.suspect = refl
    by_state Liveness.lost = refl

abbrev or_given : Option ParticipantInfo → Option ParticipantInfo → Option ParticipantInfo
or_given (some x) given = some x
or_given none given = given

lookup-add_lost :
    (n : String) (curr prev out : Dict String ParticipantInfo)
    → Distinct prev
    → lookup n (add_lost curr prev out)
      ≡ or_given (if absent_from curr n then last_live (lookup n prev) else none) (lookup n out)
unfolding add_lost lookup
lookup-add_lost n curr [] out h = ground arith
lookup-add_lost n curr ((name, info) ∷ prev) out (fresh, h) =
    elim (Bool-cases (absent_from curr name && is_live info.liveness)) [
      | inl e ↦ rw e (
          lookup-add_lost n curr prev (insert name (as_lost info) out) h
          ∙ ground (arith, str_iff name n, lookup-insert name n (as_lost info) out))
      | inr e ↦ rw e (lookup-add_lost n curr prev out h ∙ ground (arith, str_iff name n))
    ]

absent_lookup :
    (n : String) (curr : Dict String ParticipantInfo) (o : Option ParticipantInfo)
    → lookup n curr ≡ o
    → absent_from curr n ≡ not (is_some o)
unfolding absent_from
absent_lookup n curr o h = rw h refl

lookup-delivery :
    (n : String) (curr prev : Dict String ParticipantInfo)
    → Distinct prev
    → lookup n (add_lost curr prev curr) ≡ expected (lookup n curr) (lookup n prev)
lookup-delivery n curr prev h =
    lookup-add_lost n curr prev curr h
    ∙ by_current (lookup n curr) (absent_lookup n curr (lookup n curr) refl)
  where
    by_current :
        (o : Option ParticipantInfo)
        → absent_from curr n ≡ not (is_some o)
        → or_given (if absent_from curr n then last_live (lookup n prev) else none) o
          ≡ expected o (lookup n prev)
    by_current none e = rw e (given_nothing (last_live (lookup n prev)) ∙ same_word (lookup n prev))
      where
        given_nothing : (o : Option ParticipantInfo) → or_given o none ≡ o
        given_nothing none = refl
        given_nothing (some i) = refl
    by_current (some i) e = rw e refl

-- The keys of a dict are found in it.
some_lookup :
    (n : String) (info : ParticipantInfo) (d : Dict String ParticipantInfo)
    → In (n, info) d
    → is_some (lookup n d) ≡ true
unfolding lookup
some_lookup n info [] i = absurd i
some_lookup n info ((m, x) ∷ d) (inl same) = rw (ap (λ p. p.0) (sym same), ==_refl n) refl
some_lookup n info ((m, x) ∷ d) (inr i) = elim (Bool-cases (m == n)) [
  | inl e ↦ rw e refl
  | inr e ↦ rw e (some_lookup n info d i)
]

add_lost-known :
    (curr prev out : Dict String ParticipantInfo)
    → ((n : String) (info : ParticipantInfo) → In (n, info) prev → is_some (lookup n curr) ≡ true)
    → add_lost curr prev out ≡ out
unfolding add_lost absent_from
add_lost-known curr [] out known = refl
add_lost-known curr ((n, info) ∷ prev) out known =
    rw (known n info (inl refl)) (add_lost-known curr prev out (λ m x i. known m x (inr i)))

add_lost-again : (curr : Dict String ParticipantInfo) → add_lost curr curr curr ≡ curr
add_lost-again curr = add_lost-known curr curr curr (λ n info i. some_lookup n info curr i)

-- The broker after a delivery.
abbrev after_delivery : Broker → Broker
after_delivery b =
    let curr = topology_snapshot b in
    record b {
      delivered = b.delivered ++ add_lost curr b.host_topology_prev curr ∷ [];
      host_topology_prev = curr;
    }

deliver-after :
    (plugins : Dict String PluginInfo) (b : Broker)
    → b.host ≡ some plugins
    → deliver_topology_to_host b ≡ after_delivery b
unfolding deliver_topology_to_host show_host
deliver-after plugins b h = ap (λ o. show_host o b) h

snapshot-after : (b : Broker) → topology_snapshot (after_delivery b) ≡ topology_snapshot b
unfolding topology_snapshot participants_for_topology
snapshot-after b = refl

-- With a plugin host, where no name stands twice in the previous delivery, a delivery shows of
-- each name its entry, or, if it has none now and was present or suspect in the previous
-- delivery, that entry as lost; delivered again at once, exactly the topology is shown, so that a
-- loss is shown once.
pub deliver_topology_to_host_lem :
    (plugins : Dict String PluginInfo) (b : Broker) (n : String)
    → b.host ≡ some plugins
    → Distinct b.host_topology_prev
    → let c = deliver_topology_to_host b in
      let curr = topology_snapshot b in
      let shown = add_lost curr b.host_topology_prev curr in
      (c.delivered ≡ b.delivered ++ shown ∷ [])
      × (lookup n shown ≡ expected (lookup n curr) (lookup n b.host_topology_prev))
      × ((deliver_topology_to_host c).delivered ≡ c.delivered ++ topology_snapshot c ∷ [])
deliver_topology_to_host_lem plugins b n h d =
    rw (deliver-after plugins b h)
      (refl, lookup-delivery n (topology_snapshot b) b.host_topology_prev d, again)
  where
    again :
        (deliver_topology_to_host (after_delivery b)).delivered
        ≡ (after_delivery b).delivered ++ topology_snapshot (after_delivery b) ∷ []
    again =
        ap (λ c. c.delivered) (deliver-after plugins (after_delivery b) h)
        ∙ rw (snapshot-after b) (
            ap (λ d. (after_delivery b).delivered ++ d ∷ []) (add_lost-again (topology_snapshot b)))
