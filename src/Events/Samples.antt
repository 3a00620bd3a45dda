-- ===== src/Events/Samples.antt =====
-- broker_events.py: runs on a small router.
use radical_orbit.Prelude.{
  ℕ, String, ◌≡◌, refl, true, none, some, List, [], ◌∷◌, map, nat_eq, string_eq, option_eq, pair_eq,
}
use radical_orbit.Prelude.Int.{int_eq}
use radical_orbit.Prelude.Dict.{lookup, insert, remove}
use radical_orbit.Subscriptions.{
  SubscribePattern, matches, index_patterns, empty_index, indexed_match,
}
use radical_orbit.Events.{
  RawEvent, Event, Call, connects, subscribes, arrives, ingest, handle_all, fresh_router, stamped,
}
use radical_orbit.Subscriptions.Index.{reindex-matches}
use radical_orbit.Events.Sequence.{IsIncreasing, seq-IsIncreasing}
use radical_orbit.Events.Delivery.{fed, interested, lookup-ingest_reached}

abbrev watch_session : SubscribePattern
watch_session = record {
  endpoint = some "hpc";
  plugin = some "psij";
  topic = none;
  session = some "s1";
}

abbrev watch_all : SubscribePattern
watch_all = record { endpoint = none; plugin = none; topic = none; session = none }

abbrev job_event : String → RawEvent ℕ
job_event session = record {
  plugin = some "psij";
  topic = some "job_status";
  session = some session;
  body = 7;
}

-- Two streams with room for one counter, so that each new stream prunes the other.
abbrev alternating : List (Call ℕ)
alternating =
    connects "ui"
    ∷ subscribes "ui" (some watch_session ∷ none ∷ []) true
    ∷ arrives "hpc" (job_event "s1") 10
    ∷ arrives "hpc" (job_event "s2") 11
    ∷ arrives "hpc" (job_event "s1") 12
    ∷ arrives "hpc" (job_event "") 13
    ∷ []

alternating_numbers :
    map (λ p. p.1) (handle_all (λ e. e) alternating (fresh_router {Frame = Event ℕ} 4 1)).0
    ≡ 0 ∷ 1 ∷ 2 ∷ 0 ∷ []
unfolding handle_all lookup insert remove
alternating_numbers = refl

reindex-matches_example :
    indexed_match
      (index_patterns (watch_session ∷ watch_all ∷ []) empty_index)
      "hpc"
      (some "psij")
      (some "job_status")
      (some "s1")
    ≡ matches (watch_session ∷ watch_all ∷ []) "hpc" (some "psij") (some "job_status") (some "s1")
reindex-matches_example =
    reindex-matches "hpc" (some "psij") (some "job_status") (some "s1")
      (watch_session ∷ watch_all ∷ [])

seq-IsIncreasing_example :
    IsIncreasing (handle_all (λ e. e) alternating (fresh_router {Frame = Event ℕ} 4 1)).0
seq-IsIncreasing_example = seq-IsIncreasing (λ e. e) 4 1 alternating

lookup-ingest_reached_example :
    let r = (handle_all (λ e. e) alternating (fresh_router {Frame = Event ℕ} 4 1)).1 in
    lookup "ui" (ingest (λ e. e) "hpc" (job_event "s1") 14 r).1.out
    ≡ fed
        (interested
          (lookup "ui" r.subscriptions)
          "hpc"
          (some "psij")
          (some "job_status")
          (some "s1"))
        (stamped "hpc" (job_event "s1") (ingest (λ e. e) "hpc" (job_event "s1") 14 r).0 14)
        (lookup "ui" r.out)
lookup-ingest_reached_example =
    lookup-ingest_reached (λ e. e) 4 1 alternating "hpc" (job_event "s1") 14 "ui"
