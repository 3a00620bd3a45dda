-- ===== src/Samples/Federations.antt =====
-- A small federation, and the theorems on it.
use radical_orbit.Prelude.{
  ℕ, ◌-◌, max, min, String, ◌≡◌, refl, ap, ◌↔◌, true, false, not, none, some, List, [], ◌∷◌, All,
  In, nat_eq, string_eq, option_eq, pair_eq,
}
use radical_orbit.Prelude.Dict.{Dict, lookup, insert, keys}
use radical_orbit.Prelude.Int.{pos, int_eq}
use radical_orbit.Match.{no_requirements}
use radical_orbit.Config.{submit}
use radical_orbit.Events.Counters.{Distinct}
use radical_orbit.Federation.{
  MemberRecord, ResourceUsage, Liveness, StateWord, SubmitLedgerEntry, FederationState,
  member_state, drop_resource,
}
use radical_orbit.Federation.Policy.{Wanted, Pick, judge, pick_class}
use radical_orbit.Federation.Choice.{is_refused, Accepted, CostsAtMost}
use radical_orbit.Federation.Choice.Picks.{pick_class-none, pick_class-cheapest}
use radical_orbit.Federation.Leaving.{and_after, drop_resource_lem}

abbrev unused : ResourceUsage
unused = record {
  remaining = pos 100;
  pilots_active = 0;
  tasks_running = 1;
  stale = false;
  pilot_error = none;
  pilot_failures = 0;
  paused_until = none;
}

abbrev shape : String → ℕ → ℕ → MemberRecord
shape id cores gpus = record {
  member = "default";
  member_id = id;
  pilot = submit;
  end_time = none;
  nodes = 2;
  cpus_per_node = cores;
  gpus_per_node = gpus;
  min_pilots = 0;
  max_pilots = 1;
  rhapsody_backend = "concurrent";
  software = "python" ∷ [];
  attributes = [];
  budget = some 200;
  usage = unused;
  liveness = Liveness.ok;
}

abbrev classes : Dict String (List MemberRecord)
classes =
    ("gpu", shape "delta.gpu" 16 4 ∷ [])
    ∷ ("cpu", shape "delta.cpu" 64 0 ∷ shape "anvil.cpu" 32 0 ∷ [])
    ∷ []

abbrev modest : Wanted
modest = record { requirements = record no_requirements { cores = some 8 }; node_hours = 10 }

abbrev greedy : Wanted
greedy = record { requirements = record no_requirements { cores = some 128 }; node_hours = 0 }

abbrev chosen : Pick
chosen = record { cheapest = shape "anvil.cpu" 32 0; cls = "cpu"; best = shape "delta.cpu" 64 0 }

chosen_class : pick_class modest 5 classes ≡ some (some chosen)
unfolding pick_class radical_orbit.Match.satisfies lookup radical_orbit.Prelude.Dict.insert
chosen_class = refl

pick_class-cheapest_example :
    ((ms : List MemberRecord) × In ("cpu", ms) classes
      × In chosen.cheapest ms
      × Accepted modest 5 chosen.cheapest
      × In chosen.best ms
      × Accepted modest 5 chosen.best)
    × All (λ c. All (λ m. Accepted modest 5 m → CostsAtMost chosen.cheapest m) c.1) classes
pick_class-cheapest_example = pick_class-cheapest modest 5 classes chosen chosen_class

pick_class-none_example :
    (pick_class greedy 5 classes ≡ some none)
    ↔ All (λ c. All (λ m. is_refused (judge greedy 5 m) ≡ true) c.1) classes
pick_class-none_example = pick_class-none greedy 5 classes

nothing_fits : pick_class greedy 5 classes ≡ some none
unfolding pick_class radical_orbit.Match.satisfies
nothing_fits = refl

abbrev routed : String → String → SubmitLedgerEntry
routed tid state = record {
  task_id = tid;
  resource = some "delta";
  member_id = some "delta.cpu";
  pool = "fed-cpu";
  state = state;
}

abbrev federation : FederationState
federation = record {
  resources = [];
  ledger =
      ("t1", routed "t1" "DONE")
      ∷ ("t2", routed "t2" "RUNNING")
      ∷ ("t3", record (routed "t3" "QUEUED") { resource = some "anvil" })
      ∷ [];
}

federation_keys : Distinct federation.ledger
unfolding lookup
federation_keys = (refl, (refl, (refl, tt)))

drop_resource_lem_example :
    (lookup "delta" (drop_resource "delta" true federation).resources ≡ none)
    × (lookup "t2" (drop_resource "delta" true federation).ledger
        ≡ and_after "delta" true (lookup "t2" federation.ledger))
drop_resource_lem_example = drop_resource_lem "delta" true "t2" federation federation_keys

left_running :
    and_after "delta" true (lookup "t2" federation.ledger)
    ≡ some (record (routed "t2" "RUNNING") { resource = none; member_id = none })
unfolding lookup
left_running = refl

idle_word : member_state 5 (shape "delta.cpu" 64 0) ≡ StateWord.idle
unfolding member_state
idle_word = refl
