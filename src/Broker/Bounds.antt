-- ===== src/Broker/Bounds.antt =====
-- broker.py: the caps on calls in flight, and the results of calls, over whole runs.
use radical_orbit.Prelude.{
  ℕ, ◌+◌, ◌≤◌, String, ◌≡◌, refl, ap, ◌∙◌, Bool, Option, some, [], ◌∷◌, arith, nat_beq_iff, length,
  nat_eq, string_eq, option_eq, pair_eq,
}
use radical_orbit.Prelude.Int.{int_eq}
use radical_orbit.Prelude.Dict.{Dict, lookup, lookup-insert}
use radical_orbit.Prelude.Count.{count, count-insert, count-remove-le}
use radical_orbit.Broker.{Broker, BrokerTuning, Call, Outcome, PluginInfo, new_broker}
use radical_orbit.Broker.Calls.{is_ours, is_forwarded}
use radical_orbit.Broker.Steps.{Run}
use radical_orbit.Broker.Table.{Table, Move, Moves}
use radical_orbit.Broker.Table.Steps.{Run-Leads}

abbrev pub IsBounded : Table → Type 0
IsBounded t =
    (count is_forwarded t.calls ≤ t.tuning.forwarded_call_cap)
    × (count is_ours t.calls ≤ t.tuning.call_cap)

forwarded-le-length : (d : Dict (Option String) Call) → count is_forwarded d ≤ length d
unfolding count
forwarded-le-length [] = omega arith
forwarded-le-length ((k, c) ∷ d) = ground (arith, forwarded-le-length d)

-- The table holds nothing else.
count-length : (d : Dict (Option String) Call) → count is_forwarded d + count is_ours d ≡ length d
unfolding count
count-length [] = refl
count-length ((k, c) ∷ d) = ground (arith, count-length d)

Move-IsBounded : {t u : Table} → Move t u → IsBounded t → IsBounded u
Move-IsBounded {t} (Move.pops k) (f, o) =
    ground (arith, count-remove-le is_forwarded k t.calls, count-remove-le is_ours k t.calls)
Move-IsBounded (Move.settles f o e) h = h
Move-IsBounded {t} (Move.forwards k c e free) (f, o) = ground (
  arith,
  count-insert is_forwarded k c t.calls,
  count-insert is_ours k c t.calls,
  forwarded-le-length t.calls,
)
Move-IsBounded {t} (Move.calls_out k c e free) (f, o) =
    ground (arith, count-insert is_forwarded k c t.calls, count-insert is_ours k c t.calls)

Moves-IsBounded : {t u : Table} → Moves t u → IsBounded t → IsBounded u
Moves-IsBounded Moves.still h = h
Moves-IsBounded (Moves.then m s) h = Move-IsBounded s (Moves-IsBounded m h)

Moves-tuning : {t u : Table} → Moves t u → u.tuning ≡ t.tuning
Moves-tuning Moves.still = refl
Moves-tuning (Moves.then m s) = Move-tuning s ∙ Moves-tuning m
  where
    Move-tuning : {t u : Table} → Move t u → u.tuning ≡ t.tuning
    Move-tuning (Move.pops k) = refl
    Move-tuning (Move.settles f o e) = refl
    Move-tuning (Move.forwards k c e free) = refl
    Move-tuning (Move.calls_out k c e free) = refl

-- In every broker that comes about after its start, the forwarded calls in flight are at most
-- forwarded_call_cap, the broker's own at most call_cap, and the whole table at most the sum of
-- both.
pub run-IsBounded :
    (tuning : BrokerTuning) (auth : Bool) (token : Option String) (seq_max : ℕ)
    (host : Option (Dict String PluginInfo)) (b : Broker)
    → Run (new_broker tuning auth token seq_max host) b
    → (count is_forwarded b.calls ≤ tuning.forwarded_call_cap)
      × (count is_ours b.calls ≤ tuning.call_cap)
      × (length b.calls ≤ tuning.forwarded_call_cap + tuning.call_cap)
unfolding count
run-IsBounded tuning auth token seq_max host b run =
    let h = Moves-IsBounded (Run-Leads run) (omega arith, omega arith) in
    let same = Moves-tuning (Run-Leads run) in
    let whole = count-length b.calls in
    ground (arith, h, ap (λ t. t.forwarded_call_cap) same, ap (λ t. t.call_cap) same, whole)

Move-keeps_result :
    {t u : Table} (f : ℕ) (o : Outcome)
    → Move t u
    → lookup f t.results ≡ some o
    → lookup f u.results ≡ some o
Move-keeps_result f o (Move.pops k) h = h
Move-keeps_result {t} f o (Move.settles g p e) h =
    ground (arith, lookup-insert g f p t.results, nat_beq_iff g f)
Move-keeps_result f o (Move.forwards k c e free) h = h
Move-keeps_result f o (Move.calls_out k c e free) h = h

Moves-keep_result :
    {t u : Table} (f : ℕ) (o : Outcome)
    → Moves t u
    → lookup f t.results ≡ some o
    → lookup f u.results ≡ some o
Moves-keep_result f o Moves.still h = h
Moves-keep_result f o (Moves.then m s) h = Move-keeps_result f o s (Moves-keep_result f o m h)

pub run-keeps_result :
    (f : ℕ) (o : Outcome) (b c : Broker)
    → Run b c
    → lookup f b.results ≡ some o
    → lookup f c.results ≡ some o
run-keeps_result f o b c run h = Moves-keep_result f o (Run-Leads run) h
