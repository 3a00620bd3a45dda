-- ===== src/Federation.antt =====
-- src/radical/orbit/federation_state.py: resources, their members, the words for their state, and
-- the ledger of routed tasks. Times are in milliseconds, node-hours in nodes times milliseconds; the
-- clock is an argument. `remaining` is negative for an allowance that is overdrawn.
pub mod Policy
pub mod Choice
pub mod Leaving
use radical_orbit.Prelude.{
  ℕ, ◌+◌, ◌-◌, ◌*◌, ◌/◌, max, min, String, ap, Bool, true, false, not, ◌&&◌, ◌||◌, Option, none,
  some, List, [], ◌∷◌, ◌++◌, map, ltb, leb, nat_beq, if◌then◌else◌, or_default, keep, any_of, In,
  ◌==◌, nat_eq, string_eq, option_eq, pair_eq,
}
use radical_orbit.Prelude.Count.{bit, count}
use radical_orbit.Prelude.Dict.{Dict, insert, remove, values}
use radical_orbit.Prelude.Int.{ℤ, pos, int_eq}
use radical_orbit.Values.{AttrValue}
use radical_orbit.Match.{Attributes, Shape}
use radical_orbit.Config.{PilotMode, submit, endpoint}

pub record ResourceUsage : Type 0 where
  pub remaining : ℤ
  pub pilots_active : ℕ
  pub tasks_running : ℕ
  pub stale : Bool
  pub pilot_error : Option String
  pub pilot_failures : ℕ
  pub paused_until : Option ℕ

-- `Liveness` is what the topology says of an endpoint.
pub data Liveness : Type 0 where
  ok suspect lost : Liveness

-- The words that are shown: a liveness, or one of three more.
pub data StateWord : Type 0 where
  ok suspect lost failing stale idle : StateWord

pub record MemberRecord : Type 0 where
  pub member : String
  pub member_id : String
  pub pilot : PilotMode
  pub end_time : Option ℕ
  pub nodes : ℕ
  pub cpus_per_node : ℕ
  pub gpus_per_node : ℕ
  pub min_pilots : ℕ
  pub max_pilots : ℕ
  pub rhapsody_backend : String
  pub software : List String
  pub attributes : Attributes
  pub budget : Option ℕ
  pub usage : ResourceUsage
  pub liveness : Liveness

-- `MemberRecord.__post_init__`
unfoldable pub init_record : MemberRecord → MemberRecord
init_record m = elim m.pilot [ submit ↦ m | endpoint ↦ record m { min_pilots = 1; max_pilots = 1 } ]

-- `x or d` of a number
abbrev pub or_number : ℕ → ℕ → ℕ
or_number n d = if nat_beq n 0 then d else n

-- What the matcher reads of `pilot_size()`.
unfoldable pub pilot_size : MemberRecord → Shape
pilot_size m = record {
  cpus_per_node = or_number m.cpus_per_node 1;
  gpus_per_node = m.gpus_per_node;
  rhapsody_backend = m.rhapsody_backend;
}

unfoldable pub match_attributes : MemberRecord → Attributes
match_attributes m = insert "software" (AttrValue.items m.software) m.attributes

unfoldable pub budget_node_hours : MemberRecord → ℕ
budget_node_hours m = or_default m.budget 0

-- An end at 0 is no end.
unfoldable pub allocation_ended : ℕ → MemberRecord → Bool
allocation_ended now m = elim m.end_time [ none ↦ false | some t ↦ not (nat_beq t 0) && leb t now ]

abbrev pub word_of : Liveness → StateWord
word_of Liveness.ok = StateWord.ok
word_of Liveness.suspect = StateWord.suspect
word_of Liveness.lost = StateWord.lost

abbrev pub is_ok : Liveness → Bool
is_ok Liveness.ok = true
is_ok Liveness.suspect = false
is_ok Liveness.lost = false

unfoldable pub is_paused : ℕ → ResourceUsage → Bool
is_paused now u = ltb now (or_default u.paused_until 0)

abbrev pub failing_pilot_failures : ℕ
failing_pilot_failures = 3

abbrev has_error : Option String → Bool
has_error none = false
has_error (some e) = not (e == "")

-- The word of a member that can be reached.
unfoldable pub usage_word : ℕ → ResourceUsage → StateWord
unfolding is_paused
usage_word now u =
    if ltb 0 u.pilots_active
    then StateWord.ok
    else if is_paused now u
    then StateWord.failing
    else if leb failing_pilot_failures u.pilot_failures
    then StateWord.failing
    else if u.stale
    then StateWord.stale
    else if has_error u.pilot_error
    then StateWord.ok
    else StateWord.idle

-- `MemberRecord.state`
unfoldable pub member_state : ℕ → MemberRecord → StateWord
unfolding allocation_ended usage_word
member_state now m =
    if allocation_ended now m
    then StateWord.lost
    else if is_ok m.liveness
    then usage_word now m.usage
    else word_of m.liveness

abbrev pub state_rank : StateWord → ℕ
state_rank StateWord.lost = 5
state_rank StateWord.failing = 4
state_rank StateWord.suspect = 3
state_rank StateWord.stale = 2
state_rank StateWord.ok = 1
state_rank StateWord.idle = 0

pub record ResourceRecord : Type 0 where
  pub name : String
  pub liveness : Liveness
  pub members : Dict String MemberRecord
  pub cores : Option ℕ
  pub gpus : Option ℕ
  pub software : Option (List String)
  pub budget : Option ℕ

-- max(words, key=rank): the first one of the highest rank.
unfoldable pub worst : StateWord → List StateWord → StateWord
worst w [] = w
worst w (v ∷ vs) = worst (if ltb (state_rank w) (state_rank v) then v else w) vs

unfoldable pub member_words : ℕ → List MemberRecord → List StateWord
unfolding member_state
member_words now ms = map (member_state now) ms

abbrev fold_words : StateWord → List StateWord → StateWord
fold_words alone [] = alone
fold_words alone (w ∷ ws) = worst w ws

-- `ResourceRecord.state`
unfoldable pub resource_state : ℕ → ResourceRecord → StateWord
unfolding member_words worst
resource_state now r =
    if is_ok r.liveness
    then fold_words (word_of r.liveness) (member_words now (values r.members))
    else word_of r.liveness

sum_of : (MemberRecord → ℕ) → List MemberRecord → ℕ
sum_of f [] = 0
sum_of f (m ∷ ms) = f m + sum_of f ms

-- The union of the tags, in the order of their first mention.
unfoldable pub add_tags : List String → List String → List String
add_tags [] have = have
add_tags (t ∷ ts) have = add_tags ts (if any_of (λ s. s == t) have then have else have ++ t ∷ [])

unfoldable pub union_tags : List MemberRecord → List String → List String
unfolding add_tags
union_tags [] have = have
union_tags (m ∷ ms) have = union_tags ms (add_tags m.software have)

aggregate_of : List MemberRecord → ResourceRecord → ResourceRecord
unfolding sum_of union_tags budget_node_hours
aggregate_of [] r = r
aggregate_of (m ∷ ms) r =
    let total = sum_of budget_node_hours (m ∷ ms) in
    record r {
      cores = some (sum_of (λ x. x.nodes * x.cpus_per_node) (m ∷ ms));
      gpus = some (sum_of (λ x. x.nodes * x.gpus_per_node) (m ∷ ms));
      software = some (union_tags (m ∷ ms) []);
      budget = if ltb 0 total then some total else r.budget;
    }

-- `ResourceRecord.aggregate`
unfoldable pub aggregate : ResourceRecord → ResourceRecord
unfolding aggregate_of
aggregate r = aggregate_of (values r.members) r

pub record SubmitLedgerEntry : Type 0 where
  pub task_id : String
  pub resource : Option String
  pub member_id : Option String
  pub pool : String
  pub state : String

pub record FederationState : Type 0 where
  pub resources : Dict String ResourceRecord
  pub ledger : Dict String SubmitLedgerEntry

abbrev pub is_over : SubmitLedgerEntry → Bool
is_over e = e.state == "DONE" || e.state == "FAILED" || e.state == "CANCELED"

-- `_counts`: running, done and failed.
unfoldable pub counts : List SubmitLedgerEntry → ℕ × (ℕ × ℕ)
counts [] = (0, (0, 0))
counts (e ∷ es) =
    let (running, (done, failed)) = counts es in
    if e.state == "DONE"
    then (running, (done + 1, failed))
    else if e.state == "FAILED" || e.state == "CANCELED"
    then (running, (done, failed + 1))
    else (running + 1, (done, failed))

unfoldable pub ledger_for : String → FederationState → List SubmitLedgerEntry
ledger_for name s = keep (λ e. e.resource == some name) (values s.ledger)

unfoldable pub ledger_for_member : String → FederationState → List SubmitLedgerEntry
ledger_for_member mid s = keep (λ e. e.member_id == some mid) (values s.ledger)

unfoldable pub task_counts : String → FederationState → ℕ × (ℕ × ℕ)
unfolding counts ledger_for
task_counts name s = counts (ledger_for name s)

unfoldable pub member_task_counts : String → FederationState → ℕ × (ℕ × ℕ)
unfolding counts ledger_for_member
member_task_counts mid s = counts (ledger_for_member mid s)

-- The loop of `drop_resource` over a snapshot of the ledger; an entry is an object, so that a change
-- of it shows in the ledger.
unfoldable pub leave_entries :
    String
    → Bool
    → Dict String SubmitLedgerEntry
    → Dict String SubmitLedgerEntry
    → Dict String SubmitLedgerEntry
leave_entries name keep_active [] ledger = ledger
leave_entries name keep_active ((tid, e) ∷ rest) ledger = leave_entries name keep_active rest (
    if not (e.resource == some name)
    then ledger
    else if not keep_active || is_over e
    then remove tid ledger
    else insert tid (record e { resource = none; member_id = none }) ledger)

unfoldable pub drop_resource : String → Bool → FederationState → FederationState
unfolding leave_entries
drop_resource name keep_active s = record s {
  resources = remove name s.resources;
  ledger = leave_entries name keep_active s.ledger s.ledger;
}
