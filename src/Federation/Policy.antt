-- ===== src/Federation/Policy.antt =====
-- src/radical/orbit/federation_policy.py, BudgetLoadPolicy. A score is an exact fraction where the
-- code has a float, and fractions are compared by cross multiplication.
use Prim.Native.Nat.{Ordering}
use Prim.Native.String.{compare as compare_text}
use radical_orbit.Prelude.{
  ℕ, zero, suc, ◌+◌, ◌*◌, min, String, Bool, true, false, not, ◌&&◌, ◌||◌, Option, none, some, List,
  [], ◌∷◌, ltb, nat_beq, if◌then◌else◌, nat_eq, string_eq, option_eq, pair_eq,
}
use radical_orbit.Prelude.Dict.{Dict, insert}
use radical_orbit.Prelude.Int.{ℤ, pos, pos_part, ltb_ℤ, int_eq}
use radical_orbit.Prelude.Sorting.{sort_by}
use radical_orbit.Admission.{and_then}
use radical_orbit.Match.{Requirements, Reason, Verdict, satisfies}
use radical_orbit.Federation.{
  Liveness, MemberRecord, pilot_size, match_attributes, budget_node_hours, allocation_ended, is_ok,
  or_number,
}

-- A task's requirements; `node_hours` is 0 where none are asked for, or they are no number above 0.
pub record Wanted : Type 0 where
  pub requirements : Requirements
  pub node_hours : ℕ

pub data Why : Type 0 where
  ended : Why
  unreachable : Liveness → Why
  unmet : Reason → Why
  overdrawn : ℤ → ℕ → Why

-- `raises` is the TypeError of the matcher.
pub data Judged : Type 0 where
  accepted : Judged
  refused : Why → Judged
  raises : Judged

unfoldable pub judge_budget : ℕ → ℤ → Judged
judge_budget want left =
    if ltb 0 want && ltb_ℤ left (pos want)
    then Judged.refused (Why.overdrawn left want)
    else Judged.accepted

judge_match : Verdict → Judged → Judged
judge_match Verdict.fits after = after
judge_match (Verdict.rejects r) after = Judged.refused (Why.unmet r)
judge_match Verdict.raises after = Judged.raises

-- `reject_reason`
unfoldable pub judge : Wanted → ℕ → MemberRecord → Judged
unfolding allocation_ended match_attributes pilot_size judge_budget judge_match
judge want now m =
    if allocation_ended now m
    then Judged.refused Why.ended
    else if not (is_ok m.liveness)
    then Judged.refused (Why.unreachable m.liveness)
    else judge_match (satisfies want.requirements (match_attributes m) (some (pilot_size m)))
        (judge_budget want.node_hours m.usage.remaining)

-- (gain - cost) / den
pub record Score : Type 0 where
  pub gain : ℕ
  pub cost : ℕ
  pub den : ℕ

score_from : ℕ → ℤ → ℕ → ℕ → Score
score_from zero left running slots = record { gain = slots; cost = running; den = slots }
score_from (suc b) left running slots = record {
  gain = min (pos_part left) (suc b) * slots;
  cost = running * suc b;
  den = suc b * slots;
}

-- The fraction of the budget that is left, between 0 and 1, less the load.
unfoldable pub score : MemberRecord → Score
unfolding score_from budget_node_hours
score m =
    score_from (budget_node_hours m) m.usage.remaining m.usage.tasks_running
      (or_number m.nodes 1 * or_number m.cpus_per_node 1)

unfoldable pub above : Score → Score → Bool
above a b = ltb (b.gain * a.den + a.cost * b.den) (a.gain * b.den + b.cost * a.den)

abbrev pub text_before : String → String → Bool
text_before s t = elim (compare_text s t) [ Ordering.lt ↦ true | _ ↦ false ]

-- The key of a ranking: the score, highest first, then the id.
unfoldable pub ranks_before : MemberRecord → MemberRecord → Bool
unfolding above score
ranks_before x y =
    above (score x) (score y)
    || not (above (score y) (score x)) && text_before x.member_id y.member_id

unfoldable pub keep_accepted :
    Judged → MemberRecord → Option (List MemberRecord) → Option (List MemberRecord)
keep_accepted Judged.raises m rest = none
keep_accepted (Judged.refused w) m rest = rest
keep_accepted Judged.accepted m none = none
keep_accepted Judged.accepted m (some ms) = some (m ∷ ms)

-- The members that fit, in their order; none where the matcher raises.
unfoldable pub fitting : Wanted → ℕ → List MemberRecord → Option (List MemberRecord)
unfolding judge keep_accepted
fitting want now [] = some []
fitting want now (m ∷ ms) = keep_accepted (judge want now m) m (fitting want now ms)

unfoldable pub ranked : Option (List MemberRecord) → Option (List MemberRecord)
unfolding ranks_before sort_by
ranked none = none
ranked (some fs) = some (sort_by ranks_before fs)

unfoldable pub eligible : Wanted → ℕ → List MemberRecord → Option (List MemberRecord)
unfolding fitting ranked
eligible want now ms = ranked (fitting want now ms)

add_reason : Judged → String → Option (Dict String Why) → Option (Dict String Why)
add_reason Judged.raises mid rest = none
add_reason Judged.accepted mid rest = rest
add_reason (Judged.refused w) mid none = none
add_reason (Judged.refused w) mid (some d) = some (insert mid w d)

-- The reasons so far, and those of the members to come.
unfoldable pub explain_from :
    Wanted → ℕ → List MemberRecord → Option (Dict String Why) → Option (Dict String Why)
unfolding judge add_reason
explain_from want now [] out = out
explain_from want now (m ∷ ms) out =
    explain_from want now ms (add_reason (judge want now m) m.member_id out)

unfoldable pub explain : Wanted → ℕ → List MemberRecord → Option (Dict String Why)
unfolding explain_from
explain want now ms = explain_from want now ms (some [])

-- What a member costs: its GPUs per node first, then its cores.
abbrev pub costs_less : MemberRecord → MemberRecord → Bool
costs_less x y =
    ltb x.gpus_per_node y.gpus_per_node
    || nat_beq x.gpus_per_node y.gpus_per_node && ltb x.cpus_per_node y.cpus_per_node

-- min(..) over the costs: the first one of the lowest.
unfoldable pub cheapest : MemberRecord → List MemberRecord → MemberRecord
cheapest m [] = m
cheapest m (x ∷ xs) = cheapest (if costs_less x m then x else m) xs

-- The class so far: its cheapest member, its name and the first of its ranking.
pub record Pick : Type 0 where
  pub cheapest : MemberRecord
  pub cls : String
  pub best : MemberRecord

-- The key (cost, name) is lower.
abbrev pub beats : Pick → Pick → Bool
beats p q =
    costs_less p.cheapest q.cheapest
    || not (costs_less q.cheapest p.cheapest) && text_before p.cls q.cls

unfoldable pub better : Pick → Option Pick → Pick
better p none = p
better p (some q) = if beats p q then p else q

-- One class; the outer `none` is the error of the matcher.
unfoldable pub consider : String → Option (List MemberRecord) → Option Pick → Option (Option Pick)
unfolding cheapest better
consider cls none best = none
consider cls (some []) best = some best
consider cls (some (m ∷ ms)) best =
    some (some (better (record { cheapest = cheapest m ms; cls = cls; best = m }) best))

unfoldable pub pick_from :
    Wanted → ℕ → Dict String (List MemberRecord) → Option Pick → Option (Option Pick)
unfolding eligible consider
pick_from want now [] best = some best
pick_from want now ((cls, ms) ∷ rest) best =
    and_then (consider cls (eligible want now ms) best) (pick_from want now rest)

abbrev pub class_before : String × List MemberRecord → String × List MemberRecord → Bool
class_before p q = text_before p.0 q.0

unfoldable pub pick_class : Wanted → ℕ → Dict String (List MemberRecord) → Option (Option Pick)
unfolding pick_from sort_by
pick_class want now classes = pick_from want now (sort_by class_before classes) none
