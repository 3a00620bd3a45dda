-- ===== src/Conservative/Tick.antt =====
-- task_dispatcher_strategy_conservative.py, `on_tick`: which member a new pilot is requested for.
-- The request itself is made by the dispatcher (Dispatcher.Submit), which calls `note_submit`
-- when it succeeded.
pub mod Choice
pub mod Backlog
use radical_orbit.Prelude.{
  ℕ, suc, ◌-◌, ◌*◌, max, min, String, ap, Bool, true, false, not, ◌&&◌, ◌||◌, Option, none, some,
  List, [], ◌∷◌, ltb, leb, nat_beq, if◌then◌else◌, length, head_of, keep, In, nat_eq, string_eq,
  option_eq, pair_eq,
}
use radical_orbit.Prelude.Count.{bit, count}
use radical_orbit.Prelude.Dict.{Dict, insert}
use radical_orbit.Prelude.Int.{int_eq}
use radical_orbit.Prelude.Sorting.{sort_by}
use radical_orbit.Match.{Verdict, fits, rejects, raises}
use radical_orbit.Config.{PoolMember, reject_reason}
use radical_orbit.State.{PilotRecord, TaskRecord}
use radical_orbit.Pool.{PoolState, pending_queue, live_pilots, live_pilots_for, members}
use radical_orbit.Conservative.{
  ConservativePolicy, MemberPreference, by_budget, by_load, Outcome, returns, raised, keep_fitting,
  service, usable_capacity, pre_active_count, pass_guards, budget_fraction, str_lt,
}

abbrev pub load_of : PoolState → PoolMember → ℕ
load_of ps m = length (live_pilots_for ps m.member_id)

-- 1. The members below their floor, in declaration order.
unfoldable pub below_floor : PoolState → List PoolMember
below_floor ps = keep (λ m. ltb (load_of ps m) m.min_pilots) (members ps)

-- 2. The task that a new pilot is wanted for, if the fleet cannot absorb the backlog.
unfoldable pub backlog_head : List TaskRecord → List TaskRecord → ℕ → Option TaskRecord
backlog_head (u ∷ us) pending free = some u
backlog_head [] [] free = none
backlog_head [] (t ∷ ts) free = if leb (length (t ∷ ts)) free then none else some t

unfoldable pub candidates_for : PoolState → Option TaskRecord → Outcome (List PoolMember)
candidates_for ps none = returns []
candidates_for ps (some t) = keep_fitting (λ m. reject_reason m t.requirements) (members ps)

pub growers :
    ConservativePolicy
    → PoolState
    → ℕ
    → Outcome (List TaskRecord × List String)
    → Outcome (List PoolMember)
unfolding candidates_for backlog_head
growers c ps now raised = raised
growers c ps now (returns (unserved, servers)) =
    candidates_for ps
      (backlog_head unserved (pending_queue ps) (usable_capacity c servers (live_pilots ps) now))

unfoldable pub backlog_candidates : ConservativePolicy → PoolState → ℕ → Outcome (List PoolMember)
unfolding growers
backlog_candidates c ps now = growers c ps now (service (pending_queue ps) (live_pilots ps))

-- The pool-wide ceiling on submissions in flight.
unfoldable pub under_ceiling : ConservativePolicy → PoolState → Bool
under_ceiling c ps =
    ltb (pre_active_count (live_pilots ps)) (max c.max_in_flight_subs (length (members ps)))

-- 3. The key that ranks the members of the backlog step.
abbrev pub richer : ℕ × ℕ → ℕ × ℕ → Bool
richer a b = ltb (b.0 * a.1) (a.0 * b.1)

abbrev pub same_fraction : ℕ × ℕ → ℕ × ℕ → Bool
same_fraction a b = nat_beq (a.0 * b.1) (b.0 * a.1)

unfoldable pub ranks_before : MemberPreference → PoolState → ℕ → PoolMember → PoolMember → Bool
ranks_before by_load ps now m n =
    ltb (load_of ps m) (load_of ps n)
    || (nat_beq (load_of ps m) (load_of ps n)
        && (richer (budget_fraction ps m now) (budget_fraction ps n now)
            || (same_fraction (budget_fraction ps m now) (budget_fraction ps n now)
                && str_lt m.member_id n.member_id)))
ranks_before by_budget ps now m n =
    richer (budget_fraction ps m now) (budget_fraction ps n now)
    || (same_fraction (budget_fraction ps m now) (budget_fraction ps n now)
        && (ltb (load_of ps m) (load_of ps n)
            || (nat_beq (load_of ps m) (load_of ps n) && str_lt m.member_id n.member_id)))

unfoldable pub choose_member : Bool → Option PoolMember → Option PoolMember
choose_member true chosen = chosen
choose_member false chosen = none

backlog_step :
    Outcome (List PoolMember)
    → ConservativePolicy
    → PoolState
    → ℕ
    → Outcome (Option PoolMember) × ConservativePolicy
unfolding choose_member
backlog_step raised c ps now = (raised, c)
backlog_step (returns cands) c ps now =
    let (eligible, c') = pass_guards c ps cands now in
    (
      returns (
          choose_member (under_ceiling c ps)
            (head_of (sort_by (ranks_before c.member_preference ps now) eligible))),
      c',
    )

tick_step :
    List PoolMember × ConservativePolicy
    → PoolState
    → ℕ
    → Outcome (Option PoolMember) × ConservativePolicy
unfolding backlog_step choose_member
tick_step ([], c) ps now = backlog_step (backlog_candidates c ps now) c ps now
tick_step ((m ∷ ms), c) ps now = (returns (choose_member (under_ceiling c ps) (some m)), c)

tick_members :
    List PoolMember
    → ConservativePolicy
    → PoolState
    → ℕ
    → Outcome (Option PoolMember) × ConservativePolicy
unfolding tick_step
tick_members [] c ps now = (returns none, c)
tick_members (m ∷ ms) c ps now = tick_step (pass_guards c ps (below_floor ps) now) ps now

-- The member that the tick requests a pilot for, and the policy with the backoffs it logged.
unfoldable pub on_tick :
    ConservativePolicy → PoolState → ℕ → Outcome (Option PoolMember) × ConservativePolicy
unfolding tick_members
on_tick c ps now = tick_members (members ps) c ps now

-- 4. After a successful submission.
unfoldable pub note_submit : String → ℕ → ConservativePolicy → ConservativePolicy
note_submit mid now c = record c { last_submit_ts = insert mid now c.last_submit_ts }
