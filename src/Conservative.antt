-- ===== src/Conservative.antt =====
-- src/radical/orbit/task_dispatcher_strategy_conservative.py: the default dispatch policy.
-- The clock is an argument. Python's floats are numbers here: a budget fraction is compared
-- exactly, by cross multiplication. The log lines are left out.
pub mod Guards
pub mod Backoff
pub mod Fitting
pub mod Tick
pub mod Dispatch
use Prim.Native.Nat.{Ordering}
use Prim.Native.String.{compare}
use radical_orbit.Prelude.{
  ℕ, zero, suc, ◌+◌, ◌-◌, ◌/◌, max, min, String, ap, Bool, true, false, not, ◌&&◌, ◌||◌, Option,
  none, some, List, [], ◌∷◌, ◌++◌, map, ltb, leb, nat_beq, if◌then◌else◌, or_default, length, take,
  keep, In, nat_eq, string_eq, option_eq, pair_eq,
}
use radical_orbit.Prelude.Count.{bit, count}
use radical_orbit.Prelude.Dict.{Dict, lookup, insert, remove}
use radical_orbit.Prelude.Int.{ℤ, pos, pos_part, ltb_ℤ, int_eq}
use radical_orbit.Values.{contains}
use radical_orbit.Match.{Verdict, fits, rejects, raises, satisfies}
use radical_orbit.Config.{PoolMember, reject_reason}
use radical_orbit.State.{
  PilotState, PilotRecord, TaskRecord, is_active, is_pre_active, is_failed, is_queued,
  free_capacity, pilot_shape,
}
use radical_orbit.Pool.{
  PoolState, pending_queue, live_pilots, live_pilots_for, members, member_budget_left, sooner,
}

pub data RouterPreference : Type 0 where
  least_loaded youngest : RouterPreference

pub data MemberPreference : Type 0 where
  by_budget by_load : MemberPreference

pub record ConservativePolicy : Type 0 where
  pub min_dwell : ℕ
  pub max_in_flight_subs : ℕ
  pub router_preference : RouterPreference
  pub max_consecutive_failures : ℕ
  pub failure_backoff : ℕ
  pub member_preference : MemberPreference
  pub max_requeues : ℕ
  pub min_remaining : ℕ
  pub last_submit_ts : Dict String ℕ
  pub consecutive_failures : Dict String ℕ
  pub backoff_until : Dict String ℕ
  pub backoff_logged : Dict String Bool

-- A call that may raise (a TypeError of the matcher).
pub data Outcome {ℓ} (A : Type ℓ) : Type ℓ where
  returns : A → Outcome A
  raised : Outcome A

abbrev pub count_for : Dict String ℕ → String → ℕ
count_for d mid = or_default (lookup mid d) 0

-- A submission failed when its pilot never reached ACTIVE and ran no task.
abbrev pub submission_failed : PilotRecord → PilotState → PilotState → Bool
submission_failed p old new = is_failed new && (is_pre_active old && nat_beq p.started_tasks 0)

reset_failures : String → ConservativePolicy → ConservativePolicy
reset_failures mid c = record c {
  consecutive_failures = insert mid 0 c.consecutive_failures;
  backoff_until = insert mid 0 c.backoff_until;
  backoff_logged = insert mid false c.backoff_logged;
}

count_failure : String → ℕ → ℕ → ConservativePolicy → ConservativePolicy
count_failure mid fails now c =
    let counted = record c { consecutive_failures = insert mid fails c.consecutive_failures } in
    if leb c.max_consecutive_failures fails
    then record counted {
      backoff_until = insert mid (now + c.failure_backoff) c.backoff_until;
      backoff_logged = insert mid false c.backoff_logged;
    }
    else counted

unfoldable pub on_pilot_state :
    PilotRecord → PilotState → PilotState → ℕ → ConservativePolicy → ConservativePolicy
unfolding reset_failures count_failure
on_pilot_state p old new now c =
    if is_active new
    then reset_failures p.member_id c
    else if submission_failed p old new
    then count_failure p.member_id (count_for c.consecutive_failures p.member_id + 1) now c
    else c

-- The failure counter and, inside the window, the deadline of the pause.
unfoldable pub member_health : String → ℕ → ConservativePolicy → ℕ × Option ℕ
member_health mid now c =
    let until = count_for c.backoff_until mid in
    (count_for c.consecutive_failures mid, if ltb now until then some until else none)

unfoldable pub on_member_removed : String → ConservativePolicy → ConservativePolicy
on_member_removed mid c = record c {
  last_submit_ts = remove mid c.last_submit_ts;
  consecutive_failures = remove mid c.consecutive_failures;
  backoff_until = remove mid c.backoff_until;
  backoff_logged = remove mid c.backoff_logged;
}

unfoldable pub in_backoff : String → ℕ → ConservativePolicy → Bool
in_backoff mid now c = ltb now (count_for c.backoff_until mid)

-- What `_in_backoff` leaves behind: inside the window, that it was logged.
unfoldable pub log_backoff : String → ℕ → ConservativePolicy → ConservativePolicy
unfolding in_backoff
log_backoff mid now c =
    if in_backoff mid now c
    then record c { backoff_logged = insert mid true c.backoff_logged }
    else c

unfoldable pub has_runway : ConservativePolicy → PilotRecord → ℕ → Bool
has_runway c p now =
    nat_beq p.walltime_deadline 0 || leb (now + c.min_remaining) p.walltime_deadline

-- A fraction between 0 and 1, as numerator and denominator.
fraction : Option ℕ → Option ℤ → ℕ × ℕ
fraction none left = (1, 1)
fraction (some zero) left = (1, 1)
fraction (some (suc total)) none = (1, 1)
fraction (some (suc total)) (some left) = (min (pos_part left) (suc total), suc total)

unfoldable pub budget_fraction : PoolState → PoolMember → ℕ → ℕ × ℕ
unfolding fraction
budget_fraction ps m now = fraction m.budget (member_budget_left ps m.member_id now)

-- The guards of `_pass_guards`, in order.
abbrev pub budget_allows : Option ℤ → Bool
budget_allows none = true
budget_allows (some left) = ltb_ℤ (pos 0) left

unfoldable pub pre_active_count : List PilotRecord → ℕ
pre_active_count ps = length (keep (λ p. is_pre_active p.state) ps)

unfoldable pub clears_guards : ConservativePolicy → PoolState → ℕ → PoolMember → Bool
unfolding in_backoff pre_active_count
clears_guards c ps now m =
    not (in_backoff m.member_id now c)
    && (ltb (length (live_pilots_for ps m.member_id)) m.max_pilots
        && (ltb (pre_active_count (live_pilots_for ps m.member_id)) c.max_in_flight_subs
            && (leb (count_for c.last_submit_ts m.member_id + c.min_dwell) now
                && budget_allows (member_budget_left ps m.member_id now))))

-- The eligible members, and the policy with the backoffs that were logged on the way.
unfoldable pub pass_guards :
    ConservativePolicy → PoolState → List PoolMember → ℕ → List PoolMember × ConservativePolicy
unfolding clears_guards log_backoff
pass_guards c ps [] now = ([], c)
pass_guards c ps (m ∷ ms) now =
    let (rest, c') = pass_guards (log_backoff m.member_id now c) ps ms now in
    (if clears_guards c ps now m then m ∷ rest else rest, c')

keep_verdict {ℓ} : {A : Type ℓ} → Verdict → A → Outcome (List A) → Outcome (List A)
keep_verdict raises x rest = raised
keep_verdict fits x (returns xs) = returns (x ∷ xs)
keep_verdict fits x raised = raised
keep_verdict (rejects r) x rest = rest

-- [x for x in xs if verdict(x) is None]
module _ {ℓ} {A : Type ℓ} (verdict : A → Verdict) where
  unfoldable pub keep_fitting : List A → Outcome (List A)
  unfolding keep_verdict
  keep_fitting [] = returns []
  keep_fitting (x ∷ xs) = let rest = keep_fitting xs in keep_verdict (verdict x) x rest

unfoldable pub can_serve : TaskRecord → PilotRecord → Verdict
can_serve t p = satisfies t.requirements p.attributes (some (pilot_shape p))

unfoldable pub str_lt : String → String → Bool
str_lt a b = elim (compare a b) [ Ordering.lt ↦ true | _ ↦ false ]

abbrev pub pids : List PilotRecord → List String
pids ps = map (λ p. p.pid) ps

note_service :
    TaskRecord
    → Outcome (List PilotRecord)
    → Outcome (List TaskRecord × List String)
    → Outcome (List TaskRecord × List String)
note_service t raised rest = raised
note_service t (returns ps) raised = raised
note_service t (returns []) (returns (unserved, served)) = returns (t ∷ unserved, served)
note_service t (returns (p ∷ ps)) (returns (unserved, served)) =
    returns (unserved, pids (p ∷ ps) ++ served)

-- The tasks that no live pilot could take, and the ids of the pilots that could take some task.
unfoldable pub service :
    List TaskRecord → List PilotRecord → Outcome (List TaskRecord × List String)
unfolding note_service
service [] live = returns ([], [])
service (t ∷ ts) live =
    let rest = service ts live in note_service t (keep_fitting (can_serve t) live) rest

unfoldable pub sum_capacity : List PilotRecord → ℕ
sum_capacity [] = 0
sum_capacity (p ∷ ps) = free_capacity p + sum_capacity ps

unfoldable pub usable_capacity : ConservativePolicy → List String → List PilotRecord → ℕ → ℕ
unfolding sum_capacity
usable_capacity c servers live now =
    sum_capacity
      (keep (λ p. is_active p.state && (contains servers p.pid && has_runway c p now)) live)
