-- ===== src/Conservative/Guards.antt =====
-- task_dispatcher_strategy_conservative.py, `_pass_guards`: the guards on a submission.
use radical_orbit.Prelude.{
  ℕ, ◌+◌, ◌≤◌, ◌<◌, String, ◌≡◌, refl, ap, ◌∙◌, inl, inr, Bool, true, List, [], ◌∷◌, arith,
  Bool-cases, length, keep, keep-same, In, In-keep, nat_eq, string_eq, option_eq, pair_eq,
}
use radical_orbit.Prelude.Dict.{Dict, insert}
use radical_orbit.Prelude.Int.{int_eq}
use radical_orbit.Config.{PoolMember}
use radical_orbit.Pool.{PoolState, live_pilots_for, member_budget_left}
use radical_orbit.Conservative.{
  ConservativePolicy, count_for, in_backoff, log_backoff, pre_active_count, budget_allows,
  clears_guards, pass_guards,
}

-- What a member that clears the guards satisfies: no backoff, a free place under its pilot limit
-- and its limit of pilots not yet active, the dwell since its last submission, and budget left.
abbrev pub MayGrow : ConservativePolicy → PoolState → ℕ → PoolMember → Type 0
MayGrow c ps now m =
    (count_for c.backoff_until m.member_id ≤ now)
    × (length (live_pilots_for ps m.member_id) < m.max_pilots)
    × (pre_active_count (live_pilots_for ps m.member_id) < c.max_in_flight_subs)
    × (count_for c.last_submit_ts m.member_id + c.min_dwell ≤ now)
    × (budget_allows (member_budget_left ps m.member_id now) ≡ true)

clears_guards-MayGrow :
    (c : ConservativePolicy) (ps : PoolState) (now : ℕ) (m : PoolMember)
    → clears_guards c ps now m ≡ true
    → MayGrow c ps now m
unfolding clears_guards in_backoff
clears_guards-MayGrow c ps now m h =
    (ground arith, ground arith, ground arith, ground arith, ground arith)

clears_guards-log_backoff :
    (c : ConservativePolicy) (ps : PoolState) (now : ℕ) (mid : String) (m : PoolMember)
    → clears_guards (log_backoff mid now c) ps now m ≡ clears_guards c ps now m
unfolding clears_guards in_backoff log_backoff
clears_guards-log_backoff c ps now mid m = elim (Bool-cases (in_backoff mid now c)) [
  | inl e ↦ rw e refl
  | inr e ↦ rw e refl
]

-- The guards leave exactly the members that clear them, whatever was logged on the way.
pub pass_guards-keep :
    (c : ConservativePolicy) (ps : PoolState) (ms : List PoolMember) (now : ℕ)
    → (pass_guards c ps ms now).0 ≡ keep (clears_guards c ps now) ms
unfolding pass_guards keep
pass_guards-keep c ps [] now = refl
pass_guards-keep c ps (m ∷ ms) now =
    rw
      (
        pass_guards-keep (log_backoff m.member_id now c) ps ms now,
        keep-same (clears_guards (log_backoff m.member_id now c) ps now) (clears_guards c ps now) ms
            (clears_guards-log_backoff c ps now m.member_id),
      )
      refl

-- An eligible member is one of the members offered, and it may grow.
pub pass_guards-MayGrow :
    (c : ConservativePolicy) (ps : PoolState) (ms : List PoolMember) (now : ℕ) (m : PoolMember)
    → In m (pass_guards c ps ms now).0
    → MayGrow c ps now m × In m ms
pass_guards-MayGrow c ps ms now m i =
    let kept = In-keep (clears_guards c ps now) m ms (rw (pass_guards-keep c ps ms now) at i) in
    (clears_guards-MayGrow c ps now m kept.0, kept.1)

-- The policy with another record of what was logged.
abbrev pub with_log : ConservativePolicy → Dict String Bool → ConservativePolicy
with_log c d = record c { backoff_logged = d }

log_backoff-with_log :
    (mid : String) (now : ℕ) (c : ConservativePolicy)
    → (d : Dict String Bool) × (log_backoff mid now c ≡ with_log c d)
unfolding log_backoff
log_backoff-with_log mid now c = elim (Bool-cases (in_backoff mid now c)) [
  | inl e ↦ (insert mid true c.backoff_logged, rw e refl)
  | inr e ↦ (c.backoff_logged, rw e refl)
]

-- The guards change nothing of the policy but what was logged.
pub pass_guards-with_log :
    (c : ConservativePolicy) (ps : PoolState) (ms : List PoolMember) (now : ℕ)
    → (d : Dict String Bool) × ((pass_guards c ps ms now).1 ≡ with_log c d)
unfolding pass_guards
pass_guards-with_log c ps [] now = (c.backoff_logged, refl)
pass_guards-with_log c ps (m ∷ ms) now =
    let (d, e) = log_backoff-with_log m.member_id now c in
    let (d', e') = pass_guards-with_log (log_backoff m.member_id now c) ps ms now in
    (d', e' ∙ ap (λ z. with_log z d') e)
