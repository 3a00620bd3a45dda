-- ===== src/Conservative/Backoff.antt =====
-- task_dispatcher_strategy_conservative.py, `on_pilot_state` and `_in_backoff`: the failure backoff
-- of one member, against a specification that knows no other member.
use radical_orbit.Prelude.{
  ℕ, ◌+◌, String, ◌≡◌, refl, ap, ◌∙◌, Bool, true, false, none, some, List, [], ◌∷◌, arith, leb,
  if◌then◌else◌, or_default, ◌==◌, nat_eq, string_eq, str_iff, option_eq, pair_eq,
}
use radical_orbit.Prelude.Dict.{Dict, lookup, insert, lookup-insert, lookup-remove}
use radical_orbit.Prelude.Int.{int_eq}
use radical_orbit.State.{PilotState, PilotRecord, is_active}
use radical_orbit.Conservative.{
  ConservativePolicy, count_for, submission_failed, on_pilot_state, reset_failures, count_failure,
  on_member_removed,
}

-- One call of the hook.
pub record Transition : Type 0 where
  pub pilot : PilotRecord
  pub old : PilotState
  pub new : PilotState
  pub at : ℕ

unfoldable pub replay : List Transition → ConservativePolicy → ConservativePolicy
replay [] c = c
replay (e ∷ es) c = replay es (on_pilot_state e.pilot e.old e.new e.at c)

-- A member's failures in a row, and the end of its pause.
pub record Health : Type 0 where
  pub failures : ℕ
  pub until : ℕ

abbrev pub health_of : ConservativePolicy → String → Health
health_of c mid = record {
  failures = count_for c.consecutive_failures mid;
  until = count_for c.backoff_until mid;
}

fail_once : ℕ → ℕ → ℕ → Health → Health
fail_once limit pause now h = record {
  failures = h.failures + 1;
  until = if leb limit (h.failures + 1) then now + pause else h.until;
}

-- The specification: ACTIVE clears the record; a failed submission counts, and from the limit on
-- each one starts a pause; nothing else matters.
observe : ℕ → ℕ → Transition → Health → Health
unfolding fail_once
observe limit pause e h =
    if is_active e.new
    then record { failures = 0; until = 0 }
    else if submission_failed e.pilot e.old e.new
    then fail_once limit pause e.at h
    else h

unfoldable pub expected : String → ℕ → ℕ → List Transition → Health → Health
unfolding observe
expected mid limit pause [] h = h
expected mid limit pause (e ∷ es) h =
    expected mid limit pause es (if e.pilot.member_id == mid then observe limit pause e h else h)

count_for-insert :
    (k j : String) (v : ℕ) (d : Dict String ℕ)
    → count_for (insert k v d) j ≡ (if k == j then v else count_for d j)
count_for-insert k j v d = rw (lookup-insert k j v d) (split (k == j))
  where
    split :
        (b : Bool)
        → or_default (if b then some v else lookup j d) 0 ≡ (if b then v else count_for d j)
    split true = refl
    split false = refl

Health-same : (a b : Health) → a.failures ≡ b.failures → a.until ≡ b.until → a ≡ b
Health-same a b h k = ap (λ n. record a { failures = n }) h ∙ ap (λ n. record b { until = n }) k

count_for-same :
    (d : Dict String ℕ) (k j : String) → (k == j) ≡ true → count_for d k ≡ count_for d j
count_for-same d k j h = ap (count_for d) ((str_iff k j).0 h)

step-failures :
    (c : ConservativePolicy) (mid : String) (e : Transition)
    → count_for (on_pilot_state e.pilot e.old e.new e.at c).consecutive_failures mid
      ≡ (if e.pilot.member_id == mid
          then observe c.max_consecutive_failures c.failure_backoff e (health_of c mid)
          else health_of c mid).failures
unfolding on_pilot_state observe reset_failures count_failure fail_once
step-failures c mid e = ground (
  arith,
  count_for-insert e.pilot.member_id mid 0 c.consecutive_failures,
  count_for-insert e.pilot.member_id mid (count_for c.consecutive_failures e.pilot.member_id + 1)
      c.consecutive_failures,
  count_for-same c.consecutive_failures e.pilot.member_id mid,
)

step-until :
    (c : ConservativePolicy) (mid : String) (e : Transition)
    → count_for (on_pilot_state e.pilot e.old e.new e.at c).backoff_until mid
      ≡ (if e.pilot.member_id == mid
          then observe c.max_consecutive_failures c.failure_backoff e (health_of c mid)
          else health_of c mid).until
unfolding on_pilot_state observe reset_failures count_failure fail_once
step-until c mid e = ground (
  arith,
  count_for-insert e.pilot.member_id mid 0 c.backoff_until,
  count_for-insert e.pilot.member_id mid (e.at + c.failure_backoff) c.backoff_until,
  count_for-same c.consecutive_failures e.pilot.member_id mid,
)

limit-same :
    (c : ConservativePolicy) (e : Transition)
    → (on_pilot_state e.pilot e.old e.new e.at c).max_consecutive_failures
      ≡ c.max_consecutive_failures
unfolding on_pilot_state reset_failures count_failure
limit-same c e = ground arith

pause-same :
    (c : ConservativePolicy) (e : Transition)
    → (on_pilot_state e.pilot e.old e.new e.at c).failure_backoff ≡ c.failure_backoff
unfolding on_pilot_state reset_failures count_failure
pause-same c e = ground arith

-- However the transitions of the pool's pilots interleave, the failure counter and the pause of a
-- member are what its own transitions alone make of them: a pilot that becomes ACTIVE clears both,
-- a submission that fails counts, from the limit on each starts a pause of the configured length,
-- and no other member has any effect.
pub replay-expected :
    (c : ConservativePolicy) (mid : String) (es : List Transition)
    → health_of (replay es c) mid
      ≡ expected mid c.max_consecutive_failures c.failure_backoff es (health_of c mid)
unfolding replay expected
replay-expected c mid [] = refl
replay-expected c mid (e ∷ es) =
    rw
      (
        replay-expected (on_pilot_state e.pilot e.old e.new e.at c) mid es,
        limit-same c e,
        pause-same c e,
        Health-same (health_of (on_pilot_state e.pilot e.old e.new e.at c) mid)
            (if e.pilot.member_id == mid
              then observe c.max_consecutive_failures c.failure_backoff e (health_of c mid)
              else health_of c mid)
            (step-failures c mid e) (step-until c mid e),
      )
      refl

-- A member that is removed starts afresh: its counter, its pause and its dwell are forgotten, and
-- those of every other member stay.
pub on_member_removed_lem :
    (c : ConservativePolicy) (mid other : String)
    → (health_of (on_member_removed mid c) other
        ≡ (if mid == other then record { failures = 0; until = 0 } else health_of c other))
      × (count_for (on_member_removed mid c).last_submit_ts other
          ≡ (if mid == other then 0 else count_for c.last_submit_ts other))
unfolding on_member_removed
on_member_removed_lem c mid other = (
  rw (lookup-remove mid other c.consecutive_failures, lookup-remove mid other c.backoff_until)
      (split_health (mid == other)),
  rw (lookup-remove mid other c.last_submit_ts) (split_dwell (mid == other)),
)
  where
    split_health :
        (b : Bool)
        → ◌≡◌ {A = Health}
            (record {
              failures = or_default (if b then none else lookup other c.consecutive_failures) 0;
              until = or_default (if b then none else lookup other c.backoff_until) 0;
            })
            (if b then record { failures = 0; until = 0 } else health_of c other)
    split_health true = refl
    split_health false = refl

    split_dwell :
        (b : Bool)
        → or_default (if b then none else lookup other c.last_submit_ts) 0
          ≡ (if b then 0 else count_for c.last_submit_ts other)
    split_dwell true = refl
    split_dwell false = refl
