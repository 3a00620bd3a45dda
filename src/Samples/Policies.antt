-- ===== src/Samples/Policies.antt =====
-- task_dispatcher_strategy_conservative.py and `PoolState`: runs on the small pool.
use radical_orbit.Prelude.{
  ℕ, ◌-◌, max, ◌≡◌, refl, ap, ◌≢◌, inl, true, none, some, [], ◌∷◌, if◌then◌else◌, keep, All, In,
  ◌==◌, nat_eq, string_eq, option_eq, pair_eq,
}
use radical_orbit.Prelude.Sorting.{sort_by}
use radical_orbit.Prelude.Dict.{Dict, lookup, insert, remove}
use radical_orbit.Prelude.Int.{int_eq}
use radical_orbit.Match.{fits, satisfies}
use radical_orbit.Config.{PoolMember}
use radical_orbit.Config
use radical_orbit.State.{PilotState, is_queued, free_capacity}
use radical_orbit.Pool.{
  PoolState, pending_queue, sooner, live_pilots, members, member_budget_left, live_pilots_for,
}
use radical_orbit.Conservative.{
  ConservativePolicy, Outcome, returns, raised, on_pilot_state, in_backoff, on_member_removed,
  can_serve, clears_guards, count_for, pre_active_count, keep_fitting, pass_guards, usable_capacity,
  service,
}
use radical_orbit.Conservative.Backoff.{
  Transition, replay, expected, health_of, replay-expected, on_member_removed_lem,
}
use radical_orbit.Conservative.Dispatch.{pick_dispatch, is_available}
use radical_orbit.Conservative.Dispatch.Choice.{
  IsBest, AllRefused, available, pick_dispatch-IsBest, pick_dispatch-none,
}
use radical_orbit.Conservative.Tick.{on_tick, below_floor, under_ceiling}
use radical_orbit.Conservative.Tick.Choice.{Justified, on_tick-Justified, on_tick-below_floor}
use radical_orbit.Samples.{alpha, beta, worker, waiting, busy_pool, cautious, pilot_of}

picks_first_waiting : pick_dispatch cautious busy_pool 9000 ≡ returns (some (waiting, worker))
unfolding pick_dispatch pending_queue live_pilots keep keep_fitting can_serve satisfies
    free_capacity radical_orbit.Prelude.Sorting.sort_by radical_orbit.Conservative.has_runway
    radical_orbit.Prelude.Dict.lookup
picks_first_waiting = refl

pick_dispatch-IsBest_example :
    (is_queued waiting.state ≡ true)
    × In waiting (pending_queue busy_pool)
    × (is_available cautious 9000 worker ≡ true)
    × In worker (live_pilots busy_pool)
    × IsBest cautious.router_preference (available cautious busy_pool 9000) waiting worker
    × AllRefused
        (λ s. sooner s waiting ≡ true)
        (available cautious busy_pool 9000)
        (pending_queue busy_pool)
pick_dispatch-IsBest_example =
    pick_dispatch-IsBest cautious busy_pool 9000 waiting worker picks_first_waiting

abbrev full_pool : PoolState
full_pool = record busy_pool { pilots = ("p1", record worker { in_flight = 4 }) ∷ [] }

picks_none : pick_dispatch cautious full_pool 9000 ≡ returns none
unfolding pick_dispatch pending_queue live_pilots keep free_capacity
    radical_orbit.Prelude.Sorting.sort_by
picks_none = refl

pick_dispatch-none_example :
    All
      (λ s. All (λ q. can_serve s q ≢ fits) (available cautious full_pool 9000))
      (pending_queue full_pool)
pick_dispatch-none_example = pick_dispatch-none cautious full_pool 9000 picks_none

grows_beta : (on_tick cautious busy_pool 9000).0 ≡ returns (some beta)
unfolding on_tick below_floor pass_guards members keep live_pilots_for live_pilots
    radical_orbit.Prelude.Dict.lookup member_budget_left Config.member under_ceiling
grows_beta = refl

on_tick-Justified_example : Justified cautious busy_pool 9000 beta
on_tick-Justified_example = on_tick-Justified cautious busy_pool 9000 beta grows_beta

abbrev fail_at : ℕ → Transition
fail_at now = record {
  pilot = pilot_of "p7" "beta" PilotState.failed 0;
  old = PilotState.pending;
  new = PilotState.failed;
  at = now;
}

two_failures :
    health_of (replay (fail_at 100 ∷ fail_at 200 ∷ []) cautious) "beta"
    ≡ record { failures = 2; until = 60200 }
unfolding replay on_pilot_state radical_orbit.Prelude.Dict.lookup radical_orbit.Prelude.Dict.insert
two_failures = refl

replay-expected_example :
    health_of (replay (fail_at 100 ∷ fail_at 200 ∷ []) cautious) "beta"
    ≡ expected "beta" cautious.max_consecutive_failures cautious.failure_backoff
        (fail_at 100 ∷ fail_at 200 ∷ [])
        (health_of cautious "beta")
replay-expected_example = replay-expected cautious "beta" (fail_at 100 ∷ fail_at 200 ∷ [])

on_tick-below_floor_example :
    (n : PoolMember) × ((on_tick cautious busy_pool 9000).0 ≡ returns (some n))
    × In n (below_floor busy_pool)
    × (clears_guards cautious busy_pool 9000 n ≡ true)
unfolding below_floor clears_guards keep members live_pilots_for live_pilots lookup
    member_budget_left Config.member under_ceiling
on_tick-below_floor_example = on_tick-below_floor cautious busy_pool 9000 beta (inl refl) refl refl

on_member_removed_lem_example :
    (health_of (on_member_removed beta.member_id cautious) alpha.member_id ≡ (
      if beta.member_id == alpha.member_id
      then record { failures = 0; until = 0 }
      else health_of cautious alpha.member_id))
    × (count_for (on_member_removed beta.member_id cautious).last_submit_ts alpha.member_id ≡ (
        if beta.member_id == alpha.member_id
        then 0
        else count_for cautious.last_submit_ts alpha.member_id))
on_member_removed_lem_example = on_member_removed_lem cautious beta.member_id alpha.member_id
