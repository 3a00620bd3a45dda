-- ===== src/Samples/Configs.antt =====
-- task_dispatcher_config.py, task_dispatcher_state.py and `PoolState`: runs on the small pool.
use mathlib.Core.List.{Perm}
use radical_orbit.Prelude.{
  ℕ, ◌+◌, ◌-◌, ◌≤◌, ◌≡◌, refl, none, some, List, [], ◌∷◌, arith, keep, In, ◌==◌, nat_eq, string_eq,
  option_eq, pair_eq,
}
use radical_orbit.Prelude.Dict.{Dict, lookup, values}
use radical_orbit.Prelude.Int.{int_eq, sub_ℕ}
use radical_orbit.Config.{PoolMember, PoolConfig, init_pool, primary_member}
use radical_orbit.Config
use radical_orbit.Config.Projection.{Mirrors, IsDeclared, init_pool-Mirrors}
use radical_orbit.State.{is_queued, node_hours}
use radical_orbit.State.Accounting.{bill, node_hours-bill}
use radical_orbit.Pool.{pending_queue, pilot_history, member_budget_left}
use radical_orbit.Pool.Order.{InOrder, pending_queue_lem}
use radical_orbit.Pool.Budget.{node_hours-pilot_history, member_budget_left-bill}
use radical_orbit.Samples.{alpha, site, worker, busy_pool}

site-IsDeclared : IsDeclared site
site-IsDeclared = record { legacy = λ h. ground arith }

init_pool-Mirrors_example : Mirrors (init_pool site) alpha
unfolding init_pool primary_member
init_pool-Mirrors_example = init_pool-Mirrors site alpha site-IsDeclared refl

-- A pilot that has ended, and one that runs.
node_hours-bill_example :
    node_hours (record worker { finished_at = some 2500 } ∷ worker ∷ []) 5000
    ≡ bill (record worker { finished_at = some 2500 } ∷ worker ∷ []) 5000
node_hours-bill_example =
    node_hours-bill (record worker { finished_at = some 2500 } ∷ worker ∷ []) 5000
      (omega arith, (omega arith, tt))

pending_queue_lem_example :
    Perm (pending_queue busy_pool) (keep (λ t. is_queued t.state) (values busy_pool.tasks))
    × InOrder (pending_queue busy_pool)
pending_queue_lem_example = pending_queue_lem busy_pool

node_hours-pilot_history_example :
    node_hours (pilot_history busy_pool (some "alpha")) 9000
      + node_hours (pilot_history busy_pool (some "beta")) 9000
    ≤ node_hours (pilot_history busy_pool none) 9000
node_hours-pilot_history_example = node_hours-pilot_history busy_pool "alpha" "beta" 9000 refl

member_budget_left-bill_example :
    member_budget_left busy_pool "alpha" 9000
    ≡ some
        (sub_ℕ 9000000 (bill (keep (λ p. p.member_id == "alpha") (values busy_pool.pilots)) 9000))
unfolding Config.member radical_orbit.Prelude.Dict.lookup
member_budget_left-bill_example =
    member_budget_left-bill busy_pool "alpha" alpha 8999999 9000 refl refl (omega arith, tt)
