-- ===== src/Conservative/Dispatch.antt =====
-- task_dispatcher_strategy_conservative.py, `pick_dispatch`: which task runs next, and where.
pub mod Choice
pub mod Routing
use radical_orbit.Prelude.{
  ℕ, ◌-◌, ◌≡◌, ap, ◌≢◌, Bool, false, ◌&&◌, ◌||◌, Option, none, some, List, [], ◌∷◌, ltb, nat_beq,
  take, head_of, keep, All, In, nat_eq, string_eq, option_eq, pair_eq,
}
use radical_orbit.Prelude.Count.{bit}
use radical_orbit.Prelude.Dict.{Dict, keys}
use radical_orbit.Prelude.Int.{int_eq}
use radical_orbit.Prelude.Sorting.{sort_by}
use radical_orbit.Match.{Verdict, fits, rejects, raises}
use radical_orbit.State.{PilotRecord, TaskRecord, is_active, is_queued, free_capacity}
use radical_orbit.Pool.{PoolState, pending_queue, live_pilots, sooner}
use radical_orbit.Conservative.{
  ConservativePolicy, RouterPreference, least_loaded, youngest, Outcome, returns, raised,
  has_runway, keep_verdict, keep_fitting, can_serve, str_lt,
}

-- The keys of the two orders: (-deadline, member), and (in_flight, -deadline, member).
abbrev pub younger : PilotRecord → PilotRecord → Bool
younger p q =
    ltb q.walltime_deadline p.walltime_deadline
    || (nat_beq p.walltime_deadline q.walltime_deadline && str_lt p.member_id q.member_id)

abbrev pub lighter : PilotRecord → PilotRecord → Bool
lighter p q = ltb p.in_flight q.in_flight || (nat_beq p.in_flight q.in_flight && younger p q)

abbrev pub preferred : RouterPreference → PilotRecord → PilotRecord → Bool
preferred youngest = younger
preferred least_loaded = lighter

-- A pilot that may take a task: active, with a free slot and enough walltime left.
abbrev pub is_available : ConservativePolicy → ℕ → PilotRecord → Bool
is_available c now p = is_active p.state && (ltb 0 (free_capacity p) && has_runway c p now)

pub attach : TaskRecord → Option PilotRecord → Option (TaskRecord × PilotRecord)
attach t none = none
attach t (some p) = some (t, p)

route : RouterPreference → TaskRecord → List PilotRecord → Option (TaskRecord × PilotRecord)
unfolding attach
route pref t cands = attach t (head_of (sort_by (preferred pref) cands))

or_next :
    Outcome (Option (TaskRecord × PilotRecord))
    → Option (TaskRecord × PilotRecord)
    → Outcome (Option (TaskRecord × PilotRecord))
or_next rest none = rest
or_next rest (some pair) = returns (some pair)

pub pick_for :
    Outcome (List PilotRecord)
    → RouterPreference
    → TaskRecord
    → Outcome (Option (TaskRecord × PilotRecord))
    → Outcome (Option (TaskRecord × PilotRecord))
unfolding route or_next
pick_for raised pref t rest = raised
pick_for (returns cands) pref t rest = or_next rest (route pref t cands)

-- The loop over the pending tasks: a task that no candidate can serve is skipped.
unfoldable pub pick_from :
    RouterPreference
    → List PilotRecord
    → List TaskRecord
    → Outcome (Option (TaskRecord × PilotRecord))
unfolding pick_for
pick_from pref avail [] = returns none
pick_from pref avail (t ∷ ts) =
    let rest = pick_from pref avail ts in pick_for (keep_fitting (can_serve t) avail) pref t rest

pick_ready :
    RouterPreference
    → List TaskRecord
    → List PilotRecord
    → Outcome (Option (TaskRecord × PilotRecord))
unfolding pick_from
pick_ready pref [] avail = returns none
pick_ready pref (t ∷ ts) [] = returns none
pick_ready pref (t ∷ ts) (p ∷ ps) = pick_from pref (p ∷ ps) (t ∷ ts)

abbrev pub ready : PoolState → List TaskRecord
ready ps = sort_by sooner (keep (λ t. is_queued t.state) (pending_queue ps))

unfoldable pub pick_dispatch :
    ConservativePolicy → PoolState → ℕ → Outcome (Option (TaskRecord × PilotRecord))
unfolding pick_ready
pick_dispatch c ps now =
    pick_ready c.router_preference (ready ps) (keep (is_available c now) (live_pilots ps))
