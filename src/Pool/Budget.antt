-- ===== src/Pool/Budget.antt =====
-- `PoolState.pilot_history` and `PoolState.member_budget_left`: the bill of a member's pilots.
use radical_orbit.Prelude.{
  ℕ, suc, ◌+◌, ◌≤◌, String, ◌≡◌, refl, ap, ◌∙◌, Bool, false, none, some, List, [], ◌∷◌, arith,
  or_default, keep, All, All-keep, ◌==◌, nat_eq, string_eq, str_iff, option_eq, pair_eq,
}
use radical_orbit.Prelude.Dict.{values}
use radical_orbit.Prelude.Int.{int_eq, sub_ℕ}
use radical_orbit.Prelude.Sorting.{place, sort_by}
use radical_orbit.Config.{PoolMember}
use radical_orbit.Config
use radical_orbit.State.{PilotRecord, charge, node_hours}
use radical_orbit.State.Accounting.{bill, node_hours-bill}
use radical_orbit.Pool.{PoolState, older, pilot_history, member_budget_left, budget_left}

node_hours-place :
    (before : PilotRecord → PilotRecord → Bool) (p : PilotRecord) (ps : List PilotRecord) (now : ℕ)
    → node_hours (place before p ps) now ≡ charge now p + node_hours ps now
unfolding node_hours place
node_hours-place before p [] now = refl
node_hours-place before p (q ∷ ps) now = ground (arith, node_hours-place before p ps now)

-- The order of the history does not change the bill.
node_hours-sort_by :
    (before : PilotRecord → PilotRecord → Bool) (ps : List PilotRecord) (now : ℕ)
    → node_hours (sort_by before ps) now ≡ node_hours ps now
unfolding node_hours sort_by
node_hours-sort_by before [] now = refl
node_hours-sort_by before (p ∷ ps) now =
    omega
      (arith, node_hours-place before p (sort_by before ps) now, node_hours-sort_by before ps now)

abbrev owned : String → PilotRecord → Bool
owned mid p = p.member_id == mid

-- The pilots of a member, and then those of the others.
node_hours-two :
    (a b : String) (ps : List PilotRecord) (now : ℕ)
    → (a == b) ≡ false
    → node_hours (keep (owned a) ps) now + node_hours (keep (owned b) ps) now ≤ node_hours ps now
unfolding node_hours keep
node_hours-two a b [] now h = omega arith
node_hours-two a b (p ∷ ps) now h =
    ground
      (arith, node_hours-two a b ps now, str_iff p.member_id a, str_iff p.member_id b, str_iff a b)

-- Two different members never pay for the same pilot: their bills together are at most the pool's.
pub node_hours-pilot_history :
    (ps : PoolState) (a b : String) (now : ℕ)
    → (a == b) ≡ false
    → node_hours (pilot_history ps (some a)) now + node_hours (pilot_history ps (some b)) now
      ≤ node_hours (pilot_history ps none) now
unfolding pilot_history
node_hours-pilot_history ps a b now h = omega (
  arith,
  node_hours-sort_by older (keep (owned a) (values ps.pilots)) now,
  node_hours-sort_by older (keep (owned b) (values ps.pilots)) now,
  node_hours-sort_by older (values ps.pilots) now,
  node_hours-two a b (values ps.pilots) now,
)

-- The budget left of a member with a declared allowance, at a time that no pilot's end is later
-- than, is that allowance less the nodes that the pilots submitted for it held in each unit of time
-- up to then, live ones included; it is negative when overdrawn.
pub member_budget_left-bill :
    (ps : PoolState) (mid : String) (m : PoolMember) (total now : ℕ)
    → Config.member ps.config mid ≡ some m
    → m.budget ≡ some (suc total)
    → All (λ p. or_default p.finished_at 0 ≤ now) (values ps.pilots)
    → member_budget_left ps mid now
      ≡ some (sub_ℕ (suc total) (bill (keep (λ p. p.member_id == mid) (values ps.pilots)) now))
unfolding member_budget_left pilot_history budget_left
member_budget_left-bill ps mid m total now h k past =
    let mine = keep (owned mid) (values ps.pilots) in
    rw (h, k)
      (ap (λ n. some (sub_ℕ (suc total) n))
        (node_hours-sort_by older mine now
          ∙ node_hours-bill mine now (
              All-keep (λ p. or_default p.finished_at 0 ≤ now) (owned mid) (values ps.pilots)
                past)))
