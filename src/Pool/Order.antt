-- ===== src/Pool/Order.antt =====
-- `PoolState.pending_queue`: what a policy is offered, and in which order.
use mathlib.Core.List.{Perm}
use radical_orbit.Prelude.{
  ◌≤◌, ◌≡◌, true, false, List, [], ◌∷◌, arith, keep, All, All-map, All-keep_test, nat_eq, string_eq,
  option_eq, pair_eq,
}
use radical_orbit.Prelude.Dict.{values}
use radical_orbit.Prelude.Int.{◌≤ℤ◌, int_beq_iff, int_eq}
use radical_orbit.Prelude.Sorting.{sort_by-perm, sort_by-IsSorted, All-sort_by, IsSorted}
use radical_orbit.State.{TaskRecord, is_queued}
use radical_orbit.Pool.{PoolState, sooner, pending_queue}

pub sooner_asym : (a b : TaskRecord) → sooner b a ≡ true → sooner a b ≡ false
sooner_asym a b h = ground (arith, int_beq_iff a.priority b.priority)

pub sooner_chain :
    (a b c : TaskRecord) → sooner b a ≡ false → sooner c b ≡ false → sooner c a ≡ false
sooner_chain a b c h k = ground (arith)

-- What a task that stands before another one must satisfy.
abbrev pub Ahead : TaskRecord → TaskRecord → Type 0
Ahead a b = (b.priority ≤ℤ a.priority) × (a.priority ≡ b.priority → a.arrival_ts ≤ b.arrival_ts)

abbrev pub InOrder : List TaskRecord → Type 0
InOrder [] = Unit
InOrder (t ∷ ts) = All (Ahead t) ts × InOrder ts

not_sooner : (a b : TaskRecord) → sooner b a ≡ false → Ahead a b
not_sooner a b h = (ground arith, λ e. ground (arith, int_beq_iff b.priority a.priority))

IsSorted-InOrder : (ts : List TaskRecord) → IsSorted sooner ts → InOrder ts
IsSorted-InOrder [] h = tt
IsSorted-InOrder (t ∷ ts) h = (All-map _ (Ahead t) (not_sooner t) ts h.0, IsSorted-InOrder ts h.1)

pub pending_queue-waits : (ps : PoolState) → All (λ t. is_queued t.state ≡ true) (pending_queue ps)
unfolding pending_queue
pending_queue-waits ps =
    All-sort_by sooner _ _ (All-keep_test (λ t. is_queued t.state) (values ps.tasks))

-- The pending queue holds exactly the queued tasks of the pool, each as often as the pool does; a
-- task stands before another only if its priority is at least as high and, where both have the same
-- priority, it did not arrive later.
pub pending_queue_lem :
    (ps : PoolState)
    → Perm (pending_queue ps) (keep (λ t. is_queued t.state) (values ps.tasks))
      × InOrder (pending_queue ps)
unfolding pending_queue
pending_queue_lem ps =
    (sort_by-perm sooner _, IsSorted-InOrder _ (sort_by-IsSorted sooner sooner_asym sooner_chain _))
