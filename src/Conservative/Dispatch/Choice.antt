-- ===== src/Conservative/Dispatch/Choice.antt =====
-- `pick_dispatch`: the pair that is picked, and when there is none.
use radical_orbit.Prelude.{
  ℕ, ◌≡◌, refl, ap, subst, ◌≢◌, inl, inr, true, false, Option, none, some, List, [], ◌∷◌, arith,
  Option-cases, head_of, keep, All, All-map, All-of_keep, In, In-All, All-In, In-keep, nat_eq,
  string_eq, option_eq, pair_eq,
}
use radical_orbit.Prelude.Int.{int_eq}
use radical_orbit.Prelude.Sorting.{
  sort_by, sort_by-IsSorted, IsSorted, In-sort_by, All-of_sort, sort_by-none,
}
use radical_orbit.Match.{fits}
use radical_orbit.State.{PilotRecord, TaskRecord, is_queued}
use radical_orbit.Pool.{PoolState, pending_queue, live_pilots, sooner}
use radical_orbit.Pool.Order.{sooner_asym, sooner_chain, pending_queue-waits}
use radical_orbit.Conservative.{
  ConservativePolicy, RouterPreference, Outcome, returns, raised, keep_fitting, can_serve,
}
use radical_orbit.Conservative.Fitting.{keep_fitting_sound, keep_fitting_complete}
use radical_orbit.Conservative.Dispatch.{
  preferred, is_available, attach, route, or_next, pick_for, pick_from, pick_ready, ready,
  pick_dispatch,
}
use radical_orbit.Conservative.Dispatch.Routing.{NoWorse, attach-none, pick_for_cases}

-- Every task of the list is refused by every pilot of the other.
abbrev pub AllRefused : (TaskRecord → Type 0) → List PilotRecord → List TaskRecord → Type 0
AllRefused P avail = All (λ s. P s → All (λ q. can_serve s q ≢ fits) avail)

refused :
    (t : TaskRecord) (avail : List PilotRecord)
    → keep_fitting (can_serve t) avail ≡ returns []
    → All (λ q. can_serve t q ≢ fits) avail
refused t avail h =
    All-map _ _ (λ q k e. absurd (k e)) avail (keep_fitting_complete (can_serve t) avail [] h)

abbrev pub IsBest : RouterPreference → List PilotRecord → TaskRecord → PilotRecord → Type 0
IsBest pref avail t p =
    In p avail × (can_serve t p ≡ fits) × All (λ q. can_serve t q ≡ fits → NoWorse pref p q) avail

IsBest-of :
    (pref : RouterPreference) (avail cs : List PilotRecord) (t : TaskRecord) (p : PilotRecord)
    → keep_fitting (can_serve t) avail ≡ returns cs
    → In p cs
    → All (NoWorse pref p) cs
    → IsBest pref avail t p
IsBest-of pref avail cs t p h i best =
    let found = In-All _ p cs (keep_fitting_sound (can_serve t) avail cs h) i in
    (
      found.1,
      found.0,
      All-map _ _ (λ q k e. In-All (NoWorse pref p) q cs best (k e)) avail
          (keep_fitting_complete (can_serve t) avail cs h),
    )

pick_from-IsBest :
    (pref : RouterPreference) (avail : List PilotRecord) (ts : List TaskRecord) (s : TaskRecord)
    (p : PilotRecord)
    → pick_from pref avail ts ≡ returns (some (s, p))
    → In s ts × IsBest pref avail s p
unfolding pick_from
pick_from-IsBest pref avail [] s p h = ground arith
pick_from-IsBest pref avail (t ∷ ts) s p h =
    elim (pick_for_cases (keep_fitting (can_serve t) avail) pref t s (pick_from pref avail ts) p
      h) [
        | inl (e, cs, f, i, best) ↦
            subst (λ z. In z (t ∷ ts) × IsBest pref avail z p) e
              (inl refl, IsBest-of pref avail cs t p f i best)
        | inr (f, r) ↦ let later = pick_from-IsBest pref avail ts s p r in (inr later.0, later.1)
      ]

pick_from-AllRefused :
    (pref : RouterPreference) (avail : List PilotRecord) (ts : List TaskRecord) (s : TaskRecord)
    (p : PilotRecord)
    → IsSorted sooner ts
    → pick_from pref avail ts ≡ returns (some (s, p))
    → AllRefused (λ r. sooner r s ≡ true) avail ts
unfolding pick_from
pick_from-AllRefused pref avail [] s p sorted h = tt
pick_from-AllRefused pref avail (t ∷ ts) s p sorted h =
    elim (pick_for_cases (keep_fitting (can_serve t) avail) pref t s (pick_from pref avail ts) p
      h) [
        | inl (e, cs, f, i, best) ↦
            subst (λ z. AllRefused (λ r. sooner r z ≡ true) avail (t ∷ ts)) e
              (
                λ k. absurd (irreflexive t k),
                All-map _ _ (λ r late soon. absurd (both r t late soon)) ts sorted.0,
              )
        | inr (f, r) ↦ (λ k. refused t avail f, pick_from-AllRefused pref avail ts s p sorted.1 r)
      ]
  where
    irreflexive : (t : TaskRecord) → sooner t t ≢ true
    irreflexive t k = ground (arith, sooner_asym t t k)

    both : (r t : TaskRecord) → sooner r t ≡ false → sooner r t ≢ true
    both r t late soon = ground arith

pick_for-none :
    (cands : Outcome (List PilotRecord)) (pref : RouterPreference) (t : TaskRecord)
    (rest : Outcome (Option (TaskRecord × PilotRecord)))
    → pick_for cands pref t rest ≡ returns none
    → (cands ≡ returns []) × (rest ≡ returns none)
unfolding pick_for or_next route
pick_for-none raised pref t rest h = ground arith
pick_for-none (returns cs) pref t rest h =
    elim (Option-cases (attach t (head_of (sort_by (preferred pref) cs)))) [
      | inl e ↦ (ap returns (sort_by-none (preferred pref) cs (attach-none t _ e)), rw e at h)
      | inr (pair, e) ↦
          let h' : returns (some pair) ≡ returns none = rw e at h in absurd (clash pair h')
    ]
  where
    clash :
        (pair : TaskRecord × PilotRecord)
        → ◌≢◌ {A = Outcome (Option (TaskRecord × PilotRecord))} (returns (some pair)) (returns none)
    clash pair k = ground arith

pick_from-none :
    (pref : RouterPreference) (avail : List PilotRecord) (ts : List TaskRecord)
    → pick_from pref avail ts ≡ returns none
    → All (λ s. All (λ q. can_serve s q ≢ fits) avail) ts
unfolding pick_from
pick_from-none pref avail [] h = tt
pick_from-none pref avail (t ∷ ts) h =
    let both =
      pick_for-none (keep_fitting (can_serve t) avail) pref t (pick_from pref avail ts) h in
    (refused t avail both.0, pick_from-none pref avail ts both.1)

abbrev pub available : ConservativePolicy → PoolState → ℕ → List PilotRecord
available c ps now = keep (is_available c now) (live_pilots ps)

-- What holds of the tasks that are ready holds of the whole pending queue.
All-pending :
    (P : TaskRecord → Type 0) (ps : PoolState) → All P (ready ps) → All P (pending_queue ps)
All-pending P ps h = All-In _ (pending_queue ps) (λ s i.
    In-All _ s _
      (All-of_keep P (λ t. is_queued t.state) (pending_queue ps) (All-of_sort sooner P _ h)) i
      (In-All _ s _ (pending_queue-waits ps) i))

ready_choice :
    (pref : RouterPreference) (ts : List TaskRecord) (avail : List PilotRecord) (t : TaskRecord)
    (p : PilotRecord)
    → pick_ready pref ts avail ≡ returns (some (t, p))
    → pick_from pref avail ts ≡ returns (some (t, p))
unfolding pick_ready
ready_choice pref [] avail t p h = ground arith
ready_choice pref (s ∷ ts) [] t p h = ground arith
ready_choice pref (s ∷ ts) (q ∷ qs) t p h = h

ready_none :
    (pref : RouterPreference) (ts : List TaskRecord) (avail : List PilotRecord)
    → pick_ready pref ts avail ≡ returns none
    → All (λ s. All (λ q. can_serve s q ≢ fits) avail) ts
unfolding pick_ready
ready_none pref [] avail h = tt
ready_none pref (s ∷ ts) [] h = All-In _ (s ∷ ts) (λ r i. tt)
ready_none pref (s ∷ ts) (q ∷ qs) h = pick_from-none pref (q ∷ qs) (s ∷ ts) h

-- A pair that the policy picks is a task of the pending queue that is QUEUED and an available live
-- pilot (active, with a free slot and walltime left) that meets its requirements; no available
-- pilot that meets them is strictly better by the router's preference (fewer tasks in flight, or a
-- later deadline); and every task of the queue that stands before it by priority and arrival is
-- refused by every available pilot.
pub pick_dispatch-IsBest :
    (c : ConservativePolicy) (ps : PoolState) (now : ℕ) (t : TaskRecord) (p : PilotRecord)
    → pick_dispatch c ps now ≡ returns (some (t, p))
    → (is_queued t.state ≡ true)
      × In t (pending_queue ps)
      × (is_available c now p ≡ true)
      × In p (live_pilots ps)
      × IsBest c.router_preference (available c ps now) t p
      × AllRefused (λ s. sooner s t ≡ true) (available c ps now) (pending_queue ps)
unfolding pick_dispatch
pick_dispatch-IsBest c ps now t p h =
    let avail = available c ps now in
    let chosen = ready_choice c.router_preference (ready ps) avail t p h in
    let both = pick_from-IsBest c.router_preference avail (ready ps) t p chosen in
    let found =
      In-keep (λ s. is_queued s.state) t (pending_queue ps)
        (In-sort_by sooner t (keep (λ s. is_queued s.state) (pending_queue ps)) both.0) in
    let free = In-keep (is_available c now) p (live_pilots ps) both.1.0 in
    (
      found.0,
      found.1,
      free.0,
      free.1,
      both.1,
      All-pending _ ps (
          pick_from-AllRefused c.router_preference avail (ready ps) t p
            (sort_by-IsSorted sooner sooner_asym sooner_chain _) chosen),
    )

-- The policy stops only when nothing can be dispatched: if it picks no pair, every task of the
-- pending queue is refused by every available live pilot.
pub pick_dispatch-none :
    (c : ConservativePolicy) (ps : PoolState) (now : ℕ)
    → pick_dispatch c ps now ≡ returns none
    → All (λ s. All (λ q. can_serve s q ≢ fits) (available c ps now)) (pending_queue ps)
unfolding pick_dispatch
pick_dispatch-none c ps now h =
    All-pending _ ps (ready_none c.router_preference (ready ps) (available c ps now) h)
