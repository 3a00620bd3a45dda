-- ===== src/Conservative/Dispatch/Routing.antt =====
-- `pick_dispatch`: one round of its loop, and the preferences of the router.
use radical_orbit.Prelude.{
  ◌≤◌, ◌≡◌, refl, ap, ◌∙◌, ◌⊎◌, inl, inr, true, false, Option, none, some, List, [], ◌∷◌, arith,
  Option-cases, head_of, All, In, nat_eq, string_eq, option_eq, pair_eq,
}
use radical_orbit.Prelude.Int.{int_eq}
use radical_orbit.Prelude.Sorting.{sort_by, In-sort_by, head_of-sort_by, sort_by-none}
use radical_orbit.State.{PilotRecord, TaskRecord}
use radical_orbit.Conservative.{RouterPreference, least_loaded, youngest, Outcome, returns, raised}
use radical_orbit.Conservative.Dispatch.{preferred, attach, route, or_next, pick_for}

-- The measure that a preference minimises or maximises.
abbrev pub NoWorse : RouterPreference → PilotRecord → PilotRecord → Type 0
NoWorse least_loaded p q = p.in_flight ≤ q.in_flight
NoWorse youngest p q = q.walltime_deadline ≤ p.walltime_deadline

NoWorse-refl : (pref : RouterPreference) (p : PilotRecord) → NoWorse pref p p
NoWorse-refl least_loaded p = omega arith
NoWorse-refl youngest p = omega arith

NoWorse-trans :
    (pref : RouterPreference) (p q r : PilotRecord)
    → NoWorse pref p q
    → NoWorse pref q r
    → NoWorse pref p r
NoWorse-trans least_loaded p q r h k = omega arith
NoWorse-trans youngest p q r h k = omega arith

preferred-NoWorse :
    (pref : RouterPreference) (p q : PilotRecord) → preferred pref q p ≡ true → NoWorse pref q p
preferred-NoWorse least_loaded p q h = ground arith
preferred-NoWorse youngest p q h = ground arith

preferred-NoWorse_not :
    (pref : RouterPreference) (p q : PilotRecord) → preferred pref q p ≡ false → NoWorse pref p q
preferred-NoWorse_not least_loaded p q h = ground arith
preferred-NoWorse_not youngest p q h = ground arith

best_candidate :
    (pref : RouterPreference) (cands : List PilotRecord) (p : PilotRecord)
    → head_of (sort_by (preferred pref) cands) ≡ some p
    → All (NoWorse pref p) cands
best_candidate pref cands p h =
    head_of-sort_by (preferred pref) (NoWorse pref) (preferred-NoWorse pref)
      (preferred-NoWorse_not pref) (NoWorse-trans pref) (NoWorse-refl pref) cands p h

In-head_of : (xs : List PilotRecord) (p : PilotRecord) → head_of xs ≡ some p → In p xs
In-head_of [] p h = ground arith
In-head_of (x ∷ xs) p h = inl cc

attach_cases :
    (t s : TaskRecord) (o : Option PilotRecord) (p : PilotRecord)
    → attach t o ≡ some (s, p)
    → (t ≡ s) × (o ≡ some p)
unfolding attach
attach_cases t s none p h = ground arith
attach_cases t s (some q) p h = (ground arith, ground arith)

pub attach-none : (t : TaskRecord) (o : Option PilotRecord) → attach t o ≡ none → o ≡ none
unfolding attach
attach-none t none h = refl
attach-none t (some q) h = ground arith

-- One round of the loop: the task is dispatched to its best candidate, or it has none.
pub pick_for_cases :
    (cands : Outcome (List PilotRecord)) (pref : RouterPreference) (t s : TaskRecord)
    (rest : Outcome (Option (TaskRecord × PilotRecord))) (p : PilotRecord)
    → pick_for cands pref t rest ≡ returns (some (s, p))
    → ((t ≡ s) × (cs : List PilotRecord) × (cands ≡ returns cs) × In p cs × All (NoWorse pref p) cs)
      ⊎ ((cands ≡ returns []) × (rest ≡ returns (some (s, p))))
unfolding pick_for or_next route
pick_for_cases raised pref t s rest p h = ground arith
pick_for_cases (returns cs) pref t s rest p h =
    elim (Option-cases (attach t (head_of (sort_by (preferred pref) cs)))) [
      | inl e ↦ inr (ap returns (sort_by-none (preferred pref) cs (attach-none t _ e)), rw e at h)
      | inr (pair, e) ↦
          let h' : returns (some pair) ≡ returns (some (s, p)) = rw e at h in
          let both = attach_cases t s _ p (e ∙ unwrap pair h') in
          inl (
            both.0,
            cs,
            refl,
            In-sort_by (preferred pref) p cs (In-head_of _ p both.1),
            best_candidate pref cs p both.1,
          )
    ]
  where
    unwrap :
        (pair : TaskRecord × PilotRecord)
        → ◌≡◌ {A = Outcome (Option (TaskRecord × PilotRecord))}
            (returns (some pair))
            (returns (some (s, p)))
        → some pair ≡ some (s, p)
    unwrap pair k = cc
