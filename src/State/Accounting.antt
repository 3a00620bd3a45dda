-- ===== src/State/Accounting.antt =====
-- task_dispatcher_state.py: what node-hour accounting guarantees.
use radical_orbit.Prelude.{
  ℕ, zero, suc, ◌+◌, ◌-◌, ◌*◌, ◌≤◌, min, ◌≡◌, refl, sym, ap, ◌∙◌, inl, inr, Bool, true, false, not,
  ◌&&◌, none, some, List, [], ◌∷◌, arith, ltb, leb, Option-cases, or_default, keep, All, nat_eq,
  string_eq, option_eq, pair_eq,
}
use radical_orbit.Prelude.Count.{bit}
use radical_orbit.Prelude.Int.{int_eq}
use radical_orbit.State.{PilotRecord, charge, node_hours}

-- Whether a pilot holds its nodes in the unit of time that starts at `i`: it is active, and has not
-- ended.
abbrev pub is_held : ℕ → PilotRecord → Bool
is_held i p = elim p.active_at [
  | none ↦ false
  | some start ↦ leb start i && elim p.finished_at [ none ↦ true | some stop ↦ ltb i stop ]
]

abbrev pub nodes_held : ℕ → List PilotRecord → ℕ
nodes_held i [] = 0
nodes_held i (p ∷ ps) = p.nodes * bit (is_held i p) + nodes_held i ps

-- The nodes held in each unit of time up to `now`, added up.
abbrev pub bill : List PilotRecord → ℕ → ℕ
bill ps zero = 0
bill ps (suc n) = bill ps n + nodes_held n ps

time_held : PilotRecord → ℕ → ℕ
time_held p zero = 0
time_held p (suc n) = time_held p n + bit (is_held n p)

bill-cons :
    (p : PilotRecord) (ps : List PilotRecord) (n : ℕ)
    → bill (p ∷ ps) n ≡ p.nodes * time_held p n + bill ps n
unfolding time_held
bill-cons p ps zero = grind arith
bill-cons p ps (suc n) = grind (arith, bill-cons p ps n)

never_held : (p : PilotRecord) (n : ℕ) → p.active_at ≡ none → time_held p n ≡ 0
unfolding time_held
never_held p zero e = refl
never_held p (suc n) e = ground (arith, never_held p n e)

held_on :
    (p : PilotRecord) (start n : ℕ)
    → p.active_at ≡ some start
    → p.finished_at ≡ none
    → time_held p n ≡ n - start
unfolding time_held
held_on p start zero e f = omega arith
held_on p start (suc n) e f = ground (arith, held_on p start n e f)

held_until :
    (p : PilotRecord) (start stop n : ℕ)
    → p.active_at ≡ some start
    → p.finished_at ≡ some stop
    → time_held p n ≡ min n stop - start
unfolding time_held
held_until p start stop zero e f = omega arith
held_until p start stop (suc n) e f = ground (arith, held_until p start stop n e f)

charge_active :
    (p : PilotRecord) (start now : ℕ)
    → p.active_at ≡ some start
    → charge now p ≡ p.nodes * (or_default p.finished_at now - start)
unfolding charge
charge_active p start now e = ground arith

charge-time_held :
    (p : PilotRecord) (now : ℕ)
    → or_default p.finished_at 0 ≤ now
    → charge now p ≡ p.nodes * time_held p now
unfolding charge
charge-time_held p now h = elim (Option-cases p.active_at) [
  | inl e ↦ ground (arith, ap (λ k. p.nodes * k) (never_held p now e))
  | inr (start, e) ↦ charge_active p start now e ∙ ap (λ k. p.nodes * k) (elapsed start e)
]
  where
    elapsed :
        (start : ℕ)
        → p.active_at ≡ some start
        → or_default p.finished_at now - start ≡ time_held p now
    elapsed start e = elim (Option-cases p.finished_at) [
      | inl f ↦ ground (arith, held_on p start now e f)
      | inr (stop, f) ↦ ground (arith, held_until p start stop now e f)
    ]

-- At any time that no pilot's end is later than, node_hours is the sum, over the units of time up
-- to then, of the nodes of the pilots that were active and had not ended: time in the queue, and
-- time after the end, are free.
pub node_hours-bill :
    (ps : List PilotRecord) (now : ℕ)
    → All (λ p. or_default p.finished_at 0 ≤ now) ps
    → node_hours ps now ≡ bill ps now
unfolding node_hours
node_hours-bill [] now h = sym (no_bill now)
  where
    no_bill : (n : ℕ) → bill [] n ≡ 0
    no_bill zero = refl
    no_bill (suc n) = omega (arith, no_bill n)
node_hours-bill (p ∷ ps) now h =
    omega (arith, charge-time_held p now h.0, node_hours-bill ps now h.1, bill-cons p ps now)

-- The pilots of disjoint selections are billed separately: a test splits the bill in two.
pub node_hours-keep :
    (mine : PilotRecord → Bool) (ps : List PilotRecord) (now : ℕ)
    → node_hours (keep mine ps) now + node_hours (keep (λ p. not (mine p)) ps) now
      ≡ node_hours ps now
unfolding node_hours keep
node_hours-keep mine [] now = omega arith
node_hours-keep mine (p ∷ ps) now = ground (arith, node_hours-keep mine ps now)
