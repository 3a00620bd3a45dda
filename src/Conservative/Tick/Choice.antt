-- ===== src/Conservative/Tick/Choice.antt =====
-- `on_tick`: the member that a pilot is requested for.
use radical_orbit.Prelude.{
  ℕ, ◌<◌, String, ◌≡◌, refl, sym, ap, subst, ◌∙◌, ◌⊎◌, inl, inr, Bool, true, false, Option, some,
  List, [], ◌∷◌, arith, ltb, ltb→lt, head_of, In, In-keep, keep-In, nat_eq, string_eq, option_eq,
  pair_eq,
}
use radical_orbit.Prelude.Dict.{Dict}
use radical_orbit.Prelude.Sorting.{In-sort_by}
use radical_orbit.Prelude.Int.{int_eq}
use radical_orbit.Config.{PoolMember}
use radical_orbit.Pool.{PoolState, members}
use radical_orbit.Conservative.{
  ConservativePolicy, Outcome, returns, raised, clears_guards, pass_guards,
}
use radical_orbit.Conservative.Guards.{
  MayGrow, pass_guards-keep, pass_guards-MayGrow, with_log, pass_guards-with_log,
}
use radical_orbit.Conservative.Tick.{
  load_of, below_floor, backlog_candidates, under_ceiling, ranks_before, choose_member,
  backlog_step, tick_step, tick_members, on_tick,
}
use radical_orbit.Conservative.Tick.Backlog.{GrowsFor, growers-GrowsFor}

choose_member_cases :
    (b : Bool) (o : Option PoolMember) (m : PoolMember)
    → ◌≡◌ {A = Outcome (Option PoolMember)} (returns (choose_member b o)) (returns (some m))
    → (b ≡ true) × (o ≡ some m)
unfolding choose_member
choose_member_cases true o m h = (refl, cc)
choose_member_cases false o m h = ground arith

In-head_of : (ms : List PoolMember) (m : PoolMember) → head_of ms ≡ some m → In m ms
In-head_of [] m h = ground arith
In-head_of (x ∷ xs) m h = inl cc

-- Where the member comes from, by the policy that the floor's guards left.
tick_step_cases :
    (g : List PoolMember × ConservativePolicy) (ps : PoolState) (now : ℕ) (m : PoolMember)
    → (tick_step g ps now).0 ≡ returns (some m)
    → (under_ceiling g.1 ps ≡ true)
      × (In m g.0
          ⊎ ((cands : List PoolMember) × (backlog_candidates g.1 ps now ≡ returns cands)
              × In m (pass_guards g.1 ps cands now).0))
unfolding tick_step backlog_step
tick_step_cases ((x ∷ xs), c) ps now m h =
    let (yes_, e) = choose_member_cases (under_ceiling c ps) (some x) m h in (yes_, inl (inl cc))
tick_step_cases ([], c) ps now m h = backlog_cases (backlog_candidates c ps now) refl h
  where
    backlog_cases :
        (o : Outcome (List PoolMember))
        → o ≡ backlog_candidates c ps now
        → (backlog_step o c ps now).0 ≡ returns (some m)
        → (under_ceiling c ps ≡ true)
          × (In m []
              ⊎ ((cands : List PoolMember) × (backlog_candidates c ps now ≡ returns cands)
                  × In m (pass_guards c ps cands now).0))
    backlog_cases raised e k = ground arith
    backlog_cases (returns cands) e k =
        let (yes_, first) = choose_member_cases (under_ceiling c ps) _ m k in
        (
          yes_,
          inr (
            cands,
            sym e,
            In-sort_by (ranks_before c.member_preference ps now) m _ (In-head_of _ m first),
          ),
        )

abbrev pub Justified : ConservativePolicy → PoolState → ℕ → PoolMember → Type 0
Justified c ps now m =
    MayGrow c ps now m
    × In m (members ps)
    × (under_ceiling c ps ≡ true)
    × ((load_of ps m < m.min_pilots) ⊎ GrowsFor ps m)

from_floor :
    (c : ConservativePolicy) (ps : PoolState) (now : ℕ) (m : PoolMember)
    → under_ceiling c ps ≡ true
    → In m (pass_guards c ps (below_floor ps) now).0
    → Justified c ps now m
unfolding below_floor
from_floor c ps now m room i =
    let (may, j) = pass_guards-MayGrow c ps (below_floor ps) now m i in
    let (low, k) = In-keep (λ n. ltb (load_of ps n) n.min_pilots) m (members ps) j in
    (may, k, room, inl (ltb→lt (load_of ps m) m.min_pilots low))

from_backlog :
    (c : ConservativePolicy) (ps : PoolState) (now : ℕ) (m : PoolMember) (cands : List PoolMember)
    → under_ceiling c ps ≡ true
    → backlog_candidates c ps now ≡ returns cands
    → In m (pass_guards c ps cands now).0
    → Justified c ps now m
unfolding backlog_candidates
from_backlog c ps now m cands room b i =
    let (may, j) = pass_guards-MayGrow c ps cands now m i in
    let (k, grows) = growers-GrowsFor c ps now _ cands m refl b j in (may, k, room, inr grows)

Justified-with_log :
    (c : ConservativePolicy) (d : Dict String Bool) (ps : PoolState) (now : ℕ) (m : PoolMember)
    → Justified (with_log c d) ps now m
    → Justified c ps now m
unfolding under_ceiling
Justified-with_log c d ps now m h = h

under_ceiling-with_log :
    (c : ConservativePolicy) (d : Dict String Bool) (ps : PoolState)
    → under_ceiling (with_log c d) ps ≡ under_ceiling c ps
unfolding under_ceiling
under_ceiling-with_log c d ps = refl

tick_step-Justified :
    (c : ConservativePolicy) (ps : PoolState) (now : ℕ) (m : PoolMember) (d : Dict String Bool)
    (eligible : List PoolMember)
    → eligible ≡ (pass_guards c ps (below_floor ps) now).0
    → (tick_step (eligible, with_log c d) ps now).0 ≡ returns (some m)
    → Justified c ps now m
tick_step-Justified c ps now m d eligible e h =
    let (room, source) = tick_step_cases (eligible, with_log c d) ps now m h in
    elim source [
      | inl i ↦
          from_floor c ps now m (sym (under_ceiling-with_log c d ps) ∙ room) (subst (In m) e i)
      | inr (cands, b, i) ↦
          Justified-with_log c d ps now m (from_backlog (with_log c d) ps now m cands room b i)
    ]

-- A member that the tick requests a pilot for is one of the pool's, out of its failure backoff,
-- below its own limits on pilots and on pilots not yet active, past its dwell and within its
-- budget; the pool as a whole is below its ceiling of submissions in flight; and the member is
-- below its floor, or its default size can run a task that is waiting.
pub on_tick-Justified :
    (c : ConservativePolicy) (ps : PoolState) (now : ℕ) (m : PoolMember)
    → (on_tick c ps now).0 ≡ returns (some m)
    → Justified c ps now m
unfolding on_tick tick_members
on_tick-Justified c ps now m h = nonempty (members ps) h
  where
    nonempty :
        (ms : List PoolMember)
        → (tick_members ms c ps now).0 ≡ returns (some m)
        → Justified c ps now m
    nonempty [] k = ground arith
    nonempty (x ∷ xs) k =
        let (d, e) = pass_guards-with_log c ps (below_floor ps) now in
        tick_step-Justified c ps now m d (pass_guards c ps (below_floor ps) now).0 refl (
          subst
            (λ z.
              (tick_step ((pass_guards c ps (below_floor ps) now).0, z) ps now).0
              ≡ returns (some m))
            e k)

floor_step :
    (eligible : List PoolMember) (c : ConservativePolicy) (ps : PoolState) (now : ℕ)
    (m : PoolMember)
    → In m eligible
    → under_ceiling c ps ≡ true
    → (n : PoolMember) × ((tick_step (eligible, c) ps now).0 ≡ returns (some n)) × In n eligible
unfolding tick_step choose_member
floor_step [] c ps now m i room = absurd i
floor_step (x ∷ xs) c ps now m i room = (x, rw room refl, inl refl)

tick_members-step :
    (ms : List PoolMember) (c : ConservativePolicy) (ps : PoolState) (now : ℕ) (m : PoolMember)
    → In m ms
    → tick_members ms c ps now ≡ tick_step (pass_guards c ps (below_floor ps) now) ps now
unfolding tick_members
tick_members-step [] c ps now m i = absurd i
tick_members-step (x ∷ xs) c ps now m i = refl

below_floor-member : (ps : PoolState) (m : PoolMember) → In m (below_floor ps) → In m (members ps)
unfolding below_floor
below_floor-member ps m i = (In-keep _ m (members ps) i).1

-- The floor is never starved: while the pool is below its ceiling, if some member below its floor
-- clears the guards then the tick requests a pilot for such a member, whatever the backlog.
pub on_tick-below_floor :
    (c : ConservativePolicy) (ps : PoolState) (now : ℕ) (m : PoolMember)
    → In m (below_floor ps)
    → clears_guards c ps now m ≡ true
    → under_ceiling c ps ≡ true
    → (n : PoolMember) × ((on_tick c ps now).0 ≡ returns (some n))
      × In n (below_floor ps)
      × (clears_guards c ps now n ≡ true)
unfolding on_tick
on_tick-below_floor c ps now m i h room =
    let g = pass_guards c ps (below_floor ps) now in
    let (d, e) = pass_guards-with_log c ps (below_floor ps) now in
    let offered =
      subst (In m) (sym (pass_guards-keep c ps (below_floor ps) now))
        (keep-In (clears_guards c ps now) m (below_floor ps) i h) in
    let open_ = ap (λ z. under_ceiling z ps) e ∙ under_ceiling-with_log c d ps ∙ room in
    let (n, step, j) = floor_step g.0 g.1 ps now m offered open_ in
    let kept =
      In-keep (clears_guards c ps now) n (below_floor ps)
        (subst (In n) (pass_guards-keep c ps (below_floor ps) now) j) in
    (
      n,
      ap (λ z. z.0) (tick_members-step (members ps) c ps now m (below_floor-member ps m i)) ∙ step,
      kept.1,
      kept.0,
    )
