-- ===== src/Conservative/Tick/Backlog.antt =====
-- `on_tick`: the backlog step, and what its candidates can run.
use radical_orbit.Prelude.{
  ℕ, String, ◌≡◌, refl, sym, subst, ◌⊎◌, inl, inr, Option, none, some, List, [], ◌∷◌, arith, In,
  In-All, nat_eq, string_eq, option_eq, pair_eq,
}
use radical_orbit.Prelude.Int.{int_eq}
use radical_orbit.Match.{fits}
use radical_orbit.Config.{PoolMember, reject_reason}
use radical_orbit.State.{PilotRecord, TaskRecord}
use radical_orbit.Pool.{PoolState, pending_queue, live_pilots, members}
use radical_orbit.Conservative.{
  ConservativePolicy, Outcome, returns, raised, keep_fitting, can_serve, note_service, service,
}
use radical_orbit.Conservative.Fitting.{keep_fitting_sound}
use radical_orbit.Conservative.Tick.{backlog_head, candidates_for, growers}

note_service_cases :
    (t : TaskRecord) (cands : Outcome (List PilotRecord))
    (rest : Outcome (List TaskRecord × List String)) (u : List TaskRecord) (s : List String)
    → note_service t cands rest ≡ returns (u, s)
    → (u' : List TaskRecord) × (s' : List String) × (rest ≡ returns (u', s'))
      × ((u ≡ t ∷ u') ⊎ (u ≡ u'))
unfolding note_service
note_service_cases t raised rest u s h = ground arith
note_service_cases t (returns ps) raised u s h = ground arith
note_service_cases t (returns []) (returns (u', s')) u s h = (u', s', refl, inl (ground arith))
note_service_cases t (returns (p ∷ ps)) (returns (u', s')) u s h =
    (u', s', refl, inr (ground arith))

-- An unserved task is a task of the queue.
service-In :
    (ts : List TaskRecord) (live : List PilotRecord) (u : List TaskRecord) (s : List String)
    → service ts live ≡ returns (u, s)
    → (t : TaskRecord) → In t u
    → In t ts
unfolding service
service-In [] live u s h t i = subst (In t) (empty u s h) i
  where
    empty :
        (u : List TaskRecord) (s : List String)
        → ◌≡◌ {A = Outcome (List TaskRecord × List String)} (returns ([], [])) (returns (u, s))
        → u ≡ []
    empty u s h = ground arith
service-In (x ∷ ts) live u s h t i =
    let (u', s', r, e) =
      note_service_cases x (keep_fitting (can_serve x) live) (service ts live) u s h in
    split u' e (service-In ts live u' s' r t)
  where
    among : (u' : List TaskRecord) → (In t u' → In t ts) → In t (x ∷ u') → In t (x ∷ ts)
    among u' later (inl e) = inl e
    among u' later (inr j) = inr (later j)

    split : (u' : List TaskRecord) → (u ≡ x ∷ u') ⊎ (u ≡ u') → (In t u' → In t ts) → In t (x ∷ ts)
    split u' (inl e) later = among u' later (subst (In t) e i)
    split u' (inr e) later = inr (later (subst (In t) e i))

-- The task of the queue that a member was chosen for: the member's default size can run it.
abbrev pub GrowsFor : PoolState → PoolMember → Type 0
GrowsFor ps m = (t : TaskRecord) × In t (pending_queue ps) × (reject_reason m t.requirements ≡ fits)

backlog_head-In :
    (u pending : List TaskRecord) (free : ℕ) (t : TaskRecord)
    → ((s : TaskRecord) → In s u → In s pending)
    → backlog_head u pending free ≡ some t
    → In t pending
unfolding backlog_head
backlog_head-In (x ∷ u) pending free t sub h = sub t (inl (ground arith))
backlog_head-In [] [] free t sub h = ground arith
backlog_head-In [] (p ∷ ps) free t sub h = inl (ground arith)

candidates_for-GrowsFor :
    (ps : PoolState) (o : Option TaskRecord) (cands : List PoolMember) (m : PoolMember)
    → ((t : TaskRecord) → o ≡ some t → In t (pending_queue ps))
    → candidates_for ps o ≡ returns cands
    → In m cands
    → In m (members ps) × GrowsFor ps m
unfolding candidates_for
candidates_for-GrowsFor ps none [] m queue h i = absurd i
candidates_for-GrowsFor ps none (c ∷ cs) m queue h i = ground arith
candidates_for-GrowsFor ps (some t) cands m queue h i =
    let found =
      In-All _ m cands
        (keep_fitting_sound (λ n. reject_reason n t.requirements) (members ps) cands h) i in
    (found.1, (t, queue t refl, found.0))

pub growers-GrowsFor :
    (c : ConservativePolicy) (ps : PoolState) (now : ℕ)
    (served : Outcome (List TaskRecord × List String)) (cands : List PoolMember) (m : PoolMember)
    → served ≡ service (pending_queue ps) (live_pilots ps)
    → growers c ps now served ≡ returns cands
    → In m cands
    → In m (members ps) × GrowsFor ps m
unfolding growers
growers-GrowsFor c ps now raised cands m e h i = ground arith
growers-GrowsFor c ps now (returns (u, s)) cands m e h i =
    candidates_for-GrowsFor ps _ cands m
      (λ t.
        backlog_head-In u (pending_queue ps) _ t
          (service-In (pending_queue ps) (live_pilots ps) u s (sym e)))
      h i
