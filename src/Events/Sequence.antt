-- ===== src/Events/Sequence.antt =====
-- broker_events.py: the numbers that `ingest` gives to events never go backwards on a stream.
use radical_orbit.Prelude.{
  ℕ, ◌≤◌, ◌<◌, String, ◌≡◌, refl, subst, ◌⊎◌, inl, inr, Option, none, some, List, [], ◌∷◌, ◌++◌,
  arith, All, All-map, nat_eq, string_eq, option_eq, pair_eq,
}
use radical_orbit.Prelude.Int.{int_eq}
use radical_orbit.Prelude.Dict.{lookup}
use radical_orbit.Subscriptions.{StreamKey, no_empty}
use radical_orbit.Events.{
  EventRouter, RawEvent, Event, Call, connects, leaves, suspects, subscribes, taps_in, arrives,
  stream_of, stream_for, next_seq, issue_session, issue_global, handle, handle_all, fresh_router,
  deliver, number,
}
use radical_orbit.Events.Counters.{
  IsNumbered, upcoming, issue_session-IsNumbered, issue_session-next_seq,
}

issue_session-upcoming :
    {Frame : Type 0} (key : StreamKey) (r : EventRouter Frame)
    → IsNumbered r
    → (k : Option StreamKey) → upcoming k r ≤ upcoming k (issue_session key r)
issue_session-upcoming key r v none = unfold issue_session in omega arith
issue_session-upcoming key r v (some j) = (issue_session-next_seq key r v j).0

issue_global-upcoming :
    {Frame : Type 0} (r : EventRouter Frame) (k : Option StreamKey)
    → upcoming k r ≤ upcoming k (issue_global r)
unfolding issue_global next_seq
issue_global-upcoming r none = omega arith
issue_global-upcoming r (some j) = omega arith

-- Calls that carry no event leave the counters alone.
pub record SameCounters {Frame : Type 0} (r s : EventRouter Frame) : Type 0 where
  pub table : s.session_seq ≡ r.session_seq
  pub base : s.session_seq_base ≡ r.session_seq_base
  pub global : s.global_seq ≡ r.global_seq

-- What one call does to the counters: they stay consistent and never fall, and a number that it
-- gives out is the stream's next one, which it uses up.
abbrev Advances :
    {Frame : Type 0} → EventRouter Frame → List (Option StreamKey × ℕ) → EventRouter Frame → Type 0
Advances r issued s =
    IsNumbered s
    × ((k : Option StreamKey) → upcoming k r ≤ upcoming k s)
    × All (λ p. (upcoming p.0 r ≤ p.1) × (p.1 < upcoming p.0 s)) issued

module _ {Frame : Type 0} (r s : EventRouter Frame) (v : IsNumbered r) where
  upcoming-same : SameCounters r s → (k : Option StreamKey) → upcoming k s ≡ upcoming k r
  unfolding next_seq
  upcoming-same c none = c.global
  upcoming-same c (some k) = rw (c.table, c.base)

  SameCounters-Advances : SameCounters r s → Advances r [] s
  SameCounters-Advances c = (
    record {
      distinct = rw c.table v.distinct;
      below_base = λ k n h. rw c.base (v.below_base k n (rw c.table at h));
    },
    (λ k. omega (arith, upcoming-same c k)),
    tt,
  )

number-Advances :
    {Frame : Type 0} (o : Option String) (src : String) (plugin : Option String)
    (r : EventRouter Frame)
    → IsNumbered r
    → Advances r
        ((stream_for src plugin o, (number o src plugin r).0) ∷ [])
        (number o src plugin r).1
unfolding number
number-Advances none src plugin r v = (
  record { distinct = v.distinct; below_base = v.below_base },
  issue_global-upcoming r,
  ((omega arith, omega arith), tt),
)
number-Advances (some s) src plugin r v =
    let key : StreamKey = (src, (plugin, s)) in
    (
      issue_session-IsNumbered key r v,
      issue_session-upcoming key r v,
      ((omega arith, (issue_session-next_seq key r v key).1 refl), tt),
    )

Advances-same :
    {Frame : Type 0} {r s : EventRouter Frame} (issued : List (Option StreamKey × ℕ))
    (t : EventRouter Frame)
    → Advances r issued s
    → SameCounters s t
    → Advances r issued t
Advances-same {s = s} issued t a c =
    let same = SameCounters-Advances s t a.0 c in
    (
      same.0,
      (λ k. omega (arith, a.1 k, same.1 k)),
      All-map _ _ (λ p h. omega (arith, h.0, h.1, same.1 p.0)) issued a.2,
    )

module _ {Body Frame : Type 0} (pack : Event Body → Frame) where
  same_out :
      (r : EventRouter Frame)
      → (src : String) (raw : RawEvent Body) (seq now : ℕ)
      → SameCounters r (deliver pack src raw seq now r)
  unfolding deliver
  same_out r src raw seq now = record { table = refl; base = refl; global = refl }

  handle-Advances :
      (c : Call Body) (r : EventRouter Frame)
      → IsNumbered r
      → Advances r (handle pack c r).0 (handle pack c r).1
  unfolding handle
  handle-Advances (arrives src raw now) r v =
      Advances-same ((stream_of src raw, _) ∷ []) _
        (number-Advances (no_empty raw.session) src raw.plugin r v) (same_out _ src raw _ now)
  handle-Advances (connects name) r v =
      SameCounters-Advances r _ v (record { table = refl; base = refl; global = refl })
  handle-Advances (leaves name) r v =
      SameCounters-Advances r _ v (record { table = refl; base = refl; global = refl })
  handle-Advances (suspects name) r v =
      SameCounters-Advances r _ v (record { table = refl; base = refl; global = refl })
  handle-Advances (subscribes name raw add) r v =
      SameCounters-Advances r _ v (record { table = refl; base = refl; global = refl })
  handle-Advances (taps_in cb) r v =
      SameCounters-Advances r _ v (record { table = refl; base = refl; global = refl })

-- On each stream the numbers that were given out rise.
abbrev pub IsIncreasing : List (Option StreamKey × ℕ) → Type 0
IsIncreasing [] = Unit
IsIncreasing (p ∷ ps) = All (λ q. p.0 ≡ q.0 → p.1 < q.1) ps × IsIncreasing ps

-- What one call gives out, in front of what the later ones do.
join_issued :
    {Frame : Type 0} (r s : EventRouter Frame) (issued later : List (Option StreamKey × ℕ))
    → (issued ≡ []) ⊎ ((p : Option StreamKey × ℕ) × (issued ≡ p ∷ []))
    → Advances r issued s
    → All (λ p. upcoming p.0 s ≤ p.1) later × IsIncreasing later
    → All (λ p. upcoming p.0 r ≤ p.1) (issued ++ later) × IsIncreasing (issued ++ later)
join_issued r s [] later one a h = (All-map _ _ (λ p g. omega (arith, g, a.1 p.0)) later h.0, h.1)
join_issued r s (p ∷ []) later one a h = (
  (a.2.0.0, All-map _ _ (λ q g. omega (arith, g, a.1 q.0)) later h.0),
  (
    All-map _ _ (λ q g e. omega (arith, g, subst (λ k. p.1 < upcoming k s) e a.2.0.1)) later h.0,
    h.1,
  ),
)
join_issued r s (p ∷ q ∷ ps) later one a h = ground arith

module _ {Body Frame : Type 0} (pack : Event Body → Frame) where
  handle_issues :
      (c : Call Body) (r : EventRouter Frame)
      → ((handle pack c r).0 ≡ []) ⊎ ((p : Option StreamKey × ℕ) × ((handle pack c r).0 ≡ p ∷ []))
  unfolding handle
  handle_issues (arrives src raw now) r = inr (_, refl)
  handle_issues (connects name) r = inl refl
  handle_issues (leaves name) r = inl refl
  handle_issues (suspects name) r = inl refl
  handle_issues (subscribes name raw add) r = inl refl
  handle_issues (taps_in cb) r = inl refl

  handle_all-IsIncreasing :
      (cs : List (Call Body)) (r : EventRouter Frame)
      → IsNumbered r
      → All (λ p. upcoming p.0 r ≤ p.1) (handle_all pack cs r).0
        × IsIncreasing (handle_all pack cs r).0
  unfolding handle_all
  handle_all-IsIncreasing [] r v = (tt, tt)
  handle_all-IsIncreasing (c ∷ cs) r v =
      let a = handle-Advances pack c r v in
      join_issued r (handle pack c r).1 (handle pack c r).0
        (handle_all pack cs (handle pack c r).1).0 (handle_issues c r) a
        (handle_all-IsIncreasing cs (handle pack c r).1 a.0)

  fresh-IsNumbered : (depth seq_max : ℕ) → IsNumbered (fresh_router {Frame = Frame} depth seq_max)
  unfolding lookup
  fresh-IsNumbered depth seq_max = record { distinct = tt; below_base = λ k n h. cc }

  -- From a new router, whatever calls come in whatever order, and however small the table of
  -- counters: of two events of one stream, or of two session-less events, the later one has the
  -- greater number, also when the stream was pruned in between.
  pub seq-IsIncreasing :
      (depth seq_max : ℕ) (cs : List (Call Body))
      → IsIncreasing (handle_all pack cs (fresh_router depth seq_max)).0
  seq-IsIncreasing depth seq_max cs =
      (handle_all-IsIncreasing cs (fresh_router depth seq_max) (fresh-IsNumbered depth seq_max)).1
