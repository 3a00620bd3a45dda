-- ===== src/Events/Counters.antt =====
-- broker_events.py: the bounded table of per-stream counters and its high-water mark.
use radical_orbit.Prelude.{
  ℕ, ◌+◌, ◌≤◌, ◌<◌, ◌≡◌, refl, ◌⊎◌, inl, inr, Option, none, some, [], ◌∷◌, ◌++◌, arith, ltb,
  if◌then◌else◌, Bool-cases, Option-cases, length, Eq, ◌==◌, nat_eq, string_eq, option_eq, ==_refl,
  ==_iff, pair_eq,
}
use radical_orbit.Prelude.Int.{int_eq}
use radical_orbit.Prelude.Dict.{Dict, lookup, insert, remove, lookup-insert, lookup-remove}
use radical_orbit.Queues.{tail}
use radical_orbit.Subscriptions.{StreamKey}
use radical_orbit.Events.{EventRouter, bounded_table, next_seq, issue_session}

module _ {ℓ κ} {K : Type ℓ} {V : Type κ} ⦃e : Eq K⦄ where
  -- Every key stands once.
  abbrev pub Distinct : Dict K V → Type κ
  Distinct [] = Unit
  Distinct ((k, v) ∷ d) = (lookup k d ≡ none) × Distinct d

  pub lookup-snoc :
      (j k : K) (v : V) (d : Dict K V)
      → lookup j (d ++ (k, v) ∷ [])
        ≡ elim (lookup j d) [ some w ↦ some w | none ↦ (if k == j then some v else none) ]
  unfolding lookup
  lookup-snoc j k v [] = refl
  lookup-snoc j k v ((i, w) ∷ d) = ground (arith, lookup-snoc j k v d)

  pub Distinct-remove : (k : K) (d : Dict K V) → Distinct d → Distinct (remove k d)
  unfolding remove
  Distinct-remove k [] h = tt
  Distinct-remove k ((j, v) ∷ d) h = ground (arith, lookup-remove k j d, Distinct-remove k d h.1)

  pub Distinct-insert : (k : K) (v : V) (d : Dict K V) → Distinct d → Distinct (insert k v d)
  unfolding insert lookup
  Distinct-insert k v [] h = (refl, tt)
  Distinct-insert k v ((j, w) ∷ d) h =
      ground (arith, e.beq_iff k j, e.beq_iff j k, lookup-insert k j v d, Distinct-insert k v d h.1)

  pub Distinct-snoc :
      (k : K) (v : V) (d : Dict K V) → lookup k d ≡ none → Distinct d → Distinct (d ++ (k, v) ∷ [])
  unfolding lookup
  Distinct-snoc k v [] h g = (refl, tt)
  Distinct-snoc k v ((j, w) ∷ d) h g =
      ground (arith, e.beq_iff k j, e.beq_iff j k, lookup-snoc j k v d, Distinct-snoc k v d)

  -- Without its first entry a table answers as before, or not at all.
  lookup-tail :
      (j : K) (d : Dict K V)
      → Distinct d
      → (lookup j (tail d) ≡ lookup j d) ⊎ (lookup j (tail d) ≡ none)
  unfolding lookup
  lookup-tail j [] h = inl refl
  lookup-tail j ((i, w) ∷ d) h = ground (arith, e.beq_iff i j)

Distinct-tail : (d : Dict StreamKey ℕ) → Distinct d → Distinct (tail d)
Distinct-tail [] h = tt
Distinct-tail (x ∷ d) h = h.1

lookup-bounded_table :
    (j : StreamKey) (n : ℕ) (d : Dict StreamKey ℕ)
    → Distinct d
    → (lookup j (bounded_table n d) ≡ lookup j d) ⊎ (lookup j (bounded_table n d) ≡ none)
lookup-bounded_table j n d h = elim (Bool-cases (ltb n (length d))) [
  | inl full ↦ rw full (lookup-tail j d h)
  | inr room ↦ rw room (inl refl)
]

Distinct-bounded_table : (n : ℕ) (d : Dict StreamKey ℕ) → Distinct d → Distinct (bounded_table n d)
Distinct-bounded_table n d h = elim (Bool-cases (ltb n (length d))) [
  | inl full ↦ rw full (Distinct-tail d h)
  | inr room ↦ rw room h
]

pub record IsNumbered {Frame : Type 0} (r : EventRouter Frame) : Type 0 where
  pub distinct : Distinct r.session_seq
  pub below_base :
      (k : StreamKey) (n : ℕ) → lookup k r.session_seq ≡ some n → n ≤ r.session_seq_base

-- The number that the next event of a stream would get.
abbrev pub upcoming : {Frame : Type 0} → Option StreamKey → EventRouter Frame → ℕ
upcoming none r = r.global_seq
upcoming (some k) r = next_seq k r

module _ {Frame : Type 0} (key : StreamKey) (r : EventRouter Frame) (v : IsNumbered r) where
  appended-Distinct : Distinct (remove key r.session_seq ++ (key, next_seq key r + 1) ∷ [])
  appended-Distinct =
      Distinct-snoc key (next_seq key r + 1) (remove key r.session_seq)
        (ground (arith, lookup-remove key key r.session_seq, ==_refl key))
        (Distinct-remove key r.session_seq v.distinct)

  lookup-appended :
      (j : StreamKey)
      → lookup j (remove key r.session_seq ++ (key, next_seq key r + 1) ∷ [])
        ≡ (if key == j then some (next_seq key r + 1) else lookup j r.session_seq)
  lookup-appended j = ground (
    arith,
    lookup-snoc j key (next_seq key r + 1) (remove key r.session_seq),
    lookup-remove key j r.session_seq,
  )

  -- The table before it is bounded.
  abbrev appended : Dict StreamKey ℕ
  appended = remove key r.session_seq ++ (key, next_seq key r + 1) ∷ []

  pub issue_session-IsNumbered : IsNumbered (issue_session key r)
  unfolding issue_session
  issue_session-IsNumbered = record {
    distinct = Distinct-bounded_table r.session_seq_max appended appended-Distinct;
    below_base = λ j n h. ground (
      arith,
      lookup-bounded_table j r.session_seq_max appended appended-Distinct,
      lookup-appended j,
      v.below_base j n,
    );
  }

  -- No stream's next number falls, and the issued stream's next number is past the issued one.
  pub issue_session-next_seq :
      (j : StreamKey)
      → (next_seq j r ≤ next_seq j (issue_session key r))
        × (key ≡ j → next_seq key r < next_seq j (issue_session key r))
  unfolding issue_session next_seq
  issue_session-next_seq j = elim (Option-cases (lookup j r.session_seq)) [
    | inl e ↦ ground (
      arith,
      lookup-bounded_table j r.session_seq_max appended appended-Distinct,
      lookup-appended j,
      ==_iff key j,
      e,
    )
    | inr (n, e) ↦ ground (
      arith,
      lookup-bounded_table j r.session_seq_max appended appended-Distinct,
      lookup-appended j,
      ==_iff key j,
      v.below_base j n,
      e,
    )
  ]
