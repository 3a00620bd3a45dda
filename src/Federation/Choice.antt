-- ===== src/Federation/Choice.antt =====
-- federation_policy.py: which class a task goes to.
pub mod Classes
pub mod Picks
use radical_orbit.Prelude.{
  ℕ, ◌-◌, String, ◌≡◌, refl, sym, ap, subst, ◌∙◌, ◌≢◌, ◌⊎◌, inl, inr, Bool, true, false, not,
  Option, none, some, List, [], ◌∷◌, map, arith, if◌then◌else◌, Bool-cases, keep, All, All-map, In,
  In-All, All-In, nat_eq, string_eq, option_eq, pair_eq,
}
use radical_orbit.Prelude.Sorting.{sort_by, All-sort_by, All-of_sort}
use radical_orbit.Prelude.Count.{bit}
use radical_orbit.Prelude.Int.{int_eq}
use radical_orbit.Prelude.Dict.{Dict}
use radical_orbit.Admission.{and_then}
use radical_orbit.Admission.WellFormed.{and_then-some}
use radical_orbit.Federation.{MemberRecord}
use radical_orbit.Federation.Policy.{
  Wanted, Judged, judge, keep_accepted, fitting, ranked, ranks_before, eligible, costs_less,
  cheapest, Pick, beats, better, consider, pick_from, class_before, pick_class,
}

abbrev pub is_refused : Judged → Bool
is_refused (Judged.refused w) = true
is_refused Judged.accepted = false
is_refused Judged.raises = false

-- The one costs at most what the other costs.
abbrev pub CostsAtMost : MemberRecord → MemberRecord → Type 0
CostsAtMost x y = costs_less y x ≡ false

pub costs_refl : (x : MemberRecord) → CostsAtMost x x
costs_refl x = ground arith

pub costs_trans : (x y z : MemberRecord) → CostsAtMost x y → CostsAtMost y z → CostsAtMost x z
costs_trans x y z h k = ground arith

cheapest_next :
    (m x : MemberRecord) (xs : List MemberRecord)
    → costs_less x m ≡ true
    → cheapest m (x ∷ xs) ≡ cheapest x xs
unfolding cheapest
cheapest_next m x xs e = ap (λ b. cheapest (if b then x else m) xs) e

cheapest_same :
    (m x : MemberRecord) (xs : List MemberRecord)
    → costs_less x m ≡ false
    → cheapest m (x ∷ xs) ≡ cheapest m xs
unfolding cheapest
cheapest_same m x xs e = ap (λ b. cheapest (if b then x else m) xs) e

pub cheapest-In : (m : MemberRecord) (xs : List MemberRecord) → In (cheapest m xs) (m ∷ xs)
unfolding cheapest
cheapest-In m [] = inl refl
cheapest-In m (x ∷ xs) = elim (Bool-cases (costs_less x m)) [
  | inl e ↦ subst (λ c. In c (m ∷ x ∷ xs)) (sym (cheapest_next m x xs e)) (inr (cheapest-In x xs))
  | inr e ↦
      subst (λ c. In c (m ∷ x ∷ xs)) (sym (cheapest_same m x xs e))
        (skip (cheapest m xs) (cheapest-In m xs))
]
  where
    skip : (z : MemberRecord) → In z (m ∷ xs) → In z (m ∷ x ∷ xs)
    skip z (inl h) = inl h
    skip z (inr i) = inr (inr i)

pub cheapest-least :
    (m : MemberRecord) (xs : List MemberRecord) → All (CostsAtMost (cheapest m xs)) (m ∷ xs)
unfolding cheapest
cheapest-least m [] = (costs_refl m, tt)
cheapest-least m (x ∷ xs) = elim (Bool-cases (costs_less x m)) [
  | inl e ↦
      let (head, rest) = cheapest-least x xs in
      subst (λ c. All (CostsAtMost c) (m ∷ x ∷ xs)) (sym (cheapest_next m x xs e))
        (costs_trans (cheapest x xs) x m head (less_most x m e), (head, rest))
  | inr e ↦
      let (head, rest) = cheapest-least m xs in
      subst (λ c. All (CostsAtMost c) (m ∷ x ∷ xs)) (sym (cheapest_same m x xs e))
        (head, (costs_trans (cheapest m xs) m x head e, rest))
]
  where
    less_most : (x y : MemberRecord) → costs_less x y ≡ true → CostsAtMost x y
    less_most x y h = ground arith

module _ (want : Wanted) (now : ℕ) where
  abbrev pub Accepted : MemberRecord → Type 0
  Accepted m = judge want now m ≡ Judged.accepted

  -- What `fitting` keeps, by its result.
  kept_one :
      (m : MemberRecord) (j : Judged) (rest : Option (List MemberRecord)) (fs : List MemberRecord)
      → judge want now m ≡ j
      → keep_accepted j m rest ≡ some fs
      → ((gs : List MemberRecord) × (rest ≡ some gs) × (fs ≡ m ∷ gs) × Accepted m)
        ⊎ ((rest ≡ some fs) × (is_refused (judge want now m) ≡ true))
  unfolding keep_accepted
  kept_one m Judged.raises rest fs e h = ground arith
  kept_one m (Judged.refused w) rest fs e h = inr (h, ap is_refused e)
  kept_one m Judged.accepted none fs e h = ground arith
  kept_one m Judged.accepted (some gs) fs e h = inl (gs, refl, sym (same (m ∷ gs) fs h), e)
    where
      same : (xs ys : List MemberRecord) → some xs ≡ some ys → xs ≡ ys
      same xs ys h = cc

  -- A member is kept or refused, and only accepted members are kept.
  abbrev pub SortedOut : List MemberRecord → List MemberRecord → Type 0
  SortedOut ms fs =
      All (λ m. In m fs ⊎ (is_refused (judge want now m) ≡ true)) ms
      × All (λ m. In m ms × Accepted m) fs

  fitting-SortedOut : (ms fs : List MemberRecord) → fitting want now ms ≡ some fs → SortedOut ms fs
  unfolding fitting
  fitting-SortedOut [] fs h = subst (SortedOut []) (same [] fs h) (tt, tt)
    where
      same : (xs ys : List MemberRecord) → some xs ≡ some ys → xs ≡ ys
      same xs ys h = cc
  fitting-SortedOut (m ∷ ms) fs h =
      elim (kept_one m (judge want now m) (fitting want now ms) fs refl h) [
        | inl (gs, e, f, a) ↦
            let (out, ins) = fitting-SortedOut ms gs e in
            subst (SortedOut (m ∷ ms)) (sym f) (
              (inl (inl refl), All-map _ _ (λ z. wider gs m z) ms out),
              ((inl refl, a), All-map _ _ (λ z p. (inr p.0, p.1)) gs ins),
            )
        | inr (e, r) ↦
            let (out, ins) = fitting-SortedOut ms fs e in
            ((inr r, out), All-map _ _ (λ z p. (inr p.0, p.1)) fs ins)
      ]
    where
      wider :
          (gs : List MemberRecord) (x z : MemberRecord)
          → In z gs ⊎ (is_refused (judge want now z) ≡ true)
          → In z (x ∷ gs) ⊎ (is_refused (judge want now z) ≡ true)
      wider gs x z (inl i) = inl (inr i)
      wider gs x z (inr r) = inr r

  sorted_found :
      (fs : List MemberRecord) (z : MemberRecord)
      → In z fs ⊎ (is_refused (judge want now z) ≡ true)
      → In z (sort_by ranks_before fs) ⊎ (is_refused (judge want now z) ≡ true)
  sorted_found fs z (inr r) = inr r
  sorted_found fs z (inl i) = inl (
      In-All (λ x. In x (sort_by ranks_before fs)) z fs
        (All-of_sort ranks_before (λ x. In x (sort_by ranks_before fs)) fs
          (All-In (λ x. In x (sort_by ranks_before fs)) (sort_by ranks_before fs) (λ x k. k)))
        i)

  pub eligible-SortedOut :
      (ms es : List MemberRecord) → eligible want now ms ≡ some es → SortedOut ms es
  unfolding eligible ranked
  eligible-SortedOut ms es h = ranked_out (fitting want now ms) refl h
    where
      ranked_out :
          (o : Option (List MemberRecord))
          → fitting want now ms ≡ o
          → ranked o ≡ some es
          → SortedOut ms es
      ranked_out none e h = absurd (clash h)
        where
          clash : ◌≢◌ {A = Option (List MemberRecord)} none (some es)
          clash h = ground arith
      ranked_out (some fs) e h = subst (SortedOut ms) (same (sort_by ranks_before fs) es h) (
        All-map _ _ (λ z. sorted_found fs z) ms (fitting-SortedOut ms fs e).0,
        All-sort_by ranks_before _ fs (fitting-SortedOut ms fs e).1,
      )
        where
          same : (xs ys : List MemberRecord) → some xs ≡ some ys → xs ≡ ys
          same xs ys h = cc
