-- ===== src/Federation/Choice/Picks.antt =====
-- federation_policy.py: what `pick_class` answers.
use radical_orbit.Prelude.{
  ℕ, String, ◌≡◌, refl, ◌∙◌, ◌≢◌, ◌↔◌, ◌⊎◌, inl, inr, true, Option, none, some, List, [], ◌∷◌,
  arith, All, In, nat_eq, string_eq, option_eq, pair_eq,
}
use radical_orbit.Prelude.Sorting.{sort_by, All-sort_by, In-sort_by, All-of_sort}
use radical_orbit.Prelude.Int.{int_eq}
use radical_orbit.Prelude.Dict.{Dict}
use radical_orbit.Federation.{MemberRecord}
use radical_orbit.Federation.Policy.{
  Wanted, Judged, judge, keep_accepted, fitting, ranked, eligible, Pick, consider, pick_from,
  class_before, pick_class,
}
use radical_orbit.Federation.Choice.{is_refused, CostsAtMost, Accepted}
use radical_orbit.Federation.Choice.Classes.{Refused, Within, Least, Outcome, pick_from-Outcome}

module _ (want : Wanted) (now : ℕ) where
  fitting-none :
      (ms : List MemberRecord)
      → All (λ m. is_refused (judge want now m) ≡ true) ms
      → fitting want now ms ≡ some []
  unfolding fitting
  fitting-none [] h = refl
  fitting-none (m ∷ ms) (h, hs) = one (judge want now m) h ∙ fitting-none ms hs
    where
      one :
          (j : Judged)
          → is_refused j ≡ true
          → keep_accepted j m (fitting want now ms) ≡ fitting want now ms
      one (Judged.refused w) h = refl
      one Judged.accepted h = ground arith
      one Judged.raises h = ground arith

  pick_from-none :
      (classes : Dict String (List MemberRecord)) (best : Option Pick)
      → Refused want now classes
      → pick_from want now classes best ≡ some best
  unfolding pick_from Refused consider eligible ranked sort_by
  pick_from-none [] best h = refl
  pick_from-none ((cls, ms) ∷ rest) best (h, hs) =
      rw (pick_from, fitting-none ms h) (pick_from-none rest best hs)

  -- For any requirements, clock and classes, the policy names no class, without an error of the
  -- matcher, exactly when it has a reason to refuse every member of every class: an ended
  -- allocation, a liveness other than ok, an unmet requirement, or too little budget.
  pub pick_class-none :
      (classes : Dict String (List MemberRecord))
      → (pick_class want now classes ≡ some none)
        ↔ All (λ c. All (λ m. is_refused (judge want now m) ≡ true) c.1) classes
  unfolding pick_class Refused Outcome
  pick_class-none classes = (
    λ h.
        All-of_sort class_before _ classes
          (pick_from-Outcome want now (sort_by class_before classes) none none h).1,
    λ h. pick_from-none (sort_by class_before classes) none (All-sort_by class_before _ classes h),
  )

  -- When the policy picks a class, the class is one of those given, its cheapest and its best-
  -- ranked member are members of it that fit the requirements, and no fitting member of any class
  -- has fewer GPUs per node than that cheapest one, nor as many GPUs and fewer cores.
  pub pick_class-cheapest :
      (classes : Dict String (List MemberRecord)) (p : Pick)
      → pick_class want now classes ≡ some (some p)
      → ((ms : List MemberRecord) × In (p.cls, ms) classes
          × In p.cheapest ms
          × Accepted want now p.cheapest
          × In p.best ms
          × Accepted want now p.best)
        × All (λ c. All (λ m. Accepted want now m → CostsAtMost p.cheapest m) c.1) classes
  unfolding pick_class Outcome Within Least
  pick_class-cheapest classes p h =
      let (from, most, least) =
        pick_from-Outcome want now (sort_by class_before classes) none (some p) h in
      (origin from, All-of_sort class_before _ classes least)
    where
      origin :
          (none ≡ some p) ⊎ Within want now (sort_by class_before classes) p
          → (ms : List MemberRecord) × In (p.cls, ms) classes
            × In p.cheapest ms
            × Accepted want now p.cheapest
            × In p.best ms
            × Accepted want now p.best
      origin (inl e) = absurd (clash e)
        where
          clash : none ≢ some p
          clash e = ground arith
      origin (inr (ms, i, a, b, c, d)) =
          (ms, In-sort_by class_before (p.cls, ms) classes i, a, b, c, d)
