-- ===== src/Conservative/Fitting.antt =====
-- task_dispatcher_strategy_conservative.py: the list comprehensions that filter by requirements.
use radical_orbit.Prelude.{
  ◌≡◌, refl, subst, ◌≢◌, ◌⊎◌, inl, inr, List, [], ◌∷◌, arith, All, All-map, In, nat_eq, string_eq,
  option_eq, pair_eq,
}
use radical_orbit.Prelude.Int.{int_eq}
use radical_orbit.Match.{Verdict, fits, rejects, raises}
use radical_orbit.Conservative.{Outcome, returns, raised, keep_verdict, keep_fitting}

module _ {A : Type 0} where
  -- One step of the filter that returns: the entry fits and is kept, or it is left out.
  keep_verdict_cases :
      (w : Verdict) (x : A) (rest : Outcome (List A)) (ys : List A)
      → keep_verdict w x rest ≡ returns ys
      → ((w ≡ fits) × (zs : List A) × (rest ≡ returns zs) × (x ∷ zs ≡ ys))
        ⊎ ((w ≢ fits) × (rest ≡ returns ys))
  unfolding keep_verdict
  keep_verdict_cases raises x rest ys h = ground arith
  keep_verdict_cases (rejects r) x rest ys h = inr (λ e. ground arith, h)
  keep_verdict_cases fits x raised ys h = ground arith
  keep_verdict_cases fits x (returns zs) ys h = inl (refl, zs, refl, ground arith)

  deeper :
      (v : A → Verdict) (x : A) (xs ys : List A)
      → All (λ y. (v y ≡ fits) × In y xs) ys
      → All (λ y. (v y ≡ fits) × In y (x ∷ xs)) ys
  deeper v x xs ys h = All-map _ _ (λ y k. (k.0, inr k.1)) ys h

  -- What the filter keeps fits, and was an entry.
  pub keep_fitting_sound :
      (v : A → Verdict) (xs ys : List A)
      → keep_fitting v xs ≡ returns ys
      → All (λ y. (v y ≡ fits) × In y xs) ys
  unfolding keep_fitting
  keep_fitting_sound v [] [] h = tt
  keep_fitting_sound v [] (y ∷ ys) h = ground arith
  keep_fitting_sound v (x ∷ xs) ys h = elim (keep_verdict_cases (v x) x (keep_fitting v xs) ys h) [
    | inl (e, zs, r, q) ↦
        subst (All (λ y. (v y ≡ fits) × In y (x ∷ xs))) q
          ((e, inl refl), deeper v x xs zs (keep_fitting_sound v xs zs r))
    | inr (e, r) ↦ deeper v x xs ys (keep_fitting_sound v xs ys r)
  ]

  -- Every entry that fits is kept.
  pub keep_fitting_complete :
      (v : A → Verdict) (xs ys : List A)
      → keep_fitting v xs ≡ returns ys
      → All (λ x. v x ≡ fits → In x ys) xs
  unfolding keep_fitting
  keep_fitting_complete v [] ys h = tt
  keep_fitting_complete v (x ∷ xs) ys h =
      elim (keep_verdict_cases (v x) x (keep_fitting v xs) ys h) [
        | inl (e, zs, r, q) ↦ (
          λ f. subst (In x) q (inl refl),
          All-map _ _ (λ y k f. subst (In y) q (inr (k f))) xs (keep_fitting_complete v xs zs r),
        )
        | inr (e, r) ↦ (λ f. absurd (e f), keep_fitting_complete v xs ys r)
      ]
