-- ===== src/Federation/Choice/Classes.antt =====
-- federation_policy.py: the loop of `pick_class` over the classes.
use radical_orbit.Prelude.{
  ℕ, String, ◌≡◌, refl, sym, ap, subst, ◌∙◌, ◌≢◌, ◌⊎◌, inl, inr, true, false, Option, none, some,
  List, [], ◌∷◌, arith, Bool-cases, All, All-map, In, In-All, nat_eq, string_eq, option_eq, pair_eq,
}
use radical_orbit.Prelude.Int.{int_eq}
use radical_orbit.Prelude.Dict.{Dict}
use radical_orbit.Admission.WellFormed.{and_then-some}
use radical_orbit.Federation.{MemberRecord}
use radical_orbit.Federation.Policy.{
  Wanted, judge, eligible, cheapest, Pick, beats, better, consider, pick_from,
}
use radical_orbit.Federation.Choice.{
  is_refused, CostsAtMost, costs_refl, costs_trans, cheapest-In, cheapest-least, Accepted,
  SortedOut, eligible-SortedOut,
}

module _ (want : Wanted) (now : ℕ) where
  unfoldable pub Refused : Dict String (List MemberRecord) → Type 0
  Refused classes = All (λ p. All (λ m. is_refused (judge want now m) ≡ true) p.1) classes

  -- The pick is of a class that has its cheapest and its best member, both accepted.
  unfoldable pub Within : Dict String (List MemberRecord) → Pick → Type 0
  Within classes p =
      (ms : List MemberRecord) × In (p.cls, ms) classes
      × In p.cheapest ms
      × Accepted want now p.cheapest
      × In p.best ms
      × Accepted want now p.best

  -- No accepted member costs less than the cheapest one of the pick.
  unfoldable pub Least : Dict String (List MemberRecord) → Pick → Type 0
  Least classes p = All (λ c. All (λ m. Accepted want now m → CostsAtMost p.cheapest m) c.1) classes

  unfoldable pub AtMost : Option Pick → Pick → Type 0
  AtMost none p = Unit
  AtMost (some q) p = CostsAtMost p.cheapest q.cheapest

  -- What a loop over the classes gives, from the best so far.
  unfoldable pub Outcome : Dict String (List MemberRecord) → Option Pick → Option Pick → Type 0
  Outcome classes best none = (best ≡ none) × Refused classes
  Outcome classes best (some p) =
      ((best ≡ some p) ⊎ Within classes p) × AtMost best p × Least classes p

  within_later :
      (c : String × List MemberRecord) (rest : Dict String (List MemberRecord)) (p : Pick)
      → Within rest p
      → Within (c ∷ rest) p
  unfolding Within
  within_later c rest p (ms, i, a, b, d, e) = (ms, inr i, a, b, d, e)

  -- A class in which nothing fits changes nothing.
  pass_over :
      (cls : String) (ms : List MemberRecord) (rest : Dict String (List MemberRecord))
      (best r : Option Pick)
      → SortedOut want now ms []
      → Outcome rest best r
      → Outcome ((cls, ms) ∷ rest) best r
  unfolding Outcome Refused Least
  pass_over cls ms rest best none (out, ins) (e, refused) = (e, (All-map _ _ only ms out, refused))
    where
      only :
          (z : MemberRecord)
          → In z [] ⊎ (is_refused (judge want now z) ≡ true)
          → is_refused (judge want now z) ≡ true
      only z (inl i) = absurd i
      only z (inr r) = r
  pass_over cls ms rest best (some p) (out, ins) (from, most, least) =
      (later from, most, (All-map _ _ vacuous ms out, least))
    where
      later : (best ≡ some p) ⊎ Within rest p → (best ≡ some p) ⊎ Within ((cls, ms) ∷ rest) p
      later (inl e) = inl e
      later (inr w) = inr (within_later (cls, ms) rest p w)

      vacuous :
          (z : MemberRecord)
          → In z [] ⊎ (is_refused (judge want now z) ≡ true)
          → Accepted want now z
          → CostsAtMost p.cheapest z
      vacuous z (inl i) a = absurd i
      vacuous z (inr r) a = absurd (clash (sym (ap is_refused a) ∙ r))
        where
          clash : false ≢ true
          clash h = ground arith

  better_most :
      (p : Pick) (best : Option Pick)
      → CostsAtMost (better p best).cheapest p.cheapest × AtMost best (better p best)
  unfolding better AtMost
  better_most p none = (costs_refl p.cheapest, tt)
  better_most p (some q) = elim (Bool-cases (beats p q)) [
    | inl e ↦ rw (better, e) (costs_refl p.cheapest, beaten e)
    | inr e ↦ rw (better, e) (unbeaten e, costs_refl q.cheapest)
  ]
    where
      beaten : beats p q ≡ true → CostsAtMost p.cheapest q.cheapest
      beaten e = ground arith

      unbeaten : beats p q ≡ false → CostsAtMost q.cheapest p.cheapest
      unbeaten e = ground arith

  better_one : (p : Pick) (best : Option Pick) → (best ≡ some (better p best)) ⊎ (better p best ≡ p)
  unfolding better
  better_one p none = inr refl
  better_one p (some q) = elim (Bool-cases (beats p q)) [
    | inl e ↦ rw (better, e) (inr refl)
    | inr e ↦ rw (better, e) (inl refl)
  ]

  chosen :
      (cls : String) (m : MemberRecord) (fs ms : List MemberRecord)
      (rest : Dict String (List MemberRecord))
      → SortedOut want now ms (m ∷ fs)
      → Within ((cls, ms) ∷ rest) (record { cheapest = cheapest m fs; cls = cls; best = m })
  unfolding Within
  chosen cls m fs ms rest (out, ins) =
      let (i, a) = In-All _ (cheapest m fs) (m ∷ fs) ins (cheapest-In m fs) in
      (ms, inl refl, i, a, ins.0.0, ins.0.1)

  AtMost-trans :
      (best : Option Pick) (q p : Pick)
      → AtMost best q
      → CostsAtMost p.cheapest q.cheapest
      → AtMost best p
  unfolding AtMost
  AtMost-trans none q p h k = tt
  AtMost-trans (some b) q p h k = costs_trans p.cheapest q.cheapest b.cheapest k h

  take_up :
      (cls : String) (m : MemberRecord) (fs ms : List MemberRecord)
      (rest : Dict String (List MemberRecord)) (best r : Option Pick)
      → SortedOut want now ms (m ∷ fs)
      → Outcome rest
          (some (better (record { cheapest = cheapest m fs; cls = cls; best = m }) best))
          r
      → Outcome ((cls, ms) ∷ rest) best r
  unfolding Outcome Least AtMost
  take_up cls m fs ms rest best none sorted (e, refused) = absurd (clash e)
    where
      clash : {p : Pick} → some p ≢ none
      clash h = ground arith
  take_up cls m fs ms rest best (some p) sorted (from, most, least) = (
    origin from,
    AtMost-trans best (better mine best) p (better_most mine best).1 most,
    (All-map _ _ bound ms sorted.0, least),
  )
    where
      mine : Pick
      mine = record { cheapest = cheapest m fs; cls = cls; best = m }

      same : (q p : Pick) → some q ≡ some p → q ≡ p
      same q p h = cc

      origin :
          (some (better mine best) ≡ some p) ⊎ Within rest p
          → (best ≡ some p) ⊎ Within ((cls, ms) ∷ rest) p
      origin (inr w) = inr (within_later (cls, ms) rest p w)
      origin (inl e) = elim (better_one mine best) [
        | inl b ↦ inl (b ∙ e)
        | inr b ↦ inr (
            subst (Within ((cls, ms) ∷ rest)) (sym b ∙ same (better mine best) p e)
              (chosen cls m fs ms rest sorted))
      ]

      bound :
          (z : MemberRecord)
          → In z (m ∷ fs) ⊎ (is_refused (judge want now z) ≡ true)
          → Accepted want now z
          → CostsAtMost p.cheapest z
      bound z (inr r) a = absurd (clash (sym (ap is_refused a) ∙ r))
        where
          clash : false ≢ true
          clash h = ground arith
      bound z (inl i) a =
          costs_trans p.cheapest mine.cheapest z
            (costs_trans p.cheapest (better mine best).cheapest mine.cheapest most
              (better_most mine best).0)
            (In-All (CostsAtMost (cheapest m fs)) z (m ∷ fs) (cheapest-least m fs) i)

  consider-Outcome :
      (cls : String) (ms : List MemberRecord) (rest : Dict String (List MemberRecord))
      (best next r : Option Pick)
      → consider cls (eligible want now ms) best ≡ some next
      → Outcome rest next r
      → Outcome ((cls, ms) ∷ rest) best r
  unfolding consider
  consider-Outcome cls ms rest best next r h o = by_fit (eligible want now ms) refl h
    where
      same : (q p : Option Pick) → some q ≡ some p → q ≡ p
      same q p h = cc

      by_fit :
          (es : Option (List MemberRecord))
          → eligible want now ms ≡ es
          → consider cls es best ≡ some next
          → Outcome ((cls, ms) ∷ rest) best r
      by_fit none e h = absurd (clash h)
        where
          clash : ◌≢◌ {A = Option (Option Pick)} none (some next)
          clash h = ground arith
      by_fit (some []) e h =
          pass_over cls ms rest best r (eligible-SortedOut want now ms [] e)
            (subst (λ b. Outcome rest b r) (sym (same best next h)) o)
      by_fit (some (m ∷ fs)) e h =
          take_up cls m fs ms rest best r (eligible-SortedOut want now ms (m ∷ fs) e)
            (subst (λ b. Outcome rest b r) (sym (same _ next h)) o)

  pub pick_from-Outcome :
      (classes : Dict String (List MemberRecord)) (best r : Option Pick)
      → pick_from want now classes best ≡ some r
      → Outcome classes best r
  unfolding pick_from Outcome Refused Least AtMost
  pick_from-Outcome [] best r h = subst (Outcome [] best) (same best r h) (nothing best)
    where
      same : (q p : Option Pick) → some q ≡ some p → q ≡ p
      same q p h = cc

      nothing : (o : Option Pick) → Outcome [] o o
      nothing none = (refl, tt)
      nothing (some p) = (inl refl, costs_refl p.cheapest, tt)
  pick_from-Outcome ((cls, ms) ∷ rest) best r h =
      let (next, e, k) =
        and_then-some (consider cls (eligible want now ms) best) (pick_from want now rest) r h in
      consider-Outcome cls ms rest best next r e (pick_from-Outcome rest next r k)
