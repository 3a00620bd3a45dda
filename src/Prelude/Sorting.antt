-- ===== src/Prelude/Sorting.antt =====
-- Python's `list.sort(key=...)`: a stable sort, here by insertion from the right.
use mathlib.Core.Path.{◌≡◌, refl, subst}
use mathlib.Core.Option.{none, some}
use mathlib.Core.Bool.{Bool, true, false}
use mathlib.Core.List.{List, [], ◌∷◌, Perm}
use mathlib.Core.List.Perm
use native.Mathlib.Omega.{arith}
use radical_orbit.Prelude.Tests.{if◌then◌else◌, Bool-cases}
use radical_orbit.Prelude.Lists.{All, All-map, In, head_of, length}
use mathlib.Core.Logic.{inl, inr, ◌≢◌}

module _ {ℓ} {A : Type ℓ} (before : A → A → Bool) where
  unfoldable pub place : A → List A → List A
  place x [] = x ∷ []
  place x (y ∷ ys) = if before y x then y ∷ place x ys else x ∷ y ∷ ys

  unfoldable pub sort_by : List A → List A
  unfolding place
  sort_by [] = []
  sort_by (x ∷ xs) = place x (sort_by xs)

  pub place-perm : (x : A) (ys : List A) → Perm (place x ys) (x ∷ ys)
  unfolding place
  place-perm x [] = Perm.refl _
  place-perm x (y ∷ ys) = elim (Bool-cases (before y x)) [
    | inl h ↦ rw h (Perm.trans (Perm.cons y (place-perm x ys)) (Perm.swap x y ys))
    | inr h ↦ rw h (Perm.refl _)
  ]

  -- Sorting only reorders.
  pub sort_by-perm : (xs : List A) → Perm (sort_by xs) xs
  unfolding sort_by
  sort_by-perm [] = Perm.refl _
  sort_by-perm (x ∷ xs) = Perm.trans (place-perm x (sort_by xs)) (Perm.cons x (sort_by-perm xs))

  length-place : (x : A) (ys : List A) → length (place x ys) ≡ length (x ∷ ys)
  unfolding place
  length-place x [] = refl
  length-place x (y ∷ ys) = ground (arith, length-place x ys)

  pub length-sort_by : (xs : List A) → length (sort_by xs) ≡ length xs
  unfolding sort_by
  length-sort_by [] = refl
  length-sort_by (x ∷ xs) = omega (arith, length-place x (sort_by xs), length-sort_by xs)

  pub All-place {κ} : (P : A → Type κ) (x : A) (ys : List A) → P x → All P ys → All P (place x ys)
  unfolding place
  All-place P x [] h k = (h, tt)
  All-place P x (y ∷ ys) h k = ground (arith, All-place P x ys h k.1)

  pub All-sort_by {κ} : (P : A → Type κ) (xs : List A) → All P xs → All P (sort_by xs)
  unfolding sort_by
  All-sort_by P [] h = tt
  All-sort_by P (x ∷ xs) h = All-place P x (sort_by xs) h.0 (All-sort_by P xs h.1)

  head_of-place : (x : A) (ys : List A) → head_of (place x ys) ≢ none
  unfolding place
  head_of-place x [] h = ground arith
  head_of-place x (y ∷ ys) h = elim (Bool-cases (before y x)) [
    | inl e ↦ ground arith
    | inr e ↦ ground arith
  ]

  -- Only the empty list has no first entry after sorting.
  pub sort_by-none : (xs : List A) → head_of (sort_by xs) ≡ none → xs ≡ []
  unfolding sort_by
  sort_by-none [] h = refl
  sort_by-none (x ∷ xs) h = absurd (head_of-place x (sort_by xs) h)

  All-of_place {κ} : (P : A → Type κ) (x : A) (ys : List A) → All P (place x ys) → P x × All P ys
  unfolding place
  All-of_place P x [] h = (h.0, tt)
  All-of_place P x (y ∷ ys) h = elim (Bool-cases (before y x)) [
    | inl e ↦
        let h' : P y × All P (place x ys) = rw e at h in
        let later = All-of_place P x ys h'.1 in (later.0, (h'.0, later.1))
    | inr e ↦ rw e at h
  ]

  pub All-of_sort {κ} : (P : A → Type κ) (xs : List A) → All P (sort_by xs) → All P xs
  unfolding sort_by
  All-of_sort P [] h = tt
  All-of_sort P (x ∷ xs) h =
      let both = All-of_place P x (sort_by xs) h in (both.0, All-of_sort P xs both.1)

  -- No later entry comes strictly before an earlier one.
  abbrev pub IsSorted : List A → Type ℓ
  IsSorted [] = Unit
  IsSorted (x ∷ xs) = All (λ y. before y x ≡ false) xs × IsSorted xs

-- For a key order the result is sorted: `before` is asymmetric, and not-before is transitive.
module _ {ℓ} {A : Type ℓ} (before : A → A → Bool)
    (asym : (x y : A) → before y x ≡ true → before x y ≡ false)
    (chain : (x y z : A) → before y x ≡ false → before z y ≡ false → before z x ≡ false) where
  place-IsSorted : (x : A) (ys : List A) → IsSorted before ys → IsSorted before (place before x ys)
  unfolding place
  place-IsSorted x [] h = (tt, tt)
  place-IsSorted x (y ∷ ys) h = elim (Bool-cases (before y x)) [
    | inl e ↦
        rw e (
          All-place before (λ z. before z y ≡ false) x ys (asym x y e) h.0,
          place-IsSorted x ys h.1,
        )
    | inr e ↦ rw e ((e, All-map _ _ (λ z g. chain x y z e g) ys h.0), h)
  ]

  pub sort_by-IsSorted : (xs : List A) → IsSorted before (sort_by before xs)
  unfolding sort_by
  sort_by-IsSorted [] = tt
  sort_by-IsSorted (x ∷ xs) = place-IsSorted x (sort_by before xs) (sort_by-IsSorted xs)

module _ {A : Type 0} (before : A → A → Bool) where
  pub In-place : (z x : A) (ys : List A) → In z (place before x ys) → In z (x ∷ ys)
  unfolding place
  In-place z x [] i = i
  In-place z x (y ∷ ys) i = elim (Bool-cases (before y x)) [
    | inl e ↦ behind (rw e at i) (In-place z x ys)
    | inr e ↦ rw e at i
  ]
    where
      behind :
          In z (y ∷ place before x ys)
          → (In z (place before x ys) → In z (x ∷ ys))
          → In z (x ∷ y ∷ ys)
      behind (inl e) later = inr (inl e)
      behind (inr j) later = swap (later j)
        where
          swap : In z (x ∷ ys) → In z (x ∷ y ∷ ys)
          swap (inl e) = inl e
          swap (inr k) = inr (inr k)

  pub In-sort_by : (z : A) (xs : List A) → In z (sort_by before xs) → In z xs
  unfolding sort_by
  In-sort_by z [] i = i
  In-sort_by z (x ∷ xs) i = later (In-place z x (sort_by before xs) i) (In-sort_by z xs)
    where
      later : In z (x ∷ sort_by before xs) → (In z (sort_by before xs) → In z xs) → In z (x ∷ xs)
      later (inl e) ih = inl e
      later (inr j) ih = inr (ih j)

-- The first entry is least in any order that the test decides.
module _ {ℓ κ} {A : Type ℓ} (before : A → A → Bool) (R : A → A → Type κ)
    (yes_before : (x y : A) → before y x ≡ true → R y x)
    (not_before : (x y : A) → before y x ≡ false → R x y)
    (chain : (x y z : A) → R x y → R y z → R x z) where
  abbrev pub LeastFirst : List A → Type κ
  LeastFirst [] = Unit
  LeastFirst (x ∷ xs) = All (λ y. R x y) xs

  place-LeastFirst : (x : A) (ys : List A) → LeastFirst ys → LeastFirst (place before x ys)
  unfolding place
  place-LeastFirst x [] h = tt
  place-LeastFirst x (y ∷ ys) h = elim (Bool-cases (before y x)) [
    | inl e ↦ rw e (All-place before (λ z. R y z) x ys (yes_before x y e) h)
    | inr e ↦ rw e (not_before x y e, All-map _ _ (λ z g. chain x y z (not_before x y e) g) ys h)
  ]

  pub sort_by-LeastFirst : (xs : List A) → LeastFirst (sort_by before xs)
  unfolding sort_by
  sort_by-LeastFirst [] = tt
  sort_by-LeastFirst (x ∷ xs) = place-LeastFirst x (sort_by before xs) (sort_by-LeastFirst xs)

  best_first :
      ((x : A) → R x x) → (ys : List A) (p : A) → LeastFirst ys → head_of ys ≡ some p → All (R p) ys
  best_first self [] p h e = tt
  best_first self (y ∷ ys) p h e = subst (λ z. All (R z) (y ∷ ys)) (some_inj y p e) (self y, h)
    where
      some_inj : (a b : A) → some a ≡ some b → a ≡ b
      some_inj a b e = cc

  -- The first entry of the sorted list is at least as good as any.
  pub head_of-sort_by :
      ((x : A) → R x x)
      → (xs : List A) (p : A) → head_of (sort_by before xs) ≡ some p
      → All (R p) xs
  head_of-sort_by self xs p e =
      All-of_sort before (R p) xs (best_first self (sort_by before xs) p (sort_by-LeastFirst xs) e)
