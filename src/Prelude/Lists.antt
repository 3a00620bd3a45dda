-- ===== src/Prelude/Lists.antt =====
-- Lists over the native numbers, Boolean filters and quantifiers, and their laws.
use Prim.Native.Nat.{ℕ, zero, suc, ◌+◌, ◌≤◌}
use mathlib.Core.Path.{◌≡◌, refl, sym, subst, ap, ◌∙◌}
use mathlib.Core.Logic.{◌⊎◌, inl, inr}
use mathlib.Core.Bool.{Bool, true, false, ◌&&◌, ◌||◌}
use mathlib.Core.Option.{Option, none, some}
use mathlib.Core.List.{List, [], ◌∷◌, ◌++◌}
use native.Mathlib.Omega.{arith}
use radical_orbit.Prelude.Tests.{if◌then◌else◌, Bool-cases}

false≢true : (false ≡ true) → ⊥
false≢true h = ground arith

module _ {ℓ} {A : Type ℓ} where
  abbrev pub length : List A → ℕ
  length [] = 0
  length (x ∷ xs) = suc (length xs)

  abbrev pub take : ℕ → List A → List A
  take zero xs = []
  take (suc n) [] = []
  take (suc n) (x ∷ xs) = x ∷ take n xs

  abbrev pub head_of : List A → Option A
  head_of [] = none
  head_of (x ∷ xs) = some x

  -- [x for x in xs if p(x)]
  unfoldable pub keep : (A → Bool) → List A → List A
  keep p [] = []
  keep p (x ∷ xs) = let rest = keep p xs in if p x then x ∷ rest else rest

  unfoldable pub all_of : (A → Bool) → List A → Bool
  all_of p [] = true
  all_of p (x ∷ xs) = p x && all_of p xs

  unfoldable pub any_of : (A → Bool) → List A → Bool
  any_of p [] = false
  any_of p (x ∷ xs) = p x || any_of p xs

  abbrev pub All {κ} : (A → Type κ) → List A → Type κ
  All P [] = Unit
  All P (x ∷ xs) = P x × All P xs

  pub append_nil : (xs : List A) → xs ++ [] ≡ xs
  append_nil [] = refl
  append_nil (x ∷ xs) = ap (λ r. x ∷ r) (append_nil xs)

  pub append_assoc : (xs ys zs : List A) → (xs ++ ys) ++ zs ≡ xs ++ (ys ++ zs)
  append_assoc [] ys zs = refl
  append_assoc (x ∷ xs) ys zs = ap (λ r. x ∷ r) (append_assoc xs ys zs)

  pub length-append : (xs ys : List A) → length (xs ++ ys) ≡ length xs + length ys
  length-append [] ys = omega arith
  length-append (x ∷ xs) ys = omega (arith, length-append xs ys)

  pub length-keep-le : (p : A → Bool) (xs : List A) → length (keep p xs) ≤ length xs
  unfolding keep
  length-keep-le p [] = omega arith
  length-keep-le p (x ∷ xs) = ground (arith, length-keep-le p xs)

  pub All-map {κ μ} :
      (P : A → Type κ) (Q : A → Type μ) (f : (x : A) → P x → Q x) (xs : List A)
      → All P xs
      → All Q xs
  All-map P Q f [] h = tt
  All-map P Q f (x ∷ xs) h = (f x h.0, All-map P Q f xs h.1)

  pub All-keep {κ} : (P : A → Type κ) (p : A → Bool) (xs : List A) → All P xs → All P (keep p xs)
  unfolding keep
  All-keep P p [] h = tt
  All-keep P p (x ∷ xs) h = ground (arith, All-keep P p xs h.1)

  pub keep-same : (p q : A → Bool) (xs : List A) → ((x : A) → p x ≡ q x) → keep p xs ≡ keep q xs
  unfolding keep
  keep-same p q [] h = refl
  keep-same p q (x ∷ xs) h = rw (h x, keep-same p q xs h) refl

  -- What the filter keeps passed its test.
  pub All-keep_test : (p : A → Bool) (xs : List A) → All (λ x. p x ≡ true) (keep p xs)
  unfolding keep
  All-keep_test p [] = tt
  All-keep_test p (x ∷ xs) = ground (arith, All-keep_test p xs)

  -- What holds of the entries kept holds of those that pass the test.
  pub All-of_keep {κ} :
      (P : A → Type κ) (p : A → Bool) (xs : List A)
      → All P (keep p xs)
      → All (λ x. p x ≡ true → P x) xs
  unfolding keep
  All-of_keep P p [] h = tt
  All-of_keep P p (x ∷ xs) h = elim (Bool-cases (p x)) [
    | inl e ↦
        let kept : P x × All P (keep p xs) = rw e at h in (λ k. kept.0, All-of_keep P p xs kept.1)
    | inr e ↦ (λ k. absurd (false≢true (sym e ∙ k)), All-of_keep P p xs (rw e at h))
  ]

  pub All-append {κ} : (P : A → Type κ) (xs ys : List A) → All P xs → All P ys → All P (xs ++ ys)
  All-append P [] ys h k = k
  All-append P (x ∷ xs) ys h k = (h.0, All-append P xs ys h.1 k)

module _ {A : Type 0} where
  -- `x` is an entry of the list.
  abbrev pub In : A → List A → Type 0
  In x [] = ⊥
  In x (y ∷ ys) = (x ≡ y) ⊎ In x ys

  pub In-All {κ} : (P : A → Type κ) (x : A) (xs : List A) → All P xs → In x xs → P x
  In-All P x [] h i = absurd i
  In-All P x (y ∷ ys) h (inl e) = subst P (sym e) h.0
  In-All P x (y ∷ ys) h (inr i) = In-All P x ys h.1 i

  pub All-In {κ} : (P : A → Type κ) (xs : List A) → ((x : A) → In x xs → P x) → All P xs
  All-In P [] h = tt
  All-In P (x ∷ xs) h = (h x (inl refl), All-In P xs (λ y i. h y (inr i)))

  In-test :
      (p : A → Bool) (x y : A) (ys : List A)
      → p y ≡ true
      → In x (y ∷ keep p ys)
      → (In x (keep p ys) → (p x ≡ true) × In x ys)
      → (p x ≡ true) × In x (y ∷ ys)
  In-test p x y ys h (inl e) later = (ap p e ∙ h, inl e)
  In-test p x y ys h (inr i) later = ((later i).0, inr (later i).1)

  pub In-keep : (p : A → Bool) (x : A) (xs : List A) → In x (keep p xs) → (p x ≡ true) × In x xs
  unfolding keep
  In-keep p x [] i = absurd i
  In-keep p x (y ∷ ys) i = elim (Bool-cases (p y)) [
    | inl e ↦ In-test p x y ys e (rw e at i) (In-keep p x ys)
    | inr e ↦ let later = In-keep p x ys (rw e at i) in (later.0, inr later.1)
  ]

  pub keep-In : (p : A → Bool) (x : A) (xs : List A) → In x xs → p x ≡ true → In x (keep p xs)
  unfolding keep
  keep-In p x [] i h = absurd i
  keep-In p x (y ∷ ys) (inl e) h = rw (ap p (sym e) ∙ h) (inl e)
  keep-In p x (y ∷ ys) (inr i) h = elim (Bool-cases (p y)) [
    | inl e ↦ rw e (inr (keep-In p x ys i h))
    | inr e ↦ rw e (keep-In p x ys i h)
  ]
