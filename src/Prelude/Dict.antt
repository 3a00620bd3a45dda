-- ===== src/Prelude/Dict.antt =====
-- Python's insertion-ordered `dict` as an association list: an assignment to a present key keeps
-- its place, a new key goes to the end.
use mathlib.Core.Path.{◌≡◌, refl, ap}
use mathlib.Core.Logic.{inl, inr}
use mathlib.Core.Option.{Option, none, some}
use mathlib.Core.List.{List, [], ◌∷◌, map}
use native.Mathlib.Omega.{arith}
use radical_orbit.Prelude.Tests.{if◌then◌else◌, Bool-cases}
use radical_orbit.Prelude.EqClass.{Eq, ◌==◌}

abbrev pub Dict {ℓ κ} : Type ℓ → Type κ → Type (ℓ ⊔ κ)
Dict K V = List (K × V)

module _ {ℓ κ} {K : Type ℓ} {V : Type κ} ⦃e : Eq K⦄ where
  -- d.get(k)
  unfoldable pub lookup : K → Dict K V → Option V
  lookup k [] = none
  lookup k ((j, v) ∷ d) = if j == k then some v else lookup k d

  -- d[k] = v
  unfoldable pub insert : K → V → Dict K V → Dict K V
  insert k v [] = (k, v) ∷ []
  insert k v ((j, w) ∷ d) = if j == k then (j, v) ∷ d else (j, w) ∷ insert k v d

  -- d.pop(k, None)
  unfoldable pub remove : K → Dict K V → Dict K V
  remove k [] = []
  remove k ((j, v) ∷ d) = let rest = remove k d in if j == k then rest else (j, v) ∷ rest

  pub lookup-insert :
      (k j : K) (v : V) (d : Dict K V)
      → lookup j (insert k v d) ≡ (if k == j then some v else lookup j d)
  unfolding lookup insert
  lookup-insert k j v [] = refl
  lookup-insert k j v ((i, w) ∷ d) =
      ground (arith, e.beq_iff k j, e.beq_iff i k, e.beq_iff i j, lookup-insert k j v d)

  pub lookup-remove :
      (k j : K) (d : Dict K V) → lookup j (remove k d) ≡ (if k == j then none else lookup j d)
  unfolding lookup remove
  lookup-remove k j [] = ground arith
  lookup-remove k j ((i, w) ∷ d) =
      ground (arith, e.beq_iff k j, e.beq_iff i k, e.beq_iff i j, lookup-remove k j d)

  pub lookup-insert_self : (k : K) (v : V) (d : Dict K V) → lookup k (insert k v d) ≡ some v
  lookup-insert_self k v d = ground (arith, lookup-insert k k v d, e.beq_iff k k)

module _ {ℓ κ} {K : Type ℓ} {V : Type κ} ⦃e : Eq K⦄ where
  -- Of two assignments to one key, the last one counts.
  pub insert-insert : (k : K) (v w : V) (d : Dict K V) → insert k v (insert k w d) ≡ insert k v d
  unfolding insert
  insert-insert k v w [] = ground (arith, e.beq_iff k k)
  insert-insert k v w ((j, x) ∷ d) = elim (Bool-cases (j == k)) [
    | inl same ↦ rw same (rw same refl)
    | inr other ↦ rw other (rw other (ap (λ r. (j, x) ∷ r) (insert-insert k v w d)))
  ]

-- list(d.values()) and list(d)
abbrev pub values {ℓ κ} : {K : Type ℓ} {V : Type κ} → Dict K V → List V
values d = map (λ p. p.1) d

abbrev pub keys {ℓ κ} : {K : Type ℓ} {V : Type κ} → Dict K V → List K
keys d = map (λ p. p.0) d
