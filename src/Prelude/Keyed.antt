-- ===== src/Prelude/Keyed.antt =====
-- Dicts of records that carry their own key.
use mathlib.Core.Path.{◌≡◌, refl, sym, ap, ◌∙◌}
use mathlib.Core.Logic.{inl, inr, ◌≢◌}
use mathlib.Core.Bool.{false}
use mathlib.Core.Option.{none, some}
use mathlib.Core.List.{[], ◌∷◌}
use native.Mathlib.Omega.{arith}
use radical_orbit.Prelude.Tests.{Bool-cases}
use radical_orbit.Prelude.EqClass.{Eq, ◌==◌}
use radical_orbit.Prelude.Lists.{In, All}
use radical_orbit.Prelude.Dict.{Dict, lookup, insert, lookup-insert, values}

module _ {K V : Type 0} ⦃e : Eq K⦄ (key : V → K) where
  -- Every entry stands under its own key, and no key stands twice.
  abbrev pub IsKeyed : Dict K V → Type 0
  IsKeyed [] = Unit
  IsKeyed ((k, v) ∷ d) = (key v ≡ k) × (lookup k d ≡ none) × IsKeyed d

  lookup_absent :
      (k j : K) (v : V) (d : Dict K V)
      → (k == j) ≡ false
      → lookup j d ≡ none
      → lookup j (insert k v d) ≡ none
  lookup_absent k j v d other h = lookup-insert k j v d ∙ rw other h

  beq_swap : (j k : K) → (j == k) ≡ false → (k == j) ≡ false
  beq_swap j k h = ground (arith, e.beq_iff j k, e.beq_iff k j)

  pub insert-IsKeyed :
      (k : K) (v : V) (d : Dict K V) → key v ≡ k → IsKeyed d → IsKeyed (insert k v d)
  unfolding insert lookup
  insert-IsKeyed k v [] own h = (own, refl, tt)
  insert-IsKeyed k v ((j, w) ∷ d) own (w_own, fresh, rest) = elim (Bool-cases (j == k)) [
    | inl same ↦ rw same (own ∙ sym ((e.beq_iff j k).0 same), fresh, rest)
    | inr other ↦
        rw other
          (w_own, lookup_absent k j v d (beq_swap j k other) fresh, insert-IsKeyed k v d own rest)
  ]

  found_later :
      (k : K) (x v w : V) (d : Dict K V)
      → lookup k d ≡ none
      → lookup (key x) d ≡ some x
      → (k == key x) ≡ false
  found_later k x v w d fresh h = elim (Bool-cases (k == key x)) [
    | inr other ↦ other
    | inl same ↦
        absurd (clash x (sym fresh ∙ ap (λ j. lookup j d) ((e.beq_iff k (key x)).0 same) ∙ h))
  ]
    where
      clash : (x : V) → none ≢ some x
      clash x h = ground arith

  -- An entry is found under its key.
  pub lookup-key : (x : V) (d : Dict K V) → IsKeyed d → In x (values d) → lookup (key x) d ≡ some x
  unfolding lookup
  lookup-key x [] h i = absurd i
  lookup-key x ((k, v) ∷ d) (own, fresh, rest) (inl same) =
      rw ((e.beq_iff k (key x)).1 (sym own ∙ ap key (sym same))) (ap some (sym same))
  lookup-key x ((k, v) ∷ d) (own, fresh, rest) (inr i) =
      let later = lookup-key x d rest i in rw (found_later k x v v d fresh later) later

  -- What is found under a key carries that key.
  pub key-lookup : (k : K) (x : V) (d : Dict K V) → IsKeyed d → lookup k d ≡ some x → key x ≡ k
  unfolding lookup
  key-lookup k x [] h i = absurd (clash i)
    where
      clash : none ≢ some x
      clash i = ground arith
  key-lookup k x ((j, v) ∷ d) (own, fresh, rest) i = elim (Bool-cases (j == k)) [
    | inl same ↦ ap key (sym (these (rw same at i))) ∙ own ∙ (e.beq_iff j k).0 same
    | inr other ↦ key-lookup k x d rest (rw other at i)
  ]
    where
      these : some v ≡ some x → v ≡ x
      these i = cc

-- An assignment brings in only its own value.
pub All-insert {ℓ κ μ} :
    {K : Type ℓ} {V : Type κ} ⦃e : Eq K⦄ (P : V → Type μ) (k : K) (v : V) (d : Dict K V)
    → P v
    → All (λ p. P p.1) d
    → All (λ p. P p.1) (insert k v d)
unfolding insert
All-insert P k v [] h hs = (h, tt)
All-insert P k v ((j, w) ∷ d) h (x, hs) = elim (Bool-cases (j == k)) [
  | inl same ↦ rw same (h, hs)
  | inr other ↦ rw other (x, All-insert P k v d h hs)
]
