-- ===== src/Prelude/Count.antt =====
-- Counting the values of a dict that pass a test, and how an assignment changes the count.
use Prim.Native.Nat.{ℕ, ◌+◌, ◌≤◌}
use mathlib.Core.Path.{◌≡◌, refl, sym, ap}
use mathlib.Core.Bool.{Bool, true, false}
use mathlib.Core.Option.{Option, none, some}
use mathlib.Core.List.{[], ◌∷◌}
use native.Mathlib.Omega.{arith}
use radical_orbit.Prelude.EqClass.{Eq}
use radical_orbit.Prelude.Lists.{keep, length}
use radical_orbit.Prelude.Dict.{Dict, lookup, insert, remove, values}

abbrev pub bit : Bool → ℕ
bit true = 1
bit false = 0

module _ {κ} {V : Type κ} (p : V → Bool) where
  abbrev pub weight : Option V → ℕ
  weight none = 0
  weight (some v) = bit (p v)

  unfoldable pub count {ℓ} : {K : Type ℓ} → Dict K V → ℕ
  count [] = 0
  count ((k, v) ∷ d) = bit (p v) + count d

module _ {ℓ κ} {K : Type ℓ} {V : Type κ} ⦃e : Eq K⦄ (p : V → Bool) where
  pub count-insert :
      (k : K) (v : V) (d : Dict K V)
      → count p (insert k v d) + weight p (lookup k d) ≡ count p d + bit (p v)
  unfolding count insert lookup
  count-insert k v [] = omega arith
  count-insert k v ((j, w) ∷ d) = ground (arith, count-insert k v d)

  pub count-remove-le : (k : K) (d : Dict K V) → count p (remove k d) ≤ count p d
  unfolding count remove
  count-remove-le k [] = omega arith
  count-remove-le k ((j, v) ∷ d) = ground (arith, count-remove-le k d)

  pub length-keep : (d : Dict K V) → length (keep p (values d)) ≡ count p d
  unfolding count keep
  length-keep [] = refl
  length-keep ((k, v) ∷ d) = ground (arith, length-keep d)

  -- One value that passed the test is replaced by one that does not.
  pub count-less :
      (k : K) (old new : V) (d : Dict K V)
      → lookup k d ≡ some old
      → p old ≡ true
      → p new ≡ false
      → count p (insert k new d) + 1 ≡ count p d
  count-less k old new d h yes_ no_ = omega (
    arith,
    ap (λ o. count p (insert k new d) + weight p o) (sym h),
    count-insert k new d,
    ap bit yes_,
    ap bit no_,
  )

  pub count-same :
      (k : K) (old new : V) (d : Dict K V)
      → lookup k d ≡ some old
      → p new ≡ p old
      → count p (insert k new d) ≡ count p d
  count-same k old new d h same = omega (
    arith,
    ap (λ o. count p (insert k new d) + weight p o) (sym h),
    count-insert k new d,
    ap bit same,
  )
