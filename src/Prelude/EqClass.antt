-- ===== src/Prelude/EqClass.antt =====
-- Decidable equality as an interface, with an instance for each kind of key the program uses.
use Prim.Native.Nat.{ℕ}
use Prim.Native.String.{String}
use mathlib.Core.Path.{◌≡◌, refl}
use mathlib.Core.Logic.{◌↔◌}
use mathlib.Core.Bool.{Bool, true, false, ◌&&◌}
use mathlib.Core.Option.{Option, none, some}
use native.Mathlib.Omega.{arith}
use text.Mathlib.Text.{◌==◌ as str_eq}
use text.Mathlib.TextEquality.{eq_iff}
use radical_orbit.Prelude.Tests.{nat_beq, nat_beq_iff}

-- A type whose values a program can compare: the test, and what its answer means.
pub record Eq {κ} (K : Type κ) : Type κ where
  pub beq : K → K → Bool
  pub beq_iff : (j k : K) → (beq j k ≡ true) ↔ (j ≡ k)

infix 50 ◌==◌
abbrev pub ◌==◌ {κ} : {K : Type κ} ⦃d : Eq K⦄ (j k : K) → Bool
◌==◌ ⦃d⦄ j k = d.beq j k

instance abbrev pub string_eq : Eq String
string_eq = record { beq_iff = eq_iff; beq = str_eq }

instance abbrev pub nat_eq : Eq ℕ
nat_eq = record { beq_iff = nat_beq_iff; beq = nat_beq }

pub str_iff : (s t : String) → (s == t ≡ true) ↔ (s ≡ t)
str_iff = eq_iff

module _ {ℓ} {A : Type ℓ} ⦃e : Eq A⦄ where
  abbrev pub option_beq : Option A → Option A → Bool
  option_beq none none = true
  option_beq (some a) (some b) = a == b
  option_beq _ _ = false

  pub option_beq_iff : (a b : Option A) → (option_beq a b ≡ true) ↔ (a ≡ b)
  option_beq_iff none none = (λ _. refl, λ _. refl)
  option_beq_iff (some a) (some b) = ground (arith, e.beq_iff a b)
  option_beq_iff none (some b) = (λ h. cc, λ h. cc)
  option_beq_iff (some a) none = (λ h. cc, λ h. cc)

  instance abbrev pub option_eq : Eq (Option A)
  option_eq = record { beq = option_beq; beq_iff = option_beq_iff }

  pub ==_iff : (a b : A) → (a == b ≡ true) ↔ (a ≡ b)
  ==_iff = e.beq_iff

  pub ==_refl : (a : A) → a == a ≡ true
  ==_refl a = (e.beq_iff a a).1 refl

module _ {ℓ κ} {A : Type ℓ} {B : Type κ} ⦃e : Eq A⦄ ⦃f : Eq B⦄ where
  abbrev pub pair_beq : A × B → A × B → Bool
  pair_beq p q = p.0 == q.0 && p.1 == q.1

  pub pair_beq_iff : (p q : A × B) → (pair_beq p q ≡ true) ↔ (p ≡ q)
  pair_beq_iff p q = ground (arith, e.beq_iff p.0 q.0, f.beq_iff p.1 q.1)

  instance abbrev pub pair_eq : Eq (A × B)
  pair_eq = record { beq = pair_beq; beq_iff = pair_beq_iff }
