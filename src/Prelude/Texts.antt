-- ===== src/Prelude/Texts.antt =====
-- Python strings: s[:n], joining, prefixes and decimal numbers.
use Prim.Native.Nat.{ℕ, zero, suc, ◌+◌, ◌/◌, ◌%◌}
use mathlib.Core.Path.{◌≡◌, refl, ap, ◌∙◌}
use mathlib.Core.Bool.{Bool}
use mathlib.Core.Option.{Option, none, some}
use radical_orbit.Prelude.Tests.{ltb, if◌then◌else◌, is_some}
use radical_orbit.Prelude.EqClass.{◌==◌, nat_eq, string_eq, str_iff}
use Prim.Native.Char.{Char}
use Prim.Native.String.append.{nil, cons}
use Prim.Native.String.{String, [], ◌∷◌, ◌++◌}

unfoldable pub clip : ℕ → String → String
clip zero s = []
clip (suc n) [] = []
clip (suc n) (c ∷ s) = c ∷ clip n s

abbrev pub join_by : String → String → String → String
join_by mark a b = a ++ (mark ++ b)

-- What follows the prefix, where the text starts with it.
unfoldable pub strip_prefix : String → String → Option String
strip_prefix [] s = some s
strip_prefix (c ∷ p) [] = none
strip_prefix (c ∷ p) (d ∷ s) =
    let rest = strip_prefix p s in if (c ∷ []) == (d ∷ []) then rest else none

abbrev pub starts_with : String → String → Bool
starts_with p s = is_some (strip_prefix p s)

append_nil : (t : String) → [] ++ t ≡ t
append_nil t = λ j. nil t j

pub append_cons : (c : Char) (s t : String) → (c ∷ s) ++ t ≡ c ∷ (s ++ t)
append_cons c s t = λ j. cons c s t j

pub strip_prefix-append : (p s : String) → strip_prefix p (p ++ s) ≡ some s
unfolding strip_prefix
strip_prefix-append [] s = ap some (append_nil s)
strip_prefix-append (c ∷ p) s =
    rw (append_cons c p s, (str_iff (c ∷ []) (c ∷ [])).1 refl, strip_prefix-append p s) refl

-- A common start plays no part.
pub strip_prefix-both : (p q s : String) → strip_prefix (p ++ q) (p ++ s) ≡ strip_prefix q s
unfolding strip_prefix
strip_prefix-both [] q s =
    ap (λ t. strip_prefix t ([] ++ s)) (append_nil q) ∙ ap (strip_prefix q) (append_nil s)
strip_prefix-both (c ∷ p) q s =
    rw (append_cons c p q, append_cons c p s, (str_iff (c ∷ []) (c ∷ [])).1 refl)
      (strip_prefix-both p q s)

digit : ℕ → String
digit n =
    if n == 0
    then "0"
    else if n == 1
    then "1"
    else if n == 2
    then "2"
    else if n == 3
    then "3"
    else if n == 4
    then "4"
    else if n == 5
    then "5"
    else if n == 6
    then "6"
    else if n == 7
    then "7"
    else if n == 8
    then "8"
    else "9"

-- '%d' of a number; each round takes one digit off, so that `n + 1` rounds are enough.
digits : ℕ → ℕ → String
unfolding digit
digits zero n = ""
digits (suc fuel) n =
    let rest = digits fuel (n / 10) in if ltb n 10 then digit n else rest ++ digit (n % 10)

unfoldable pub decimal : ℕ → String
unfolding digits
decimal n = digits (n + 1) n
