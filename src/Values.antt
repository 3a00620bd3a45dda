-- ===== src/Values.antt =====
-- The values of the dynamic language that the program inspects: JSON as a request body carries it,
-- and the scalars of task requirements and member attributes.
-- Fractions are counted in units of 1/1024, so that `mem_gb * 1024` is a whole number.
use radical_orbit.Prelude.{
  ℕ, ◌+◌, ◌-◌, ◌*◌, String, Bool, true, false, ◌||◌, Option, none, some, List, [], ◌∷◌,
  if◌then◌else◌, ◌==◌, nat_eq, string_eq, option_eq, pair_eq,
}
use radical_orbit.Prelude.Int.{ℤ, pos, negsuc, ltb_ℤ, int_eq}

-- A Python float, by its value; JSON as Python reads it has the last three too.
pub data Real : Type 0 where
  finite : ℤ → Real
  infinite minus_infinite nan : Real

abbrev pub unit : ℕ
unit = 1024

-- The float that equals an int.
abbrev pub whole : ℤ → ℤ
whole (pos n) = pos (n * unit)
whole (negsuc n) = negsuc (n * unit + (unit - 1))

unfoldable pub real_lt : Real → Real → Bool
real_lt nan y = false
real_lt infinite y = false
real_lt (finite a) (finite b) = ltb_ℤ a b
real_lt (finite a) infinite = true
real_lt (finite a) minus_infinite = false
real_lt (finite a) nan = false
real_lt minus_infinite (finite b) = true
real_lt minus_infinite infinite = true
real_lt minus_infinite minus_infinite = false
real_lt minus_infinite nan = false

unfoldable pub real_eq : Real → Real → Bool
real_eq (finite a) (finite b) = a == b
real_eq infinite infinite = true
real_eq minus_infinite minus_infinite = true
real_eq _ _ = false

-- `bool(x)` of a number.
abbrev pub is_zero : Real → Bool
is_zero (finite a) = a == pos 0
is_zero _ = false

-- A label's value: a string or a number.
pub data Scalar : Type 0 where
  text : String → Scalar
  num : Real → Scalar

-- An attribute's value: a string, a number or a list of strings.
pub data AttrValue : Type 0 where
  text : String → AttrValue
  num : Real → AttrValue
  items : List String → AttrValue

mutual
  pub data Json : Type 0 where
    null : Json
    bool : Bool → Json
    int : ℤ → Json
    real : Real → Json
    str : String → Json
    arr : Items → Json
    obj : Fields → Json

  pub data Items : Type 0 where
    nil : Items
    cons : Json → Items → Items

  pub data Fields : Type 0 where
    end : Fields
    field : String → Json → Fields → Fields

-- d.get(key), where `none` is a missing key
unfoldable pub get_field : String → Fields → Option Json
get_field k end = none
get_field k (field j v fs) = if j == k then some v else get_field k fs

unfoldable pub field_names : Fields → List String
field_names end = []
field_names (field k v fs) = k ∷ field_names fs

unfoldable pub contains : List String → String → Bool
contains [] s = false
contains (x ∷ xs) s = x == s || contains xs s
