-- ===== src/Admission.antt =====
-- src/radical/orbit/plugin_task_dispatcher.py, `parse_requirements`: which `requirements` a task may
-- declare. `none` is the RequirementsError; its text is not modelled.
pub mod WellFormed
use radical_orbit.Prelude.{
  ℕ, zero, suc, ◌+◌, ◌-◌, ◌*◌, ◌/◌, ◌%◌, min, String, ap, Bool, not, Option, none, some, List, [],
  ◌∷◌, map, ltb, nat_beq, if◌then◌else◌, or_default, all_of, In, nat_eq, string_eq, option_eq,
  pair_eq,
}
use radical_orbit.Prelude.Count.{bit}
use radical_orbit.Prelude.Dict.{Dict, keys}
use radical_orbit.Prelude.Int.{ℤ, pos, negsuc, int_eq}
use radical_orbit.Values.{
  unit, whole, Real, finite, Scalar, Json, Items, Fields, get_field, field_names, contains,
}
use radical_orbit.Match.{Requirements, no_requirements}

abbrev known_keys : List String
known_keys = "cores" ∷ "gpus" ∷ "mem_gb" ∷ "ranks" ∷ "mpi" ∷ "software" ∷ "labels" ∷ []

abbrev pub and_then {ℓ κ} : {A : Type ℓ} {B : Type κ} → Option A → (A → Option B) → Option B
and_then none f = none
and_then (some a) f = f a

-- A key that is absent is no declaration; a value of the wrong kind is refused.
abbrev if_given {ℓ} : {A : Type ℓ} → (Json → Option A) → Option Json → Option (Option A)
if_given read none = some none
if_given read (some j) = and_then (read j) (λ a. some (some a))

natural : Json → Option ℕ
natural Json.null = none
natural (Json.bool b) = none
natural (Json.int (pos n)) = some n
natural (Json.int (negsuc n)) = none
natural (Json.real r) = none
natural (Json.str s) = none
natural (Json.arr xs) = none
natural (Json.obj fs) = none

abbrev at_least_one : ℕ → Option ℕ
at_least_one zero = none
at_least_one (suc n) = some (suc n)

unfoldable pub positive : Json → Option ℕ
unfolding natural
positive j = and_then (natural j) at_least_one

finite_units : Real → Option ℕ
finite_units (finite (pos u)) = some u
finite_units (finite (negsuc u)) = none
finite_units Real.infinite = none
finite_units Real.minus_infinite = none
finite_units Real.nan = none

amount : Json → Option ℕ
unfolding finite_units
amount Json.null = none
amount (Json.bool b) = none
amount (Json.int (pos n)) = some (n * unit)
amount (Json.int (negsuc n)) = none
amount (Json.real r) = finite_units r
amount (Json.str s) = none
amount (Json.arr xs) = none
amount (Json.obj fs) = none

flag : Json → Option Bool
flag Json.null = none
flag (Json.bool b) = some b
flag (Json.int n) = none
flag (Json.real r) = none
flag (Json.str s) = none
flag (Json.arr xs) = none
flag (Json.obj fs) = none

a_text : Json → Option String
a_text Json.null = none
a_text (Json.bool b) = none
a_text (Json.int n) = none
a_text (Json.real r) = none
a_text (Json.str s) = some s
a_text (Json.arr xs) = none
a_text (Json.obj fs) = none

texts : Items → Option (List String)
unfolding a_text
texts Items.nil = some []
texts (Items.cons j js) =
    let rest = texts js in and_then (a_text j) (λ s. and_then rest (λ ss. some (s ∷ ss)))

list_of_texts : Json → Option (List String)
unfolding texts
list_of_texts Json.null = none
list_of_texts (Json.bool b) = none
list_of_texts (Json.int n) = none
list_of_texts (Json.real r) = none
list_of_texts (Json.str s) = none
list_of_texts (Json.arr xs) = texts xs
list_of_texts (Json.obj fs) = none

scalar : Json → Option Scalar
scalar Json.null = none
scalar (Json.bool b) = none
scalar (Json.int n) = some (Scalar.num (finite (whole n)))
scalar (Json.real r) = some (Scalar.num r)
scalar (Json.str s) = some (Scalar.text s)
scalar (Json.arr xs) = none
scalar (Json.obj fs) = none

scalars : Fields → Option (Dict String Scalar)
unfolding scalar
scalars Fields.end = some []
scalars (Fields.field k j fs) =
    let rest = scalars fs in and_then (scalar j) (λ v. and_then rest (λ d. some ((k, v) ∷ d)))

mapping : Json → Option (Dict String Scalar)
unfolding scalars
mapping Json.null = none
mapping (Json.bool b) = none
mapping (Json.int n) = none
mapping (Json.real r) = none
mapping (Json.str s) = none
mapping (Json.arr xs) = none
mapping (Json.obj fs) = scalars fs

-- 'ranks' without 'cores' asks for as many cores as ranks.
derived_cores : Option ℕ → Option ℕ → Option ℕ
derived_cores (some c) ranks = some c
derived_cores none none = none
derived_cores none (some r) = if ltb 1 r then some r else none

unfoldable pub derive : Requirements → Requirements
unfolding derived_cores
derive r = record r { cores = derived_cores r.cores r.ranks }

unfoldable pub admit : Requirements → Option Requirements
admit r =
    if ltb (or_default r.cores 1) (or_default r.ranks 1)
    then none
    else if nat_beq (or_default r.gpus 0 % or_default r.ranks 1) 0
    then some r
    else none

-- The checks of the single keys, in the code's order.
unfoldable pub read_fields : Fields → Option Requirements
unfolding positive natural amount flag list_of_texts mapping derive admit
read_fields fs = and_then (if_given positive (get_field "cores" fs)) (λ cores.
    and_then (if_given positive (get_field "ranks" fs)) (λ ranks.
      and_then (if_given natural (get_field "gpus" fs)) (λ gpus.
        and_then (if_given amount (get_field "mem_gb" fs)) (λ mem_gb.
          and_then (if_given flag (get_field "mpi" fs)) (λ mpi.
            and_then (if_given list_of_texts (get_field "software" fs)) (λ software.
              and_then (if_given mapping (get_field "labels" fs)) (λ labels. admit (
                derive (record {
                  cores = cores;
                  gpus = gpus;
                  mem_gb = mem_gb;
                  ranks = ranks;
                  mpi = mpi;
                  software = software;
                  labels = labels;
                })))))))))

-- `parse_requirements`
unfoldable pub parse_requirements : Json → Option Requirements
unfolding read_fields
parse_requirements Json.null = some no_requirements
parse_requirements (Json.bool b) = none
parse_requirements (Json.int n) = none
parse_requirements (Json.real r) = none
parse_requirements (Json.str s) = none
parse_requirements (Json.arr xs) = none
parse_requirements (Json.obj fs) =
    if all_of (contains known_keys) (field_names fs) then read_fields fs else none
