-- ===== src/Match.antt =====
-- src/radical/orbit/task_dispatcher_match.py: can this shape run this task.
pub mod Fits
mod Samples
use radical_orbit.Prelude.{
  ℕ, zero, ◌-◌, ◌/◌, min, String, ap, Bool, false, not, ◌&&◌, Option, none, some, List, [], ◌∷◌,
  ltb, if◌then◌else◌, or_default, keep, In, ◌==◌, nat_eq, string_eq, option_eq, pair_eq,
}
use radical_orbit.Prelude.Count.{bit, count}
use radical_orbit.Prelude.Dict.{Dict, lookup}
use radical_orbit.Prelude.Int.{pos, int_eq}
use radical_orbit.Values.{
  Real, finite, infinite, minus_infinite, nan, real_lt, real_eq, is_zero, Scalar, AttrValue,
  contains,
}

-- A `requirements` dict: a field is `none` when its key is absent. `mem_gb` is in units of 1/1024.
pub record Requirements : Type 0 where
  pub cores : Option ℕ
  pub gpus : Option ℕ
  pub mem_gb : Option ℕ
  pub ranks : Option ℕ
  pub mpi : Option Bool
  pub software : Option (List String)
  pub labels : Option (Dict String Scalar)

abbrev pub no_requirements : Requirements
no_requirements = record {
  cores = none;
  gpus = none;
  mem_gb = none;
  ranks = none;
  mpi = none;
  software = none;
  labels = none;
}

abbrev pub Attributes : Type 0
Attributes = Dict String AttrValue

-- What the matcher reads of a `PilotSize` or of a pilot record.
pub record Shape : Type 0 where
  pub cpus_per_node : ℕ
  pub gpus_per_node : ℕ
  pub rhapsody_backend : String

-- The reason of a rejection, with what its text shows; the text itself is not modelled.
pub data Reason : Type 0 where
  software_missing : List String → Reason
  cores_short gpus_short : ℕ → ℕ → Reason
  mem_short : Real → ℕ → Reason
  label_unmatched : String → Scalar → Reason
  no_mpi : String → Reason

-- `fits` is the result None; `raises` is a TypeError on an attribute of the wrong kind.
pub data Verdict : Type 0 where
  fits : Verdict
  rejects : Reason → Verdict
  raises : Verdict

infixr 30 ◌then_if_fit◌
abbrev pub ◌then_if_fit◌ : Verdict → Verdict → Verdict
fits then_if_fit v = v
rejects r then_if_fit v = rejects r
raises then_if_fit v = raises

abbrev pub no_mpi_backends : List String
no_mpi_backends = "dragon_v1" ∷ []

-- attributes.get('software') or [], as a list of names; `none` is a value that is no collection.
unfoldable pub installed : Option AttrValue → Option (List String)
installed none = some []
installed (some (AttrValue.text s)) = some (if s == "" then [] else s ∷ [])
installed (some (AttrValue.num x)) = if is_zero x then some [] else none
installed (some (AttrValue.items xs)) = some xs

unfoldable pub missing_from : List String → List String → List String
missing_from want have = keep (λ s. not (contains have s)) want

judge_missing : List String → Verdict
judge_missing [] = fits
judge_missing (s ∷ ss) = rejects (software_missing (s ∷ ss))

match_software : List String → Option (List String) → Verdict
unfolding judge_missing
match_software [] have = fits
match_software (s ∷ ss) none = raises
match_software (s ∷ ss) (some have) = judge_missing (missing_from (s ∷ ss) have)

match_count : (ℕ → ℕ → Reason) → ℕ → ℕ → Verdict
match_count short have want =
    if ltb 0 want && ltb have want then rejects (short have want) else fits

match_shape : Requirements → Option Shape → Verdict
unfolding match_count
match_shape req none = fits
match_shape req (some size) =
    match_count cores_short size.cpus_per_node (or_default req.cores 0)
    then_if_fit match_count gpus_short size.gpus_per_node (or_default req.gpus 0)

-- attributes.get('mem_gb_per_node') or 0; `none` is a value that has no order with a number.
unfoldable pub declared_mem : AttrValue → Option Real
declared_mem (AttrValue.text s) = if s == "" then some (finite (pos 0)) else none
declared_mem (AttrValue.num x) = some x
declared_mem (AttrValue.items []) = some (finite (pos 0))
declared_mem (AttrValue.items (x ∷ xs)) = none

compare_mem : ℕ → Option Real → Verdict
compare_mem mem none = raises
compare_mem mem (some have) =
    if real_lt have (finite (pos mem)) then rejects (mem_short have mem) else fits

match_mem : ℕ → Option AttrValue → Verdict
unfolding compare_mem
match_mem mem none = fits
match_mem mem (some v) = if ltb 0 mem then compare_mem mem (declared_mem v) else fits

-- `have_val` matches `val`, by membership in a list or by equality.
unfoldable pub label_holds : Option AttrValue → Scalar → Bool
label_holds none v = false
label_holds (some (AttrValue.items xs)) (Scalar.text s) = contains xs s
label_holds (some (AttrValue.items xs)) (Scalar.num x) = false
label_holds (some (AttrValue.text t)) (Scalar.text s) = t == s
label_holds (some (AttrValue.text t)) (Scalar.num x) = false
label_holds (some (AttrValue.num y)) (Scalar.text s) = false
label_holds (some (AttrValue.num y)) (Scalar.num x) = real_eq y x

match_labels : Dict String Scalar → Attributes → Verdict
match_labels [] attrs = fits
match_labels ((k, v) ∷ ls) attrs =
    let rest = match_labels ls attrs in
    if label_holds (lookup k attrs) v then rest else rejects (label_unmatched k v)

match_mpi : Bool → Option Shape → Verdict
match_mpi mpi none = fits
match_mpi mpi (some size) =
    if mpi && contains no_mpi_backends size.rhapsody_backend
    then rejects (no_mpi size.rhapsody_backend)
    else fits

-- An empty requirement passes every test here, as the early return of the source has it.
unfoldable pub satisfies : Requirements → Attributes → Option Shape → Verdict
unfolding match_software match_shape match_mem match_labels match_mpi
satisfies req attrs size =
    match_software (or_default req.software []) (installed (lookup "software" attrs))
    then_if_fit match_shape req size
    then_if_fit match_mem (or_default req.mem_gb 0) (lookup "mem_gb_per_node" attrs)
    then_if_fit match_labels (or_default req.labels []) attrs
    then_if_fit match_mpi (or_default req.mpi false) size
