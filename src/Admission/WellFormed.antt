-- ===== src/Admission/WellFormed.antt =====
-- `parse_requirements`: what an accepted declaration is.
use radical_orbit.Prelude.{
  ℕ, zero, suc, ◌%◌, ◌≤◌, ◌≡◌, refl, subst, ◌≢◌, inl, inr, Option, none, some, arith, ltb, nat_beq,
  Bool-cases, or_default, all_of, nat_eq, string_eq, option_eq, pair_eq,
}
use radical_orbit.Prelude.Int.{int_eq}
use radical_orbit.Values.{Json, Fields, get_field, field_names, contains}
use radical_orbit.Match.{Requirements, no_requirements}
use radical_orbit.Admission.{
  known_keys, and_then, if_given, natural, positive, at_least_one, amount, flag, list_of_texts,
  mapping, derive, admit, read_fields, parse_requirements,
}

-- At least one rank, a core for each, and the GPUs split evenly over the ranks.
abbrev pub IsWellFormed : Requirements → Type 0
IsWellFormed r =
    (1 ≤ or_default r.ranks 1)
    × (or_default r.ranks 1 ≤ or_default r.cores 1)
    × (or_default r.gpus 0 % or_default r.ranks 1 ≡ 0)

pub and_then-some {ℓ κ} :
    {A : Type ℓ} {B : Type κ} (o : Option A) (f : A → Option B) (b : B)
    → and_then o f ≡ some b
    → (a : A) × (o ≡ some a) × (f a ≡ some b)
and_then-some none f b h = ground arith
and_then-some (some a) f b h = (a, refl, h)

at_least_one_lem : (n m : ℕ) → at_least_one n ≡ some m → 1 ≤ m
at_least_one_lem zero m h = ground arith
at_least_one_lem (suc n) m h = ground arith

one_default : (a : ℕ) (r : Option ℕ) → 1 ≤ a → some (some a) ≡ some r → 1 ≤ or_default r 1
one_default a none h e = ground arith
one_default a (some b) h e = ground arith

positive_given :
    (o : Option Json) (r : Option ℕ) → if_given positive o ≡ some r → 1 ≤ or_default r 1
unfolding positive
positive_given none none h = omega arith
positive_given none (some b) h = ground arith
positive_given (some j) r h =
    let (a, e, f) = and_then-some (positive j) (λ a. some (some a)) r h in
    let (n, g, k) = and_then-some (natural j) at_least_one a e in
    one_default a r (at_least_one_lem n a k) f

admit-IsWellFormed :
    (r s : Requirements) → 1 ≤ or_default r.ranks 1 → admit r ≡ some s → IsWellFormed s
unfolding admit
admit-IsWellFormed r s h k = elim (Bool-cases (ltb (or_default r.cores 1) (or_default r.ranks 1))) [
  | inl few ↦ absurd (clash s (rw few at k))
  | inr enough ↦ elim (Bool-cases (nat_beq (or_default r.gpus 0 % or_default r.ranks 1) 0)) [
    | inr uneven ↦ absurd (clash s (rw (enough, uneven) at k))
    | inl even ↦
        subst IsWellFormed (same r s (rw (enough, even) at k)) (h, ground arith, ground arith)
  ]
]
  where
    clash : (s : Requirements) → ◌≢◌ {A = Option Requirements} none (some s)
    clash s h = ground arith

    same : (r s : Requirements) → some r ≡ some s → r ≡ s
    same r s h = cc

read_fields-IsWellFormed :
    (fs : Fields) (r : Requirements) → read_fields fs ≡ some r → IsWellFormed r
unfolding read_fields derive
read_fields-IsWellFormed fs r h =
    let (cores, c, h1) = and_then-some (if_given positive (get_field "cores" fs)) _ r h in
    let (ranks, k, h2) = and_then-some (if_given positive (get_field "ranks" fs)) _ r h1 in
    let (gpus, g, h3) = and_then-some (if_given natural (get_field "gpus" fs)) _ r h2 in
    let (mem_gb, m, h4) = and_then-some (if_given amount (get_field "mem_gb" fs)) _ r h3 in
    let (mpi, p, h5) = and_then-some (if_given flag (get_field "mpi" fs)) _ r h4 in
    let (software, s, h6) =
      and_then-some (if_given list_of_texts (get_field "software" fs)) _ r h5 in
    let (labels, l, h7) = and_then-some (if_given mapping (get_field "labels" fs)) _ r h6 in
    admit-IsWellFormed
      (derive (record {
        cores = cores;
        gpus = gpus;
        mem_gb = mem_gb;
        ranks = ranks;
        mpi = mpi;
        software = software;
        labels = labels;
      }))
      r (positive_given (get_field "ranks" fs) ranks k) h7

-- Requirements that are accepted are well-formed: there is at least one rank, a core for each, and
-- the GPUs split evenly over the ranks, whatever was declared and derived.
pub parse_requirements-IsWellFormed :
    (j : Json) (r : Requirements) → parse_requirements j ≡ some r → IsWellFormed r
unfolding parse_requirements
parse_requirements-IsWellFormed Json.null r h =
    subst IsWellFormed (same r h) (omega arith, omega arith, refl)
  where
    same : (r : Requirements) → some no_requirements ≡ some r → no_requirements ≡ r
    same r h = cc
parse_requirements-IsWellFormed (Json.bool b) r h = ground arith
parse_requirements-IsWellFormed (Json.int n) r h = ground arith
parse_requirements-IsWellFormed (Json.real x) r h = ground arith
parse_requirements-IsWellFormed (Json.str s) r h = ground arith
parse_requirements-IsWellFormed (Json.arr xs) r h = ground arith
parse_requirements-IsWellFormed (Json.obj fs) r h =
    elim (Bool-cases (all_of (contains known_keys) (field_names fs))) [
      | inl known ↦ read_fields-IsWellFormed fs r (rw known at h)
      | inr unknown ↦ absurd (clash r (rw unknown at h))
    ]
  where
    clash : (s : Requirements) → ◌≢◌ {A = Option Requirements} none (some s)
    clash s h = ground arith
