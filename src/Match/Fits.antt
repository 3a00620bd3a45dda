-- ===== src/Match/Fits.antt =====
-- task_dispatcher_match.py: `satisfies` decides a declarative notion of fitting.
use radical_orbit.Prelude.{
  ℕ, ◌≤◌, ◌<◌, String, ◌≡◌, refl, subst, ◌↔◌, inl, inr, Bool, true, false, Option, none, some, List,
  [], ◌∷◌, arith, ltb, ltb→lt, Bool-cases, or_default, keep, All, nat_eq, string_eq, str_iff,
  option_eq, ==_refl, pair_eq,
}
use radical_orbit.Prelude.Dict.{Dict, lookup}
use radical_orbit.Prelude.Int.{pos, int_eq}
use radical_orbit.Values.{Real, finite, real_lt, Scalar, AttrValue, contains}
use radical_orbit.Match.{
  Requirements, Attributes, Shape, Reason, Verdict, fits, rejects, raises, ◌then_if_fit◌,
  no_mpi_backends, installed, missing_from, judge_missing, match_software, match_count, cores_short,
  gpus_short, match_shape, declared_mem, compare_mem, match_mem, label_holds, match_labels,
  match_mpi, satisfies,
}

abbrev pub among : Option (List String) → String → Bool
among none s = false
among (some xs) s = contains xs s

-- The declared memory is a number that is not below the demand.
abbrev pub AtLeast : Option Real → ℕ → Type 0
AtLeast none mem = ⊥
AtLeast (some x) mem = real_lt x (finite (pos mem)) ≡ false

-- Every declared demand is met by the attributes and the size.
pub record Fits (req : Requirements) (attrs : Attributes) (size : Option Shape) : Type 0 where
  pub software :
      (s : String)
      → contains (or_default req.software []) s ≡ true
      → among (installed (lookup "software" attrs)) s ≡ true
  pub cores : (z : Shape) → size ≡ some z → or_default req.cores 0 ≤ z.cpus_per_node
  pub gpus : (z : Shape) → size ≡ some z → or_default req.gpus 0 ≤ z.gpus_per_node
  pub mem_gb :
      (v : AttrValue)
      → lookup "mem_gb_per_node" attrs ≡ some v
      → 0 < or_default req.mem_gb 0
      → AtLeast (declared_mem v) (or_default req.mem_gb 0)
  pub labels : All (λ l. label_holds (lookup l.0 attrs) l.1 ≡ true) (or_default req.labels [])
  pub mpi :
      (z : Shape)
      → size ≡ some z
      → or_default req.mpi false ≡ true
      → contains no_mpi_backends z.rhapsody_backend ≡ false

then_fits : (a b : Verdict) → (a then_if_fit b ≡ fits) ↔ ((a ≡ fits) × (b ≡ fits))
then_fits fits b = (λ h. (refl, h), λ h. h.1)
then_fits (rejects r) b = (λ h. cc, λ h. cc)
then_fits raises b = (λ h. cc, λ h. cc)

missing_none :
    (want have : List String) (s : String)
    → missing_from want have ≡ []
    → contains want s ≡ true
    → contains have s ≡ true
unfolding missing_from keep contains
missing_none [] have s h e = cc
missing_none (x ∷ want) have s h e = ground (arith, missing_none want have s, str_iff x s)

none_missing :
    (want have : List String)
    → ((s : String) → contains want s ≡ true → contains have s ≡ true)
    → missing_from want have ≡ []
unfolding missing_from keep contains
none_missing [] have h = refl
none_missing (x ∷ want) have h =
    ground (arith, h x, ==_refl x, none_missing want have (λ s e. h s (ground (arith, e))))

match_software-fits :
    (want : List String) (have : Option (List String))
    → (match_software want have ≡ fits)
      ↔ ((s : String) → contains want s ≡ true → among have s ≡ true)
unfolding match_software judge_missing
match_software-fits [] have = (λ h s e. unfold contains in cc, λ h. refl)
match_software-fits (x ∷ xs) none =
    (λ h. cc, λ h. cc (h x (unfold contains in ground (arith, ==_refl x))))
match_software-fits (x ∷ xs) (some have) = (
  λ h s. missing_none (x ∷ xs) have s (judged (missing_from (x ∷ xs) have) h),
  λ h. rw (none_missing (x ∷ xs) have h) refl,
)
  where
    judged : (m : List String) → judge_missing m ≡ fits → m ≡ []
    judged [] e = refl
    judged (y ∷ ys) e = cc

match_count-fits :
    (short : ℕ → ℕ → Reason) (have want : ℕ) → (match_count short have want ≡ fits) ↔ (want ≤ have)
unfolding match_count
match_count-fits short have want = ground arith

match_labels-fits :
    (ls : Dict String Scalar) (attrs : Attributes)
    → (match_labels ls attrs ≡ fits) ↔ All (λ l. label_holds (lookup l.0 attrs) l.1 ≡ true) ls
unfolding match_labels
match_labels-fits [] attrs = (λ h. tt, λ h. refl)
match_labels-fits ((k, v) ∷ ls) attrs = ground (arith, match_labels-fits ls attrs)

compare_mem-fits : (mem : ℕ) (have : Option Real) → (compare_mem mem have ≡ fits) ↔ AtLeast have mem
unfolding compare_mem
compare_mem-fits mem none = (λ h. cc, λ h. absurd h)
compare_mem-fits mem (some x) = ground arith

match_mem-fits :
    (mem : ℕ) (v : Option AttrValue)
    → (match_mem mem v ≡ fits)
      ↔ ((a : AttrValue) → v ≡ some a → 0 < mem → AtLeast (declared_mem a) mem)
unfolding match_mem
match_mem-fits mem none = (λ h a e. cc, λ h. refl)
match_mem-fits mem (some v) = (
  λ h a e pos_mem.
      subst (λ a. AtLeast (declared_mem a) mem) (cc)
        ((compare_mem-fits mem (declared_mem v)).0 (ground arith)),
  λ h. elim (Bool-cases (ltb 0 mem)) [
    | inl demanded ↦
        rw demanded ((compare_mem-fits mem (declared_mem v)).1 (h v refl (ltb→lt 0 mem demanded)))
    | inr nothing ↦ rw nothing refl
  ],
)

match_shape-fits :
    (req : Requirements) (size : Option Shape)
    → (match_shape req size ≡ fits) ↔ (
        (z : Shape)
        → size ≡ some z
        → (or_default req.cores 0 ≤ z.cpus_per_node) × (or_default req.gpus 0 ≤ z.gpus_per_node))
unfolding match_shape
match_shape-fits req none = (λ h z e. cc, λ h. refl)
match_shape-fits req (some size) = (
  λ h z e. ground (
    arith,
    e,
    then_fits (match_count cores_short size.cpus_per_node (or_default req.cores 0))
        (match_count gpus_short size.gpus_per_node (or_default req.gpus 0)),
    match_count-fits cores_short size.cpus_per_node (or_default req.cores 0),
    match_count-fits gpus_short size.gpus_per_node (or_default req.gpus 0),
  ),
  λ h. ground (
    arith,
    h size,
    then_fits (match_count cores_short size.cpus_per_node (or_default req.cores 0))
        (match_count gpus_short size.gpus_per_node (or_default req.gpus 0)),
    match_count-fits cores_short size.cpus_per_node (or_default req.cores 0),
    match_count-fits gpus_short size.gpus_per_node (or_default req.gpus 0),
  ),
)

match_mpi-fits :
    (mpi : Bool) (size : Option Shape)
    → (match_mpi mpi size ≡ fits) ↔ (
        (z : Shape)
        → size ≡ some z
        → mpi ≡ true
        → contains no_mpi_backends z.rhapsody_backend ≡ false)
unfolding match_mpi
match_mpi-fits mpi none = (λ h z e. cc, λ h. refl)
match_mpi-fits mpi (some size) = (λ h z e m. ground (arith, e), λ h. ground (arith, h size))

five_fit :
    (a b c d e : Verdict)
    → (a then_if_fit b then_if_fit c then_if_fit d then_if_fit e ≡ fits)
      ↔ ((a ≡ fits) × (b ≡ fits) × (c ≡ fits) × (d ≡ fits) × (e ≡ fits))
five_fit a b c d e = ground arith

-- Whatever the requirements, the attributes and the size: the matcher returns None exactly when
-- every demand is met: the software is among the installed, the size has the cores and GPUs of
-- one node, a declared memory is a number not below the demand, every label matches, and an MPI
-- task is not placed on a backend that cannot run it. With no size the size's demands are waived.
pub satisfies-Fits :
    (req : Requirements) (attrs : Attributes) (size : Option Shape)
    → (satisfies req attrs size ≡ fits) ↔ Fits req attrs size
unfolding satisfies
satisfies-Fits req attrs size = (
  λ h.
      let parts = (five_fit _ _ _ _ _).0 h in
      record {
        software = (match_software-fits _ _).0 parts.0;
        cores = λ z e. ((match_shape-fits req size).0 parts.1 z e).0;
        gpus = λ z e. ((match_shape-fits req size).0 parts.1 z e).1;
        mem_gb = (match_mem-fits _ _).0 parts.2;
        labels = (match_labels-fits _ attrs).0 parts.3;
        mpi = (match_mpi-fits _ size).0 parts.4;
      },
  λ f. (five_fit _ _ _ _ _).1 (
    (match_software-fits _ _).1 f.software,
    (match_shape-fits req size).1 (λ z e. (f.cores z e, f.gpus z e)),
    (match_mem-fits _ _).1 f.mem_gb,
    (match_labels-fits _ attrs).1 f.labels,
    (match_mpi-fits _ size).1 f.mpi,
  ),
)

-- A larger size keeps a fit: with the same attributes and backend, and no fewer cores and GPUs
-- on a node, what fitted before fits again.
pub satisfies_mono :
    (req : Requirements) (attrs : Attributes) (small large : Shape)
    → small.cpus_per_node ≤ large.cpus_per_node
    → small.gpus_per_node ≤ large.gpus_per_node
    → small.rhapsody_backend ≡ large.rhapsody_backend
    → satisfies req attrs (some small) ≡ fits
    → satisfies req attrs (some large) ≡ fits
satisfies_mono req attrs small large hc hg hb h =
    let f = (satisfies-Fits req attrs (some small)).0 h in
    (satisfies-Fits req attrs (some large)).1 (record {
      software = f.software;
      cores = λ z e. ground (arith, e, f.cores small refl);
      gpus = λ z e. ground (arith, e, f.gpus small refl);
      mem_gb = f.mem_gb;
      labels = f.labels;
      mpi = λ z e m. ground (arith, e, f.mpi small refl m);
    })
