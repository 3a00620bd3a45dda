-- ===== src/Config/Projection.antt =====
-- task_dispatcher_config.py: the scalar fields of a pool and its members never disagree.
use radical_orbit.Prelude.{
  String, ◌≡◌, refl, sym, ap, subst, ◌∙◌, inl, inr, false, some, [], ◌∷◌, arith, Bool-cases,
  or_default, head_of, nat_eq, string_eq, option_eq, pair_eq,
}
use radical_orbit.Prelude.Int.{int_eq}
use radical_orbit.Prelude.Dict.{Dict, lookup, insert, values}
use radical_orbit.Config.{
  PoolMember, PoolConfig, init_member, force_bounds, implicit_member, project_empty, project_member,
  project, reproject, synthesised, synthesise, init_pool, bind_member, bind_endpoint,
  primary_member,
}

-- The scalars of a pool are those of a member.
pub record Mirrors (c : PoolConfig) (m : PoolMember) : Type 0 where
  pub queue : c.queue ≡ m.queue
  pub account : c.account ≡ m.account
  pub endpoint_name : or_default c.endpoint_name "" ≡ m.endpoint_name
  pub pilot_sizes : c.pilot_sizes ≡ m.pilot_sizes
  pub default_size : c.default_size ≡ m.default_size
  pub bounds : (c.min_pilots ≡ m.min_pilots) × (c.max_pilots ≡ m.max_pilots)
  pub scratch_base : c.scratch_base ≡ m.scratch_base

some_eq : (a b : PoolMember) → some a ≡ some b → a ≡ b
some_eq a b e = cc

-- What a declaration may hand to the constructor: a legacy pool comes with no members.
pub record IsDeclared (c : PoolConfig) : Type 0 where
  pub legacy : c.multi_member ≡ false → c.members ≡ []

project-Mirrors :
    (ms : Dict String PoolMember) (c : PoolConfig) (m : PoolMember)
    → head_of (values ms) ≡ some m
    → Mirrors (project ms c) m
unfolding project project_member
project-Mirrors [] c m h = cc
project-Mirrors ((k, x) ∷ ms) c m h =
    subst (λ y. Mirrors (project_member x c) y) (some_eq x m h)
      (record {
        queue = refl;
        account = refl;
        endpoint_name = refl;
        pilot_sizes = refl;
        default_size = refl;
        bounds = (refl, refl);
        scratch_base = refl;
      })

project-members :
    (ms : Dict String PoolMember) (c : PoolConfig) → (project ms c).members ≡ c.members
unfolding project project_member project_empty
project-members [] c = refl
project-members (m ∷ ms) c = refl

synthesise-Mirrors :
    (c : PoolConfig) (m : PoolMember)
    → primary_member (synthesise [] c) ≡ some m
    → Mirrors (synthesise [] c) m
unfolding synthesise synthesised init_member force_bounds primary_member
synthesise-Mirrors c m h =
    subst (λ y. Mirrors (synthesise [] c) y) (some_eq (synthesised c) m h)
      (record {
        queue = refl;
        account = refl;
        endpoint_name = refl;
        pilot_sizes = refl;
        default_size = refl;
        bounds = (refl, refl);
        scratch_base = refl;
      })

-- A pool that was just constructed shows the data of its first member in its scalar fields: of the
-- implicit member for a legacy declaration, of the first declared one for a class pool.
pub init_pool-Mirrors :
    (c : PoolConfig) (m : PoolMember)
    → IsDeclared c
    → primary_member (init_pool c) ≡ some m
    → Mirrors (init_pool c) m
unfolding init_pool reproject primary_member
init_pool-Mirrors c m d h = elim (Bool-cases c.multi_member) [
  | inl e ↦
      let same : init_pool c ≡ project c.members c = ground arith in
      subst (λ x. Mirrors x m) (sym same)
        (project-Mirrors c.members c m
          (ap (λ ms. head_of (values ms)) (sym (project-members c.members c)) ∙ (rw same at h)))
  | inr e ↦
      let same : init_pool c ≡ synthesise [] c = ground (arith, d.legacy e) in
      subst (λ x. Mirrors x m) (sym same) (synthesise-Mirrors c m (rw same at h))
]

bound_members :
    (c : PoolConfig) (name : String) (m : PoolMember)
    → c.members ≡ (implicit_member, m) ∷ []
    → (bind_endpoint name c).members ≡ (implicit_member, record m { endpoint_name = name }) ∷ []
unfolding bind_endpoint bind_member lookup insert
bound_members c name m h = ap (λ ms. bind_member (lookup implicit_member ms) name ms) h

-- A legacy pool whose endpoint is resolved late keeps the two in step.
pub bind_endpoint-Mirrors :
    (c : PoolConfig) (name : String) (m m' : PoolMember)
    → c.members ≡ (implicit_member, m) ∷ []
    → Mirrors c m
    → primary_member (bind_endpoint name c) ≡ some m'
    → Mirrors (bind_endpoint name c) m'
unfolding bind_endpoint primary_member
bind_endpoint-Mirrors c name m m' h v e =
    let moved : PoolMember = record m { endpoint_name = name } in
    let is_moved : moved ≡ m' =
      some_eq moved m' (ap (λ ms. head_of (values ms)) (sym (bound_members c name m h)) ∙ e) in
    subst (λ y. Mirrors (bind_endpoint name c) y) is_moved
      (record {
        queue = v.queue;
        account = v.account;
        endpoint_name = refl;
        pilot_sizes = v.pilot_sizes;
        default_size = v.default_size;
        bounds = v.bounds;
        scratch_base = v.scratch_base;
      })
