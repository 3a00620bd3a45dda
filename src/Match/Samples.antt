-- ===== src/Match/Samples.antt =====
-- task_dispatcher_match.py: runs on concrete members.
use radical_orbit.Prelude.{
  ◌≡◌, refl, some, [], ◌∷◌, arith, keep, nat_eq, string_eq, option_eq, pair_eq,
}
use radical_orbit.Prelude.Int.{int_eq}
use radical_orbit.Prelude.Dict.{lookup}
use radical_orbit.Values.{AttrValue, contains}
use radical_orbit.Match.{
  Requirements, no_requirements, Attributes, Shape, fits, rejects, software_missing, satisfies,
  installed, missing_from,
}
use radical_orbit.Match.Fits.{Fits, satisfies-Fits, satisfies_mono}

abbrev pub wants_namd : Requirements
wants_namd = record no_requirements { cores = some 8; software = some ("namd" ∷ []) }

abbrev pub site : Attributes
site = ("software", AttrValue.items ("gromacs" ∷ "namd" ∷ [])) ∷ []

abbrev pub node : Shape
node = record { cpus_per_node = 16; gpus_per_node = 0; rhapsody_backend = "concurrent" }

namd_fits : satisfies wants_namd site (some node) ≡ fits
unfolding satisfies installed missing_from keep contains lookup
namd_fits = refl

nothing_installed : satisfies wants_namd [] (some node) ≡ rejects (software_missing ("namd" ∷ []))
unfolding satisfies installed missing_from keep contains lookup
nothing_installed = refl

satisfies-Fits_example : Fits wants_namd site (some node)
satisfies-Fits_example = (satisfies-Fits wants_namd site (some node)).0 namd_fits

satisfies_mono_example :
    satisfies wants_namd site (some (record node { cpus_per_node = 64; gpus_per_node = 4 })) ≡ fits
satisfies_mono_example =
    satisfies_mono wants_namd site node (record node { cpus_per_node = 64; gpus_per_node = 4 })
      (omega arith) (omega arith) refl namd_fits
