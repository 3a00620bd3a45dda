-- ===== src/Samples/Requests.antt =====
-- `parse_requirements`: runs on concrete declarations.
use radical_orbit.Prelude.{
  ◌-◌, ◌≡◌, refl, none, some, all_of, In, nat_eq, string_eq, option_eq, pair_eq,
}
use radical_orbit.Prelude.Int.{pos, int_eq}
use radical_orbit.Values.{Json, Fields}
use radical_orbit.Match.{Requirements, no_requirements}
use radical_orbit.Admission.{parse_requirements}
use radical_orbit.Admission.WellFormed.{IsWellFormed, parse_requirements-IsWellFormed}

abbrev four_ranks : Json
four_ranks =
    Json.obj
      (Fields.field "ranks" (Json.int (pos 4)) (Fields.field "gpus" (Json.int (pos 8)) Fields.end))

abbrev four_cores : Requirements
four_cores = record no_requirements { ranks = some 4; gpus = some 8; cores = some 4 }

four_ranks_parse : parse_requirements four_ranks ≡ some four_cores
unfolding parse_requirements radical_orbit.Prelude.all_of radical_orbit.Values.field_names
    radical_orbit.Values.contains radical_orbit.Values.get_field
four_ranks_parse = refl

parse_requirements-IsWellFormed_example : IsWellFormed four_cores
parse_requirements-IsWellFormed_example =
    parse_requirements-IsWellFormed four_ranks four_cores four_ranks_parse

uneven_gpus :
    parse_requirements (
      Json.obj (
        Fields.field "ranks"
          (Json.int (pos 4))
          (Fields.field "gpus" (Json.int (pos 6)) Fields.end)))
    ≡ none
unfolding parse_requirements radical_orbit.Prelude.all_of radical_orbit.Values.field_names
    radical_orbit.Values.contains radical_orbit.Values.get_field
uneven_gpus = refl
