-- ===== src/Config/Declare.antt =====
-- src/radical/orbit/task_dispatcher_config.py: the parsers of sizes, of the fields that a pool and
-- a member share, and of a member. `none` is the PoolConfigError; its text is not modelled, and a
-- `default_size` that Python cannot look up counts as refused.
-- What a float is in the model's units is an argument of the parsers.
pub mod Members
pub mod Pools
pub mod Resources
pub mod WellFormed
use Prim.Native.Char.{Char, code}
use Prim.Native.String.{[] as nil_text, ◌∷◌ as char_then}
use radical_orbit.Prelude.{
  ℕ, suc, ◌+◌, ◌-◌, ◌*◌, ◌/◌, max, min, String, ap, Bool, true, false, not, ◌&&◌, ◌||◌, Option,
  none, some, List, [], ◌∷◌, leb, nat_beq, if◌then◌else◌, or_default, is_some, length, all_of, In,
  is_some, ◌==◌, nat_eq, string_eq, option_eq, pair_eq,
}
use radical_orbit.Prelude.Count.{bit, count}
use radical_orbit.Prelude.Dict.{Dict, lookup, keys}
use radical_orbit.Prelude.Int.{pos, negsuc, int_eq}
use radical_orbit.Values.{
  Json, Items, Fields, Real, finite, whole, real_lt, real_eq, get_field, field_names, contains,
  AttrValue,
}
use radical_orbit.Admission.{and_then}
use radical_orbit.Match.{Attributes}
use radical_orbit.Config.{
  PilotSize, PilotMode, submit, endpoint, PoolMember, init_member, second, default_pool_name,
}

-- A check, and what follows it.
abbrev pub ensure {ℓ} : {A : Type ℓ} → Bool → Option A → Option A
ensure true o = o
ensure false o = none

-- `_parse_int`: `bool` is not `int` here.
unfoldable pub parse_int : ℕ → Json → Option ℕ
parse_int least (Json.int (pos n)) = ensure (leb least n) (some n)
parse_int least (Json.int (negsuc n)) = none
parse_int least Json.null = none
parse_int least (Json.bool b) = none
parse_int least (Json.real r) = none
parse_int least (Json.str s) = none
parse_int least (Json.arr xs) = none
parse_int least (Json.obj fs) = none

unfoldable pub named_text : Json → Option String
named_text (Json.str s) = ensure (not (s == "")) (some s)
named_text Json.null = none
named_text (Json.bool b) = none
named_text (Json.int n) = none
named_text (Json.real r) = none
named_text (Json.arr xs) = none
named_text (Json.obj fs) = none

-- A text or null.
unfoldable pub text_or_null : Json → Option (Option String)
text_or_null (Json.str s) = some (some s)
text_or_null Json.null = some none
text_or_null (Json.bool b) = none
text_or_null (Json.int n) = none
text_or_null (Json.real r) = none
text_or_null (Json.arr xs) = none
text_or_null (Json.obj fs) = none

unfoldable pub fields_of : Json → Option Fields
fields_of (Json.obj fs) = some fs
fields_of Json.null = none
fields_of (Json.bool b) = none
fields_of (Json.int n) = none
fields_of (Json.real r) = none
fields_of (Json.str s) = none
fields_of (Json.arr xs) = none

-- d.get(key, default)
abbrev pub get_or : String → Json → Fields → Json
get_or k default fs = or_default (get_field k fs) default

abbrev pub has_all : List String → Fields → Bool
has_all ks fs = all_of (λ k. is_some (get_field k fs)) ks

-- `_parse_pilot_size`
unfoldable pub size_from : Fields → Option PilotSize
unfolding parse_int named_text
size_from fs = ensure (has_all ("nodes" ∷ "cpus_per_node" ∷ "rhapsody_backend" ∷ []) fs) (
    and_then (named_text (get_or "rhapsody_backend" Json.null fs)) (λ backend.
      and_then (parse_int 1 (get_or "nodes" Json.null fs)) (λ nodes.
        and_then (parse_int 1 (get_or "cpus_per_node" Json.null fs)) (λ cpus.
          and_then (parse_int 0 (get_or "gpus_per_node" (Json.int (pos 0)) fs)) (λ gpus.
            and_then (parse_int 1 (get_or "walltime_sec" (Json.int (pos 3600)) fs)) (λ wall.
              some (record {
                nodes = nodes;
                cpus_per_node = cpus;
                rhapsody_backend = backend;
                gpus_per_node = gpus;
                walltime = wall * second;
              })))))))

unfoldable pub parse_pilot_size : Json → Option PilotSize
unfolding size_from fields_of
parse_pilot_size j = and_then (fields_of j) size_from

unfoldable pub parse_sizes : Fields → Option (Dict String PilotSize)
unfolding parse_pilot_size
parse_sizes Fields.end = some []
parse_sizes (Fields.field k j fs) =
    let rest = parse_sizes fs in
    and_then (parse_pilot_size j) (λ size. and_then rest (λ sizes. some ((k, size) ∷ sizes)))

-- The fields that a legacy pool and a member share.
pub record Resource : Type 0 where
  pub endpoint_name : Option String
  pub queue : String
  pub account : Option String
  pub pilot_sizes : Dict String PilotSize
  pub default_size : String
  pub min_pilots : ℕ
  pub max_pilots : ℕ
  pub scratch_base : Option String

-- Only a legacy pool may leave the endpoint open.
unfoldable pub endpoint_from : Bool → Json → Option (Option String)
unfolding named_text
endpoint_from true j = and_then (named_text j) (λ s. some (some s))
endpoint_from false Json.null = some none
endpoint_from false (Json.str s) = and_then (named_text (Json.str s)) (λ t. some (some t))
endpoint_from false (Json.bool b) = none
endpoint_from false (Json.int n) = none
endpoint_from false (Json.real r) = none
endpoint_from false (Json.arr xs) = none
endpoint_from false (Json.obj fs) = none

abbrev pub is_filled {ℓ} : {A : Type ℓ} → List A → Bool
is_filled [] = false
is_filled (x ∷ xs) = true

unfoldable pub menu_from : Json → Option (Dict String PilotSize)
unfolding parse_sizes fields_of
menu_from j =
    and_then (fields_of j)
      (λ fs. and_then (parse_sizes fs) (λ sizes. ensure (is_filled sizes) (some sizes)))

unfoldable pub a_text : Json → Option String
a_text (Json.str s) = some s
a_text Json.null = none
a_text (Json.bool b) = none
a_text (Json.int n) = none
a_text (Json.real r) = none
a_text (Json.arr xs) = none
a_text (Json.obj fs) = none

-- `_parse_resource`; the caller has checked the required keys.
unfoldable pub parse_resource : Bool → Fields → Option Resource
unfolding endpoint_from named_text text_or_null menu_from a_text parse_int
parse_resource endpoint_required fs =
    and_then (endpoint_from endpoint_required (get_or "endpoint_name" Json.null fs)) (λ endpoint.
      and_then (named_text (get_or "queue" Json.null fs)) (λ queue.
        and_then (text_or_null (get_or "account" Json.null fs)) (λ account.
          and_then (menu_from (get_or "pilot_sizes" Json.null fs)) (λ sizes.
            and_then (a_text (get_or "default_size" Json.null fs)) (λ default.
              ensure (is_some (lookup default sizes)) (
                and_then (parse_int 0 (get_or "min_pilots" (Json.int (pos 0)) fs)) (λ least.
                  and_then (parse_int 1 (get_or "max_pilots" (Json.int (pos 4)) fs)) (λ most.
                    ensure (leb least most) (
                      and_then (text_or_null (get_or "scratch_base" Json.null fs)) (λ scratch.
                        some (record {
                          endpoint_name = endpoint;
                          queue = queue;
                          account = account;
                          pilot_sizes = sizes;
                          default_size = default;
                          min_pilots = least;
                          max_pilots = most;
                          scratch_base = scratch;
                        })))))))))))

-- [a-z0-9], and [a-z0-9_.-]
between : ℕ → ℕ → Char → Bool
between low high c = leb low (code c) && leb (code c) high

unfoldable pub first_char : Char → Bool
unfolding between
first_char c = between 97 122 c || between 48 57 c

unfoldable pub name_char : Char → Bool
unfolding first_char
name_char c = first_char c || nat_beq (code c) 95 || nat_beq (code c) 46 || nat_beq (code c) 45

-- `[a-z0-9_.-]*$`: a `$` also stands before a newline that ends the text.
unfoldable pub name_tail : String → Bool
unfolding name_char
name_tail nil_text = true
name_tail (char_then c s) =
    let rest = name_tail s in if name_char c then rest else nat_beq (code c) 10 && s == ""

unfoldable pub is_member_id : String → Bool
unfolding name_tail first_char
is_member_id nil_text = false
is_member_id (char_then c s) = first_char c && name_tail s

-- len(s)
unfoldable pub text_length : String → ℕ
text_length nil_text = 0
text_length (char_then c s) = text_length s + 1

abbrev pub max_pool_member_name_len : ℕ
max_pool_member_name_len = 64
