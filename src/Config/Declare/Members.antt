-- ===== src/Config/Declare/Members.antt =====
-- task_dispatcher_config.py: the parsers of a member and of the members of a pool.
use radical_orbit.Prelude.{
  ℕ, ◌+◌, String, Bool, true, false, not, ◌||◌, Option, none, some, List, [], ◌∷◌, leb,
  if◌then◌else◌, or_default, is_some, all_of, is_some, ◌==◌, nat_eq, string_eq, option_eq, pair_eq,
}
use radical_orbit.Prelude.Dict.{Dict, lookup, insert}
use radical_orbit.Prelude.Int.{pos, int_eq}
use radical_orbit.Values.{
  Json, Items, Fields, Real, finite, whole, real_lt, real_eq, get_field, field_names, contains,
  is_zero, AttrValue,
}
use radical_orbit.Admission.{and_then}
use radical_orbit.Match.{Attributes}
use radical_orbit.Config.{
  PilotMode, submit, endpoint, PoolMember, PoolConfig, init_member, default_pool_name,
}
use radical_orbit.Config.Declare.{
  ensure, fields_of, get_or, has_all, Resource, parse_resource, is_filled, a_text, is_member_id,
  text_length, max_pool_member_name_len,
}

unfoldable pub a_flag : Json → Option Bool
a_flag (Json.bool b) = some b
a_flag Json.null = none
a_flag (Json.int n) = none
a_flag (Json.real r) = none
a_flag (Json.str s) = none
a_flag (Json.arr xs) = none
a_flag (Json.obj fs) = none

all_texts : Items → Option (List String)
unfolding a_text
all_texts Items.nil = some []
all_texts (Items.cons j js) =
    let rest = all_texts js in and_then (a_text j) (λ s. and_then rest (λ ss. some (s ∷ ss)))

attribute : Json → Option AttrValue
unfolding all_texts
attribute (Json.str s) = some (AttrValue.text s)
attribute (Json.int n) = some (AttrValue.num (finite (whole n)))
attribute (Json.real r) = some (AttrValue.num r)
attribute (Json.arr js) = and_then (all_texts js) (λ ss. some (AttrValue.items ss))
attribute Json.null = none
attribute (Json.bool b) = none
attribute (Json.obj fs) = none

unfoldable pub attributes_from : Fields → Option Attributes
unfolding attribute
attributes_from Fields.end = some []
attributes_from (Fields.field k j fs) =
    let rest = attributes_from fs in
    and_then (attribute j) (λ v. and_then rest (λ d. some ((k, v) ∷ d)))

unfoldable pub mode_from : Json → Option PilotMode
unfolding a_text
mode_from j =
    and_then (a_text j)
      (λ s. if s == "submit" then some submit else if s == "endpoint" then some endpoint else none)

-- `not (x <= 0)`: of a float that is no number this is true as well.
unfoldable pub above_zero : Real → Option Real
above_zero r =
    let zero_real = finite (pos 0) in
    ensure (not (real_lt r zero_real || real_eq r zero_real)) (some r)

unfoldable pub positive_number : Json → Option Real
unfolding above_zero
positive_number (Json.int n) = above_zero (finite (whole n))
positive_number (Json.real r) = above_zero r
positive_number Json.null = none
positive_number (Json.bool b) = none
positive_number (Json.str s) = none
positive_number (Json.arr xs) = none
positive_number (Json.obj fs) = none

abbrev pub if_declared {ℓ} : {A : Type ℓ} → (Json → Option A) → Option Json → Option (Option A)
if_declared read none = some none
if_declared read (some j) = and_then (read j) (λ a. some (some a))

-- A null is no declaration.
abbrev pub unless_null : Option Json → Option Json
unless_null (some Json.null) = none
unless_null o = o

unfoldable pub budget_from : Json → Option (Option Real)
unfolding fields_of positive_number
budget_from j = and_then (fields_of j) (λ fs.
    ensure (all_of (contains ("node_hours" ∷ [])) (field_names fs))
      (if_declared positive_number (get_field "node_hours" fs)))

-- bool(x)
unfoldable pub truthy : Json → Bool
truthy Json.null = false
truthy (Json.bool b) = b
truthy (Json.int n) = not (n == pos 0)
truthy (Json.real r) = not (is_zero r)
truthy (Json.str s) = not (s == "")
truthy (Json.arr Items.nil) = false
truthy (Json.arr (Items.cons j js)) = true
truthy (Json.obj Fields.end) = false
truthy (Json.obj (Fields.field k j fs)) = true

unfoldable pub append_field : Fields → String → Json → Fields
append_field Fields.end k v = Fields.field k v Fields.end
append_field (Fields.field j w fs) k v = Fields.field j w (append_field fs k v)

-- An entry of a mapping is named by its key, unless it names itself.
entry_named : String → Json → Json
unfolding append_field
entry_named mid (Json.obj fs) =
    if is_some (get_field "member_id" fs)
    then Json.obj fs
    else Json.obj (append_field fs "member_id" (Json.str mid))
entry_named mid j = j

entries_of : Fields → List Json
unfolding entry_named
entries_of Fields.end = []
entries_of (Fields.field mid j fs) = entry_named mid j ∷ entries_of fs

unfoldable pub items_of : Items → List Json
items_of Items.nil = []
items_of (Items.cons j js) = j ∷ items_of js

unfoldable pub member_entries : Json → Option (List Json)
unfolding entries_of items_of
member_entries (Json.obj fs) = some (entries_of fs)
member_entries (Json.arr js) = some (items_of js)
member_entries Json.null = none
member_entries (Json.bool b) = none
member_entries (Json.int n) = none
member_entries (Json.real r) = none
member_entries (Json.str s) = none

-- What the registry of policies says: a name is known, and its constructor takes the configuration.
abbrev pub Policies : Type 0
Policies = Dict String (PoolConfig → Fields → Bool)

abbrev pub takes : Option (PoolConfig → Fields → Bool) → PoolConfig → Fields → Bool
takes none c fs = false
takes (some accepts) c fs = accepts c fs

module _ (time budget : Real → ℕ) where
  unfoldable pub made :
      String → Resource → Bool → Attributes → PilotMode → Option Real → Option Real → PoolMember
  unfolding init_member
  made member_id r shared_fs attributes pilot end_time hours = init_member (record {
    member_id = member_id;
    endpoint_name = or_default r.endpoint_name "";
    queue = r.queue;
    account = r.account;
    pilot_sizes = r.pilot_sizes;
    default_size = r.default_size;
    min_pilots = r.min_pilots;
    max_pilots = r.max_pilots;
    scratch_base = r.scratch_base;
    shared_fs = shared_fs;
    attributes = attributes;
    budget = elim hours [ none ↦ none | some h ↦ some (budget h) ];
    pilot = pilot;
    end_time = elim end_time [ none ↦ none | some t ↦ some (time t) ];
  })

  -- The keys of a member besides its name and resource.
  unfoldable pub member_rest : String → Resource → Fields → Option PoolMember
  unfolding a_flag fields_of attributes_from mode_from positive_number budget_from made
  member_rest member_id r fs = and_then (a_flag (get_or "shared_fs" (Json.bool true) fs)) (λ shared.
      and_then (fields_of (get_or "attributes" (Json.obj Fields.end) fs)) (λ declared.
        and_then (attributes_from declared) (λ attributes.
          and_then (mode_from (get_or "pilot" (Json.str "submit") fs)) (λ pilot.
            and_then (if_declared positive_number (unless_null (get_field "end_time" fs))) (λ until.
              and_then (budget_from (get_or "budget" (Json.obj Fields.end) fs))
                (λ hours. some (made member_id r shared attributes pilot until hours)))))))

  unfoldable pub member_from : String → Fields → Option PoolMember
  unfolding a_text is_member_id text_length parse_resource member_rest
  member_from pool_name fs =
      ensure
        (has_all ("member_id" ∷ "endpoint_name" ∷ "queue" ∷ "default_size" ∷ "pilot_sizes" ∷ []) fs)
        (and_then (a_text (get_or "member_id" Json.null fs)) (λ member_id.
          ensure (is_member_id member_id) (
            ensure (leb (text_length pool_name + text_length member_id) max_pool_member_name_len) (
              and_then (parse_resource true fs)
                (λ r. ensure (not (r.queue == default_pool_name)) (member_rest member_id r fs))))))

  unfoldable pub parse_member : String → Json → Option PoolMember
  unfolding fields_of member_from
  parse_member pool_name j = and_then (fields_of j) (member_from pool_name)

  -- The loop over the entries: a name that is taken is refused.
  unfoldable pub add_members :
      String → List Json → Dict String PoolMember → Option (Dict String PoolMember)
  unfolding parse_member
  add_members pool_name [] members = some members
  add_members pool_name (j ∷ js) members = and_then (parse_member pool_name j) (λ m.
      if is_some (lookup m.member_id members)
      then none
      else add_members pool_name js (insert m.member_id m members))

  -- `_parse_members`
  unfoldable pub parse_members : Bool → String → Json → Option (Dict String PoolMember)
  unfolding member_entries add_members
  parse_members allow_empty pool_name raw =
      and_then (member_entries raw)
        (λ js. ensure (is_filled js || allow_empty) (add_members pool_name js []))
