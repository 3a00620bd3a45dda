-- ===== src/Config/Declare/Resources.antt =====
-- task_dispatcher_config.py: what an accepted size and an accepted resource are.
use radical_orbit.Prelude.{
  ℕ, ◌*◌, ◌≤◌, String, ◌≡◌, refl, subst, Bool, true, false, not, Option, none, some, [], arith, leb,
  leb→le, is_some, All, is_some, ◌==◌, nat_eq, string_eq, option_eq, pair_eq,
}
use radical_orbit.Prelude.Dict.{Dict, lookup, keys}
use radical_orbit.Prelude.Int.{pos, negsuc, int_eq}
use radical_orbit.Values.{Json, Fields}
use radical_orbit.Admission.{and_then}
use radical_orbit.Admission.WellFormed.{and_then-some}
use radical_orbit.Config.{PilotSize, second}
use radical_orbit.Config.Declare.{
  ensure, parse_int, named_text, text_or_null, fields_of, get_or, size_from, parse_pilot_size,
  parse_sizes, Resource, endpoint_from, menu_from, a_text, parse_resource,
}

pub ensure-some {ℓ} :
    {A : Type ℓ} (b : Bool) (o : Option A) (a : A) → ensure b o ≡ some a → (b ≡ true) × (o ≡ some a)
ensure-some true o a h = (refl, h)
ensure-some false o a h = ground arith

pub some_injective {ℓ} : {A : Type ℓ} (a b : A) → some a ≡ some b → a ≡ b
some_injective a b h = cc

parse_int-le : (least n : ℕ) (j : Json) → parse_int least j ≡ some n → least ≤ n
unfolding parse_int
parse_int-le least n (Json.int (pos m)) h =
    let (e, same) = ensure-some (leb least m) (some m) n h in ground arith
parse_int-le least n (Json.int (negsuc m)) h = ground arith
parse_int-le least n Json.null h = ground arith
parse_int-le least n (Json.bool b) h = ground arith
parse_int-le least n (Json.real r) h = ground arith
parse_int-le least n (Json.str s) h = ground arith
parse_int-le least n (Json.arr xs) h = ground arith
parse_int-le least n (Json.obj fs) h = ground arith

pub named_text-filled : (j : Json) (t : String) → named_text j ≡ some t → (t == "") ≡ false
unfolding named_text
named_text-filled (Json.str s) t h =
    let (e, same) = ensure-some (not (s == "")) (some s) t h in
    subst (λ u. (u == "") ≡ false) (some_injective s t same) (ground arith)
named_text-filled (Json.int n) t h = ground arith
named_text-filled Json.null t h = ground arith
named_text-filled (Json.bool b) t h = ground arith
named_text-filled (Json.real r) t h = ground arith
named_text-filled (Json.arr xs) t h = ground arith
named_text-filled (Json.obj fs) t h = ground arith

-- At least one node, one core on each and one second, and a named backend.
abbrev pub IsSizeSound : PilotSize → Type 0
IsSizeSound s =
    (1 ≤ s.nodes)
    × (1 ≤ s.cpus_per_node)
    × (second ≤ s.walltime)
    × ((s.rhapsody_backend == "") ≡ false)

whole_second : (n : ℕ) → 1 ≤ n → second ≤ n * second
whole_second n h = omega arith

size_from-IsSizeSound : (fs : Fields) (s : PilotSize) → size_from fs ≡ some s → IsSizeSound s
unfolding size_from
size_from-IsSizeSound fs s h =
    let (keys, h0) = ensure-some _ _ s h in
    let (backend, b, h1) =
      and_then-some (named_text (get_or "rhapsody_backend" Json.null fs)) _ s h0 in
    let (nodes, n, h2) = and_then-some (parse_int 1 (get_or "nodes" Json.null fs)) _ s h1 in
    let (cpus, c, h3) = and_then-some (parse_int 1 (get_or "cpus_per_node" Json.null fs)) _ s h2 in
    let (gpus, g, h4) =
      and_then-some (parse_int 0 (get_or "gpus_per_node" (Json.int (pos 0)) fs)) _ s h3 in
    let (wall, w, h5) =
      and_then-some (parse_int 1 (get_or "walltime_sec" (Json.int (pos 3600)) fs)) _ s h4 in
    subst IsSizeSound (some_injective _ s h5) (
      parse_int-le 1 nodes (get_or "nodes" Json.null fs) n,
      parse_int-le 1 cpus (get_or "cpus_per_node" Json.null fs) c,
      whole_second wall (parse_int-le 1 wall (get_or "walltime_sec" (Json.int (pos 3600)) fs) w),
      named_text-filled (get_or "rhapsody_backend" Json.null fs) backend b,
    )

parse_sizes-IsSizeSound :
    (fs : Fields) (d : Dict String PilotSize)
    → parse_sizes fs ≡ some d
    → All (λ p. IsSizeSound p.1) d
unfolding parse_sizes parse_pilot_size
parse_sizes-IsSizeSound Fields.end d h =
    subst (All (λ p. IsSizeSound p.1)) (some_injective [] d h) tt
parse_sizes-IsSizeSound (Fields.field k j fs) d h =
    let (size, e, h1) = and_then-some (parse_pilot_size j) _ d h in
    let (sizes, f, h2) = and_then-some (parse_sizes fs) _ d h1 in
    let (gs, o, i) = and_then-some (fields_of j) size_from size e in
    subst (All (λ p. IsSizeSound p.1)) (some_injective _ d h2)
      (size_from-IsSizeSound gs size i, parse_sizes-IsSizeSound fs sizes f)

menu_from-IsSizeSound :
    (j : Json) (d : Dict String PilotSize) → menu_from j ≡ some d → All (λ p. IsSizeSound p.1) d
unfolding menu_from
menu_from-IsSizeSound j d h =
    let (fs, e, h1) = and_then-some (fields_of j) _ d h in
    let (sizes, f, h2) = and_then-some (parse_sizes fs) _ d h1 in
    let (filled, same) = ensure-some _ _ d h2 in
    subst (All (λ p. IsSizeSound p.1)) (some_injective sizes d same)
      (parse_sizes-IsSizeSound fs sizes f)

-- What the endpoint of a resource is: named, or left open where that is allowed.
abbrev pub EndpointIsSound : Bool → Option String → Type 0
EndpointIsSound required none = required ≡ false
EndpointIsSound required (some e) = (e == "") ≡ false

named_endpoint :
    (required : Bool) (j : Json) (o : Option String)
    → and_then (named_text j) (λ s. some (some s)) ≡ some o
    → EndpointIsSound required o
named_endpoint required j o h =
    let (s, e, same) = and_then-some (named_text j) _ o h in
    subst (EndpointIsSound required) (some_injective (some s) o same) (named_text-filled j s e)

endpoint_from-IsSound :
    (required : Bool) (j : Json) (o : Option String)
    → endpoint_from required j ≡ some o
    → EndpointIsSound required o
unfolding endpoint_from
endpoint_from-IsSound true j o h = named_endpoint true j o h
endpoint_from-IsSound false (Json.str s) o h = named_endpoint false (Json.str s) o h
endpoint_from-IsSound false Json.null o h =
    subst (EndpointIsSound false) (some_injective none o h) refl
endpoint_from-IsSound false (Json.bool b) o h = ground arith
endpoint_from-IsSound false (Json.int n) o h = ground arith
endpoint_from-IsSound false (Json.real r) o h = ground arith
endpoint_from-IsSound false (Json.arr xs) o h = ground arith
endpoint_from-IsSound false (Json.obj fs) o h = ground arith

-- A menu of sound sizes with the default one in it, bounds that leave room, and a queue.
abbrev pub IsResourceSound : Bool → Resource → Type 0
IsResourceSound required r =
    All (λ p. IsSizeSound p.1) r.pilot_sizes
    × (is_some (lookup r.default_size r.pilot_sizes) ≡ true)
    × (r.min_pilots ≤ r.max_pilots)
    × (1 ≤ r.max_pilots)
    × ((r.queue == "") ≡ false)
    × EndpointIsSound required r.endpoint_name

pub parse_resource-IsResourceSound :
    (required : Bool) (fs : Fields) (r : Resource)
    → parse_resource required fs ≡ some r
    → IsResourceSound required r
unfolding parse_resource
parse_resource-IsResourceSound required fs r h =
    let (endpoint, e, h1) =
      and_then-some (endpoint_from required (get_or "endpoint_name" Json.null fs)) _ r h in
    let (queue, q, h2) = and_then-some (named_text (get_or "queue" Json.null fs)) _ r h1 in
    let (account, a, h3) = and_then-some (text_or_null (get_or "account" Json.null fs)) _ r h2 in
    let (sizes, s, h4) = and_then-some (menu_from (get_or "pilot_sizes" Json.null fs)) _ r h3 in
    let (default, d, h5) = and_then-some (a_text (get_or "default_size" Json.null fs)) _ r h4 in
    let (known, h6) = ensure-some (is_some (lookup default sizes)) _ r h5 in
    let (least, l, h7) =
      and_then-some (parse_int 0 (get_or "min_pilots" (Json.int (pos 0)) fs)) _ r h6 in
    let (most, m, h8) =
      and_then-some (parse_int 1 (get_or "max_pilots" (Json.int (pos 4)) fs)) _ r h7 in
    let (room, h9) = ensure-some (leb least most) _ r h8 in
    let (scratch, c, h10) =
      and_then-some (text_or_null (get_or "scratch_base" Json.null fs)) _ r h9 in
    subst (IsResourceSound required) (some_injective _ r h10) (
      menu_from-IsSizeSound (get_or "pilot_sizes" Json.null fs) sizes s,
      known,
      leb→le least most room,
      parse_int-le 1 most (get_or "max_pilots" (Json.int (pos 4)) fs) m,
      named_text-filled (get_or "queue" Json.null fs) queue q,
      endpoint_from-IsSound required (get_or "endpoint_name" Json.null fs) endpoint e,
    )
