-- ===== src/Subscriptions.antt =====
-- src/radical/orbit/broker_events.py, with the pattern type of protocol.py: what a subscriber asks
-- for, how an event is matched, and the index that the router keeps for it.
pub mod Index
use radical_orbit.Prelude.{
  ◌+◌, ◌-◌, ◌/◌, String, ap, Bool, true, ◌&&◌, ◌||◌, Option, none, some, List, [], ◌∷◌, ◌++◌,
  if◌then◌else◌, or_default, keep, any_of, In, Eq, ◌==◌, nat_eq, string_eq, option_eq, pair_eq,
}
use radical_orbit.Prelude.Count.{bit}
use radical_orbit.Prelude.Int.{int_eq}
use radical_orbit.Prelude.Dict.{Dict, lookup, insert, remove}

-- A `none` field is a wildcard.
pub record SubscribePattern : Type 0 where
  pub endpoint : Option String
  pub plugin : Option String
  pub topic : Option String
  pub session : Option String

-- (src, plugin, session); in the index the plugin of a key is never `none`.
abbrev pub StreamKey : Type 0
StreamKey = String × (Option String × String)

abbrev pub PairKey : Type 0
PairKey = String × Option String

pub record PatternIndex : Type 0 where
  pub rest : List SubscribePattern
  pub streams : Dict StreamKey (List SubscribePattern)
  pub pairs : Dict PairKey (List SubscribePattern)

abbrev pub pattern_beq : SubscribePattern → SubscribePattern → Bool
pattern_beq p q =
    p.endpoint == q.endpoint
    && (p.plugin == q.plugin && (p.topic == q.topic && p.session == q.session))

-- One test of the loop of `_matches`: a wildcard passes.
abbrev pub fits : Option String → Option String → Bool
fits none x = true
fits (some p) x = some p == x

-- A session pattern narrows session events only.
abbrev pub fits_session : Option String → Option String → Bool
fits_session none s = true
fits_session (some p) none = true
fits_session (some p) (some s) = p == s

unfoldable pub accepts :
    String → Option String → Option String → Option String → SubscribePattern → Bool
accepts endpoint plugin topic session p =
    fits p.endpoint (some endpoint)
    && (fits p.plugin plugin && (fits p.topic topic && fits_session p.session session))

unfoldable pub matches :
    List SubscribePattern → String → Option String → Option String → Option String → Bool
matches patterns endpoint plugin topic session =
    any_of (accepts endpoint plugin topic session) patterns

-- d.setdefault(key, []).append(p)
unfoldable pub append_at {ℓ} :
    {K : Type ℓ} ⦃e : Eq K⦄
    → K
    → SubscribePattern
    → Dict K (List SubscribePattern)
    → Dict K (List SubscribePattern)
append_at k p d = insert k (or_default (lookup k d) [] ++ p ∷ []) d

unfoldable pub index_named :
    Option String → Option String → Option String → SubscribePattern → PatternIndex → PatternIndex
unfolding append_at
index_named (some s) (some e) (some g) p ix = record ix {
  streams = append_at (e, (some g, s)) p ix.streams;
  pairs = append_at (e, some g) p ix.pairs;
}
index_named none e g p ix = record ix { rest = ix.rest ++ p ∷ [] }
index_named (some s) none g p ix = record ix { rest = ix.rest ++ p ∷ [] }
index_named (some s) (some e) none p ix = record ix { rest = ix.rest ++ p ∷ [] }

-- One round of the loop of `_reindex`.
unfoldable pub index_pattern : SubscribePattern → PatternIndex → PatternIndex
unfolding index_named
index_pattern p ix = index_named p.session p.endpoint p.plugin p ix

unfoldable pub index_patterns : List SubscribePattern → PatternIndex → PatternIndex
index_patterns [] ix = ix
index_patterns (p ∷ ps) ix = index_patterns ps (index_pattern p ix)

abbrev pub empty_index : PatternIndex
empty_index = record { rest = []; streams = []; pairs = [] }

-- `cur.remove(p)` where `p in cur`: the first equal pattern goes.
unfoldable pub discard : SubscribePattern → List SubscribePattern → List SubscribePattern
discard p [] = []
discard p (q ∷ qs) = if pattern_beq q p then qs else q ∷ discard p qs

-- An empty session is no session.
abbrev pub no_empty : Option String → Option String
no_empty none = none
no_empty (some s) = if s == "" then none else some s

-- The patterns that parse; `none` is one that the model class refuses.
unfoldable pub parsed : List (Option SubscribePattern) → List SubscribePattern
parsed [] = []
parsed (none ∷ raw) = parsed raw
parsed (some p ∷ raw) = record p { session = no_empty p.session } ∷ parsed raw

unfoldable pub discard_all : List SubscribePattern → List SubscribePattern → List SubscribePattern
unfolding discard
discard_all [] cur = cur
discard_all (p ∷ ps) cur = discard_all ps (discard p cur)

-- The patterns of one subscriber that an event is checked against.
abbrev pub listed : PatternIndex → String → Option String → Option String → List SubscribePattern
listed ix src plugin none = or_default (lookup (src, plugin) ix.pairs) []
listed ix src plugin (some s) = or_default (lookup (src, (plugin, s)) ix.streams) []

unfoldable pub indexed_match :
    PatternIndex → String → Option String → Option String → Option String → Bool
unfolding matches
indexed_match ix src plugin topic session =
    matches ix.rest src plugin topic session
    || matches (listed ix src plugin session) src plugin topic session
