-- ===== src/Subscriptions/Index.antt =====
-- broker_events.py: the ingest index answers as a scan of the whole pattern list would.
use radical_orbit.Prelude.{
  String, ◌≡◌, refl, Bool, false, ◌&&◌, ◌||◌, Option, none, some, List, [], ◌∷◌, ◌++◌, arith,
  or_default, any_of, Eq, ◌==◌, nat_eq, string_eq, str_iff, option_eq, pair_eq,
}
use radical_orbit.Prelude.Int.{int_eq}
use radical_orbit.Prelude.Dict.{Dict, lookup, lookup-insert}
use radical_orbit.Subscriptions.{
  SubscribePattern, PatternIndex, accepts, matches, append_at, index_named, index_pattern,
  index_patterns, empty_index, indexed_match,
}

any_of-append {ℓ} :
    {A : Type ℓ} (p : A → Bool) (xs ys : List A) → any_of p (xs ++ ys) ≡ any_of p xs || any_of p ys
unfolding any_of
any_of-append p [] ys = refl
any_of-append p (x ∷ xs) ys = ground (arith, any_of-append p xs ys)

-- A pattern appended under one key of a table of lists.
any_of-append_at {ℓ} :
    {K : Type ℓ} ⦃e : Eq K⦄ (m : SubscribePattern → Bool) (k j : K) (p : SubscribePattern)
    (d : Dict K (List SubscribePattern))
    → any_of m (or_default (lookup j (append_at k p d)) [])
      ≡ any_of m (or_default (lookup j d) []) || (k == j && m p)
unfolding append_at any_of
any_of-append_at ⦃e⦄ m k j p d = ground (
  arith,
  e.beq_iff k j,
  lookup-insert k j (or_default (lookup k d) [] ++ p ∷ []) d,
  any_of-append m (or_default (lookup k d) []) (p ∷ []),
)

module _ (src : String) (plugin topic session : Option String) where
  abbrev hit : PatternIndex → Bool
  hit ix = indexed_match ix src plugin topic session

  abbrev accept : SubscribePattern → Bool
  accept = accepts src plugin topic session

rest_hit :
    (src : String) (plugin topic session : Option String) (p : SubscribePattern) (ix : PatternIndex)
    → hit src plugin topic session (record ix { rest = ix.rest ++ p ∷ [] })
      ≡ hit src plugin topic session ix || accept src plugin topic session p
unfolding indexed_match matches any_of
rest_hit src plugin topic none p ix =
    ground (arith, any_of-append (accepts src plugin topic none) ix.rest (p ∷ []))
rest_hit src plugin topic (some z) p ix =
    ground (arith, any_of-append (accepts src plugin topic (some z)) ix.rest (p ∷ []))

empty_hit :
    (src : String) (plugin topic session : Option String)
    → hit src plugin topic session empty_index ≡ false
unfolding indexed_match matches any_of lookup
empty_hit src plugin topic none = refl
empty_hit src plugin topic (some z) = refl

named_hit :
    (src : String) (plugin topic session : Option String) (p : SubscribePattern)
    (s e g : Option String) (ix : PatternIndex)
    → p.session ≡ s
    → p.endpoint ≡ e
    → p.plugin ≡ g
    → hit src plugin topic session (index_named s e g p ix)
      ≡ hit src plugin topic session ix || accept src plugin topic session p
unfolding index_named indexed_match matches accepts
named_hit src plugin topic none p (some s) (some e) (some g) ix hs he hg = ground (
  arith,
  any_of-append_at (accepts src plugin topic none) (e, some g) (src, plugin) p ix.pairs,
  str_iff e src,
)
named_hit src plugin topic (some z) p (some s) (some e) (some g) ix hs he hg = ground (
  arith,
  any_of-append_at (accepts src plugin topic (some z)) (e, (some g, s)) (src, (plugin, z)) p
      ix.streams,
)
named_hit src plugin topic session p none e g ix hs he hg = rest_hit src plugin topic session p ix
named_hit src plugin topic session p (some s) none g ix hs he hg =
    rest_hit src plugin topic session p ix
named_hit src plugin topic session p (some s) (some e) none ix hs he hg =
    rest_hit src plugin topic session p ix

hit-index_pattern :
    (src : String) (plugin topic session : Option String) (p : SubscribePattern) (ix : PatternIndex)
    → hit src plugin topic session (index_pattern p ix)
      ≡ hit src plugin topic session ix || accept src plugin topic session p
unfolding index_pattern
hit-index_pattern src plugin topic session p ix =
    named_hit src plugin topic session p p.session p.endpoint p.plugin ix refl refl refl

hit-index_patterns :
    (src : String) (plugin topic session : Option String) (ps : List SubscribePattern)
    (ix : PatternIndex)
    → hit src plugin topic session (index_patterns ps ix)
      ≡ hit src plugin topic session ix || matches ps src plugin topic session
unfolding index_patterns matches any_of
hit-index_patterns src plugin topic session [] ix = ground arith
hit-index_patterns src plugin topic session (p ∷ ps) ix = ground (
  arith,
  hit-index_patterns src plugin topic session ps (index_pattern p ix),
  hit-index_pattern src plugin topic session p ix,
)

-- Whatever the patterns of a subscriber and whatever the event, the index built by `_reindex`
-- accepts the event exactly when some pattern of the list does.
pub reindex-matches :
    (src : String) (plugin topic session : Option String) (ps : List SubscribePattern)
    → indexed_match (index_patterns ps empty_index) src plugin topic session
      ≡ matches ps src plugin topic session
reindex-matches src plugin topic session ps = ground (
  arith,
  hit-index_patterns src plugin topic session ps empty_index,
  empty_hit src plugin topic session,
)
