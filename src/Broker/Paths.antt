-- ===== src/Broker/Paths.antt =====
-- broker.py: the paths of hosted plugins, and the names of registered ones.
use Prim.Native.String.{◌++◌ as text_append}
use radical_orbit.Prelude.{
  ℕ, ◌+◌, String, ◌≡◌, refl, sym, ap, ◌∙◌, ◌≢◌, inl, inr, Bool, true, false, not, ◌&&◌, ◌||◌, none,
  some, List, [], ◌∷◌, arith, Bool-cases, is_some, is_some, ◌==◌, nat_eq, string_eq, str_iff,
  option_eq, pair_eq,
}
use radical_orbit.Prelude.Int.{int_eq}
use radical_orbit.Prelude.Dict.{Dict, lookup, insert, lookup-insert}
use radical_orbit.Prelude.Texts.{
  strip_prefix, starts_with, strip_prefix-append, strip_prefix-both, append_cons,
}
use radical_orbit.Broker.{
  PluginInfo, is_reserved, plugin_key, add_plugins, plugins_list_to_dict, strip_broker_prefix,
}

some_injective : {A : Type 0} (a b : A) → some a ≡ some b → a ≡ b
some_injective a b h = cc

-- A path below the prefix is not the prefix.
longer_differs :
    (mark rest : String)
    → strip_prefix mark "" ≡ none
    → text_append "/broker" (text_append mark rest) == "/broker" ≡ false
unfolding strip_prefix
longer_differs mark rest h =
    elim (Bool-cases (text_append "/broker" (text_append mark rest) == "/broker")) [
      | inr e ↦ e
      | inl e ↦ absurd (
          clash (
            sym h
            ∙ ap (strip_prefix mark) (
                sym (
                  some_injective (text_append mark rest) "" (
                    sym (strip_prefix-append "/broker" (text_append mark rest))
                    ∙ ap (strip_prefix "/broker")
                        ((str_iff (text_append "/broker" (text_append mark rest)) "/broker").0 e)
                    ∙ bare)))
            ∙ strip_prefix-append mark rest))
    ]
  where
    bare : strip_prefix "/broker" "/broker" ≡ some ""
    bare = refl

    clash : none ≢ some rest
    clash h = ground arith

begins :
    (mark rest : String)
    → starts_with (text_append "/broker" mark) (text_append "/broker" (text_append mark rest))
      ≡ true
begins mark rest =
    ap is_some
      (strip_prefix-both "/broker" mark (text_append mark rest) ∙ strip_prefix-append mark rest)

-- A query is not a segment.
query_differs :
    (rest : String) → starts_with "/broker/" (text_append "/broker" (text_append "?" rest)) ≡ false
unfolding strip_prefix
query_differs rest = ap is_some (
    strip_prefix-both "/broker" "/" (text_append "?" rest)
    ∙ ap (strip_prefix "/") (append_cons "?" "" rest))

pub strip_broker_prefix_lem :
    (rest : String)
    → (strip_broker_prefix "/broker" ≡ "/")
      × (strip_broker_prefix (text_append "/broker" (text_append "/" rest)) ≡ text_append "/" rest)
      × (strip_broker_prefix (text_append "/broker" (text_append "?" rest))
          ≡ text_append "/" (text_append "?" rest))
unfolding strip_broker_prefix strip_prefix
strip_broker_prefix_lem rest = (
  refl,
  rw
      (
        longer_differs "/" rest refl,
        begins "/" rest,
        strip_prefix-append "/broker" (text_append "/" rest),
      )
      refl,
  rw
      (
        longer_differs "?" rest refl,
        query_differs rest,
        begins "?" rest,
        strip_prefix-append "/broker" (text_append "?" rest),
      )
      refl,
)

-- Whether an entry goes by the key; the entries are numbered from `i`.
unfoldable pub named : ℕ → List PluginInfo → String → Bool
unfolding plugin_key
named i [] k = false
named i (p ∷ ps) k = plugin_key i p == k || named (i + 1) ps k

add_plugins-keys :
    (k : String) (i : ℕ) (ps : List PluginInfo) (out : Dict String PluginInfo)
    → is_some (lookup k (add_plugins i ps out))
      ≡ (is_some (lookup k out) || not (is_reserved k) && named i ps k)
unfolding add_plugins named
add_plugins-keys k i [] out = ground arith
add_plugins-keys k i (p ∷ ps) out = elim (Bool-cases (is_reserved (plugin_key i p))) [
  | inl e ↦ rw e (
      add_plugins-keys k (i + 1) ps out
      ∙ ground (arith, str_iff (plugin_key i p) k, ap is_reserved))
  | inr e ↦ rw e (
      add_plugins-keys k (i + 1) ps (insert (plugin_key i p) p out)
      ∙ ground (arith, str_iff (plugin_key i p) k, lookup-insert (plugin_key i p) k p out))
]

-- The names that the broker publishes are those of the entries, less the reserved ones.
pub plugins_list_to_dict-keys :
    (k : String) (ps : List PluginInfo)
    → is_some (lookup k (plugins_list_to_dict ps)) ≡ (not (is_reserved k) && named 0 ps k)
unfolding plugins_list_to_dict lookup
plugins_list_to_dict-keys k ps = add_plugins-keys k 0 ps []
