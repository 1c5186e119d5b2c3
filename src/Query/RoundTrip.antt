-- ===== src/Query/RoundTrip.antt =====
-- What unescaping gives back.
use cluster_gateway.Base.{
  String, ◌≡◌, sym, ap, ◌∙◌, ◌≢◌, Option, none, some, List, [], ◌∷◌, ◌⧺◌, arith, eq_iff, str_eq,
  if◌then◌else◌, Bool-cases, Option-cases, is_some, inl, inr, ◌&&◌,
}
use cluster_gateway.Base.Text.{
  trim_prefix, has_prefix, trim_prefix-cases, trim_prefix-append, has_prefix-append,
}
use cluster_gateway.Base.Maps.{
  lookup, insert, delete, lookup-delete, lookup-insert, lookup-nil, IsMap, IsMap-delete,
  IsMap-insert,
}
use cluster_gateway.Query.{
  Values, get, escape_key, escape_keys, escape_query_values, unescaped_key, unescape_from,
  unescape_query_values,
}

unescaped_key-eq : (k : String) → unescaped_key k ≡ (if str_eq k "__dryRun" then "dryRun" else k)
unfolding unescaped_key
unescaped_key-eq k = elim (trim_prefix-cases k "__") [
  | inl (has, split) ↦ elim (Bool-cases (str_eq "dryRun" (trim_prefix k "__"))) [
    | inl same ↦
        let t : "dryRun" ≡ trim_prefix k "__" = (eq_iff "dryRun" (trim_prefix k "__")).0 same in
        let whole : k ≡ "__dryRun" = split ∙ ap (λ s. "__" ⧺ s) (sym t) in
        ground (arith, eq_iff k "__dryRun")
    | inr other ↦
        let differs : k ≢ "__dryRun" = λ e. cc (
          other,
          (eq_iff "dryRun" (trim_prefix k "__")).1
              (sym (ap (λ s. trim_prefix s "__") e ∙ trim_prefix-append "__" "dryRun")),
        ) in
        ground (arith, eq_iff k "__dryRun")
  ]
  | inr (lacks, same) ↦
      let differs : k ≢ "__dryRun" =
        λ e. cc (sym lacks ∙ (ap (λ s. has_prefix s "__") e ∙ has_prefix-append "__" "dryRun")) in
      ground (arith, eq_iff k "__dryRun")
]

-- What a key of the unescaped values stands for in the values.
abbrev source : String → Values → Option (List String)
source j m =
    if str_eq j "dryRun"
    then lookup "__dryRun" m
    else if str_eq j "__dryRun"
    then none
    else lookup j m

abbrev or_else : Option (List String) → Option (List String) → Option (List String)
or_else none rest = rest
or_else (some v) rest = some v

lookup-tail :
    (k : String) (vs : List String) (m : Values)
    → lookup "dryRun" ((k, vs) ∷ m) ≡ none
    → lookup "dryRun" m ≡ none
unfolding lookup
lookup-tail k vs m n = ground arith

-- One round of the loop.
round :
    (j k : String) (vs : List String) (acc m : Values)
    → lookup k m ≡ none
    → lookup "dryRun" ((k, vs) ∷ m) ≡ none
    → or_else (source j m) (lookup j (insert (unescaped_key k) vs acc))
      ≡ or_else (source j ((k, vs) ∷ m)) (lookup j acc)
unfolding lookup
round j k vs acc m p n = elim (Bool-cases (str_eq k "__dryRun")) [
  | inl escaped ↦ ground (
    arith,
    lookup-insert (unescaped_key k) j vs acc,
    unescaped_key-eq k,
    eq_iff k "__dryRun",
    eq_iff "dryRun" j,
    eq_iff j "dryRun",
    eq_iff j "__dryRun",
    eq_iff k j,
    eq_iff k "dryRun",
  )
  | inr plain ↦ ground (
    arith,
    lookup-insert (unescaped_key k) j vs acc,
    unescaped_key-eq k,
    eq_iff j "dryRun",
    eq_iff j "__dryRun",
    eq_iff k j,
    eq_iff k "dryRun",
    eq_iff k "__dryRun",
  )
]

lookup-unescape_from :
    (j : String) (acc m : Values)
    → IsMap m
    → lookup "dryRun" m ≡ none
    → lookup j (unescape_from acc m) ≡ or_else (source j m) (lookup j acc)
unfolding unescape_from
lookup-unescape_from j acc [] h n =
    ground (arith, lookup-nil {V = List String} j, lookup-nil {V = List String} "__dryRun")
lookup-unescape_from j acc ((k, vs) ∷ m) (p, h) n =
    lookup-unescape_from j (insert (unescaped_key k) vs acc) m h (lookup-tail k vs m n)
    ∙ round j k vs acc m p n

escape-dry_run :
    (q : Values)
    → lookup "dryRun" q ≢ none
    → escape_query_values q ≡ delete "dryRun" (insert "__dryRun" (get "dryRun" q ∷ []) q)
unfolding escape_query_values escape_keys escape_key
escape-dry_run q h = ground arith

escape-none : (q : Values) → lookup "dryRun" q ≡ none → escape_query_values q ≡ q
unfolding escape_query_values escape_keys escape_key
escape-none q h = ground arith

unescape-eq :
    (j : String) (m : Values)
    → IsMap m
    → lookup "dryRun" m ≡ none
    → lookup j (unescape_query_values m) ≡ source j m
unfolding unescape_query_values
unescape-eq j m h n =
    lookup-unescape_from j [] m h n ∙ ground (arith, lookup-nil {V = List String} j)

-- The values that reach the cluster.
abbrev pub delivered : String → Values → Option (List String)
delivered j q =
    if str_eq j "dryRun" && is_some (lookup "dryRun" q)
    then some (get "dryRun" q ∷ [])
    else lookup j q

-- Unescaping an escaped query gives each of its keys the values that it had, except that `dryRun`
-- keeps its first value only. The keys of the query are distinct, and `__dryRun` is none of them.
pub unescape-escape :
    (j : String) (q : Values)
    → IsMap q
    → lookup "__dryRun" q ≡ none
    → lookup j (unescape_query_values (escape_query_values q)) ≡ delivered j q
unescape-escape j q h p = elim (Option-cases (lookup "dryRun" q)) [
  | inl n ↦
      rw (escape-none q n)
        (unescape-eq j q h n ∙ ground (arith, eq_iff j "dryRun", eq_iff j "__dryRun"))
  | inr (vs, e) ↦
      let sent : Values = insert "__dryRun" (get "dryRun" q ∷ []) q in
      rw (escape-dry_run q (λ n. cc (e, n))) (
        unescape-eq j (delete "dryRun" sent)
          (IsMap-delete "dryRun" sent (IsMap-insert "__dryRun" (get "dryRun" q ∷ []) q h))
          (ground (arith, lookup-delete "dryRun" "dryRun" sent))
        ∙ ground (
          arith,
          lookup-delete "dryRun" j sent,
          lookup-delete "dryRun" "__dryRun" sent,
          lookup-insert "__dryRun" j (get "dryRun" q ∷ []) q,
          lookup-insert "__dryRun" "__dryRun" (get "dryRun" q ∷ []) q,
          eq_iff j "dryRun",
          eq_iff j "__dryRun",
          eq_iff "dryRun" j,
          eq_iff "__dryRun" j,
        ))
]
