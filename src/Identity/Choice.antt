-- ===== src/Identity/Choice.antt =====
-- Which rule decides the identity: the first that matches, the gateway's own rules before the
-- global ones.
use mathlib.Core.Path.{subst}
use cluster_gateway.Base.{
  String, ◌≡◌, refl, ◌⊎◌, inl, inr, Bool, true, false, Option, none, some, List, [], ◌∷◌, ◌++◌,
  arith, Bool-cases, All, All-append, ◌∙◌, sym, ◌↔◌, Result, ok, panic, ◌>>=◌,
}
use cluster_gateway.Api.{
  ClientIdentityExchangeRule, ProxyConfiguration, ExchangeType, privileged, static_mapping,
  external, other_type,
}
use cluster_gateway.Identity.{
  UserInfo, ImpersonationConfig, unmatched, match_identity, project, exchange_identity,
  own_identity, taken, get_impersonation_config, no_impersonation,
}

module _ (regexp : String → String → Option Bool) (info : UserInfo) (cluster : String) where
  abbrev pub Fires : ClientIdentityExchangeRule → Type 0
  Fires rule = match_identity regexp rule.source info cluster ≡ true

  abbrev pub Passes : ClientIdentityExchangeRule → Type 0
  Passes rule = match_identity regexp rule.source info cluster ≡ false

  -- `Chosen rules rule`: the rule is the first of the list that fires.
  pub data Chosen : List ClientIdentityExchangeRule → ClientIdentityExchangeRule → Type 0 where
    first :
        {r : ClientIdentityExchangeRule} {rs : List ClientIdentityExchangeRule}
        → Fires r
        → Chosen (r ∷ rs) r
    later :
        {r s : ClientIdentityExchangeRule} {rs : List ClientIdentityExchangeRule}
        → Passes r
        → Chosen rs s
        → Chosen (r ∷ rs) s

  exchange_identity-Chosen :
      {rules : List ClientIdentityExchangeRule} {rule : ClientIdentityExchangeRule}
      → Chosen rules rule
      → exchange_identity regexp rules info cluster ≡ project rule rule.type
  unfolding exchange_identity
  exchange_identity-Chosen (first f) = rw f
  exchange_identity-Chosen (later p c) = rw p (exchange_identity-Chosen c)

  exchange_identity-Passes :
      (rules : List ClientIdentityExchangeRule)
      → All Passes rules
      → exchange_identity regexp rules info cluster ≡ ok unmatched
  unfolding exchange_identity
  exchange_identity-Passes [] h = refl
  exchange_identity-Passes (r ∷ rs) (p, h) = rw p (exchange_identity-Passes rs h)

  choose :
      (rules : List ClientIdentityExchangeRule)
      → ((rule : ClientIdentityExchangeRule) × Chosen rules rule) ⊎ All Passes rules
  choose [] = inr tt
  choose (r ∷ rs) = elim (Bool-cases (match_identity regexp r.source info cluster)) [
    | inl f ↦ inl (r, first f)
    | inr p ↦ elim (choose rs) [ inl (s, c) ↦ inl (s, later p c) | inr h ↦ inr (p, h) ]
  ]

  -- The exchange applies the first rule of the list that fires, and reports no match exactly when
  -- none does; one of the two is always the case.
  exchange_identity-first :
      (rules : List ClientIdentityExchangeRule)
      → ((rule : ClientIdentityExchangeRule) × Chosen rules rule
          × (exchange_identity regexp rules info cluster ≡ project rule rule.type))
        ⊎ (All Passes rules × (exchange_identity regexp rules info cluster ≡ ok unmatched))
  exchange_identity-first rules = elim (choose rules) [
    | inl (rule, c) ↦ inl (rule, c, exchange_identity-Chosen c)
    | inr h ↦ inr (h, exchange_identity-Passes rules h)
  ]

  -- The rules of the gateway's own configuration, if it has one.
  abbrev pub own_rules : Option ProxyConfiguration → List ClientIdentityExchangeRule
  own_rules none = []
  own_rules (some config) = config.rules

  -- What a fired rule makes of a request: the privileged identity, its target, or a panic.
  abbrev pub outcome : ClientIdentityExchangeRule → ExchangeType → Result ImpersonationConfig
  outcome rule privileged = ok no_impersonation
  outcome rule static_mapping = elim rule.target [
    | none ↦ panic
    | some t ↦ ok (record { user_name = t.user; uid = t.uid; groups = t.groups; extra = [] })
  ]
  outcome rule _ = panic

  taken-project :
      (rule : ClientIdentityExchangeRule) (type : ExchangeType) (rest : Result ImpersonationConfig)
      → (project rule type >>= λ x. taken x rest) ≡ outcome rule type
  unfolding project taken
  taken-project rule privileged rest = refl
  taken-project rule static_mapping rest = ground arith
  taken-project rule external rest = refl
  taken-project rule (other_type n) rest = refl

  taken-unmatched :
      (rest : Result ImpersonationConfig) → (ok unmatched >>= λ x. taken x rest) ≡ rest
  unfolding taken
  taken-unmatched rest = refl

  Chosen-append_left :
      {xs : List ClientIdentityExchangeRule} {rule : ClientIdentityExchangeRule}
      (ys : List ClientIdentityExchangeRule)
      → Chosen xs rule
      → Chosen (xs ++ ys) rule
  Chosen-append_left ys (first f) = first f
  Chosen-append_left ys (later p c) = later p (Chosen-append_left ys c)

  Chosen-append_right :
      {ys : List ClientIdentityExchangeRule} {rule : ClientIdentityExchangeRule}
      (xs : List ClientIdentityExchangeRule)
      → All Passes xs
      → Chosen ys rule
      → Chosen (xs ++ ys) rule
  Chosen-append_right [] h c = c
  Chosen-append_right (x ∷ xs) (p, h) c = later p (Chosen-append_right xs h c)

  -- How the rules of one list decide, before `rest`.
  Decides :
      List ClientIdentityExchangeRule
      → Result ImpersonationConfig
      → Result ImpersonationConfig
      → Type 0
  Decides rules rest r =
      ((rule : ClientIdentityExchangeRule) × Chosen rules rule × (r ≡ outcome rule rule.type))
      ⊎ (All Passes rules × (r ≡ rest))

  Decides-exchange :
      (rules : List ClientIdentityExchangeRule) (rest : Result ImpersonationConfig)
      → Decides rules rest (exchange_identity regexp rules info cluster >>= λ x. taken x rest)
  unfolding Decides
  Decides-exchange rules rest = elim (exchange_identity-first rules) [
    | inl (rule, c, e) ↦ inl (rule, c, rw e (taken-project rule rule.type rest))
    | inr (h, e) ↦ inr (h, rw e (taken-unmatched rest))
  ]

  Decides-append :
      (xs ys : List ClientIdentityExchangeRule) (middle rest r : Result ImpersonationConfig)
      → Decides xs middle r
      → Decides ys rest middle
      → Decides (xs ++ ys) rest r
  unfolding Decides
  Decides-append xs ys middle rest r (inl (rule, c, e)) _ = inl (rule, Chosen-append_left ys c, e)
  Decides-append xs ys middle rest r (inr (h, e)) (inl (rule, c, e')) =
      inl (rule, Chosen-append_right xs h c, e ∙ e')
  Decides-append xs ys middle rest r (inr (h, e)) (inr (k, e')) =
      inr (All-append Passes xs ys h k, e ∙ e')

  Chosen-unique :
      {rules : List ClientIdentityExchangeRule} {a b : ClientIdentityExchangeRule}
      → Chosen rules a
      → Chosen rules b
      → a ≡ b
  Chosen-unique (first f) (first g) = refl
  Chosen-unique (first f) (later p c) = cc
  Chosen-unique (later p c) (first g) = cc
  Chosen-unique (later p c) (later q d) = Chosen-unique c d

  not-Passes-Chosen :
      {rules : List ClientIdentityExchangeRule} {rule : ClientIdentityExchangeRule}
      → All Passes rules
      → ¬ Chosen rules rule
  not-Passes-Chosen h (first f) = cc (h.0)
  not-Passes-Chosen h (later p c) = not-Passes-Chosen h.1 c

  module _ (own : Option ProxyConfiguration) (global : ProxyConfiguration) where
    -- The identity that a proxied request takes is decided by the first rule that fires in the
    -- gateway's own rules followed by the global ones: no identity at all for a privileged rule,
    -- the rule's target for a static mapping, a panic for any other rule. Where no rule fires the
    -- request keeps the user's name, groups and extra.
    pub get_impersonation_config-first :
        ((rule : ClientIdentityExchangeRule) × Chosen (own_rules own ++ global.rules) rule
          × (get_impersonation_config regexp own global info cluster ≡ outcome rule rule.type))
        ⊎ (All Passes (own_rules own ++ global.rules)
            × (get_impersonation_config regexp own global info cluster ≡ ok (own_identity info)))
    unfolding get_impersonation_config Decides
    get_impersonation_config-first = go own
      where
        go :
            (o : Option ProxyConfiguration)
            → Decides
                (own_rules o ++ global.rules)
                (ok (own_identity info))
                (get_impersonation_config regexp o global info cluster)
        go none = Decides-exchange global.rules (ok (own_identity info))
        go (some config) =
            Decides-append config.rules global.rules _ _ _ (Decides-exchange config.rules _)
              (Decides-exchange global.rules _)

    -- The nil dereference: `ExchangeIdentity` reports a match with no projection.
    abbrev pub IsUnusable : ClientIdentityExchangeRule → ExchangeType → Type 0
    IsUnusable rule privileged = ⊥
    IsUnusable rule static_mapping = rule.target ≡ none
    IsUnusable rule external = Unit
    IsUnusable rule (other_type n) = Unit

    outcome_panic_iff :
        (rule : ClientIdentityExchangeRule) (type : ExchangeType)
        → (outcome rule type ≡ panic) ↔ IsUnusable rule type
    outcome_panic_iff rule privileged = ground arith
    outcome_panic_iff rule static_mapping = ground arith
    outcome_panic_iff rule external = ground arith
    outcome_panic_iff rule (other_type n) = ground arith

    -- The choice of the identity for a proxied request panics exactly when the first rule that fires
    -- is external, of an unknown type, or a static mapping with no target.
    pub get_impersonation_config-panic_iff :
        (get_impersonation_config regexp own global info cluster ≡ panic) ↔ (
          (rule : ClientIdentityExchangeRule) × Chosen (own_rules own ++ global.rules) rule
          × IsUnusable rule rule.type)
    get_impersonation_config-panic_iff = elim get_impersonation_config-first [
      | inl (rule, c, e) ↦ (
        λ p. (rule, c, (outcome_panic_iff rule rule.type).0 (sym e ∙ p)),
        λ (other, d, u).
            let same : other ≡ rule = Chosen-unique d c in
            e ∙ (outcome_panic_iff rule rule.type).1 (subst (λ r. IsUnusable r r.type) same u),
      )
      | inr (h, e) ↦ (λ p. cc, λ (other, d, u). absurd (not-Passes-Chosen h d))
    ]
