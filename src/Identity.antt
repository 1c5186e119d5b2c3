-- ===== src/Identity.antt =====
-- The exchange of client identities: clustergateway_proxy_configuration.go, and
-- `getImpersonationConfig` of clustergateway_proxy.go.
pub mod Matching
pub mod Choice
pub mod Sample
mod Tests
use cluster_gateway.Base.{
  String, Bool, true, false, not, ◌&&◌, Option, none, some, List, [], ◌∷◌, str_eq, if◌then◌else◌,
  Error, other, Result, ok, err, panic, deref, ◌>>=◌,
}
use cluster_gateway.Api.{
  ExchangeType, privileged, static_mapping, external, other_type, IdentityExchangerSource,
  ClientIdentityExchangeRule, ProxyConfiguration,
}
use cluster_gateway.Base.Maps.{Map}

-- `user.Info`
pub record UserInfo : Type 0 where
  pub name : String
  pub uid : String
  pub groups : List String
  pub extra : Map (List String)

-- `rest.ImpersonationConfig`
pub record ImpersonationConfig : Type 0 where
  pub user_name : String
  pub uid : String
  pub groups : List String
  pub extra : Map (List String)

-- The results of `exchangeIdentity`, with the rule's name that `ExchangeIdentity` adds.
pub record Exchanged : Type 0 where
  pub matched : Bool
  pub rule_name : String
  pub projected : Option ImpersonationConfig
  pub error : Option Error

abbrev pub no_impersonation : ImpersonationConfig
no_impersonation = record { user_name = ""; uid = ""; groups = []; extra = [] }

abbrev pub unmatched : Exchanged
unmatched = record { matched = false; rule_name = ""; projected = none; error = none }

-- `in.X != nil && x != *in.X`
differs : Option String → String → Bool
differs none x = false
differs (some v) x = not (str_eq x v)

-- `slices.Contains`
contains : List String → String → Bool
contains [] v = false
contains (x ∷ xs) v = if str_eq x v then true else contains xs v

-- `in.Group != nil && !slices.Contains(groups, *in.Group)`
lacks : Option String → List String → Bool
unfolding contains
lacks none groups = false
lacks (some v) groups = not (contains groups v)

-- The `switch` of `exchangeIdentity`, for a rule that matches.
pub project : ClientIdentityExchangeRule → ExchangeType → Result Exchanged
project rule privileged = ok (record {
  matched = true;
  rule_name = rule.name;
  projected = some no_impersonation;
  error = none;
})
project rule static_mapping = do
  target ← deref rule.target
  ok (record {
    matched = true;
    rule_name = rule.name;
    projected =
        some (record {
          user_name = target.user;
          uid = target.uid;
          groups = target.groups;
          extra = [];
        });
    error = none;
  })
project rule external = ok (record {
  matched = true;
  rule_name = rule.name;
  projected = none;
  error = some (other "ExternalIdentityExchanger is not implemented");
})
project rule (other_type name) = ok (record {
  matched = true;
  rule_name = rule.name;
  projected = none;
  error = some (other "unknown exchanger type");
})

abbrev pub own_identity : UserInfo → ImpersonationConfig
own_identity info = record {
  user_name = info.name;
  uid = "";
  groups = info.groups;
  extra = info.extra;
}

-- `if matched { return *projected }`; an error is only logged
taken : Exchanged → Result ImpersonationConfig → Result ImpersonationConfig
taken x rest = if x.matched then deref x.projected else rest

-- `regexp` is `regexp.Match`: `none` where the pattern does not compile.
module _ (regexp : String → String → Option Bool) where
  deny_query : Option String → String → Bool
  deny_query none query = false
  deny_query (some pattern) query = elim (regexp pattern query) [
    | none ↦ false
    | some matched ↦ not matched
  ]

  -- the loop of `denyGroups`
  deny_all : String → List String → Bool
  deny_all pattern [] = true
  deny_all pattern (group ∷ groups) =
      let rest = deny_all pattern groups in
      if not (deny_query (some pattern) group) then false else rest

  deny_groups : Option String → List String → Bool
  deny_groups none groups = false
  deny_groups (some pattern) groups = deny_all pattern groups

  pub match_identity : Option IdentityExchangerSource → UserInfo → String → Bool
  match_identity none info cluster = false
  match_identity (some src) info cluster =
      if differs src.user info.name
      then false
      else if lacks src.group info.groups
      then false
      else if differs src.uid info.uid
      then false
      else if differs src.cluster cluster
      then false
      else if deny_query src.user_pattern info.name
      then false
      else if deny_groups src.group_pattern info.groups
      then false
      else if deny_query src.cluster_pattern cluster
      then false
      else true

  pub exchange_identity : List ClientIdentityExchangeRule → UserInfo → String → Result Exchanged
  exchange_identity [] info cluster = ok unmatched
  exchange_identity (rule ∷ rules) info cluster =
      let rest = exchange_identity rules info cluster in
      if match_identity rule.source info cluster then project rule rule.type else rest

  pub get_impersonation_config :
      Option ProxyConfiguration
      → ProxyConfiguration
      → UserInfo
      → String
      → Result ImpersonationConfig
  unfolding taken
  get_impersonation_config none global info parent_name = do
    x ← exchange_identity global.rules info parent_name
    taken x (ok (own_identity info))
  get_impersonation_config (some config) global info parent_name = do
    x ← exchange_identity config.rules info parent_name
    taken x
        (do y ← exchange_identity global.rules info parent_name; taken y (ok (own_identity info)))
