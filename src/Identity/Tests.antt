-- ===== src/Identity/Tests.antt =====
-- The exchange of identities at a rule that names its user.
use cluster_gateway.Base.{
  String, ◌≡◌, ◌↔◌, ◌⊎◌, Bool, true, Option, none, some, [], ◌∷◌, ◌++◌, str_eq, All, ok, panic,
}
use cluster_gateway.Api.{
  static_mapping, external, IdentityExchangerSource, ClientIdentityExchangeRule, ProxyConfiguration,
}
use cluster_gateway.Identity.{UserInfo, own_identity, match_identity, get_impersonation_config}
use cluster_gateway.Identity.Matching.{IsMatch, match_identity_iff}
use cluster_gateway.Identity.Choice.{
  Passes, Chosen, own_rules, outcome, get_impersonation_config-first, IsUnusable,
  get_impersonation_config-panic_iff,
}

abbrev regexp : String → String → Option Bool
regexp pattern query = some (str_eq pattern query)

abbrev alice : UserInfo
alice = record { name = "alice"; uid = "1"; groups = "dev" ∷ "ops" ∷ []; extra = [] }

abbrev from_alice : IdentityExchangerSource
from_alice = record {
  user = some "alice";
  group = some "ops";
  uid = none;
  cluster = some "prod";
  user_pattern = none;
  group_pattern = some "dev";
  cluster_pattern = none;
}

abbrev mapping : ClientIdentityExchangeRule
mapping = record {
  name = "alice-as-viewer";
  type = static_mapping;
  source = some from_alice;
  target = some (record { user = "viewer"; groups = []; uid = "" });
}

abbrev delegated : ClientIdentityExchangeRule
delegated = record { name = "delegated"; type = external; source = some from_alice; target = none }

abbrev own : ProxyConfiguration
own = record { rules = mapping ∷ [] }

abbrev global : ProxyConfiguration
global = record { rules = delegated ∷ [] }

match_identity_iff_example :
    (match_identity regexp (some from_alice) alice "prod" ≡ true)
    ↔ IsMatch regexp from_alice alice "prod"
match_identity_iff_example = match_identity_iff regexp from_alice alice "prod"

get_impersonation_config-first_example :
    ((rule : ClientIdentityExchangeRule) × Chosen regexp alice "prod"
        (own_rules regexp alice "prod" (some own) ++ global.rules)
        rule
      × (get_impersonation_config regexp (some own) global alice "prod"
          ≡ outcome regexp alice "prod" rule rule.type))
    ⊎ (All (Passes regexp alice "prod") (own_rules regexp alice "prod" (some own) ++ global.rules)
        × (get_impersonation_config regexp (some own) global alice "prod"
            ≡ ok (own_identity alice)))
get_impersonation_config-first_example =
    get_impersonation_config-first regexp alice "prod" (some own) global

get_impersonation_config-panic_iff_example :
    (get_impersonation_config regexp none global alice "prod" ≡ panic) ↔ (
      (rule : ClientIdentityExchangeRule) × Chosen regexp alice "prod"
        (own_rules regexp alice "prod" none ++ global.rules)
        rule
      × IsUnusable regexp alice "prod" none global rule rule.type)
get_impersonation_config-panic_iff_example =
    get_impersonation_config-panic_iff regexp alice "prod" none global
