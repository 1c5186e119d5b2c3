-- ===== src/Identity/Sample.antt =====
-- The identity of a user whom no rule concerns, for tests.
use cluster_gateway.Base.{String, ◌≡◌, refl, Bool, Option, none, [], ok}
use cluster_gateway.Api.{ProxyConfiguration}
use cluster_gateway.Identity.{
  UserInfo, own_identity, taken, exchange_identity, get_impersonation_config,
}

abbrev pub no_rules : ProxyConfiguration
no_rules = record { rules = [] }

pub unruled_sample :
    (regexp : String → String → Option Bool) (info : UserInfo) (parent_name : String)
    → get_impersonation_config regexp none no_rules info parent_name ≡ ok (own_identity info)
unfolding get_impersonation_config exchange_identity taken
unruled_sample regexp info parent_name = refl
