-- ===== src/Query.antt =====
-- The escaping of query keys on the way to the proxy's handler, and back:
-- `clusterGatewayProxyRequestEscaper` and `unescapeQueryValues` of
-- pkg/apis/cluster/v1alpha1/clustergateway_proxy.go.
pub mod RoundTrip
mod Tests
use cluster_gateway.Base.{
  String, Bool, true, false, not, ◌&&◌, Option, none, some, List, [], ◌∷◌, ◌⧺◌, str_eq,
  if◌then◌else◌, is_some,
}
use cluster_gateway.Base.Text.{trim_prefix, has_prefix}
use cluster_gateway.Base.Maps.{Map, lookup, insert, delete}

-- `url.Values`
abbrev pub Values : Type 0
Values = Map (List String)

abbrev query_keys_to_escape : List String
query_keys_to_escape = "dryRun" ∷ []

abbrev escaper_prefix : String
escaper_prefix = "__"

-- `q.Get(k)`
pub get : String → Values → String
get k q = elim (lookup k q) [ none ↦ "" | some vs ↦ elim vs [ [] ↦ "" | v ∷ _ ↦ v ] ]

-- One round of the loop over the keys to escape.
escape_key : String → Values → Values
escape_key k q =
    if is_some (lookup k q) then delete k (insert (escaper_prefix ⧺ k) (get k q ∷ []) q) else q

escape_keys : List String → Values → Values
escape_keys [] q = q
escape_keys (k ∷ ks) q = escape_keys ks (escape_key k q)

pub escape_query_values : Values → Values
unfolding escape_keys
escape_query_values q = escape_keys query_keys_to_escape q

-- A request as the escaper sees it; `query` and `encode` are `URL.Query` and `Values.Encode`.
pub record Request : Type 0 where
  pub path : String
  pub raw_query : String

module _ (matches : String → Bool) (query : String → Values) (encode : Values → String) where
  -- `clusterGatewayProxyRequestEscaper.ServeHTTP`: the request that the delegate serves;
  -- `matches` is the pattern of the proxy's paths.
  escaped_request : Request → Request
  escaped_request req =
      if matches req.path
      then record req { raw_query = encode (escape_query_values (query req.raw_query)) }
      else req

-- `slices.Contains`
contains : List String → String → Bool
contains [] v = false
contains (x ∷ xs) v = if str_eq x v then true else contains xs v

-- The key under which the loop of `unescapeQueryValues` stores.
unescaped_key : String → String
unfolding contains
unescaped_key k =
    if has_prefix k escaper_prefix && contains query_keys_to_escape (trim_prefix k escaper_prefix)
    then trim_prefix k escaper_prefix
    else k

unescape_from : Values → Values → Values
unescape_from unescaped [] = unescaped
unescape_from unescaped ((k, vs) ∷ values) =
    unescape_from (insert (unescaped_key k) vs unescaped) values

pub unescape_query_values : Values → Values
unescape_query_values values = unescape_from [] values
