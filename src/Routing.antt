-- ===== src/Routing.antt =====
-- The paths of proxied requests: the round trippers of pkg/apis/cluster/transport and of
-- pkg/generated/clientset/versioned/typed/cluster/v1alpha1/clustergateway_expansion.go, and the
-- path that the proxy's handler takes apart.
pub mod Paths
mod Tests
use cluster_gateway.Base.{
  String, Bool, true, false, not, Option, none, some, List, [], ◌∷◌, ◌⧺◌, if◌then◌else◌, Error,
  other, Result, ok, err, panic, deref, ◌>>=◌,
}
use cluster_gateway.Base.Text.{trim_prefix, has_prefix, join}
use cluster_gateway.Api.{api_group, api_version}

-- An HTTP request: its path, and the cluster's names in its context under the keys of
-- pkg/apis/cluster/transport/context.go and of pkg/util/context/context.go.
pub record Request : Type 0 where
  pub path : String
  pub cluster_name : Option String
  pub context_name : Option String

abbrev with_multi_cluster_context : String → Request → Request
with_multi_cluster_context cluster_name request = record request {
  cluster_name = some cluster_name;
}

abbrev get_multi_cluster_context : Request → Option String
get_multi_cluster_context request = request.cluster_name

pub format_proxy_url : String → String → String
format_proxy_url cluster_name original_path = join "/" (
    "/apis"
    ∷ api_group
    ∷ api_version
    ∷ "clustergateways"
    ∷ cluster_name
    ∷ "proxy"
    ∷ trim_prefix original_path "/"
    ∷ [])

abbrev pub proxied : String → Request → Request
proxied cluster_name request = record request { path = format_proxy_url cluster_name request.path }

-- `delegate` is the round tripper below; it may answer or fail.
module _ {Response : Type 0} (delegate : Request → Result Response) where
  -- `clusterGatewayRoundTripper.RoundTrip`
  round_trip : Bool → Request → Result Response
  round_trip fallback request = elim (get_multi_cluster_context request) [
    | none ↦
        if not fallback
        then err (other "missing cluster name in the request context")
        else delegate request
    | some cluster_name ↦ delegate (proxied cluster_name request)
  ]

  -- `NewClusterGatewayRoundTripper`
  pub new_cluster_gateway_round_tripper : Request → Result Response
  unfolding round_trip
  new_cluster_gateway_round_tripper = round_trip true

  -- `NewStrictClusterGatewayRoundTripper`
  new_strict_cluster_gateway_round_tripper : Bool → Request → Result Response
  unfolding round_trip
  new_strict_cluster_gateway_round_tripper fallback = round_trip false

  -- `proxyPathPrependingClusterGatewayRoundTripper.RoundTrip`
  pub prepending_round_trip : String → Request → Result Response
  prepending_round_trip cluster_name request = delegate (proxied cluster_name request)

-- `gatewayAPIPrefixPrepender.RoundTrip`
pub prefixed_path : String → String → String
prefixed_path cluster_name path =
    ("/apis/" ⧺ api_group ⧺ "/" ⧺ api_version ⧺ "/clustergateways/")
    ⧺ cluster_name
    ⧺ "/proxy"
    ⧺ (if has_prefix path "/" then path else "/" ⧺ path)

-- pkg/util/context/context.go: `ctx.Value(key).(string)` panics where there is no value
get_cluster_name : Request → Result String
get_cluster_name request = deref request.context_name

module _ {Response : Type 0} (delegate : Request → Result Response) where
  -- `getRoundTripper` with a getter, and `gatewayAPIPrefixPrepender.RoundTrip`
  prefix_prepender : (Request → Result String) → Request → Result Response
  prefix_prepender cluster_name_getter request = do
    name ← cluster_name_getter request
    delegate (record request { path = prefixed_path name request.path })

  pub round_tripper_for_cluster : String → Request → Result Response
  unfolding prefix_prepender
  round_tripper_for_cluster cluster_name = prefix_prepender (λ request. ok cluster_name)

  round_tripper_for_cluster_from_context : Request → Result Response
  unfolding prefix_prepender get_cluster_name
  round_tripper_for_cluster_from_context = prefix_prepender get_cluster_name

-- clustergateway_proxy.go: the path behind the proxy subresource of a gateway
abbrev pub api_prefix : String
api_prefix = "/apis/" ⧺ api_group ⧺ "/" ⧺ api_version ⧺ "/clustergateways/"

abbrev pub api_suffix : String
api_suffix = "/proxy"

pub subresource_path : String → String → String
subresource_path parent_name path = trim_prefix path (api_prefix ⧺ parent_name ⧺ api_suffix)
