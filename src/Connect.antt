-- ===== src/Connect.antt =====
-- The connection to the proxy subresource: `Connect` and the options of
-- pkg/apis/cluster/v1alpha1/clustergateway_proxy.go.
pub mod Authorized
pub mod Sample
mod Tests
use cluster_gateway.Base.{
  ℕ, String, Bool, true, false, Option, none, some, List, [], ◌∷◌, str_eq, if◌then◌else◌, Error,
  other, wrapped, Result, ok, err, panic, deref, ◌>>=◌, ◌>>◌,
}
use cluster_gateway.Api.{ClusterGateway}
use cluster_gateway.Identity.{UserInfo}
use cluster_gateway.Query.{Values}
use cluster_gateway.Query
use cluster_gateway.Proxy.{ProxyHandler}
use cluster_gateway.Metrics.{Vectors, Metrics, finish_func}

abbrev proxy_methods : List String
proxy_methods = "GET" ∷ "POST" ∷ "PUT" ∷ "PATCH" ∷ "DELETE" ∷ "HEAD" ∷ "OPTIONS" ∷ []

pub record ClusterGatewayProxyOptions : Type 0 where
  pub path : String
  pub impersonate : Bool

convert_from_url_values : Values → ClusterGatewayProxyOptions
convert_from_url_values values = record {
  path = Query.get "path" values;
  impersonate = str_eq (Query.get "impersonate" values) "true";
}

-- The `options` of a connection: the proxy's, or another object.
pub data Options : Type 0 where
  proxy_options : ClusterGatewayProxyOptions → Options
  other_options : Options

-- `request.RequestInfo`
pub record RequestInfo : Type 0 where
  pub is_resource_request : Bool
  pub path : String
  pub verb : String
  pub api_group : String
  pub api_version : String
  pub namespace : String
  pub resource : String
  pub subresource : String
  pub name : String

-- `authorizer.AttributesRecord`
pub record Attributes : Type 0 where
  pub user : Option UserInfo
  pub verb : String
  pub namespace : String
  pub api_group : String
  pub api_version : String
  pub resource : String
  pub subresource : String
  pub name : String
  pub resource_request : Bool
  pub path : String

pub data Decision : Type 0 where
  allow deny no_opinion : Decision

pub is_allow : Decision → Bool
is_allow allow = true
is_allow deny = false
is_allow no_opinion = false

-- What the API server gives to a connection: the option `--authorize-proxy-subpath`, the request's
-- context (the parent's storage, the user, the request's info), `NewRequestInfo` of the factory by
-- path and method, the parsed path of a request URI, and the authorizer.
pub record Server : Type 0 where
  pub authorize_proxy_subpath : Bool
  pub parent_storage : Option (String → Result ClusterGateway)
  pub user : Option UserInfo
  pub request_info : Option RequestInfo
  pub to_upper : String → String
  pub new_request_info : String → String → RequestInfo
  pub parse_request_uri : String → Option String
  pub authorize : Attributes → Result Decision

module _ (server : Server) where
  abbrev no_attributes : Attributes
  no_attributes = record {
    user = none;
    verb = "";
    namespace = "";
    api_group = "";
    api_version = "";
    resource = "";
    subresource = "";
    name = "";
    resource_request = false;
    path = "";
  }

  -- The attributes of the request behind the proxy; a path that does not parse is nil and is
  -- dereferenced.
  pub attributes : RequestInfo → Result Attributes
  attributes info =
      if info.is_resource_request
      then ok (record no_attributes {
        user = server.user;
        api_group = info.api_group;
        api_version = info.api_version;
        resource = info.resource;
        subresource = info.subresource;
        namespace = info.namespace;
        name = info.name;
        verb = info.verb;
      })
      else (do
        path ← deref (server.parse_request_uri info.path)
        ok (record no_attributes { user = server.user; path = path; verb = info.verb }))

  decided : Result Decision → Result (Unit {0})
  decided (ok decision) =
      if is_allow decision
      then ok tt
      else (do user ← deref server.user; err (other "forbidden authorization failed"))
  decided (err e) = err (wrapped "authorization failed" e)
  decided panic = panic

  authorized : RequestInfo → Result (Unit {0})
  unfolding decided
  authorized info =
      if server.authorize_proxy_subpath
      then (do attr ← attributes info; decided (server.authorize attr))
      else ok tt

  -- The info of the request for `path`, with the verb of the request itself.
  pub proxy_request_info : RequestInfo → String → RequestInfo
  proxy_request_info req_info path =
      record (server.new_request_info path (server.to_upper req_info.verb)) { verb = req_info.verb }

  pub parent : String → Result ClusterGateway
  parent id = elim server.parent_storage [
    | none ↦ err (other "no parent storage found")
    | some get ↦ elim (get id) [
      | ok gw ↦ ok gw
      | err e ↦ err (other "no such cluster")
      | panic ↦ panic
    ]
  ]

  module _ {C H : Type 0} (vectors : Vectors C H) where
    -- `responder` is given by the codes that it writes, and `elapsed` is the time that has passed
    -- when the handler is done.
    pub connect : String → Options → (Error → List ℕ) → ℕ → Result (ProxyHandler (Metrics C H))
    unfolding parent authorized
    connect id other_options responder elapsed = err (other "invalid options object")
    connect id (proxy_options opts) responder elapsed = do
      gw ← parent id
      req_info ← deref server.request_info
      _ ← authorized (proxy_request_info req_info opts.path)
      ok (record {
        parent_name = id;
        path = opts.path;
        impersonate = opts.impersonate;
        cluster_gateway = gw;
        responder = responder;
        finish_func =
            finish_func vectors (proxy_request_info req_info opts.path).resource
              (proxy_request_info req_info opts.path).verb id elapsed;
      })
