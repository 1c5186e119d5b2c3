-- ===== src/Proxy.antt =====
-- The handler of the proxy subresource: `proxyHandler.ServeHTTP` and `proxyResponseWriter` of
-- pkg/apis/cluster/v1alpha1/clustergateway_proxy.go.
pub mod Status
pub mod EndToEnd
pub mod Sample
mod Tests
use cluster_gateway.Base.{
  ℕ, String, Bool, true, false, ◌||◌, Option, none, some, List, [], ◌∷◌, ◌⧺◌, ◌++◌, str_eq,
  if◌then◌else◌, Error, other, Result, ok, err, panic, deref, wrap, ◌>>=◌, ◌>>◌,
}
use cluster_gateway.Api.{ClusterAccessCredential, ClusterGateway, ProxyConfiguration}
use cluster_gateway.Identity.{UserInfo, ImpersonationConfig, get_impersonation_config}
use cluster_gateway.Transport.{
  Net, Url, HostPort, host_of, missing_port, bad_address, Config, new_config_from_cluster,
  get_endpoint_url,
}
use cluster_gateway.Routing.{subresource_path}
use cluster_gateway.Query.{Values, unescape_query_values}

-- `http.Request`, as far as the handler reads it
pub record Request : Type 0 where
  pub path : String
  pub raw_query : String
  pub user : UserInfo

-- `responder.Error` is given by the codes that it writes to the client's writer, which it holds
-- itself, and `finishFunc` by what it does to the state of the metrics.
pub record ProxyHandler (M : Type 0) : Type 0 where
  pub parent_name : String
  pub path : String
  pub impersonate : Bool
  pub cluster_gateway : ClusterGateway
  pub responder : Error → List ℕ
  pub finish_func : ℕ → M → M

-- `proxyResponseWriter`: the status code that it keeps, and the codes that the client's writer,
-- which it embeds, was given so far, in their order.
pub record Writer : Type 0 where
  pub status_code : ℕ
  pub response_writer : List ℕ

pub new_proxy_response_writer : Writer
new_proxy_response_writer = record { status_code = 200; response_writer = [] }

write_header : ℕ → Writer → Writer
write_header code w = record {
  status_code = code;
  response_writer = w.response_writer ++ code ∷ [];
}

-- The calls of `WriteHeader` that a handler makes, in order.
pub write_headers : List ℕ → Writer → Writer
unfolding write_header
write_headers [] w = w
write_headers (code ∷ codes) w = write_headers codes (write_header code w)

-- What apimachinery's proxy does with what it is given, in order: it writes a code, or calls the
-- error responder. It may panic after that, where the copy of a response fails.
pub data UpstreamEvent : Type 0 where
  writes : ℕ → UpstreamEvent
  fails : Error → UpstreamEvent

pub record Upstream : Type 0 where
  pub events : List UpstreamEvent
  pub panics : Bool

-- The error responder ignores the writer that it is given, and calls the handler's responder.
handle_event : (Error → List ℕ) → UpstreamEvent → Writer → Writer
unfolding write_header
handle_event responder (writes code) w = write_header code w
handle_event responder (fails e) w = record w { response_writer = w.response_writer ++ responder e }

pub handle_events : (Error → List ℕ) → List UpstreamEvent → Writer → Writer
unfolding handle_event
handle_events responder [] w = w
handle_events responder (event ∷ events) w =
    handle_events responder events (handle_event responder event w)

-- `path.Join` of two parts, for `clean` that is `path.Clean`
pub join_path : (String → String) → String → String → String
join_path clean a b =
    if str_eq a ""
    then (if str_eq b "" then "" else clean b)
    else if str_eq b ""
    then clean a
    else clean (a ⧺ "/" ⧺ b)

-- `cluster.Spec.Access.Credential == nil`
require : Option ClusterAccessCredential → Result ClusterAccessCredential
require none = err (other "not support due to lacking credentials")
require (some credential) = ok credential

-- What the network and the API server's libraries give the handler: the transport of a
-- configuration, the configuration of the upgraded transport and its parts, each with its error.
pub record Libraries (net : Net) : Type 1 where
  pub Transport : Type 0
  pub transport_for : Config net → Option ImpersonationConfig → Result Transport
  pub TransportConfig : Type 0
  pub transport_config : Config net → Option ImpersonationConfig → Result TransportConfig
  pub TlsConfig : Type 0
  pub tls_config_for : TransportConfig → Result TlsConfig
  pub Upgrader : Type 0
  pub http_wrappers_for : TransportConfig → Result Upgrader
  pub regexp : String → String → Option Bool
  pub clean : String → String
  -- `Query` of a URL: the values of a raw query
  pub parse_query : String → Values
  -- the codes that `responsewriters.InternalError` writes
  pub internal_error : Error → List ℕ

module _ (net : Net) (libraries : Libraries net) where
  open libraries use {
    Transport, transport_for, TransportConfig, transport_config, TlsConfig, tls_config_for,
    Upgrader, http_wrappers_for, regexp, clean, parse_query, internal_error,
  }

  -- The request that goes to the cluster, and what it goes through. `query` is the query of the new
  -- request before it is encoded; `location_query` is that of the location that upgrade requests
  -- take.
  pub record Forwarded : Type 0 where
    pub scheme : String
    pub address : String
    pub request_host : String
    pub path : String
    pub query : Values
    pub location_query : String
    pub config : Config net
    pub impersonate : Option ImpersonationConfig
    pub transport : Transport
    pub upgrade_tls : TlsConfig
    pub upgrader : Upgrader

  -- `host, _, _ := net.SplitHostPort(h)`
  request_host_of : String → String
  request_host_of h = elim (net.split_host_port h) [
    | host_of host ↦ host
    | missing_port ↦ ""
    | bad_address ↦ ""
  ]

  abbrev forwarded_of :
      {M : Type 0}
      → ProxyHandler M
      → Request
      → Url
      → Config net
      → Option ImpersonationConfig
      → Transport
      → TlsConfig
      → Upgrader
      → Forwarded
  forwarded_of p request url cfg imp rt tls up = record {
    scheme = url.scheme;
    address = url.host;
    request_host = request_host_of url.host;
    path = join_path clean url.path (subresource_path p.parent_name request.path);
    query = unescape_query_values (parse_query request.raw_query);
    location_query = request.raw_query;
    config = cfg;
    impersonate = imp;
    transport = rt;
    upgrade_tls = tls;
    upgrader = up;
  }

  module _ (penetration : Bool) (global : ProxyConfiguration) where
    -- `penetration` is the feature gate ClientIdentityPenetration, and `global` the configuration
    -- that the gate reads.
    pub impersonation :
        {M : Type 0} → ProxyHandler M → Request → Result (Option ImpersonationConfig)
    impersonation p request =
        if p.impersonate || penetration
        then (do
          c ←
              get_impersonation_config regexp p.cluster_gateway.spec.proxy_config global
                request.user p.parent_name
          ok (some c))
        else ok none

    -- `ServeHTTP` up to the last call, which serves the forwarded request.
    pub forward : {M : Type 0} → ProxyHandler M → Request → Result Forwarded
    forward p request = do
      credential ← require p.cluster_gateway.spec.access.credential
      url ← wrap "failed parsing endpoint" (get_endpoint_url net p.cluster_gateway)
      cfg ←
          wrap "failed creating cluster proxy client config"
            (new_config_from_cluster net p.cluster_gateway)
      imp ← impersonation p request
      rt ← wrap "failed creating cluster proxy client" (transport_for cfg imp)
      tc ← wrap "failed creating transport config" (transport_config cfg imp)
      tls ← wrap "failed creating tls config" (tls_config_for tc)
      up ← wrap "failed creating upgrader client" (http_wrappers_for tc)
      ok (forwarded_of p request url cfg imp rt tls up)

    -- The end of a request: whether it panicked, what it forwarded, the writer, and what the
    -- deferred `finishFunc` left behind.
    pub record Served (M : Type 0) : Type 0 where
      pub panicked : Bool
      pub forwarded : Option Forwarded
      pub writer : Writer
      pub finished : M

    finish : {M : Type 0} → ProxyHandler M → Bool → Option Forwarded → Writer → M → Served M
    finish p panicked forwarded w m = record {
      panicked = panicked;
      forwarded = forwarded;
      writer = w;
      finished = p.finish_func w.status_code m;
    }

    -- `upstream` is the handler of apimachinery's proxy.
    respond :
        {M : Type 0} → (Forwarded → Upstream) → ProxyHandler M → Result Forwarded → M → Served M
    unfolding finish
    respond upstream p (ok f) m =
        finish p (upstream f).panics (some f)
          (handle_events p.responder (upstream f).events new_proxy_response_writer) m
    respond upstream p (err e) m =
        finish p false none (write_headers (internal_error e) new_proxy_response_writer) m
    respond upstream p panic m = finish p true none new_proxy_response_writer m

    pub serve_http : {M : Type 0} → (Forwarded → Upstream) → ProxyHandler M → Request → M → Served M
    serve_http upstream p request m = respond upstream p (forward p request) m
