-- ===== src/Connect/Tests.antt =====
-- A connection that the authorizer allows.
use cluster_gateway.Base.{ℕ, List, Error, ◌≡◌, refl, true, false, some, [], ok}
use cluster_gateway.Proxy.{ProxyHandler}
use cluster_gateway.Metrics.{Vectors, Metrics, finish_func}
use cluster_gateway.Convert.Sample.{sample_gateway}
use cluster_gateway.Connect.{
  proxy_options, RequestInfo, Attributes, allow, attributes, proxy_request_info, parent, connect,
  authorized, decided, is_allow,
}
use cluster_gateway.Connect.Sample.{alice, pods, server, options}
use cluster_gateway.Connect.Authorized.{Asks, connect-allow}

-- Counters that count nothing
abbrev vectors : Vectors Unit Unit
vectors = record {
  inc = λ ls c. c;
  counter = λ ls c. 0;
  observe = λ ls ts h. h;
  observations = λ h. 0;
}

abbrev no_codes : Error → List ℕ
no_codes e = []

abbrev handler : ProxyHandler (Metrics Unit Unit)
handler = record {
  parent_name = "prod";
  path = "/api/v1/pods";
  impersonate = true;
  cluster_gateway = sample_gateway;
  responder = no_codes;
  finish_func = finish_func vectors "pods" "get" "prod" 12;
}

connected : connect server vectors "prod" (proxy_options options) no_codes 12 ≡ ok handler
unfolding connect parent authorized attributes decided is_allow proxy_request_info
connected = refl

connect-allow_example :
    (req_info : RequestInfo) × (a : Attributes) × (server.request_info ≡ some req_info)
    × Asks server (server.new_request_info options.path (server.to_upper req_info.verb)) req_info a
    × (server.authorize a ≡ ok allow)
    × (parent server "prod" ≡ ok handler.cluster_gateway)
    × (handler.parent_name ≡ "prod")
    × (handler.path ≡ options.path)
    × (handler.impersonate ≡ options.impersonate)
connect-allow_example =
    connect-allow server vectors "prod" options no_codes 12 handler refl connected

abbrev asked : Attributes
asked = record {
  user = some alice;
  verb = "get";
  namespace = "";
  api_group = "";
  api_version = "v1";
  resource = "pods";
  subresource = "";
  name = "";
  resource_request = false;
  path = "";
}

asked_for : attributes server pods ≡ ok asked
unfolding attributes
asked_for = refl
