-- ===== src/Connect/Sample.antt =====
-- A server that allows alice the pods of prod.
use cluster_gateway.Base.{true, some, [], ◌∷◌, ok}
use cluster_gateway.Identity.{UserInfo}
use cluster_gateway.Convert.Sample.{sample_gateway}
use cluster_gateway.Connect.{ClusterGatewayProxyOptions, RequestInfo, allow, Server}

abbrev pub alice : UserInfo
alice = record { name = "alice"; uid = "1"; groups = "dev" ∷ []; extra = [] }

abbrev pub pods : RequestInfo
pods = record {
  is_resource_request = true;
  path = "/api/v1/pods";
  verb = "get";
  api_group = "";
  api_version = "v1";
  namespace = "";
  resource = "pods";
  subresource = "";
  name = "";
}

abbrev pub server : Server
server = record {
  authorize_proxy_subpath = true;
  parent_storage = some (λ id. ok sample_gateway);
  user = some alice;
  request_info = some pods;
  to_upper = λ s. s;
  new_request_info = λ path method. pods;
  parse_request_uri = λ uri. some uri;
  authorize = λ attr. ok allow;
}

abbrev pub options : ClusterGatewayProxyOptions
options = record { path = "/api/v1/pods"; impersonate = true }
