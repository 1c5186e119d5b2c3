-- ===== src/Transport.antt =====
-- pkg/apis/cluster/v1alpha1/transport.go: the client configuration for a cluster gateway.
pub mod Total
pub mod Access
pub mod Sample
mod Tests
use cluster_gateway.Base.{
  ℕ, String, Bool, true, false, not, ◌&&◌, Option, none, some, str_eq, if◌then◌else◌, Error, other,
  Result, ok, err, panic, ◌>>=◌, ◌>>◌, deref,
}
use cluster_gateway.Api.{
  Bytes, text, is_blank, X509, ClusterAccessCredential, ClusterEndpointConst, ClusterEndpoint,
  ClusterGateway, type_const, type_cluster_proxy, type_token, type_x509, type_dynamic,
}

-- `url.URL`, as far as the program reads it
pub record Url : Type 0 where
  pub scheme : String
  pub host : String
  pub path : String

-- The results of `net.SplitHostPort`: a host, the error of a missing port, or another error.
pub data HostPort : Type 0 where
  host_of : String → HostPort
  missing_port : HostPort
  bad_address : HostPort

-- What the configuration asks of the network libraries; `Dialer` is the type of dial functions.
pub record Net : Type 1 where
  pub Dialer : Type 0
  pub parse : String → Option Url
  pub split_host_port : String → HostPort
  pub get_dialer : Result Dialer

module _ (net : Net) where
  open net use {Dialer, parse, split_host_port, get_dialer}

  -- `restclient.Config`, as far as the program sets it
  pub record Config : Type 0 where
    pub timeout : ℕ
    pub host : String
    pub bearer_token : String
    pub cert_data : Bytes
    pub key_data : Bytes
    pub ca_data : Bytes
    pub insecure : Bool
    pub server_name : String
    pub proxy : Option Url
    pub dial : Option Dialer

  -- `&restclient.Config{Timeout: time.Second * 40}`
  abbrev new_config : Config
  new_config = record {
    timeout = 40;
    host = "";
    bearer_token = "";
    cert_data = none;
    key_data = none;
    ca_data = none;
    insecure = false;
    server_name = "";
    proxy = none;
    dial = none;
  }

  abbrev parsed : String → Result Url
  parsed address = elim (parse address) [ none ↦ err (other "parse") | some u ↦ ok u ]

  -- The host of an address: all of it where the port is missing.
  host_name : Url → Result String
  host_name u = elim (split_host_port u.host) [
    | host_of host ↦ ok host
    | missing_port ↦ ok u.host
    | bad_address ↦ err (other "split host port")
  ]

  proxy_of : Option String → Result (Option Url)
  proxy_of none = ok none
  proxy_of (some url) = do u ← parsed url; ok (some u)

  -- `in.Insecure != nil && *in.Insecure`
  is_set : Option Bool → Bool
  is_set none = false
  is_set (some b) = b

  -- An insecure endpoint replaces the whole TLS configuration, the CA data included.
  set_const : ClusterEndpointConst → Config → Result Config
  set_const const cfg = do
    u ← parsed const.address
    host ← host_name u
    proxy ← proxy_of const.proxy_url
    ok (record cfg {
      host = const.address;
      ca_data = if is_set const.insecure then none else const.ca_bundle;
      insecure = is_set const.insecure;
      server_name = host;
      proxy = proxy;
    })

  set_endpoint : String → ClusterEndpoint → Config → Result Config
  set_endpoint name endpoint cfg =
      if str_eq endpoint.type type_const
      then (do const ← deref endpoint.const; set_const const cfg)
      else if str_eq endpoint.type type_cluster_proxy
      then (do
        dial ← get_dialer
        ok (record cfg { host = name; insecure = true; ca_data = none; dial = some dial }))
      else ok cfg

  with_pair : X509 → Config → Config
  with_pair x cfg = record cfg { cert_data = x.certificate; key_data = x.private_key }

  -- The key pair of a dynamic credential, where both halves are there.
  set_pair : Option X509 → Config → Config
  set_pair none cfg = cfg
  set_pair (some x) cfg =
      if not (is_blank (text x.certificate)) && not (is_blank (text x.private_key))
      then with_pair x cfg
      else cfg

  set_credential : ClusterAccessCredential → Config → Result Config
  set_credential credential cfg =
      if str_eq credential.type type_dynamic
      then ok (
          set_pair credential.x509 (
            if is_blank credential.service_account_token
            then cfg
            else record cfg { bearer_token = credential.service_account_token }))
      else if str_eq credential.type type_token
      then ok (record cfg { bearer_token = credential.service_account_token })
      else if str_eq credential.type type_x509
      then (do x ← deref credential.x509; ok (with_pair x cfg))
      else ok cfg

  pub new_config_from_cluster : ClusterGateway → Result Config
  new_config_from_cluster c = do
    endpoint ← deref c.spec.access.endpoint
    cfg ← set_endpoint c.name endpoint new_config
    credential ← deref c.spec.access.credential
    set_credential credential cfg

  -- The `switch` of `GetEndpointURL`.
  url_of : String → ClusterEndpoint → Result Url
  url_of name endpoint =
      if str_eq endpoint.type type_const
      then (do const ← deref endpoint.const; parsed const.address)
      else if str_eq endpoint.type type_cluster_proxy
      then ok (record { scheme = "https"; host = name; path = "" })
      else err (other "unsupported cluster gateway endpoint type")

  pub get_endpoint_url : ClusterGateway → Result Url
  get_endpoint_url c = do endpoint ← deref c.spec.access.endpoint; url_of c.name endpoint
