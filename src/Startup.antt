-- ===== src/Startup.antt =====
-- The start of the API server: the flags of pkg/config with their validation, the load of the
-- global proxy configuration in clustergateway_proxy_configuration.go, and the functions that
-- cmd/apiserver/main.go configures the server with.
pub mod Flags
pub mod Deployed
mod Tests
use cluster_gateway.Base.{
  ℕ, String, ◌⧺◌, Bool, true, false, Option, none, some, List, [], ◌∷◌, ◌&&◌, str_eq, if◌then◌else◌,
  Error, other, Result, ok, err, panic,
}
use cluster_gateway.Base.Decimal.{ℤ, pos, int_eq}
use cluster_gateway.Base.Effects.{Action}
use cluster_gateway.Api.{is_blank, ProxyConfiguration}

-- The variables of pkg/config and pkg/options
pub record Config : Type 0 where
  pub secret_namespace : String
  pub cluster_proxy_host : String
  pub cluster_proxy_port : ℤ
  pub cluster_proxy_ca_file : String
  pub cluster_proxy_cert_file : String
  pub cluster_proxy_key_file : String
  pub authorizate_proxy_subpath : Bool
  pub user_agent : String
  pub cluster_gateway_proxy_config_path : String
  pub virtual_cluster_with_control_plane : Bool
  pub ocm_integration : Bool

-- The values before any flag is given.
abbrev pub defaults : Config
defaults = record {
  secret_namespace = "vela-system";
  cluster_proxy_host = "";
  cluster_proxy_port = pos 8090;
  cluster_proxy_ca_file = "";
  cluster_proxy_cert_file = "";
  cluster_proxy_key_file = "";
  authorizate_proxy_subpath = false;
  user_agent = "";
  cluster_gateway_proxy_config_path = "";
  virtual_cluster_with_control_plane = true;
  ocm_integration = false;
}

-- The library of flags: how it splits an argument into a name and a value, how it reads numbers
-- and truth values, and the names that the server's own builder registers.
pub record Pflag : Type 0 where
  pub split : String → Option (String × String)
  pub parse_int : String → Option ℤ
  pub parse_bool : String → Option Bool
  pub is_builder_flag : String → Bool

pub validate_secret : Config → Result (Unit {0})
validate_secret c =
    if is_blank c.secret_namespace then err (other "must specify --secret-namespace") else ok tt

pub validate_cluster_proxy : Config → Result (Unit {0})
validate_cluster_proxy c =
    if is_blank c.cluster_proxy_host
    then ok tt
    else if int_eq c.cluster_proxy_port (pos 0)
    then err (other "--proxy-port must be greater than 0")
    else if is_blank c.cluster_proxy_ca_file
    then err (other "--proxy-ca-cert must be specified")
    else if is_blank c.cluster_proxy_cert_file
    then err (other "--proxy-cert must be specified")
    else if is_blank c.cluster_proxy_key_file
    then err (other "--proxy-key must be specified")
    else ok tt

-- `WithUserAgent`: the user agent of the client, overridden where one is given
with_user_agent : Config → String → String
with_user_agent c user_agent = if is_blank c.user_agent then user_agent else c.user_agent

-- `LongRunningFunc`, over the check of the server's library
long_running : String → String → Bool → Bool
long_running resource subresource basic =
    if str_eq resource "clustergateways" && str_eq subresource "proxy" then true else basic

module _ (pflag : Pflag) where
  with_int : (ℤ → Config) → Option ℤ → Option Config
  with_int f none = none
  with_int f (some z) = some (f z)

  with_bool : (Bool → Config) → Option Bool → Option Config
  with_bool f none = none
  with_bool f (some b) = some (f b)

  -- The flags that the `Add…Flags` functions and `main` register; another flag is the builder's,
  -- or unknown.
  set_flag : String → String → Config → Option Config
  unfolding with_int with_bool
  set_flag name v c =
      if str_eq name "secret-namespace"
      then some (record c { secret_namespace = v })
      else if str_eq name "virtual-clutser-with-control-plane"
      then with_bool (λ b. record c { virtual_cluster_with_control_plane = b }) (pflag.parse_bool v)
      else if str_eq name "proxy-host"
      then some (record c { cluster_proxy_host = v })
      else if str_eq name "proxy-port"
      then with_int (λ z. record c { cluster_proxy_port = z }) (pflag.parse_int v)
      else if str_eq name "proxy-ca-cert"
      then some (record c { cluster_proxy_ca_file = v })
      else if str_eq name "proxy-cert"
      then some (record c { cluster_proxy_cert_file = v })
      else if str_eq name "proxy-key"
      then some (record c { cluster_proxy_key_file = v })
      else if str_eq name "authorize-proxy-subpath"
      then with_bool (λ b. record c { authorizate_proxy_subpath = b }) (pflag.parse_bool v)
      else if str_eq name "user-agent"
      then some (record c { user_agent = v })
      else if str_eq name "cluster-gateway-proxy-config"
      then some (record c { cluster_gateway_proxy_config_path = v })
      else if str_eq name "ocm-integration"
      then with_bool (λ b. record c { ocm_integration = b }) (pflag.parse_bool v)
      else if pflag.is_builder_flag name
      then some c
      else none

  set_split : Option (String × String) → Config → Option Config
  unfolding set_flag
  set_split none c = none
  set_split (some (name, v)) c = set_flag name v c

  parse_all : List String → Option Config → Option Config
  unfolding set_split
  parse_all [] c = c
  parse_all (arg ∷ args) none = none
  parse_all (arg ∷ args) (some c) = parse_all args (set_split (pflag.split arg) c)

  -- The arguments, from left to right, over the values before any flag is given.
  pub parse_args : List String → Option Config
  unfolding parse_all
  parse_args args = parse_all args (some defaults)

-- `os.ReadFile` and `yaml.Unmarshal` into the global configuration
pub record Files : Type 0 where
  pub read_file : String → Result String
  pub unmarshal : String → Action ProxyConfiguration (Unit {0})

module _ (files : Files) where
  unmarshal_read : Result String → Action ProxyConfiguration (Unit {0})
  unmarshal_read (ok bs) global = files.unmarshal bs global
  unmarshal_read (err e) global = (err e, global)
  unmarshal_read panic global = (panic, global)

  load_global_cluster_gateway_proxy_config : Config → Action ProxyConfiguration (Unit {0})
  unfolding unmarshal_read
  load_global_cluster_gateway_proxy_config c global =
      if is_blank c.cluster_gateway_proxy_config_path
      then (ok tt, global)
      else unmarshal_read (files.read_file c.cluster_gateway_proxy_config_path) global

  -- An error ends the process before the next step.
  checked :
      Result (Unit {0})
      → Action ProxyConfiguration (Unit {0})
      → Action ProxyConfiguration (Unit {0})
  checked (ok u) rest global = rest global
  checked (err e) rest global = (err e, global)
  checked panic rest global = (panic, global)

  -- `WithOptionsFns`
  pub apply_options : Config → Action ProxyConfiguration (Unit {0})
  unfolding checked load_global_cluster_gateway_proxy_config
  apply_options c =
      checked (validate_secret c)
        (checked (validate_cluster_proxy c) (load_global_cluster_gateway_proxy_config c))
