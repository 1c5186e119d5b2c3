-- ===== src/Startup/Tests.antt =====
-- A library of flags, and the gateway that the installer deploys with it.
use Prim.Native.Char.{Char, code}
use text.Mathlib.TextLemmas.{nil-append, cons-append}
use cluster_gateway.Base.{
  String, ◌⧺◌, ◌≡◌, refl, ◌⊎◌, ◌↔◌, inl, inr, Bool, true, Option, none, some, nat_eq, str_eq, arith,
  Bool-cases, if◌then◌else◌, ok,
}
use cluster_gateway.Base.Decimal.{pos, negsuc, atoi}
use cluster_gateway.Base.Decimal.RoundTrip.{atoi-itoa}
use cluster_gateway.Configuration.{ProxyEgress, ClusterGatewayConfiguration, egress_cluster_proxy}
use cluster_gateway.Installer.Deployment.{
  Deployment, server_parts, with_proxy, deployment, parts_of, new_cluster_gateway_deployment,
}
use cluster_gateway.Installer.Steps.Sample.{sample_addon, sample_config}
use cluster_gateway.Startup.{
  Config, defaults, Pflag, validate_secret, validate_cluster_proxy, parse_args,
}
use cluster_gateway.Startup.Flags.{IsProxy, validate_cluster_proxy_iff}
use cluster_gateway.Startup.Deployed.{is_name, PflagLaws, deployment-starts}

longer : Char → Option (String × String) → Option (String × String)
longer c none = none
longer c (some (name, v)) = some (String.◌∷◌ c name, v)

-- at the first equality sign
cut : String → Option (String × String)
unfolding longer
cut String.[] = none
cut (String.◌∷◌ c s) =
    let rest = cut s in if nat_eq (code c) 61 then some ("", s) else longer c rest

split : String → Option (String × String)
unfolding cut
split (String.◌∷◌ c (String.◌∷◌ d s)) = cut s
split _ = none

cut-append : (name v : String) → is_name name ≡ true → cut ((name ⧺ "=") ⧺ v) ≡ some (name, v)
unfolding cut longer is_name
cut-append String.[] v h = rw nil-append (rw cons-append (rw nil-append refl))
cut-append (String.◌∷◌ c name) v h = elim (Bool-cases (nat_eq (code c) 61)) [
  | inl sign ↦ cc (rw sign at h)
  | inr letter ↦
      rw cons-append (rw cons-append (rw letter (rw (cut-append name v (rw letter at h)) refl)))
]

split-append :
    (name v : String) → is_name name ≡ true → split (("--" ⧺ name ⧺ "=") ⧺ v) ≡ some (name, v)
unfolding split
split-append name v h =
    rw cons-append
      (rw cons-append (rw cons-append (rw cons-append (rw nil-append (cut-append name v h)))))

read_bool : String → Option Bool
read_bool s = if str_eq s "true" then some true else none

abbrev pflag : Pflag
pflag = record {
  split = split;
  parse_int = atoi;
  parse_bool = read_bool;
  is_builder_flag = λ name. true;
}

laws : PflagLaws pflag
unfolding read_bool
laws = record {
  split-argument = split-append;
  parse_int-itoa = atoi-itoa;
  parse_bool-true = refl;
  has_secure_port = refl;
  has_tls_cert_file = refl;
  has_tls_private_key_file = refl;
  has_feature_gates = refl;
}

abbrev proxy : ProxyEgress
proxy = record {
  proxy_server_host = "proxy.open-cluster-management";
  proxy_server_port = pos 8090;
  credentials = record {
    namespace = "open-cluster-management";
    proxy_client_secret_name = "proxy-client";
    proxy_client_ca_secret_name = "proxy-server-ca";
  };
}

abbrev config : ClusterGatewayConfiguration
config = record sample_config {
  spec = record sample_config.spec {
    egress = record { type = egress_cluster_proxy; cluster_proxy = some proxy };
  };
}

abbrev built : Deployment
built = deployment sample_addon config (with_proxy (server_parts "vela-system") proxy)

built_deployment : new_cluster_gateway_deployment sample_addon config ≡ ok built
unfolding new_cluster_gateway_deployment parts_of
built_deployment = refl

deployment-starts_example :
    (c : Config) × (parse_args pflag built.args ≡ some c)
    × (c.secret_namespace ≡ config.spec.secret_namespace)
    × (c.cluster_proxy_host ≡ proxy.proxy_server_host)
    × (c.cluster_proxy_port ≡ proxy.proxy_server_port)
    × (validate_secret c ≡ ok tt)
    × (validate_cluster_proxy c ≡ ok tt)
deployment-starts_example =
    deployment-starts pflag laws sample_addon config proxy built refl refl (omega arith) (λ e. cc e)
      (λ e. cc e) built_deployment

abbrev negative : Config
negative = record defaults {
  cluster_proxy_host = "proxy";
  cluster_proxy_port = negsuc 0;
  cluster_proxy_ca_file = "ca";
  cluster_proxy_cert_file = "cert";
  cluster_proxy_key_file = "key";
}

validate_cluster_proxy_iff_example :
    (validate_cluster_proxy negative ≡ ok tt)
    ↔ ((negative.cluster_proxy_host ≡ "") ⊎ IsProxy negative)
validate_cluster_proxy_iff_example = validate_cluster_proxy_iff negative
