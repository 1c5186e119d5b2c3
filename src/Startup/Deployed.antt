-- ===== src/Startup/Deployed.antt =====
-- The gateway that the installer deploys starts with the configuration's values.
use Prim.Native.Char.{code}
use cluster_gateway.Base.{
  String, ◌⧺◌, ◌≡◌, refl, ◌∙◌, ◌≢◌, inl, inr, Bool, true, false, Option, none, some, List, [], ◌∷◌,
  eq_iff, Bool-cases, if◌then◌else◌, nat_eq, ok, ok-injective,
}
use cluster_gateway.Base.Decimal.{ℤ, pos, itoa}
use cluster_gateway.Base.Decimal.RoundTrip.{IsInt}
use cluster_gateway.Configuration.{
  ProxyEgress, ConfigurationSpec, egress_cluster_proxy, ClusterGatewayConfiguration,
  ManagementAddon,
}
use cluster_gateway.Installer.Deployment.{
  Deployment, server_parts, with_proxy, parts_of, new_cluster_gateway_deployment,
}
use cluster_gateway.Startup.{
  Config, defaults, Pflag, validate_secret, validate_cluster_proxy, with_int, with_bool, set_flag,
  set_split, parse_all, parse_args,
}
use cluster_gateway.Startup.Flags.{non_blank, validate_cluster_proxy_iff}

-- A name of a flag has no equality sign.
unfoldable pub is_name : String → Bool
is_name String.[] = true
is_name (String.◌∷◌ c s) = let rest = is_name s in if nat_eq (code c) 61 then false else rest

-- What the program relies on: an argument is split at its first equality sign, decimal texts and
-- `true` are read, and the server's builder has the flags for its port, its certificate and the
-- feature gates.
pub record PflagLaws (pflag : Pflag) : Type 0 where
  pub split-argument :
      (name v : String)
      → is_name name ≡ true
      → pflag.split (("--" ⧺ name ⧺ "=") ⧺ v) ≡ some (name, v)
  pub parse_int-itoa : (z : ℤ) → IsInt z → pflag.parse_int (itoa z) ≡ some z
  pub parse_bool-true : pflag.parse_bool "true" ≡ some true
  pub has_secure_port : pflag.is_builder_flag "secure-port" ≡ true
  pub has_tls_cert_file : pflag.is_builder_flag "tls-cert-file" ≡ true
  pub has_tls_private_key_file : pflag.is_builder_flag "tls-private-key-file" ≡ true
  pub has_feature_gates : pflag.is_builder_flag "feature-gates" ≡ true

-- Flags by name and value, and the arguments that give them.
abbrev Settings : Type 0
Settings = List (String × String)

abbrev as_args : Settings → List String
as_args [] = []
as_args ((name, v) ∷ settings) = (("--" ⧺ name ⧺ "=") ⧺ v) ∷ as_args settings

all_names : Settings → Bool
all_names [] = true
all_names ((name, v) ∷ settings) =
    let rest = all_names settings in if is_name name then rest else false

-- The flags of the deployment of a configuration behind the cluster proxy.
abbrev settings : ConfigurationSpec → ProxyEgress → Settings
settings spec proxy =
    ("secure-port", "9443")
    ∷ ("secret-namespace", spec.secret_namespace)
    ∷ ("ocm-integration", "true")
    ∷ ("tls-cert-file", "/etc/server/tls.crt")
    ∷ ("tls-private-key-file", "/etc/server/tls.key")
    ∷ ("feature-gates", "HealthinessCheck=true,SecretCache=true")
    ∷ ("proxy-host", proxy.proxy_server_host)
    ∷ ("proxy-port", itoa proxy.proxy_server_port)
    ∷ ("proxy-ca-cert", "/etc/ca/ca.crt")
    ∷ ("proxy-cert", "/etc/tls/tls.crt")
    ∷ ("proxy-key", "/etc/tls/tls.key")
    ∷ []

-- What they set.
abbrev pub deployed_config : ConfigurationSpec → ProxyEgress → Config
deployed_config spec proxy = record defaults {
  secret_namespace = spec.secret_namespace;
  cluster_proxy_host = proxy.proxy_server_host;
  cluster_proxy_port = proxy.proxy_server_port;
  cluster_proxy_ca_file = "/etc/ca/ca.crt";
  cluster_proxy_cert_file = "/etc/tls/tls.crt";
  cluster_proxy_key_file = "/etc/tls/tls.key";
  ocm_integration = true;
}

module _ (pflag : Pflag) (laws : PflagLaws pflag) where
  set_all : Settings → Option Config → Option Config
  set_all [] c = c
  set_all (x ∷ l) none = none
  set_all ((name, v) ∷ l) (some c) = set_all l (set_flag pflag name v c)

  parse_all-as_args :
      (l : Settings) (c : Option Config)
      → all_names l ≡ true
      → parse_all pflag (as_args l) c ≡ set_all l c
  unfolding parse_all set_split set_all all_names
  parse_all-as_args [] c h = refl
  parse_all-as_args (x ∷ l) none h = refl
  parse_all-as_args ((name, v) ∷ l) (some c) h = elim (Bool-cases (is_name name)) [
    | inl named ↦
        rw (laws.split-argument name v named, parse_all, set_split)
          (parse_all-as_args l (set_flag pflag name v c) (rw named at h))
    | inr other ↦ cc (rw other at h)
  ]

  parse_args-deployment :
      (spec : ConfigurationSpec) (proxy : ProxyEgress)
      → IsInt proxy.proxy_server_port
      → parse_args pflag (with_proxy (server_parts spec.secret_namespace) proxy).args
        ≡ some (deployed_config spec proxy)
  unfolding parse_args set_all set_flag with_int with_bool is_name all_names
  parse_args-deployment spec proxy bound =
      parse_all-as_args (settings spec proxy) (some defaults) refl
      ∙ rw (laws.has_secure_port, set_all)
          (rw (laws.parse_bool-true, set_all)
            (rw (laws.has_tls_cert_file, set_all)
              (rw (laws.has_tls_private_key_file, set_all)
                (rw (laws.has_feature_gates, set_all)
                  (rw (laws.parse_int-itoa proxy.proxy_server_port bound, set_all) refl)))))

  -- The arguments of the deployment that is built for a configuration behind the cluster proxy, the
  -- secrets' namespace and the port of which are given, are read, with the configuration's
  -- namespace, host and port; and the flags that they set are accepted.
  pub deployment-starts :
      (addon : ManagementAddon) (config : ClusterGatewayConfiguration) (proxy : ProxyEgress)
      (d : Deployment)
      → config.spec.egress.type ≡ egress_cluster_proxy
      → config.spec.egress.cluster_proxy ≡ some proxy
      → IsInt proxy.proxy_server_port
      → proxy.proxy_server_port ≢ pos 0
      → config.spec.secret_namespace ≢ ""
      → new_cluster_gateway_deployment addon config ≡ ok d
      → (c : Config) × (parse_args pflag d.args ≡ some c)
        × (c.secret_namespace ≡ config.spec.secret_namespace)
        × (c.cluster_proxy_host ≡ proxy.proxy_server_host)
        × (c.cluster_proxy_port ≡ proxy.proxy_server_port)
        × (validate_secret c ≡ ok tt)
        × (validate_cluster_proxy c ≡ ok tt)
  unfolding new_cluster_gateway_deployment parts_of validate_secret
  deployment-starts addon config proxy d proxied given bound port namespace built =
      let is_proxied = (eq_iff config.spec.egress.type egress_cluster_proxy).1 proxied in
      let same = ok-injective (rw (is_proxied, given) at built) in
      (
        deployed_config config.spec proxy,
        rw (← same) (parse_args-deployment config.spec proxy bound),
        refl,
        refl,
        refl,
        rw ((non_blank config.spec.secret_namespace).1 namespace) refl,
        (validate_cluster_proxy_iff (deployed_config config.spec proxy)).1
            (inr (port, λ e. cc e, λ e. cc e, λ e. cc e)),
      )
