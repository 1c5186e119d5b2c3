-- ===== src/Convert.antt =====
-- From a secret, and a managed cluster, to a cluster gateway: the conversions of
-- pkg/apis/cluster/v1alpha1/clustergateway_types_secret.go.
pub mod Credential
pub mod Complete
pub mod Static
pub mod Status
pub mod Token
pub mod Sample
mod Tests
use cluster_gateway.Base.{
  ℕ, String, Bool, true, false, not, ◌&&◌, ◌||◌, Option, none, some, List, [], ◌∷◌, str_eq,
  if◌then◌else◌, Error, other, not_found, Result, ok, err, panic,
}
use cluster_gateway.Base.Text.{trim_newline}
use cluster_gateway.Base.Maps.{Map, lookup}
use cluster_gateway.Base.Effects.{Action, pure, fail, lift, ◌>>=◌, continue}
use cluster_gateway.Api.{
  Bytes, text, is_blank, value, label, ClientIdentityExchangeRule, ProxyConfiguration, X509,
  ClusterAccessCredential, ClusterEndpointConst, ClusterEndpoint, ClusterAccess, ClusterGatewaySpec,
  ClusterGatewayStatus, ClusterGateway, Secret, ClientConfig, ManagedCluster, type_const,
  type_cluster_proxy, type_token, type_x509, type_dynamic, label_credential_type,
  label_endpoint_type, api_group,
}
use cluster_gateway.Exec.{
  Host, Cache, ExecConfig, ExecCredential, ExecCredentialStatus, issue_cluster_credential,
}

-- The feature gates, and what is not the program's own: YAML and JSON decoding, the host of the
-- external commands, and the time.
pub record Env : Type 0 where
  pub healthiness_check : Bool
  pub client_identity_penetration : Bool
  pub unmarshal : String → Option ProxyConfiguration
  pub decode_exec : String → Option ExecConfig
  pub host : Host
  pub now : ℕ

abbrev pub annotation_healthy : String
annotation_healthy = "status.cluster.core.oam.dev/healthy"

abbrev pub annotation_healthy_reason : String
annotation_healthy_reason = "status.cluster.core.oam.dev/healthy-reason"

abbrev annotation_proxy_configuration : String
annotation_proxy_configuration = "cluster.core.oam.dev/cluster-gateway-proxy-configuration"

-- `strconv.ParseBool` and `strconv.FormatBool`
pub parse_bool : String → Option Bool
parse_bool s =
    if str_eq s "1"
      || str_eq s "t"
      || str_eq s "T"
      || str_eq s "true"
      || str_eq s "TRUE"
      || str_eq s "True"
    then some true
    else if str_eq s "0"
        || str_eq s "f"
        || str_eq s "F"
        || str_eq s "false"
        || str_eq s "FALSE"
        || str_eq s "False"
    then some false
    else none

unfoldable pub format_bool : Bool → String
format_bool true = "true"
format_bool false = "false"

-- An endpoint as `getEndpointFrom…` returns it: the CA data and the address.
get_endpoint_from_managed_cluster : ManagedCluster → Bytes × String
get_endpoint_from_managed_cluster cluster = elim cluster.client_configs [
  | [] ↦ (none, "")
  | cfg ∷ _ ↦ (cfg.ca_bundle, cfg.url)
]

pub get_endpoint_from_secret : Secret → Bytes × String
get_endpoint_from_secret secret = (
  elim (lookup "ca.crt" secret.contents) [
    | some ca_crt ↦ ca_crt
    | none ↦ value (lookup "ca" secret.contents)
  ],
  trim_newline (text (value (lookup "endpoint" secret.contents))),
)

-- The endpoint's type: the secret's label, or `Const`.
pub endpoint_type : Secret → String
endpoint_type secret = elim (lookup label_endpoint_type secret.labels) [
  | none ↦ type_const
  | some type ↦ type
]

proxy_url : Secret → Option String
proxy_url secret = elim (lookup "proxy-url" secret.contents) [
  | none ↦ none
  | some url ↦ if is_blank (text url) then none else some (text url)
]

convert_endpoint : Bytes → String → Bool → Secret → Result ClusterEndpoint
convert_endpoint ca_data api_server_endpoint insecure secret =
    if str_eq (endpoint_type secret) type_cluster_proxy
    then ok (record { type = endpoint_type secret; const = none })
    else if is_blank api_server_endpoint
    then err (other "missing label key: api-endpoint")
    else ok (record {
      type = endpoint_type secret;
      const = some (record {
        address = api_server_endpoint;
        ca_bundle = if insecure then none else ca_data;
        insecure = if insecure then some true else none;
        proxy_url = proxy_url secret;
      });
    })

-- The ends of `buildCredentialFromExecConfig`: the token first, then the key pair.
dynamic_credential : ExecCredential → Result ClusterAccessCredential
dynamic_credential cred = elim cred.status [
  | none ↦ panic
  | some status ↦
      if not (is_blank status.token)
      then ok (record { type = type_dynamic; service_account_token = status.token; x509 = none })
      else if not (is_blank status.client_certificate_data) && not (is_blank status.client_key_data)
      then ok (record {
        type = type_dynamic;
        service_account_token = "";
        x509 = some (record {
          certificate = some status.client_certificate_data;
          private_key = some status.client_key_data;
        });
      })
      else err (other "no credential type available")
]

-- The object that `convert` fills in.
abbrev gateway :
    Secret
    → ClusterEndpoint
    → ClusterAccessCredential
    → ClusterGatewayStatus
    → Option ProxyConfiguration
    → ClusterGateway
gateway secret endpoint credential status proxy_config = record {
  name = secret.name;
  creation_timestamp = secret.creation_timestamp;
  spec = record {
    provider = "";
    access = record { endpoint = some endpoint; credential = some credential };
    proxy_config = proxy_config;
  };
  status = status;
}

-- An error of the external command is reported as one of the conversion.
pub issue_failure : Result ClusterAccessCredential × Cache → Result ClusterAccessCredential × Cache
issue_failure (ok credential, cache) = (ok credential, cache)
issue_failure (err e, cache) =
    (err (other "failed to issue credential from external command"), cache)
issue_failure (panic, cache) = (panic, cache)

module _ (env : Env) where
  -- `IssueClusterCredential` as an action on the cache of credentials
  issue_for : String → ExecConfig → Action Cache ExecCredential
  issue_for name ec cache = issue_cluster_credential env.host env.now name (some ec) cache

  pub build_credential_from_exec_config : Secret → Action Cache ClusterAccessCredential
  build_credential_from_exec_config secret =
      let raw = text (value (lookup "exec" secret.contents)) in
      if is_blank raw
      then fail (other "missing secret data key: exec")
      else elim (env.decode_exec raw) [
        | none ↦ fail (other "failed to decode exec config JSON from secret data")
        | some ec ↦ issue_for secret.name ec >>= (λ cred. lift (dynamic_credential cred))
      ]

  pub convert_credential : Secret → Action Cache ClusterAccessCredential
  convert_credential secret cache = elim (lookup label_credential_type secret.labels) [
    | none ↦ (err (not_found secret.name), cache)
    | some type ↦
        if str_eq type type_x509
        then (
          ok (record {
            type = type_x509;
            service_account_token = "";
            x509 = some (record {
              certificate = value (lookup "tls.crt" secret.contents);
              private_key = value (lookup "tls.key" secret.contents);
            });
          }),
          cache,
        )
        else if str_eq type type_token
        then (
          ok (record {
            type = type_token;
            service_account_token = text (value (lookup "token" secret.contents));
            x509 = none;
          }),
          cache,
        )
        else if str_eq type type_dynamic
        then issue_failure (build_credential_from_exec_config secret cache)
        else (err (other "unrecognized secret credential type"), cache)
  ]

  convert_status : Secret → Result ClusterGatewayStatus
  convert_status secret =
      if env.healthiness_check
      then elim (lookup annotation_healthy secret.annotations) [
        | none ↦ ok (record {
          healthy = false;
          healthy_reason = label (lookup annotation_healthy_reason secret.annotations);
        })
        | some raw ↦ elim (parse_bool raw) [
          | none ↦ err (other "unrecogized healthiness status")
          | some healthy ↦ ok (record {
            healthy = healthy;
            healthy_reason = label (lookup annotation_healthy_reason secret.annotations);
          })
        ]
      ]
      else ok (record { healthy = false; healthy_reason = "" })

  -- `rule.Source.Cluster = pointer.String(c.Name)` for each rule; a rule with no source panics.
  bind_cluster : String → List ClientIdentityExchangeRule → Result (List ClientIdentityExchangeRule)
  bind_cluster name [] = ok []
  bind_cluster name (rule ∷ rules) = elim rule.source [
    | none ↦ panic
    | some src ↦ elim (bind_cluster name rules) [
      | ok bound ↦ ok (record rule { source = some (record src { cluster = some name }) } ∷ bound)
      | err e ↦ err e
      | panic ↦ panic
    ]
  ]

  convert_proxy_config : Secret → Result (Option ProxyConfiguration)
  convert_proxy_config secret =
      if env.client_identity_penetration
      then elim (lookup annotation_proxy_configuration secret.annotations) [
        | none ↦ ok none
        | some raw ↦ elim (env.unmarshal raw) [
          | none ↦ ok none
          | some config ↦ elim (bind_cluster secret.name config.rules) [
            | ok bound ↦ ok (some (record { rules = bound }))
            | err e ↦ err e
            | panic ↦ panic
          ]
        ]
      ]
      else ok none

  pub convert : Bytes → String → Bool → Secret → Action Cache ClusterGateway
  convert ca_data api_server_endpoint insecure secret = do
    endpoint ← lift (convert_endpoint ca_data api_server_endpoint insecure secret)
    credential ← convert_credential secret
    status ← lift (convert_status secret)
    proxy_config ← lift (convert_proxy_config secret)
    pure (gateway secret endpoint credential status proxy_config)

  pub convert_from_secret : Secret → Action Cache ClusterGateway
  convert_from_secret secret =
      let (ca_data, endpoint) = get_endpoint_from_secret secret in
      convert ca_data endpoint (elim ca_data [ none ↦ true | some _ ↦ false ]) secret

  pub convert_from_managed_cluster_and_secret :
      ManagedCluster → Secret → Action Cache ClusterGateway
  convert_from_managed_cluster_and_secret cluster secret =
      let (ca_data, endpoint) = get_endpoint_from_managed_cluster cluster in
      convert ca_data endpoint false secret
