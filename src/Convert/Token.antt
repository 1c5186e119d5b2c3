-- ===== src/Convert/Token.antt =====
-- Conversions of secrets that hold a token and no annotations.
use cluster_gateway.Base.{
  String, ◌≡◌, refl, ◌≢◌, ap, inl, inr, Bool, false, none, some, List, [], ◌∷◌, eq_iff, Bool-cases,
  ok,
}
use cluster_gateway.Base.Maps.{lookup}
use cluster_gateway.Api.{
  Bytes, text, value, is_blank, ClientConfig, ClusterEndpoint, ClusterAccessCredential,
  ClusterGateway, Secret, ManagedCluster, type_const, type_cluster_proxy, type_token,
  label_credential_type, label_endpoint_type,
}
use cluster_gateway.Exec.{Cache}
use cluster_gateway.Convert.{
  Env, endpoint_type, proxy_url, convert_endpoint, convert_credential, convert_status,
  convert_proxy_config, gateway, convert, convert_from_secret,
  convert_from_managed_cluster_and_secret, get_endpoint_from_managed_cluster,
}

abbrev pub token_credential : Secret → ClusterAccessCredential
token_credential secret = record {
  type = type_token;
  service_account_token = text (value (lookup "token" secret.contents));
  x509 = none;
}

-- The gateway of such a secret, which is not healthy yet.
abbrev pub token_gateway : Secret → ClusterEndpoint → ClusterGateway
token_gateway secret endpoint =
    gateway secret endpoint (token_credential secret)
      (record { healthy = false; healthy_reason = "" }) none

endpoint-first :
    (cluster : ManagedCluster) (config : ClientConfig) (configs : List ClientConfig)
    → cluster.client_configs ≡ config ∷ configs
    → get_endpoint_from_managed_cluster cluster ≡ (config.ca_bundle, config.url)
unfolding get_endpoint_from_managed_cluster
endpoint-first cluster config configs h =
    ap
      (λ cs. elim cs [
        | [] ↦ (none, "")
        | cfg ∷ _ ↦ (ClientConfig.ca_bundle cfg, ClientConfig.url cfg)
      ])
      h

module _ (env : Env) (secret : Secret)
    (credential : lookup label_credential_type secret.labels ≡ some type_token)
    (annotations : secret.annotations ≡ []) (cache : Cache) where
  convert_credential-token :
      convert_credential env secret cache ≡ (ok (token_credential secret), cache)
  unfolding convert_credential
  convert_credential-token = rw (credential, convert_credential) refl

  convert_status-unknown :
      convert_status env secret ≡ ok (record { healthy = false; healthy_reason = "" })
  unfolding convert_status lookup
  convert_status-unknown = elim (Bool-cases env.healthiness_check) [
    | inl enabled ↦ rw enabled (rw annotations (rw annotations refl))
    | inr disabled ↦ rw disabled refl
  ]

  convert_proxy_config-none : convert_proxy_config env secret ≡ ok none
  unfolding convert_proxy_config lookup
  convert_proxy_config-none = elim (Bool-cases env.client_identity_penetration) [
    | inl enabled ↦ rw enabled (rw annotations refl)
    | inr disabled ↦ rw disabled refl
  ]

  convert-token :
      (ca : Bytes) (address : String) (insecure : Bool) (endpoint : ClusterEndpoint)
      → convert_endpoint ca address insecure secret ≡ ok endpoint
      → convert env ca address insecure secret cache ≡ (ok (token_gateway secret endpoint), cache)
  unfolding convert
  convert-token ca address insecure endpoint h =
      rw (h, convert_credential-token, convert_status-unknown, convert_proxy_config-none) refl

  endpoint_type-label :
      (type : String)
      → lookup label_endpoint_type secret.labels ≡ some type
      → endpoint_type secret ≡ type
  unfolding endpoint_type
  endpoint_type-label type h = rw (h, endpoint_type) refl

  -- A cluster behind the proxy needs nothing else.
  pub convert_from_secret-token :
      lookup label_endpoint_type secret.labels ≡ some type_cluster_proxy
      → convert_from_secret env secret cache
        ≡ (ok (token_gateway secret (record { type = type_cluster_proxy; const = none })), cache)
  unfolding convert_from_secret convert_endpoint
  convert_from_secret-token proxied =
      convert-token _ _ _ (record { type = type_cluster_proxy; const = none })
        (rw (endpoint_type-label type_cluster_proxy proxied) refl)

  -- Another cluster has its address from the managed cluster.
  pub convert_from_managed_cluster_and_secret-token :
      (cluster : ManagedCluster) (config : ClientConfig) (configs : List ClientConfig)
      → lookup label_endpoint_type secret.labels ≡ some type_const
      → lookup "proxy-url" secret.contents ≡ none
      → cluster.client_configs ≡ config ∷ configs
      → config.url ≢ ""
      → convert_from_managed_cluster_and_secret env cluster secret cache ≡ (
        ok (
            token_gateway secret (record {
              type = type_const;
              const = some (record {
                address = config.url;
                ca_bundle = config.ca_bundle;
                insecure = none;
                proxy_url = none;
              });
            })),
        cache,
      )
  unfolding convert_from_managed_cluster_and_secret convert_endpoint proxy_url
  convert_from_managed_cluster_and_secret-token cluster config configs direct no_proxy configured
        given =
      rw (endpoint-first cluster config configs configured) (
        convert-token config.ca_bundle config.url false _ (elim (Bool-cases (is_blank config.url)) [
          | inl blank ↦ absurd (given ((eq_iff config.url "").0 blank))
          | inr address ↦
              rw (endpoint_type-label type_const direct)
                (rw address (rw (no_proxy, proxy_url) refl))
        ]))
