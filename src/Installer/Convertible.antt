-- ===== src/Installer/Convertible.antt =====
-- From the installer to the gateway: the secret that the installer writes is one that converts.
use cluster_gateway.Base.{
  String, ◌≡◌, refl, ◌≢◌, inl, inr, true, none, some, List, [], ◌∷◌, eq_iff, str_eq, Bool-cases,
  Error, Result, ok, err, ap, ◌∙◌,
}
use cluster_gateway.Base.Maps.{lookup}
use cluster_gateway.Api.{
  ClientConfig, Secret, ManagedCluster, type_const, type_cluster_proxy, type_token,
  label_credential_type, label_endpoint_type,
}
use cluster_gateway.Configuration.{ConfigurationSpec, egress_cluster_proxy, ManagementAddon}
use cluster_gateway.Exec.{Cache}
use cluster_gateway.Convert.{Env, convert_from_secret, convert_from_managed_cluster_and_secret}
use cluster_gateway.Convert.Token.{
  token_gateway, convert_from_secret-token, convert_from_managed_cluster_and_secret-token,
}
use cluster_gateway.Cert.{SecretApi, is_not_found}
use cluster_gateway.Cert.Copy.{SecretLaws}
use cluster_gateway.Installer.{
  copied_endpoint_type, new_cluster_secret, write_token, copy_token, copy_named,
  copy_secret_for_managed_service_account,
}
use cluster_gateway.Installer.Tokens.{token_of, failing-ok}

module _ (addon : ManagementAddon) (spec : ConfigurationSpec) (cluster : String)
    (source : Secret) where
  fresh_credential :
      lookup label_credential_type (new_cluster_secret addon spec cluster source).labels
      ≡ some type_token
  unfolding new_cluster_secret lookup
  fresh_credential = refl

  fresh_endpoint :
      lookup label_endpoint_type (new_cluster_secret addon spec cluster source).labels
      ≡ some (copied_endpoint_type spec)
  unfolding new_cluster_secret lookup
  fresh_endpoint = refl

  fresh_proxy_url :
      lookup "proxy-url" (new_cluster_secret addon spec cluster source).contents ≡ none
  unfolding new_cluster_secret lookup
  fresh_proxy_url = refl

  fresh_annotations : (new_cluster_secret addon spec cluster source).annotations ≡ []
  unfolding new_cluster_secret
  fresh_annotations = refl

  fresh_name : (new_cluster_secret addon spec cluster source).name ≡ cluster
  unfolding new_cluster_secret
  fresh_name = refl

  fresh_token : token_of (new_cluster_secret addon spec cluster source) ≡ token_of source
  unfolding new_cluster_secret lookup
  fresh_token = refl

copied_endpoint_type-proxied :
    (spec : ConfigurationSpec)
    → spec.egress.type ≡ egress_cluster_proxy
    → copied_endpoint_type spec ≡ type_cluster_proxy
unfolding copied_endpoint_type
copied_endpoint_type-proxied spec h = rw ((eq_iff _ egress_cluster_proxy).1 h) refl

copied_endpoint_type-direct :
    (spec : ConfigurationSpec)
    → spec.egress.type ≢ egress_cluster_proxy
    → copied_endpoint_type spec ≡ type_const
unfolding copied_endpoint_type
copied_endpoint_type-direct spec h =
    elim (Bool-cases (str_eq spec.egress.type egress_cluster_proxy)) [
      | inl same ↦ absurd (h ((eq_iff _ _).0 same))
      | inr other ↦ rw other refl
    ]

module _ {S : Type 0} (api : SecretApi S) (secrets : String → String → S → Result Secret)
    (laws : SecretLaws api) (addon : ManagementAddon) (spec : ConfigurationSpec)
    (cluster name : String) (source : Secret) (s : S) (e : Error)
    (named : spec.secret_management.managed_service_account ≡ some name)
    (issued : secrets cluster name s ≡ ok source)
    (missing : secrets spec.secret_namespace cluster s ≡ err e) (absent : is_not_found e ≡ true)
    (h : (copy_secret_for_managed_service_account api secrets addon spec cluster s).0 ≡ ok tt) where
  -- The secret that the copy creates is the one that is read then.
  copied_fresh :
      api.get spec.secret_namespace cluster
        (copy_secret_for_managed_service_account api secrets addon spec cluster s).1
      ≡ ok (new_cluster_secret addon spec cluster source)
  unfolding copy_secret_for_managed_service_account copy_named copy_token write_token
  copied_fresh =
      let fresh = new_cluster_secret addon spec cluster source in
      rw (named, issued, missing, absent)
        (rw (← fresh_name addon spec cluster source) (
          laws.get-create spec.secret_namespace fresh s
            (failing-ok _ _ (rw (named, issued, missing, absent) at h))))

  -- The first copy of a token that reports success, where the account is configured, its secret is
  -- in the lister, the cluster has none there, and the egress is the cluster proxy, leaves a secret
  -- of the cluster's name that converts to a gateway behind the proxy whose credential is that
  -- token; the API reads back what it creates.
  pub copy_secret-converts_proxied :
      (env : Env) (cache : Cache)
      → spec.egress.type ≡ egress_cluster_proxy
      → (t : Secret) × (api.get spec.secret_namespace cluster
            (copy_secret_for_managed_service_account api secrets addon spec cluster s).1
          ≡ ok t)
        × (t.name ≡ cluster)
        × (token_of t ≡ token_of source)
        × (convert_from_secret env t cache
            ≡ (ok (token_gateway t (record { type = type_cluster_proxy; const = none })), cache))
  copy_secret-converts_proxied env cache proxied = (
    new_cluster_secret addon spec cluster source,
    copied_fresh,
    fresh_name addon spec cluster source,
    fresh_token addon spec cluster source,
    convert_from_secret-token env (new_cluster_secret addon spec cluster source)
        (fresh_credential addon spec cluster source) (fresh_annotations addon spec cluster source)
        cache
        (fresh_endpoint addon spec cluster source
          ∙ ap some (copied_endpoint_type-proxied spec proxied)),
  )

  -- The same copy, where the egress is another, leaves a secret of the cluster's name that converts
  -- with any managed cluster, the first client configuration of which has a URL, to a gateway at
  -- that URL whose credential is the token.
  pub copy_secret-converts_direct :
      (env : Env) (cache : Cache) (managed : ManagedCluster) (config : ClientConfig)
      (configs : List ClientConfig)
      → spec.egress.type ≢ egress_cluster_proxy
      → managed.client_configs ≡ config ∷ configs
      → config.url ≢ ""
      → (t : Secret) × (api.get spec.secret_namespace cluster
            (copy_secret_for_managed_service_account api secrets addon spec cluster s).1
          ≡ ok t)
        × (t.name ≡ cluster)
        × (token_of t ≡ token_of source)
        × (convert_from_managed_cluster_and_secret env managed t cache ≡ (
          ok (
              token_gateway t (record {
                type = type_const;
                const = some (record {
                  address = config.url;
                  ca_bundle = config.ca_bundle;
                  insecure = none;
                  proxy_url = none;
                });
              })),
          cache,
        ))
  copy_secret-converts_direct env cache managed config configs direct configured given = (
    new_cluster_secret addon spec cluster source,
    copied_fresh,
    fresh_name addon spec cluster source,
    fresh_token addon spec cluster source,
    convert_from_managed_cluster_and_secret-token env (new_cluster_secret addon spec cluster source)
        (fresh_credential addon spec cluster source) (fresh_annotations addon spec cluster source)
        cache managed config configs
        (fresh_endpoint addon spec cluster source
          ∙ ap some (copied_endpoint_type-direct spec direct))
        (fresh_proxy_url addon spec cluster source) configured given,
  )
