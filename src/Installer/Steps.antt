-- ===== src/Installer/Steps.antt =====
-- The steps of the installer: the `ensure…` functions of pkg/addon/controllers/installer.go, over
-- an arbitrary state of the hub.
pub mod Laws
pub mod Carried
pub mod Certified
pub mod Managed
pub mod Sample
pub mod Reconcile
use cluster_gateway.Base.{
  ℕ, String, ◌⧺◌, Bool, true, false, not, Option, none, some, List, [], ◌∷◌, str_eq, if◌then◌else◌,
  Error, other, wrapped, Result, ok, err, panic, ◌>>=◌,
}
use cluster_gateway.Base.Decimal.{ℤ, atoi, int_eq}
use cluster_gateway.Base.Maps.{lookup}
use cluster_gateway.Base.Effects.{Action}
use cluster_gateway.Api.{Bytes, text, Secret, addon_name}
use cluster_gateway.Configuration.{
  ProxyEgress, ConfigurationSpec, egress_cluster_proxy, management_managed_service_account,
  ClusterGatewayConfiguration, ManagementAddon, ClusterAddon, api_service_name,
}
use cluster_gateway.Cert.{SecretApi, is_not_found, is_already_exists, copy_secret}
use cluster_gateway.Installer.{failing, copy_secret_for_managed_service_account}
use cluster_gateway.Installer.Objects.{
  ObjectMeta, Service, ApiService, Role, RoleBinding, ManagedServiceAccount, new_api_service,
  build_managed_service_account,
}
use cluster_gateway.Installer.Deployment.{
  label_generation, deployment_name, Deployment, new_cluster_gateway_deployment,
}

-- `client.Object`: what the installer creates and updates
pub data Object : Type 0 where
  service_account_object : ObjectMeta → Object
  service_object : Service → Object
  role_object cluster_role_object : Role → Object
  role_binding_object cluster_role_binding_object : RoleBinding → Object
  api_service_object : ApiService → Object
  deployment_object : Deployment → Object
  managed_service_account_object : ManagedServiceAccount → Object

-- The installer's clients over the state of the hub: `rotate` is `EnsureTargetCertKeyPair` for a
-- namespace, a name, the host names and a validity in hours, and `ca_pem` is `GetPEMBytes`.
pub record InstallerApi (S : Type 0) : Type 0 where
  pub secrets : SecretApi S
  pub secret_lister : String → String → S → Result Secret
  pub get_addon : String → S → Result ManagementAddon
  pub get_configuration : String → S → Result ClusterGatewayConfiguration
  pub create_namespace : String → Action S (Unit {0})
  pub find_managed_service_accounts : S → Result (Unit {0})
  pub list_addons : S → Result (List ClusterAddon)
  pub create : Object → Action S (Unit {0})
  pub update : Object → Action S (Unit {0})
  pub get_deployment : String → String → S → Result Deployment
  pub get_api_service : String → S → Result ApiService
  pub rotate : String → String → List String → ℕ → Action S (Unit {0})
  pub ca_pem : Result String

-- An object that is there already is as good as one that was created.
pub tolerated : Result (Unit {0}) → Result (Unit {0})
tolerated (ok u) = ok u
tolerated (err e) = if is_already_exists e then ok tt else err e
tolerated panic = panic

module _ {S : Type 0} where
  -- `if err := first; err != nil { return err }`, and then the next step
  pub next : Result (Unit {0}) × S → Action S (Unit {0}) → Result (Unit {0}) × S
  next (ok u, s) action = action s
  next (err e, s) action = (err e, s)
  next (panic, s) action = (panic, s)

  -- `errors.Wrapf` of what a step ends with.
  pub naming : String → Result (Unit {0}) × S → Result (Unit {0}) × S
  unfolding failing
  naming message (r, s) = (failing message r, s)

  pub tolerating : Result (Unit {0}) × S → Result (Unit {0}) × S
  unfolding tolerated
  tolerating (r, s) = (tolerated r, s)

module _ {S : Type 0} (api : InstallerApi S) where
  pub ensure_namespace : String → Action S (Unit {0})
  unfolding tolerating
  ensure_namespace namespace s = tolerating (api.create_namespace namespace s)

  -- what follows the read of the APIService
  compare_api_service : ManagementAddon → String → String → Result ApiService → Action S (Unit {0})
  compare_api_service addon namespace ca (ok current) s =
      let expected = new_api_service addon namespace (some ca) in
      if str_eq ca (text current.ca_bundle)
      then (ok tt, s)
      else api.update
          (api_service_object (record expected {
            meta = record expected.meta { resource_version = current.meta.resource_version };
          }))
          s
  compare_api_service addon namespace ca (err e) s = (err e, s)
  compare_api_service addon namespace ca panic s = (panic, s)

  read_api_service : ManagementAddon → String → Result String → Action S (Unit {0})
  unfolding compare_api_service
  read_api_service addon namespace (ok ca) s =
      compare_api_service addon namespace ca (api.get_api_service api_service_name s) s
  read_api_service addon namespace (err e) s = (err e, s)
  read_api_service addon namespace panic s = (panic, s)

  pub ensure_api_service : ManagementAddon → String → Action S (Unit {0})
  unfolding read_api_service
  ensure_api_service addon namespace s = read_api_service addon namespace api.ca_pem s

  create_deployment : Result Deployment → Action S (Unit {0})
  create_deployment (ok d) s = api.create (deployment_object d) s
  create_deployment (err e) s = (err e, s)
  create_deployment panic s = (panic, s)

  update_deployment : Deployment → Result Deployment → Action S (Unit {0})
  update_deployment current (ok d) s =
      api.update
        (deployment_object
          (record d { meta = record d.meta { resource_version = current.meta.resource_version } }))
        s
  update_deployment current (err e) s = (err e, s)
  update_deployment current panic s = (panic, s)

  module _ (addon : ManagementAddon) (config : ClusterGatewayConfiguration) where
    -- the number in the label of a deployment
    compare_parsed : Deployment → Option ℤ → Action S (Unit {0})
    unfolding update_deployment
    compare_parsed current none s = (err (other "invalid generation"), s)
    compare_parsed current (some gen) s =
        if int_eq config.generation gen
        then (ok tt, s)
        else update_deployment current (new_cluster_gateway_deployment addon config) s

    -- the generation that a deployment is labelled with, if it has that label
    compare_generation : Deployment → Option String → Action S (Unit {0})
    unfolding update_deployment compare_parsed
    compare_generation current none s =
        update_deployment current (new_cluster_gateway_deployment addon config) s
    compare_generation current (some label) s = compare_parsed current (atoi label) s

    -- what follows the read of the deployment
    compare_deployment : Result Deployment → Action S (Unit {0})
    unfolding create_deployment compare_generation
    compare_deployment (ok current) s =
        compare_generation current (lookup label_generation current.meta.labels) s
    compare_deployment (err e) s =
        if is_not_found e
        then create_deployment (new_cluster_gateway_deployment addon config) s
        else (err e, s)
    compare_deployment panic s = (panic, s)

    pub ensure_cluster_gateway_deployment : Action S (Unit {0})
    unfolding compare_deployment
    ensure_cluster_gateway_deployment s =
        compare_deployment (api.get_deployment config.spec.install_namespace deployment_name s) s

  -- one secret of the proxy's client
  copy_credential : ConfigurationSpec → ProxyEgress → String → Action S (Unit {0})
  unfolding naming
  copy_credential spec proxy name s =
      naming "failed copy secret"
        (copy_secret api.secrets proxy.credentials.namespace name spec.install_namespace name s)

  copy_credentials : ConfigurationSpec → Option ProxyEgress → Action S (Unit {0})
  unfolding copy_credential next
  copy_credentials spec none s = (panic, s)
  copy_credentials spec (some proxy) s =
      next (copy_credential spec proxy proxy.credentials.proxy_client_ca_secret_name s)
        (copy_credential spec proxy proxy.credentials.proxy_client_secret_name)

  pub ensure_cluster_proxy_secrets : ConfigurationSpec → Action S (Unit {0})
  unfolding copy_credentials
  ensure_cluster_proxy_secrets spec s =
      if str_eq spec.egress.type egress_cluster_proxy
      then copy_credentials spec spec.egress.cluster_proxy s
      else (ok tt, s)

  -- the addons of the gateway, in the order of the list
  gateway_addons : List ClusterAddon → List ClusterAddon
  gateway_addons [] = []
  gateway_addons (a ∷ addons) =
      let rest = gateway_addons addons in if str_eq a.name addon_name then a ∷ rest else rest

  module _ (addon : ManagementAddon) (spec : ConfigurationSpec) where
    -- the account of one cluster, and its token
    manage_cluster : ClusterAddon → Action S (Unit {0})
    unfolding naming tolerating next
    manage_cluster a s =
        next
          (naming "failed to create managed serviceaccount" (
            tolerating
              (api.create (managed_service_account_object (build_managed_service_account a)) s)))
          λ s'. naming "failed to copy secret from managed serviceaccount" (
            copy_secret_for_managed_service_account api.secrets api.secret_lister addon spec
              a.namespace s')

    pub manage_clusters : List ClusterAddon → Action S (Unit {0})
    unfolding manage_cluster next
    manage_clusters [] s = (ok tt, s)
    manage_clusters (a ∷ addons) s = next (manage_cluster a s) (manage_clusters addons)

    manage_listed : Result (List ClusterAddon) → Action S (Unit {0})
    unfolding gateway_addons manage_clusters
    manage_listed (ok addons) s = manage_clusters (gateway_addons addons) s
    manage_listed (err e) s = (err (wrapped "failed to list managed cluster addons" e), s)
    manage_listed panic s = (panic, s)

    manage_found : Result (Unit {0}) → Action S (Unit {0})
    unfolding manage_listed
    manage_found (ok u) s = manage_listed (api.list_addons s) s
    manage_found (err e) s =
        (err (other "failed to discover ManagedServiceAccount resource in the cluster"), s)
    manage_found panic s = (panic, s)

    pub ensure_secret_management : Action S (Unit {0})
    unfolding manage_found
    ensure_secret_management s =
        if str_eq spec.secret_management.type management_managed_service_account
        then manage_found (api.find_managed_service_accounts s) s
        else (ok tt, s)
