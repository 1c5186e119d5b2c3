-- ===== src/Installer/Steps/Reconcile.antt =====
-- A round of the installer: `Reconcile` of pkg/addon/controllers/installer.go.
pub mod Deployed
mod Tests
use cluster_gateway.Base.{
  ℕ, ◌*◌, String, ◌⧺◌, Option, none, some, List, [], ◌∷◌, not, str_eq, if◌then◌else◌, Error, other,
  wrapped, Result, ok, err, panic,
}
use cluster_gateway.Base.Effects.{Action}
use cluster_gateway.Api.{addon_name}
use cluster_gateway.Configuration.{
  ConfigurationSpec, ClusterGatewayConfiguration, ManagementAddon, configuration_crd_name,
}
use cluster_gateway.Cert.{is_not_found}
use cluster_gateway.Installer.Objects.{
  new_service_account, new_cluster_gateway_service, new_api_service, new_authentication_role,
  new_secret_role, new_secret_role_binding, new_apf_cluster_role, new_apf_cluster_role_binding,
}
use cluster_gateway.Installer.Deployment.{secret_name_tls_cert}
use cluster_gateway.Installer.Steps.{
  Object, service_account_object, service_object, role_object, cluster_role_object,
  role_binding_object, cluster_role_binding_object, api_service_object, InstallerApi, next, naming,
  tolerating, ensure_namespace, ensure_api_service, ensure_cluster_gateway_deployment,
  ensure_cluster_proxy_secrets, ensure_secret_management,
}

-- `ServiceNameClusterGateway`
abbrev service_name : String
service_name = "cluster-gateway"

-- The names that the server's certificate is for.
abbrev sans : String → List String
sans namespace =
    service_name ∷ (service_name ⧺ "." ⧺ namespace) ∷ (service_name ⧺ "." ⧺ namespace ⧺ ".svc") ∷ []

-- The objects that are created where they are missing, in this order.
abbrev targets : ManagementAddon → ConfigurationSpec → String → List Object
targets addon spec ca =
    let namespace = spec.install_namespace in
    service_account_object (new_service_account addon namespace)
    ∷ service_object (new_cluster_gateway_service addon namespace)
    ∷ role_binding_object (new_authentication_role addon namespace)
    ∷ role_object (new_secret_role addon spec.secret_namespace)
    ∷ role_binding_object (new_secret_role_binding addon namespace spec.secret_namespace)
    ∷ cluster_role_object (new_apf_cluster_role addon)
    ∷ cluster_role_binding_object (new_apf_cluster_role_binding addon namespace)
    ∷ api_service_object (new_api_service addon namespace (some ca))
    ∷ []

module _ {S : Type 0} (api : InstallerApi S) where
  create_all : List Object → Action S (Unit {0})
  unfolding next naming tolerating
  create_all [] s = (ok tt, s)
  create_all (o ∷ objects) s =
      next (naming "failed deploying cluster-gateway" (tolerating (api.create o s)))
        (create_all objects)

  module _ (addon : ManagementAddon) (config : ClusterGatewayConfiguration) where
    -- the last two steps
    pub finish : Action S (Unit {0})
    unfolding next naming
    finish s =
        next
          (naming "failed ensuring cluster-gateway deployment"
            (ensure_cluster_gateway_deployment api addon config s))
          λ s'.
            naming "failed ensuring cluster-gateway apiservice"
              (ensure_api_service api addon config.spec.install_namespace s')

    deploy : Result String → Action S (Unit {0})
    unfolding create_all next finish
    deploy (ok ca) s = next (create_all (targets addon config.spec ca) s) finish
    deploy (err e) s = (err (wrapped "failed encoding CA cert" e), s)
    deploy panic s = (panic, s)

    rotate_and_deploy : Action S (Unit {0})
    unfolding next naming deploy
    rotate_and_deploy s =
        next
          (naming "failed rotating server tls cert" (
            api.rotate config.spec.install_namespace secret_name_tls_cert
              (sans config.spec.install_namespace) (24 * 180) s))
          (deploy api.ca_pem)

    namespaces : Action S (Unit {0})
    unfolding next naming
    namespaces s =
        next
          (naming "failed to ensure required namespace"
            (ensure_namespace api config.spec.install_namespace s))
          λ s'.
            naming "failed to ensure required namespace"
              (ensure_namespace api config.spec.secret_namespace s')

    install : Action S (Unit {0})
    unfolding next naming namespaces rotate_and_deploy
    install s =
        next
          (next
            (next (namespaces s) λ s'.
              naming "failed to ensure required proxy client related credentials"
                (ensure_cluster_proxy_secrets api config.spec s'))
            λ s'.
              naming "failed to configure secret management"
                (ensure_secret_management api addon config.spec s'))
          rotate_and_deploy

  -- what follows the read of the configuration
  configured : ManagementAddon → Result ClusterGatewayConfiguration → Action S (Unit {0})
  unfolding install
  configured addon (ok config) s = install addon config s
  configured addon (err e) s = (
    err (
        other (
          (if is_not_found e then "no such configuration: " else "failed getting configuration: ")
          ⧺ addon.cr_name)),
    s,
  )
  configured addon panic s = (panic, s)

  -- what follows the read of the addon
  found : Result ManagementAddon → Action S (Unit {0})
  unfolding configured
  found (ok addon) s =
      if not (str_eq addon.name addon_name)
      then (ok tt, s)
      else if not (str_eq addon.crd_name configuration_crd_name)
      then (ok tt, s)
      else configured addon (api.get_configuration addon.cr_name s) s
  found (err e) s =
      if is_not_found e
      then (ok tt, s)
      else (err (wrapped "failed to get cluster-management-addon" e), s)
  found panic s = (panic, s)

  -- `Reconcile` of a request, whose result never asks to come again
  pub reconcile : String → Action S (Unit {0})
  unfolding found
  reconcile name s = found (api.get_addon name s) s
