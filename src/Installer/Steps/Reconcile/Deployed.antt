-- ===== src/Installer/Steps/Reconcile/Deployed.antt =====
-- What a round of the installer leaves behind.
use cluster_gateway.Base.{◌*◌, String, ◌≡◌, refl, eq_iff, Result, ok, err, panic}
use cluster_gateway.Base.Decimal.RoundTrip.{IsInt}
use cluster_gateway.Api.{addon_name}
use cluster_gateway.Configuration.{
  ClusterGatewayConfiguration, ManagementAddon, configuration_crd_name,
}
use cluster_gateway.Installer.{failing}
use cluster_gateway.Installer.Deployment.{secret_name_tls_cert}
use cluster_gateway.Installer.Steps.{
  InstallerApi, next, naming, ensure_api_service, ensure_cluster_gateway_deployment,
}
use cluster_gateway.Installer.Steps.Laws.{
  next-ok, naming-ok, next-naming-ok, InstallerLaws, Carries, Certified,
}
use cluster_gateway.Installer.Steps.Carried.{
  ensure_cluster_gateway_deployment-Carries, Carries-ensure_cluster_gateway_deployment,
}
use cluster_gateway.Installer.Steps.Certified.{
  ensure_api_service-Certified, ensure_api_service-Carries, Certified-ensure_api_service,
}
use cluster_gateway.Installer.Steps.Reconcile.{
  sans, targets, create_all, finish, deploy, rotate_and_deploy, install, configured, found,
  reconcile,
}

module _ {S : Type 0} (api : InstallerApi S) where
  -- The deployment has the configuration's generation, and the APIService the installer's CA.
  abbrev pub Deployed : ClusterGatewayConfiguration → S → Type 0
  Deployed config s = Carries api config s × Certified api s

  module _ (laws : InstallerLaws api) (addon : ManagementAddon)
      (config : ClusterGatewayConfiguration) (bound : IsInt config.generation) where
    finish-Deployed :
        (s : S)
        → (finish api addon config s).0 ≡ ok tt
        → Deployed config (finish api addon config s).1
    unfolding finish naming
    finish-Deployed s h =
        let (first, second, same) =
          next-naming-ok "failed ensuring cluster-gateway deployment"
            (ensure_cluster_gateway_deployment api addon config s) _ h in
        let carried =
          ensure_cluster_gateway_deployment-Carries api laws addon config s bound first in
        let s1 = (ensure_cluster_gateway_deployment api addon config s).1 in
        let last =
          naming-ok "failed ensuring cluster-gateway apiservice"
            (ensure_api_service api addon config.spec.install_namespace s1) second in
        rw same (
          ensure_api_service-Carries api laws addon config s1 carried,
          ensure_api_service-Certified api laws addon config s1 last,
        )

    finish-settled : (s : S) → Deployed config s → finish api addon config s ≡ (ok tt, s)
    unfolding finish next naming failing
    finish-settled s (carried, certified) =
        rw (Carries-ensure_cluster_gateway_deployment api laws addon config s carried)
          (rw (Certified-ensure_api_service api laws addon config s certified) refl)

    deploy-Deployed :
        (ca : Result String) (s : S)
        → (deploy api addon config ca s).0 ≡ ok tt
        → Deployed config (deploy api addon config ca s).1
    unfolding deploy
    deploy-Deployed (ok ca) s h =
        let (first, second, same) = next-ok (create_all api (targets addon config.spec ca) s) _ h in
        rw same (finish-Deployed _ second)
    deploy-Deployed (err e) s h = cc h
    deploy-Deployed panic s h = cc h

    rotate_and_deploy-Deployed :
        (s : S)
        → (rotate_and_deploy api addon config s).0 ≡ ok tt
        → Deployed config (rotate_and_deploy api addon config s).1
    unfolding rotate_and_deploy
    rotate_and_deploy-Deployed s h =
        let namespace = config.spec.install_namespace in
        let step = api.rotate namespace secret_name_tls_cert (sans namespace) (24 * 180) s in
        let (first, second, same) =
          next-naming-ok "failed rotating server tls cert" step (deploy api addon config api.ca_pem)
            h in
        rw same (deploy-Deployed api.ca_pem step.1 second)

    install-Deployed :
        (s : S)
        → (install api addon config s).0 ≡ ok tt
        → Deployed config (install api addon config s).1
    unfolding install
    install-Deployed s h =
        let (first, second, same) = next-ok _ (rotate_and_deploy api addon config) h in
        rw same (rotate_and_deploy-Deployed _ second)

  configured-Deployed :
      (laws : InstallerLaws api) (addon : ManagementAddon) (config : ClusterGatewayConfiguration)
      (r : Result ClusterGatewayConfiguration) (s : S)
      → IsInt config.generation
      → r ≡ ok config
      → (configured api addon r s).0 ≡ ok tt
      → Deployed config (configured api addon r s).1
  unfolding configured
  configured-Deployed laws addon config r s bound e h =
      rw e (install-Deployed laws addon config bound s (rw e at h))

  -- A round that reports success, for the addon of the gateway whose configuration is found and
  -- has a generation of 64 bits, leaves the deployment labelled with that generation and the
  -- APIService with the installer's CA; and its last two steps, taken again, report success and
  -- change nothing. The clients read back what they store.
  pub reconcile-Deployed :
      (laws : InstallerLaws api) (name : String) (addon : ManagementAddon)
      (config : ClusterGatewayConfiguration) (s : S)
      → api.get_addon name s ≡ ok addon
      → addon.name ≡ addon_name
      → addon.crd_name ≡ configuration_crd_name
      → api.get_configuration addon.cr_name s ≡ ok config
      → IsInt config.generation
      → (reconcile api name s).0 ≡ ok tt
      → Deployed config (reconcile api name s).1
        × (finish api addon config (reconcile api name s).1 ≡ (ok tt, (reconcile api name s).1))
  unfolding reconcile found
  reconcile-Deployed laws name addon config s there named kind given bound h =
      let is_addon = (eq_iff addon.name addon_name).1 named in
      let is_kind = (eq_iff addon.crd_name configuration_crd_name).1 kind in
      let result =
        configured-Deployed laws addon config (api.get_configuration addon.cr_name s) s bound given
          (rw (there, is_addon, is_kind) at h) in
      rw (there, is_addon, is_kind) (result, finish-settled laws addon config bound _ result)
