-- ===== src/Installer/Steps/Reconcile/Tests.antt =====
-- A first round of the installer.
use cluster_gateway.Base.{◌≡◌, refl, ok, arith}
use cluster_gateway.Base.Maps.{lookup}
use cluster_gateway.Api.{addon_name}
use cluster_gateway.Cert.{is_not_found, is_already_exists}
use cluster_gateway.Installer.{
  failing, write_token, copy_token, copy_named, copy_secret_for_managed_service_account,
}
use cluster_gateway.Installer.Deployment.{new_cluster_gateway_deployment, parts_of}
use cluster_gateway.Installer.Steps.{
  tolerated, next, naming, tolerating, ensure_namespace, compare_api_service, read_api_service,
  ensure_api_service, create_deployment, compare_deployment, ensure_cluster_gateway_deployment,
  ensure_cluster_proxy_secrets, gateway_addons, manage_cluster, manage_clusters, manage_listed,
  manage_found, ensure_secret_management,
}
use cluster_gateway.Installer.Steps.Reconcile.{
  create_all, finish, deploy, rotate_and_deploy, namespaces, install, configured, found, reconcile,
}
use cluster_gateway.Installer.Steps.Reconcile.Deployed.{Deployed, reconcile-Deployed}
use cluster_gateway.Installer.Steps.Sample.{
  sample_api, sample_laws, sample_addon, sample_config, sample_hub,
}

first_round : (reconcile sample_api addon_name sample_hub).0 ≡ ok tt
unfolding reconcile found configured install namespaces rotate_and_deploy deploy finish create_all
    next naming tolerating tolerated failing ensure_namespace ensure_cluster_proxy_secrets
    ensure_secret_management manage_found manage_listed manage_clusters manage_cluster
    gateway_addons copy_secret_for_managed_service_account copy_named copy_token write_token
    ensure_cluster_gateway_deployment compare_deployment create_deployment
    new_cluster_gateway_deployment parts_of ensure_api_service read_api_service compare_api_service
    is_not_found is_already_exists lookup
first_round = refl

reconcile-Deployed_example :
    Deployed sample_api sample_config (reconcile sample_api addon_name sample_hub).1
    × (finish sample_api sample_addon sample_config (reconcile sample_api addon_name sample_hub).1
        ≡ (ok tt, (reconcile sample_api addon_name sample_hub).1))
reconcile-Deployed_example =
    reconcile-Deployed sample_api sample_laws addon_name sample_addon sample_config sample_hub refl
      refl refl refl (omega arith) first_round
