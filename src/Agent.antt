-- ===== src/Agent.antt =====
-- The addon's agent: which objects it has in a managed cluster. pkg/addon/agent.
pub mod Bound
mod Tests
use cluster_gateway.Base.{
  String, Option, none, some, List, [], ◌∷◌, str_eq, if◌then◌else◌, Error, wrapped, Result, ok, err,
  panic, ◌>>=◌, deref,
}
use cluster_gateway.Api.{is_blank}
use cluster_gateway.Configuration.{
  SecretManagement, management_manual, management_managed_service_account,
  ClusterGatewayConfiguration, ClusterAddon,
}
use cluster_gateway.Cert.{is_not_found}
use cluster_gateway.Installer.Objects.{ObjectMeta, owned, Role, RoleBinding}
use cluster_gateway.Installer.Steps.{Object, cluster_role_object, cluster_role_binding_object}

-- The manager's reads of the hub.
pub record AgentClient : Type 0 where
  pub get_configuration : String → Result ClusterGatewayConfiguration
  pub get_addon : String → String → Result ClusterAddon

abbrev pub cluster_role_name : String
cluster_role_name = "open-cluster-management:cluster-gateway:default"

-- Every right, for one service account.
abbrev pub build_cluster_gateway_outbound_permission : String → String → List Object
build_cluster_gateway_outbound_permission account_namespace account_name =
    cluster_role_object (record {
      meta = owned [] "" cluster_role_name;
      rules = record { api_groups = "*" ∷ []; resources = "*" ∷ []; verbs = "*" ∷ [] } ∷ [];
    })
    ∷ cluster_role_binding_object (record {
      meta = owned [] "" cluster_role_name;
      role_kind = "ClusterRole";
      role_name = cluster_role_name;
      subjects =
          record { kind = "ServiceAccount"; namespace = account_namespace; name = account_name }
          ∷ [];
    })
    ∷ []

-- what follows the read of the addon of service accounts
permission_for : SecretManagement → Result ClusterAddon → Result (List Object)
permission_for management (ok addon) = do
  name ← deref management.managed_service_account
  ok (build_cluster_gateway_outbound_permission addon.install_namespace name)
permission_for management (err e) = if is_not_found e then ok [] else err e
permission_for management panic = panic

module _ (api : AgentClient) where
  -- what follows the read of the configuration
  manifests_for : String → Result ClusterGatewayConfiguration → Result (List Object)
  unfolding permission_for
  manifests_for cluster (ok config) =
      let management = config.spec.secret_management in
      if str_eq management.type management_manual
      then ok []
      else if str_eq management.type management_managed_service_account
      then permission_for management (api.get_addon cluster "managed-serviceaccount")
      else ok []
  manifests_for cluster (err e) =
      if is_not_found e then ok [] else err (wrapped "failed getting gateway configuration" e)
  manifests_for cluster panic = panic

  pub manifests : String → ClusterAddon → Result (List Object)
  unfolding manifests_for
  manifests cluster addon =
      if is_blank addon.cr_name
      then ok []
      else manifests_for cluster (api.get_configuration addon.cr_name)
