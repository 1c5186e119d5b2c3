-- ===== src/Agent/Bound.antt =====
-- Whom the agent gives its rights.
use cluster_gateway.Base.{
  String, ◌≡◌, refl, sym, inl, inr, Option, none, some, List, ◌∷◌, str_eq, eq_iff, Bool-cases,
  Result, ok, err, panic, ok-injective, ◌>>=◌, deref,
}
use cluster_gateway.Api.{is_blank}
use cluster_gateway.Configuration.{
  management_manual, management_managed_service_account, ClusterGatewayConfiguration, ClusterAddon,
}
use cluster_gateway.Cert.{is_not_found}
use cluster_gateway.Installer.Steps.{Object}
use cluster_gateway.Agent.{
  AgentClient, build_cluster_gateway_outbound_permission, permission_for, manifests_for, manifests,
}

-- The rights are those of the account whose token the installer copies, in the namespace where the
-- agent of the service accounts is installed.
pub record IsBound (api : AgentClient) (cluster cr_name : String) (objects : List Object)
    : Type 0 where
  pub config : ClusterGatewayConfiguration
  pub configured : api.get_configuration cr_name ≡ ok config
  pub managed : config.spec.secret_management.type ≡ management_managed_service_account
  pub account : String
  pub named : config.spec.secret_management.managed_service_account ≡ some account
  pub agent : ClusterAddon
  pub installed : api.get_addon cluster "managed-serviceaccount" ≡ ok agent
  pub bound : objects ≡ build_cluster_gateway_outbound_permission agent.install_namespace account

module _ (api : AgentClient) (cluster cr_name : String) (config : ClusterGatewayConfiguration)
    (configured : api.get_configuration cr_name ≡ ok config)
    (managed : config.spec.secret_management.type ≡ management_managed_service_account) where
  deref-IsBound :
      (agent : ClusterAddon) (account : Option String) (o : Object) (objects : List Object)
      → api.get_addon cluster "managed-serviceaccount" ≡ ok agent
      → config.spec.secret_management.managed_service_account ≡ account
      → (deref account
          >>= (λ name. ok (build_cluster_gateway_outbound_permission agent.install_namespace name)))
        ≡ ok (o ∷ objects)
      → IsBound api cluster cr_name (o ∷ objects)
  deref-IsBound agent none o objects installed named h = cc h
  deref-IsBound agent (some account) o objects installed named h = record {
    config = config;
    configured = configured;
    managed = managed;
    account = account;
    named = named;
    agent = agent;
    installed = installed;
    bound = sym (ok-injective h);
  }

  permission_for-IsBound :
      (r : Result ClusterAddon) (o : Object) (objects : List Object)
      → api.get_addon cluster "managed-serviceaccount" ≡ r
      → permission_for config.spec.secret_management r ≡ ok (o ∷ objects)
      → IsBound api cluster cr_name (o ∷ objects)
  unfolding permission_for
  permission_for-IsBound (ok agent) o objects installed h =
      deref-IsBound agent config.spec.secret_management.managed_service_account o objects installed
        refl h
  permission_for-IsBound (err e) o objects installed h = elim (Bool-cases (is_not_found e)) [
    | inl absent ↦ cc (rw absent at h)
    | inr other ↦ cc (rw other at h)
  ]
  permission_for-IsBound panic o objects installed h = cc h

module _ (api : AgentClient) (cluster cr_name : String) where
  manifests_for-IsBound :
      (r : Result ClusterGatewayConfiguration) (o : Object) (objects : List Object)
      → api.get_configuration cr_name ≡ r
      → manifests_for api cluster r ≡ ok (o ∷ objects)
      → IsBound api cluster cr_name (o ∷ objects)
  unfolding manifests_for
  manifests_for-IsBound (ok config) o objects configured h =
      let type = config.spec.secret_management.type in
      elim (Bool-cases (str_eq type management_manual)) [
        | inl manual ↦ cc (rw manual at h)
        | inr other ↦ elim (Bool-cases (str_eq type management_managed_service_account)) [
          | inl managed ↦
              permission_for-IsBound api cluster cr_name config configured
                ((eq_iff type management_managed_service_account).0 managed)
                (api.get_addon cluster "managed-serviceaccount") o objects refl
                (rw (other, managed) at h)
          | inr neither ↦ cc (rw (other, neither) at h)
        ]
      ]
  manifests_for-IsBound (err e) o objects configured h = elim (Bool-cases (is_not_found e)) [
    | inl absent ↦ cc (rw absent at h)
    | inr other ↦ cc (rw other at h)
  ]
  manifests_for-IsBound panic o objects configured h = cc h

-- Where the agent has any object in a cluster, the addon's configuration is there and is managed by
-- service accounts, and the objects give every right to the account that the configuration names,
-- in the namespace of the cluster's addon of service accounts.
pub manifests-IsBound :
    (api : AgentClient) (cluster : String) (addon : ClusterAddon) (o : Object)
    (objects : List Object)
    → manifests api cluster addon ≡ ok (o ∷ objects)
    → IsBound api cluster addon.cr_name (o ∷ objects)
unfolding manifests
manifests-IsBound api cluster addon o objects h = elim (Bool-cases (is_blank addon.cr_name)) [
  | inl blank ↦ cc (rw blank at h)
  | inr given ↦
      manifests_for-IsBound api cluster addon.cr_name (api.get_configuration addon.cr_name) o
        objects refl (rw given at h)
]
