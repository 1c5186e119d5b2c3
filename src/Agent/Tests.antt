-- ===== src/Agent/Tests.antt =====
-- The agent of a cluster with the addon of service accounts.
use cluster_gateway.Base.{◌≡◌, refl, ok}
use cluster_gateway.Installer.Steps.Sample.{sample_config, sample_cluster_addon}
use cluster_gateway.Agent.{
  AgentClient, build_cluster_gateway_outbound_permission, permission_for, manifests_for, manifests,
}

abbrev api : AgentClient
api = record {
  get_configuration = λ name. ok sample_config;
  get_addon = λ namespace name. ok sample_cluster_addon;
}

deployed :
    manifests api "east" sample_cluster_addon
    ≡ ok (build_cluster_gateway_outbound_permission "agents" "prod")
unfolding manifests manifests_for permission_for
deployed = refl
