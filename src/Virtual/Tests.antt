-- ===== src/Virtual/Tests.antt =====
-- The labels of the cluster that a secret stands for.
use cluster_gateway.Base.{◌≡◌, none, some, [], ◌∷◌, str_eq, if◌then◌else◌}
use cluster_gateway.Base.Text.{has_prefix}
use cluster_gateway.Base.Maps.{lookup}
use cluster_gateway.Api.{api_group}
use cluster_gateway.Virtual.{Object, new_virtual_cluster, label_control_plane}
use cluster_gateway.Virtual.Labels.{lookup-new_virtual_cluster}

abbrev prod : Object
prod = record {
  name = "prod";
  creation_timestamp = 7;
  labels =
      ("region", "east") ∷ ("cluster.core.oam.dev/cluster-credential-type", "X509Certificate") ∷ [];
  annotations = [];
}

lookup-new_virtual_cluster_example : lookup "region" (new_virtual_cluster (some prod)).labels ≡ (
    if str_eq label_control_plane "region"
    then some "false"
    else if has_prefix "region" api_group
    then none
    else lookup "region" prod.labels)
lookup-new_virtual_cluster_example = lookup-new_virtual_cluster "region" (some prod)
