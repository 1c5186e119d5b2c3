-- ===== src/Events/Tests.antt =====
-- Two ticks, of which one fails; a secret of an account; and a configuration.
use cluster_gateway.Base.{◌≡◌, none, some, List, [], ◌∷◌, Option, ok, All, count}
use cluster_gateway.Api.{Secret, addon_name}
use cluster_gateway.Configuration.{ClusterAddon}
use cluster_gateway.Convert.Sample.{sample_secret}
use cluster_gateway.Installer.Steps.Sample.{sample_cluster_addon}
use cluster_gateway.Events.{Request, resync}
use cluster_gateway.Events.Wakes.{asks_for, listed, resync-count}

abbrev ticks : List (Option (List ClusterAddon))
ticks =
    some (sample_cluster_addon ∷ record sample_cluster_addon { name = "other" } ∷ [])
    ∷ none
    ∷ some (sample_cluster_addon ∷ [])
    ∷ []

resync-count_example :
    (requests : List Request) × (resync ticks ≡ ok requests)
    × All (λ q. q.name ≡ addon_name) requests
    × (count (asks_for "east") requests ≡ listed "east" ticks)
resync-count_example = resync-count ticks "east"

abbrev owned_secret : Secret
owned_secret = record sample_secret {
  owner_references =
      record {
        api_version = "authentication.open-cluster-management.io/v1beta1";
        kind = "ManagedServiceAccount";
        uid = "3";
        name = "cluster-gateway";
      }
      ∷ [];
}
