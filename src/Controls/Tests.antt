-- ===== src/Controls/Tests.antt =====
-- The controls over two managed clusters, and over a hub without their CRD.
use cluster_gateway.Base.{◌≡◌, refl, true, false, none, some, List, [], ◌∷◌, Error, ok, err}
use cluster_gateway.Api.{ManagedCluster}
use cluster_gateway.Controls.{
  SecretReader, ManagedClusterReader, Loopback, Singleton, ApiResources, init_loopback_client,
  new_direct_api_secret_control, new_cache_ocm_cluster_control, nil_lister,
  is_ocm_managed_cluster_installed, has_managed_cluster, has_kind, init_secret_control,
  init_cluster_control, cluster_lister,
}

abbrev east : ManagedCluster
east = record {
  name = "east";
  creation_timestamp = 1;
  labels = [];
  annotations = [];
  client_configs = [];
  hub_accepts_client = true;
}

abbrev no_secrets : SecretReader
no_secrets = record {
  get = λ namespace name. err (Error.not_found name);
  list = λ namespace label. ok [];
}

abbrev no_clusters : ManagedClusterReader
no_clusters = record { get = λ name. err (Error.not_found name); list = ok [] }

abbrev resources : List ApiResources
resources = record { group = "apps"; kinds = "Deployment" ∷ [] } ∷ []

abbrev plain_hub : Loopback
plain_hub = record {
  secret_cache = false;
  ocm_cluster_cache = true;
  secret_namespace = "vela-system";
  secret_api = no_secrets;
  secret_informer = ok no_secrets;
  discovery = ok resources;
  cluster_api = no_clusters;
  cluster_informer = ok no_clusters;
}

abbrev fresh : Singleton
fresh = record { secret_control = none; cluster_control = none }

abbrev started : Singleton
started = record {
  secret_control = some (new_direct_api_secret_control "vela-system" no_secrets);
  cluster_control = some (new_cache_ocm_cluster_control nil_lister);
}

not_installed : is_ocm_managed_cluster_installed (ok resources) ≡ ok false
unfolding is_ocm_managed_cluster_installed has_managed_cluster has_kind
not_installed = refl

initialised : init_loopback_client plain_hub fresh ≡ ok started
unfolding init_loopback_client init_secret_control init_cluster_control cluster_lister
    is_ocm_managed_cluster_installed has_managed_cluster has_kind
initialised = refl
