-- ===== src/Gateway/Tests.antt =====
-- A listing of one secret, with and without managed clusters.
use cluster_gateway.Base.{◌≡◌, refl, true, false, some, [], ◌∷◌, arith, ok, panic}
use cluster_gateway.Api.{ManagedCluster}
use cluster_gateway.Convert.Sample.{sample_env, sample_secret}
use cluster_gateway.Controls.{
  SecretControl, ManagedClusterReader, Singleton, new_direct_ocm_cluster_control,
}
use cluster_gateway.Gateway.{list, list_secrets}
use cluster_gateway.Gateway.Nil.{list_direct-panic}

abbrev one_secret : SecretControl
one_secret = record { get = λ name. ok sample_secret; list = ok (sample_secret ∷ []) }

abbrev east : ManagedCluster
east = record {
  name = "east";
  creation_timestamp = 1;
  labels = [];
  annotations = [];
  client_configs = [];
  hub_accepts_client = true;
}

abbrev one_cluster : ManagedClusterReader
one_cluster = record { get = λ name. ok east; list = ok (east ∷ []) }

abbrev controls : Singleton
controls = record {
  secret_control = some one_secret;
  cluster_control = some (new_direct_ocm_cluster_control one_cluster);
}

listed_secrets_ocm : list_secrets sample_env true controls ≡ ok (sample_secret ∷ [])
unfolding list_secrets
listed_secrets_ocm = refl

list_direct-panic_example : list sample_env true controls false [] ≡ (panic, [])
list_direct-panic_example =
    list_direct-panic sample_env controls [] one_cluster (east ∷ []) (sample_secret ∷ [])
      listed_secrets_ocm refl refl (omega arith)
