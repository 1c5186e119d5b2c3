-- ===== src/Gateway.antt =====
-- The resource ClusterGateway: `Get`, `List` and the table of
-- pkg/apis/cluster/v1alpha1/clustergateway_types_secret.go and printer.go.
pub mod Listing
pub mod Read
pub mod Nil
mod Tests
use cluster_gateway.Base.{
  String, Bool, true, false, Option, none, some, List, [], ◌∷◌, ◌++◌, str_eq, if◌then◌else◌, Error,
  other, Result, ok, err, panic,
}
use cluster_gateway.Base
use cluster_gateway.Base.Maps.{Map, lookup, insert}
use cluster_gateway.Base.Effects.{Action, pure, fail, lift, ◌>>=◌, continue}
use cluster_gateway.Api.{
  ClusterAccessCredential, ClusterEndpoint, ClusterGateway, Secret, ManagedCluster,
}
use cluster_gateway.Exec.{Cache}
use cluster_gateway.Convert.{
  Env, convert_from_secret, convert_from_managed_cluster_and_secret, format_bool,
}
use cluster_gateway.Controls.{SecretControl, OcmClusterControl, Singleton}

-- `clustersByName`: a later cluster of the same name replaces an earlier one.
index_clusters : List (Option ManagedCluster) → Map ManagedCluster → Result (Map ManagedCluster)
index_clusters [] by_name = ok by_name
index_clusters (none ∷ clusters) by_name = panic
index_clusters (some cluster ∷ clusters) by_name =
    index_clusters clusters (insert cluster.name cluster by_name)

-- `ocm` is the option `--ocm-integration`.
module _ (env : Env) (ocm : Bool) (singleton : Singleton) where
  -- The conversion of a secret, with its managed cluster if there is one.
  pub convert_with : Option ManagedCluster → Secret → Action Cache ClusterGateway
  convert_with (some cluster) secret = convert_from_managed_cluster_and_secret env cluster secret
  convert_with none secret = convert_from_secret env secret

  managed : Result ManagedCluster → Result (Option ManagedCluster)
  managed (ok cluster) = ok (some cluster)
  managed (err e) = ok none
  managed panic = panic

  pub get_managed : String → Result (Option ManagedCluster)
  get_managed name =
      if ocm
      then elim singleton.cluster_control [
        | none ↦ err (other "loopback cluster client are not inited")
        | some control ↦ managed (control.get name)
      ]
      else ok none

  pub get : String → Action Cache ClusterGateway
  get name cache = elim singleton.secret_control [
    | none ↦ (err (other "loopback secret client are not inited"), cache)
    | some control ↦
        (do
          secret ← lift (control.get name)
          cluster ← lift (get_managed name)
          convert_with cluster secret)
          cache
  ]

  -- The loops of `List` over the secrets; `items` is what they have appended so far.
  list_items :
      Map ManagedCluster → List ClusterGateway → List Secret → Action Cache (List ClusterGateway)
  list_items by_name items [] cache = (ok items, cache)
  list_items by_name items (secret ∷ secrets) cache =
      let (r, cache') = convert_with (lookup secret.name by_name) secret cache in
      elim r [
        | ok gw ↦ list_items by_name (items ++ gw ∷ []) secrets cache'
        | err e ↦ list_items by_name items secrets cache'
        | panic ↦ (panic, cache')
      ]

  -- `GetClusterControl().List(ctx)`, a nil control panics
  list_managed : Result (List (Option ManagedCluster))
  list_managed = elim singleton.cluster_control [ none ↦ panic | some control ↦ control.list ]

  pub by_names : Result (Map ManagedCluster)
  by_names = if ocm then Base.◌>>=◌ list_managed (λ clusters. index_clusters clusters []) else ok []

  pub list_secrets : Result (List Secret)
  list_secrets = elim singleton.secret_control [ none ↦ panic | some control ↦ control.list ]

  pub list : Bool → Action Cache (List ClusterGateway)
  list watch = if watch then fail (other "watch not supported") else (do
    secrets ← lift list_secrets
    clusters ← lift by_names
    list_items clusters [] secrets)

-- printer.go
credential_cell : Option ClusterAccessCredential → String
credential_cell none = "<none>"
credential_cell (some credential) = credential.type

endpoint_cell : Option ClusterEndpoint → Result String
endpoint_cell none = panic
endpoint_cell (some endpoint) = ok endpoint.type

row : ClusterGateway → String → List String
row c endpoint =
    c.name
    ∷ c.spec.provider
    ∷ credential_cell c.spec.access.credential
    ∷ endpoint
    ∷ format_bool c.status.healthy
    ∷ []

pub print_cluster_gateway_row : ClusterGateway → Result (List String)
print_cluster_gateway_row c =
    Base.◌>>=◌ (endpoint_cell c.spec.access.endpoint) (λ endpoint. ok (row c endpoint))

pub print_cluster_gateway_list : List ClusterGateway → Result (List (List String))
print_cluster_gateway_list [] = ok []
print_cluster_gateway_list (c ∷ items) =
    Base.◌>>=◌ (print_cluster_gateway_row c)
      (λ first. Base.◌>>=◌ (print_cluster_gateway_list items) (λ rest. ok (first ∷ rest)))
