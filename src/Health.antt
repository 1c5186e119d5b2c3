-- ===== src/Health.antt =====
-- The subresource clustergateways/health: pkg/apis/cluster/v1alpha1/clustergateway_health.go.
pub mod RoundTrip
pub mod Stored
mod Tests
use cluster_gateway.Base.{
  String, Bool, Option, none, some, Error, other, not_found, Result, ok, err, panic,
}
use cluster_gateway.Base.Maps.{Map, insert}
use cluster_gateway.Base.Effects.{Action, continue}
use cluster_gateway.Api.{ClusterGateway, ClusterGatewayStatus, Secret}
use cluster_gateway.Exec.{Cache}
use cluster_gateway.Convert.{
  Env, convert_from_secret, format_bool, annotation_healthy, annotation_healthy_reason,
}
use cluster_gateway.Controls.{SecretControl, Singleton}

-- What the handler works on: the hub, of which nothing is fixed here, and the credentials' cache.
pub record World (Hub : Type 0) : Type 0 where
  pub hub : Hub
  pub cache : Cache

-- `clusterGateway, err := parentStorage.Get`
pub get : Option (String → Result ClusterGateway) → String → Result ClusterGateway
get none name = err (other "no parent storage found")
get (some parent_storage) name = elim (parent_storage name) [
  | ok gw ↦ ok gw
  | err e ↦ err (other "no such cluster")
  | panic ↦ panic
]

-- The two annotations, set from the status that is sent.
pub annotate : ClusterGatewayStatus → Secret → Secret
annotate status secret = record secret {
  annotations =
      insert annotation_healthy_reason status.healthy_reason
        (insert annotation_healthy (format_bool status.healthy) secret.annotations);
}

-- `read` is the secret control at a state of the hub, `update_secret` the update of a secret
-- through the API.
module _ (env : Env) {Hub : Type 0} (read : Hub → Option SecretControl)
    (update_secret : Secret → Action Hub Secret) where
  -- After the update: the conversion of the secret that the API returned.
  pub converted : Result Secret × Hub → Cache → Result ClusterGateway × World Hub
  converted (ok updated, hub) cache =
      let (r, cache') = convert_from_secret env updated cache in
      (r, record { hub = hub; cache = cache' })
  converted (err e, hub) cache = (err e, record { hub = hub; cache = cache })
  converted (panic, hub) cache = (panic, record { hub = hub; cache = cache })

  pub store_status : ClusterGateway → Secret → Action (World Hub) ClusterGateway
  store_status updating secret w =
      converted (update_secret (annotate updating.status secret) w.hub) w.cache

  -- `updating` is the result of `objInfo.UpdatedObject(ctx, nil)`.
  pub update : String → Result ClusterGateway → Action (World Hub) ClusterGateway
  update name updating w = elim (read w.hub) [
    | none ↦ (err (other "loopback clients are not inited"), w)
    | some control ↦
        continue (control.get name)
          (λ secret. λ v. continue updating (λ gw. store_status gw secret) v) w
  ]
