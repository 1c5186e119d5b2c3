-- ===== src/Gateway/Read.antt =====
-- What `Get` gives.
use cluster_gateway.Base.{String, ◌≡◌, true, Bool, Option, none, some, Option-cases, inl, inr, ok}
use cluster_gateway.Base.Maps.{lookup}
use cluster_gateway.Base.Effects.{>>=-eq-ok, lift}
use cluster_gateway.Api.{ClusterGateway, ClusterGatewayStatus, Secret, ManagedCluster}
use cluster_gateway.Exec.{Cache}
use cluster_gateway.Convert.{Env, format_bool, annotation_healthy, annotation_healthy_reason}
use cluster_gateway.Convert.Status.{
  convert_from_secret-status, convert_from_managed_cluster_and_secret-status,
}
use cluster_gateway.Controls.{SecretControl, Singleton}
use cluster_gateway.Gateway
use cluster_gateway.Gateway.{convert_with, get_managed, get}

module _ (env : Env) (ocm : Bool) where
  -- A gateway that is there is the conversion of a secret that it reads.
  pub get-eq-ok :
      (singleton : Singleton) (name : String) (cache : Cache) (gw : ClusterGateway)
      → (get env ocm singleton name cache).0 ≡ ok gw
      → (control : SecretControl) × (secret : Secret) × (cluster : Option ManagedCluster)
        × (singleton.secret_control ≡ some control)
        × (control.get name ≡ ok secret)
        × ((convert_with env ocm singleton cluster secret cache).0 ≡ ok gw)
  unfolding get get_managed Gateway.managed convert_with
  get-eq-ok singleton name cache gw h = elim (Option-cases (singleton.secret_control)) [
    | inl e ↦ cc (rw e at h)
    | inr (control, e) ↦
        let (secret, got, h1) =
          >>=-eq-ok (lift {S = Cache} (control.get name)) _ cache (rw e at h) in
        let (cluster, _, h2) =
          >>=-eq-ok (lift {S = Cache} (get_managed env ocm singleton name)) _ _ h1 in
        (control, secret, cluster, e, got, h2)
  ]

  pub convert_with-status :
      (cluster : Option ManagedCluster) (secret : Secret) (status : ClusterGatewayStatus)
      (singleton : Singleton) (cache : Cache) (gw : ClusterGateway)
      → env.healthiness_check ≡ true
      → lookup annotation_healthy secret.annotations ≡ some (format_bool status.healthy)
      → lookup annotation_healthy_reason secret.annotations ≡ some status.healthy_reason
      → (convert_with env ocm singleton cluster secret cache).0 ≡ ok gw
      → gw.status ≡ status
  unfolding convert_with
  convert_with-status none secret status singleton cache gw on healthy reason h =
      convert_from_secret-status env secret status cache gw on healthy reason h
  convert_with-status (some cluster) secret status singleton cache gw on healthy reason h =
      convert_from_managed_cluster_and_secret-status env cluster secret status cache gw on healthy
        reason h
