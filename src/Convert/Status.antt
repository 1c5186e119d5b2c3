-- ===== src/Convert/Status.antt =====
-- The status of a converted gateway comes from the annotations of its secret.
use mathlib.Core.Path.{subst}
use cluster_gateway.Base.{String, ◌≡◌, refl, Bool, true, false, some, ok}
use cluster_gateway.Base.Maps.{lookup}
use cluster_gateway.Base.Effects.{>>=-eq-ok, lift}
use cluster_gateway.Api.{Bytes, ClusterGateway, ClusterGatewayStatus, Secret, ManagedCluster}
use cluster_gateway.Exec.{Cache}
use cluster_gateway.Convert.{
  Env, parse_bool, format_bool, convert_endpoint, convert_credential, convert_status,
  convert_proxy_config, gateway, convert, convert_from_secret,
  convert_from_managed_cluster_and_secret, annotation_healthy, annotation_healthy_reason,
}

-- What `FormatBool` prints, `ParseBool` reads.
parse_bool-format_bool : (b : Bool) → parse_bool (format_bool b) ≡ some b
unfolding parse_bool format_bool
parse_bool-format_bool true = refl
parse_bool-format_bool false = refl

module _ (env : Env) where
  convert-status :
      (ca : Bytes) (address : String) (insecure : Bool) (secret : Secret) (cache : Cache)
      (gw : ClusterGateway)
      → (convert env ca address insecure secret cache).0 ≡ ok gw
      → convert_status env secret ≡ ok gw.status
  unfolding convert
  convert-status ca address insecure secret cache gw h =
      let (e, he, h1) =
        >>=-eq-ok (lift {S = Cache} (convert_endpoint ca address insecure secret)) _ cache h in
      let (c, hc, h2) = >>=-eq-ok (convert_credential env secret) _ cache h1 in
      let (st, hs, h3) = >>=-eq-ok (lift {S = Cache} (convert_status env secret)) _ _ h2 in
      let (pc, hp, h4) = >>=-eq-ok (lift {S = Cache} (convert_proxy_config env secret)) _ _ h3 in
      let same : gateway secret e c st pc ≡ gw = cc h4 in
      subst (λ g. convert_status env secret ≡ ok g.status) same hs

  convert_status-annotated :
      (secret : Secret) (status : ClusterGatewayStatus)
      → env.healthiness_check ≡ true
      → lookup annotation_healthy secret.annotations ≡ some (format_bool status.healthy)
      → lookup annotation_healthy_reason secret.annotations ≡ some status.healthy_reason
      → convert_status env secret ≡ ok status
  unfolding convert_status
  convert_status-annotated secret status on healthy reason =
      simp (on, healthy, reason, parse_bool-format_bool)

  -- The status of a gateway that is converted from an annotated secret, by itself or with the managed
  -- cluster of its name.
  pub convert_from_managed_cluster_and_secret-status :
      (cluster : ManagedCluster) (secret : Secret) (status : ClusterGatewayStatus) (cache : Cache)
      (gw : ClusterGateway)
      → env.healthiness_check ≡ true
      → lookup annotation_healthy secret.annotations ≡ some (format_bool status.healthy)
      → lookup annotation_healthy_reason secret.annotations ≡ some status.healthy_reason
      → (convert_from_managed_cluster_and_secret env cluster secret cache).0 ≡ ok gw
      → gw.status ≡ status
  unfolding convert_from_managed_cluster_and_secret
  convert_from_managed_cluster_and_secret-status cluster secret status cache gw on healthy reason
        h =
      let a = convert-status _ _ _ secret cache gw h in
      let b = convert_status-annotated secret status on healthy reason in cc (a, b)

  pub convert_from_secret-status :
      (secret : Secret) (status : ClusterGatewayStatus) (cache : Cache) (gw : ClusterGateway)
      → env.healthiness_check ≡ true
      → lookup annotation_healthy secret.annotations ≡ some (format_bool status.healthy)
      → lookup annotation_healthy_reason secret.annotations ≡ some status.healthy_reason
      → (convert_from_secret env secret cache).0 ≡ ok gw
      → gw.status ≡ status
  unfolding convert_from_secret
  convert_from_secret-status secret status cache gw on healthy reason h =
      let a = convert-status _ _ _ secret cache gw h in
      let b = convert_status-annotated secret status on healthy reason in cc (a, b)
