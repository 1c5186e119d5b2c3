-- ===== src/Convert/Static.antt =====
-- Which conversions fail at the endpoint.
use cluster_gateway.Base.{ap, ◌≡◌, ◌≢◌, Bool, none, some, arith, eq_iff, err, other}
use cluster_gateway.Base.Maps.{lookup}
use cluster_gateway.Base.Text.{trim_newline}
use cluster_gateway.Api.{Bytes, Secret, type_const, type_cluster_proxy, label_endpoint_type}
use cluster_gateway.Exec.{Cache}
use cluster_gateway.Convert.{
  Env, endpoint_type, convert_endpoint, convert, convert_from_secret, get_endpoint_from_secret,
}

module _ (env : Env) where
  convert_endpoint-blank :
      (ca : Bytes) (insecure : Bool) (secret : Secret)
      → endpoint_type secret ≢ type_cluster_proxy
      → convert_endpoint ca "" insecure secret ≡ err (other "missing label key: api-endpoint")
  unfolding convert_endpoint
  convert_endpoint-blank ca insecure secret type =
      ground (arith, eq_iff (endpoint_type secret) type_cluster_proxy)

  -- Without an endpoint in the secret a conversion from the secret alone fails, unless the cluster
  -- is reached through the cluster proxy.
  pub convert_from_secret-no_endpoint :
      (secret : Secret) (cache : Cache)
      → endpoint_type secret ≢ type_cluster_proxy
      → lookup "endpoint" secret.contents ≡ none
      → convert_from_secret env secret cache
        ≡ (err (other "missing label key: api-endpoint"), cache)
  unfolding convert_from_secret convert get_endpoint_from_secret trim_newline
  convert_from_secret-no_endpoint secret cache type missing =
      rw missing (rw (convert_endpoint-blank _ _ secret type))

-- The endpoint's type is read off the labels.
pub endpoint_type-eq_of_labels :
    (a b : Secret) → a.labels ≡ b.labels → endpoint_type a ≡ endpoint_type b
unfolding endpoint_type
endpoint_type-eq_of_labels a b h =
    ap (λ ls. elim (lookup label_endpoint_type ls) [ none ↦ type_const | some type ↦ type ]) h
