-- ===== src/Health/RoundTrip.antt =====
-- The status that is sent to the subresource is the status that the gateway then has.
use cluster_gateway.Base.{
  String, ◌≡◌, refl, sym, ap, ◌∙◌, ◌≢◌, true, Option, none, some, Option-cases, Result-cases, inl,
  inr, Result, ok, err, panic, other, Error,
}
use cluster_gateway.Base.Maps.{lookup, lookup-insert}
use cluster_gateway.Base.Effects.{Action}
use cluster_gateway.Api.{ClusterGateway, ClusterGatewayStatus, Secret, type_cluster_proxy}
use cluster_gateway.Exec.{Cache}
use cluster_gateway.Convert.{
  Env, convert_from_secret, format_bool, annotation_healthy, annotation_healthy_reason,
}
use cluster_gateway.Convert.Status.{convert_from_secret-status}
use cluster_gateway.Convert.{endpoint_type}
use cluster_gateway.Convert.Static.{convert_from_secret-no_endpoint, endpoint_type-eq_of_labels}
use cluster_gateway.Controls.{SecretControl}
use cluster_gateway.Health.{World, annotate, converted, store_status, update}

pub lookup-annotate_healthy :
    (status : ClusterGatewayStatus) (secret : Secret)
    → lookup annotation_healthy (annotate status secret).annotations
      ≡ some (format_bool status.healthy)
unfolding annotate
lookup-annotate_healthy status secret = simp lookup-insert

pub lookup-annotate_reason :
    (status : ClusterGatewayStatus) (secret : Secret)
    → lookup annotation_healthy_reason (annotate status secret).annotations
      ≡ some status.healthy_reason
unfolding annotate
lookup-annotate_reason status secret = simp lookup-insert

module _ (env : Env) {Hub : Type 0} (read : Hub → Option SecretControl)
    (update_secret : Secret → Action Hub Secret) where
  pub converted-eq-ok :
      (r : Result Secret × Hub) (cache : Cache) (gw : ClusterGateway)
      → (converted env read update_secret r cache).0 ≡ ok gw
      → (u : Secret) × (r.0 ≡ ok u) × ((convert_from_secret env u cache).0 ≡ ok gw)
  unfolding converted
  converted-eq-ok (ok u, hub) cache gw h = (u, refl, h)
  converted-eq-ok (err e, hub) cache gw h = cc
  converted-eq-ok (panic, hub) cache gw h = cc

  converted-err :
      (u : Secret) (hub : Hub) (cache : Cache) {e : Error}
      → convert_from_secret env u cache ≡ (err e, cache)
      → converted env read update_secret (ok u, hub) cache
        ≡ (err e, record { hub = hub; cache = cache })
  unfolding converted
  converted-err u hub cache h = rw h

  -- What an update that succeeds has done: it read the secret and stored it annotated.
  update-eq-ok :
      (name : String) (sent : ClusterGateway) (w : World Hub) (gw : ClusterGateway)
      → (update env read update_secret name (ok sent) w).0 ≡ ok gw
      → (secret : Secret) × (u : Secret) × ((update_secret (annotate sent.status secret) w.hub).0
          ≡ ok u)
        × ((convert_from_secret env u w.cache).0 ≡ ok gw)
  unfolding update store_status
  update-eq-ok name sent w gw h = elim (Option-cases (read w.hub)) [
    | inl e ↦ cc (rw (e, update) at h)
    | inr (control, e) ↦ elim (Result-cases (control.get name)) [
      | inl (secret, g) ↦
          let (u, stored, back) =
            converted-eq-ok (update_secret (annotate sent.status secret) w.hub) w.cache gw
              (rw g at (rw (e, update) at h)) in
          (secret, u, stored, back)
      | inr (inl (x, g)) ↦ cc (rw g at (rw (e, update) at h))
      | inr (inr g) ↦ cc (rw g at (rw (e, update) at h))
    ]
  ]

  -- With the healthiness check enabled, an update that succeeds answers with a gateway whose
  -- status is the status that was sent, if the API returns a secret with the annotations that it
  -- was given.
  pub status-update :
      ((s : Secret) (hub : Hub) (u : Secret)
        → (update_secret s hub).0 ≡ ok u
        → u.annotations ≡ s.annotations)
      → (name : String) (sent : ClusterGateway) (w : World Hub) (gw : ClusterGateway)
      → env.healthiness_check ≡ true
      → (update env read update_secret name (ok sent) w).0 ≡ ok gw
      → gw.status ≡ sent.status
  status-update keeps name sent w gw on h =
      let (secret, u, stored, back) = update-eq-ok name sent w gw h in
      let same = keeps (annotate sent.status secret) w.hub u stored in
      convert_from_secret-status env u sent.status w.cache gw on
        (ap (lookup annotation_healthy) same ∙ lookup-annotate_healthy sent.status secret)
        (ap (lookup annotation_healthy_reason) same ∙ lookup-annotate_reason sent.status secret)
        back

  -- A secret with no endpoint of its own, whose type is not the cluster proxy: the handler stores
  -- the status and then answers with an error.
  pub update-no_endpoint :
      (control : SecretControl) (name : String) (sent : ClusterGateway) (secret : Secret)
      (w : World Hub) (hub' : Hub)
      → read w.hub ≡ some control
      → control.get name ≡ ok secret
      → endpoint_type secret ≢ type_cluster_proxy
      → lookup "endpoint" secret.contents ≡ none
      → update_secret (annotate sent.status secret) w.hub ≡ (ok (annotate sent.status secret), hub')
      → update env read update_secret name (ok sent) w
        ≡ (err (other "missing label key: api-endpoint"), record { hub = hub'; cache = w.cache })
  unfolding update store_status annotate
  update-no_endpoint control name sent secret w hub' given got type missing stored =
      let failed =
        convert_from_secret-no_endpoint env (annotate sent.status secret) w.cache
          (λ e.
            type (sym (endpoint_type-eq_of_labels (annotate sent.status secret) secret refl) ∙ e))
          missing in
      rw (given, update) (rw got (rw stored (converted-err _ hub' w.cache failed)))
