-- ===== src/Health/Stored.antt =====
-- What an update of the health sends to the API.
use cluster_gateway.Base.{
  String, ◌≡◌, refl, Option, some, str_eq, Option-cases, Result-cases, inl, inr, if◌then◌else◌,
  Result, ok, err, panic, ◌∙◌,
}
use cluster_gateway.Base.Maps.{lookup}
use cluster_gateway.Base.Effects.{Action}
use cluster_gateway.Api.{ClusterGateway, ClusterGatewayStatus, Secret}
use cluster_gateway.Exec.{Cache}
use cluster_gateway.Convert.{Env, format_bool, annotation_healthy, annotation_healthy_reason}
use cluster_gateway.Controls.{SecretControl}
use cluster_gateway.Health.{World, get, annotate, converted, store_status, update}
use cluster_gateway.Health.RoundTrip.{converted-eq-ok}

-- The one secret is the other with the two health annotations as the status says, and with nothing
-- else changed.
pub record Annotated (status : ClusterGatewayStatus) (secret stored : Secret) : Type 0 where
  pub same_name : (stored.namespace ≡ secret.namespace) × (stored.name ≡ secret.name)
  pub same_creation_timestamp : stored.creation_timestamp ≡ secret.creation_timestamp
  pub same_labels : stored.labels ≡ secret.labels
  pub same_owner_references : stored.owner_references ≡ secret.owner_references
  pub same_contents : stored.contents ≡ secret.contents
  pub annotated :
      (key : String)
      → lookup key stored.annotations ≡ (
          if str_eq annotation_healthy_reason key
          then some status.healthy_reason
          else if str_eq annotation_healthy key
          then some (format_bool status.healthy)
          else lookup key secret.annotations)

pub name-annotate :
    (status : ClusterGatewayStatus) (secret : Secret) → (annotate status secret).name ≡ secret.name
unfolding annotate
name-annotate status secret = refl

pub get-eq-ok :
    (parent : String → Result ClusterGateway) (name : String) (gw : ClusterGateway)
    → get (some parent) name ≡ ok gw
    → parent name ≡ ok gw
unfolding get
get-eq-ok parent name gw h = elim (Result-cases (parent name)) [
  | inl (found, e) ↦ e ∙ rw e at h
  | inr (inl (x, e)) ↦ cc (rw e at h)
  | inr (inr e) ↦ cc (rw e at h)
]

module _ (env : Env) {Hub : Type 0} (read : Hub → Option SecretControl)
    (update_secret : Secret → Action Hub Secret) where
  pub hub-converted :
      (r : Result Secret × Hub) (cache : Cache)
      → (converted env read update_secret r cache).1.hub ≡ r.1
  unfolding converted
  hub-converted (ok u, hub) cache = refl
  hub-converted (err e, hub) cache = refl
  hub-converted (panic, hub) cache = refl

  -- What an update that succeeds leaves: a hub in which a secret of the name was stored annotated.
  pub updated-stored :
      (name : String) (sent gw : ClusterGateway) (w : World Hub)
      → (update env read update_secret name (ok sent) w).0 ≡ ok gw
      → (control : SecretControl) × (secret : Secret) × (u : Secret) × (read w.hub ≡ some control)
        × (control.get name ≡ ok secret)
        × ((update_secret (annotate sent.status secret) w.hub).0 ≡ ok u)
        × ((update env read update_secret name (ok sent) w).1.hub
            ≡ (update_secret (annotate sent.status secret) w.hub).1)
  unfolding update store_status
  updated-stored name sent gw w h = elim (Option-cases (read w.hub)) [
    | inl e ↦ cc (rw (e, update) at h)
    | inr (control, e) ↦ elim (Result-cases (control.get name)) [
      | inl (secret, g) ↦
          let sends = update_secret (annotate sent.status secret) w.hub in
          let (u, kept, _) =
            converted-eq-ok env read update_secret sends w.cache gw
              (rw g at (rw (e, update) at h)) in
          (control, secret, u, e, g, kept, rw (e, update) (rw g (hub-converted sends w.cache)))
      | inr (inl (x, g)) ↦ cc (rw g at (rw (e, update) at h))
      | inr (inr g) ↦ cc (rw g at (rw (e, update) at h))
    ]
  ]
