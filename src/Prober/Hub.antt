-- ===== src/Prober/Hub.antt =====
-- The prober's clients over the hub: the healthiness of a gateway is served by the subresource of
-- pkg/apis/cluster/v1alpha1/clustergateway_health.go, on the gateways of
-- clustergateway_types_secret.go.
use cluster_gateway.Base.{
  String, ◌≡◌, refl, ap, ◌∙◌, true, Bool, Option, some, Result, ok, err, panic,
}
use cluster_gateway.Base.Maps.{lookup}
use cluster_gateway.Base.Effects.{Action}
use cluster_gateway.Api.{ClusterGateway, Secret}
use cluster_gateway.Convert.{Env, annotation_healthy, annotation_healthy_reason}
use cluster_gateway.Controls.{SecretControl, Singleton}
use cluster_gateway.Gateway
use cluster_gateway.Gateway.Read
use cluster_gateway.Gateway.Read.{convert_with-status}
use cluster_gateway.Gateway.Listing.{convert_with-IsComplete}
use cluster_gateway.Health
use cluster_gateway.Health.{World, annotate, update}
use cluster_gateway.Health.Stored.{name-annotate, get-eq-ok, updated-stored}
use cluster_gateway.Health.RoundTrip.{lookup-annotate_healthy, lookup-annotate_reason}
use cluster_gateway.Prober.{Addon, Probe, Clients}
use cluster_gateway.Prober.Synced.{HubLaws}

-- The API and the informer of a hub: its controls, the update of a secret, and the addons.
pub record HubApi (Hub : Type 0) : Type 0 where
  pub singleton : Hub → Singleton
  pub update_secret : Secret → Action Hub Secret
  pub probe : String → Hub → Probe
  pub get_addon : String → String → Hub → Result Addon
  pub update_addon_status : Addon → Action Hub (Unit {0})

module _ (env : Env) (ocm : Bool) {Hub : Type 0} (api : HubApi Hub) where
  abbrev pub read : Hub → Option SecretControl
  read hub = (api.singleton hub).secret_control

  -- The parent storage at a state
  abbrev pub stored : World Hub → String → Result ClusterGateway
  stored w name = (Gateway.get env ocm (api.singleton w.hub) name w.cache).0

  abbrev answered : Result ClusterGateway → Result (Unit {0})
  answered (ok gw) = ok tt
  answered (err e) = err e
  answered panic = panic

  pub hub_clients : Clients (World Hub)
  hub_clients = record {
    get_healthiness = λ name w. Health.get (some (stored w)) name;
    update_healthiness = λ gw w.
        let (r, w') = update env read api.update_secret gw.name (ok gw) w in (answered r, w');
    probe = λ cluster w. api.probe cluster w.hub;
    get_addon = λ namespace name w. api.get_addon namespace name w.hub;
    update_addon_status = λ addon w.
        let (r, hub) = api.update_addon_status addon w.hub in (r, record w { hub = hub });
  }

  -- What is relied on of the API and the informer: objects have the names that they were asked for,
  -- a secret that is read after an update has the annotations that were stored, an addon is read
  -- back, and an addon's status is no part of the secrets and managed clusters.
  pub record ApiLaws : Type 0 where
    pub get-name :
        (hub : Hub) (control : SecretControl) (name : String) (secret : Secret)
        → read hub ≡ some control
        → control.get name ≡ ok secret
        → secret.name ≡ name
    pub get-update_secret :
        (secret updated found : Secret) (hub : Hub) (control : SecretControl)
        → (api.update_secret secret hub).0 ≡ ok updated
        → read (api.update_secret secret hub).1 ≡ some control
        → control.get secret.name ≡ ok found
        → found.annotations ≡ secret.annotations
    pub get_addon-name :
        (namespace name : String) (hub : Hub) (addon : Addon)
        → api.get_addon namespace name hub ≡ ok addon
        → (addon.namespace ≡ namespace) × (addon.name ≡ name)
    pub get-update_addon_status :
        (addon : Addon) (hub : Hub)
        → (api.update_addon_status addon hub).0 ≡ ok tt
        → api.get_addon addon.namespace addon.name (api.update_addon_status addon hub).1 ≡ ok addon
    pub singleton-update_addon_status :
        (addon : Addon) (hub : Hub)
        → api.singleton (api.update_addon_status addon hub).1 ≡ api.singleton hub

  answered-ok :
      (r : Result ClusterGateway) → answered r ≡ ok tt → (gw : ClusterGateway) × (r ≡ ok gw)
  answered-ok (ok gw) h = (gw, refl)
  answered-ok (err e) h = cc h
  answered-ok panic h = cc h

  module _ (on : env.healthiness_check ≡ true) (laws : ApiLaws) where
    get_healthiness-name :
        (cluster : String) (w : World Hub) (gw : ClusterGateway)
        → hub_clients.get_healthiness cluster w ≡ ok gw
        → gw.name ≡ cluster
    unfolding hub_clients
    get_healthiness-name cluster w gw h =
        let (control, secret, managed, given, got, made) =
          Read.get-eq-ok env ocm (api.singleton w.hub) cluster w.cache gw
            (get-eq-ok (stored w) cluster gw h) in
        (convert_with-IsComplete env ocm (api.singleton w.hub) managed secret w.cache gw made).0
        ∙ laws.get-name w.hub control cluster secret given got

    get-update_healthiness :
        (gw found : ClusterGateway) (w : World Hub)
        → (hub_clients.update_healthiness gw w).0 ≡ ok tt
        → hub_clients.get_healthiness gw.name (hub_clients.update_healthiness gw w).1 ≡ ok found
        → found.status.healthy ≡ gw.status.healthy
    unfolding hub_clients
    get-update_healthiness gw found w h e =
        let (out, updated) =
          answered-ok (update env read api.update_secret gw.name (ok gw) w).0 h in
        let (c0, secret, u, given, got, kept, left) =
          updated-stored env read api.update_secret gw.name gw out w updated in
        let w' = (update env read api.update_secret gw.name (ok gw) w).1 in
        let (control, there, managed, given', got', made) =
          Read.get-eq-ok env ocm (api.singleton w'.hub) gw.name w'.cache found
            (get-eq-ok (stored w') gw.name found e) in
        let sends = annotate gw.status secret in
        let named : sends.name ≡ gw.name =
          name-annotate gw.status secret ∙ laws.get-name w.hub c0 gw.name secret given got in
        let same : there.annotations ≡ sends.annotations =
          laws.get-update_secret sends u there w.hub control kept (rw (← left) given')
            (rw named got') in
        ap (λ s. s.healthy)
          (convert_with-status env ocm managed there gw.status (api.singleton w'.hub) w'.cache found
            on (ap (lookup annotation_healthy) same ∙ lookup-annotate_healthy gw.status secret)
            (ap (lookup annotation_healthy_reason) same ∙ lookup-annotate_reason gw.status secret)
            made)

    -- With the feature gate HealthinessCheck, the subresource of the health gives the prober what it
    -- relies on, where the API and the informer read back what was stored.
    pub hub_clients-HubLaws : HubLaws hub_clients
    unfolding hub_clients
    hub_clients-HubLaws = record {
      get_healthiness-name = get_healthiness-name;
      get-update_healthiness = get-update_healthiness;
      get_addon-name = λ cluster name w addon h. laws.get_addon-name cluster name w.hub addon h;
      get-update_addon_status = λ addon w h. laws.get-update_addon_status addon w.hub h;
      update_addon_status-healthiness = λ cluster addon w.
          ap (λ s. Health.get (some (λ name. (Gateway.get env ocm s name w.cache).0)) cluster)
            (laws.singleton-update_addon_status addon w.hub);
    }
