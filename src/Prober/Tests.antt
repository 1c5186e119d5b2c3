-- ===== src/Prober/Tests.antt =====
-- A round of the prober on a hub of one cluster, which it finds unhealthy.
use cluster_gateway.Base.{
  false, [], ◌∷◌, String, ◌≡◌, refl, sym, ap, ◌∙◌, inl, inr, true, none, some, str_eq, eq_iff,
  if◌then◌else◌, not_found, Result, ok, err, ok-injective, Bool-cases,
}
use cluster_gateway.Api.{ClusterGateway, Secret, addon_name}
use cluster_gateway.Controls.{SecretControl}
use cluster_gateway.Prober.Hub.{HubApi, ApiLaws, read, hub_clients, hub_clients-HubLaws}
use cluster_gateway.Convert.Sample.{sample_env, sample_gateway}
use cluster_gateway.Prober.{
  Addon, Clients, Probe, done, again, is_healthy, is_available, same, next_gateway, next_reason,
  next_addon, message, sync_gateway, sync_addon, requeued, reconcile_addon, reconcile_rest,
  reconcile_gateway, reconcile,
}
use cluster_gateway.Prober.Synced.{HubLaws, AddonSynced, reconcile-Synced}
use cluster_gateway.Prober.Rounds.{Responsive, rounds, Healthy, rounds-Healthy}

record Hub : Type 0 where
  gateway : ClusterGateway
  addon : Addon

abbrev read_gateway : String → ClusterGateway → Result ClusterGateway
read_gateway cluster gw = if str_eq gw.name cluster then ok gw else err (not_found cluster)

abbrev read_addon : String → String → Addon → Result Addon
read_addon cluster name addon =
    if str_eq addon.namespace cluster
    then (if str_eq addon.name name then ok addon else err (not_found name))
    else err (not_found name)

-- The hub's clients, with the probe's answer.
abbrev clients_with : Probe → Clients Hub
clients_with probe = record {
  get_healthiness = λ cluster hub. read_gateway cluster hub.gateway;
  update_healthiness = λ gw hub. (ok tt, record hub { gateway = gw });
  probe = λ cluster hub. probe;
  get_addon = λ cluster name hub. read_addon cluster name hub.addon;
  update_addon_status = λ addon hub. (ok tt, record hub { addon = addon });
}

abbrev clients : Clients Hub
clients = clients_with (record { body = ""; error = some "timeout" })

abbrev healthy_clients : Clients Hub
healthy_clients = clients_with (record { body = "ok"; error = none })

read_gateway-name :
    (cluster : String) (gw : ClusterGateway) (found : ClusterGateway)
    → read_gateway cluster gw ≡ ok found
    → found.name ≡ cluster
read_gateway-name cluster gw found h = elim (Bool-cases (str_eq gw.name cluster)) [
  | inl hit ↦
      sym (ap ClusterGateway.name (ok-injective (rw hit at h))) ∙ (eq_iff gw.name cluster).0 hit
  | inr miss ↦ cc (rw miss at h)
]

read_addon-name :
    (cluster name : String) (addon found : Addon)
    → read_addon cluster name addon ≡ ok found
    → (found.namespace ≡ cluster) × (found.name ≡ name)
read_addon-name cluster name addon found h = elim (Bool-cases (str_eq addon.namespace cluster)) [
  | inl hit ↦ elim (Bool-cases (str_eq addon.name name)) [
    | inl hit_name ↦
        let e = ok-injective (rw (hit, hit_name) at h) in
        (
          sym (ap Addon.namespace e) ∙ (eq_iff addon.namespace cluster).0 hit,
          sym (ap Addon.name e) ∙ (eq_iff addon.name name).0 hit_name,
        )
    | inr miss ↦ cc (rw (hit, miss) at h)
  ]
  | inr miss ↦ cc (rw miss at h)
]

same_text : (s : String) → str_eq s s ≡ true
same_text s = (eq_iff s s).1 refl

laws : (probe : Probe) → HubLaws (clients_with probe)
laws probe = record {
  get_healthiness-name = λ cluster hub gw h. read_gateway-name cluster hub.gateway gw h;
  get-update_healthiness = λ gw found hub h e.
      let stored : gw ≡ found = ok-injective (rw (same_text gw.name) at e) in
      sym (ap (λ g. g.status.healthy) stored);
  get_addon-name = λ cluster name hub addon h. read_addon-name cluster name hub.addon addon h;
  get-update_addon_status =
      λ addon hub h. rw (same_text addon.namespace) (rw (same_text addon.name) refl);
  update_addon_status-healthiness = λ cluster addon hub. refl;
}

abbrev hub : Hub
hub = record {
  gateway = sample_gateway;
  addon = record { namespace = "prod"; name = addon_name; available = none };
}

reconciled : (reconcile clients "prod" addon_name hub).0 ≡ ok again
unfolding reconcile reconcile_gateway reconcile_rest reconcile_addon sync_gateway sync_addon
    requeued is_healthy is_available same next_gateway next_reason next_addon message
reconciled = refl

abbrev after : Hub
after = (reconcile clients "prod" addon_name hub).1

abbrev probed : ClusterGateway
probed = next_gateway (clients.probe "prod" hub) sample_gateway

reads_probed : clients.get_healthiness "prod" after ≡ ok probed
unfolding reconcile reconcile_gateway reconcile_rest reconcile_addon sync_gateway sync_addon
    requeued is_healthy is_available same next_gateway next_reason next_addon message
reads_probed = refl

reconcile-Synced_example :
    (probed.status.healthy ≡ is_healthy (clients.probe "prod" hub))
    × AddonSynced clients (laws _) "prod" (clients.probe "prod" hub) after
    × (again ≡ (if is_healthy (clients.probe "prod" hub) then done else again))
reconcile-Synced_example =
    reconcile-Synced clients (laws _) "prod" hub again probed reconciled reads_probed

-- The hub has the gateway and the addon of the cluster.
abbrev Good : Hub → Type 0
Good s = (s.gateway.name ≡ "prod") × (s.addon.namespace ≡ "prod") × (s.addon.name ≡ addon_name)

responsive : Responsive healthy_clients "prod" Good
responsive = record {
  gateway = λ s (g, n, a). (s.gateway, rw ((eq_iff s.gateway.name "prod").1 g) refl);
  update_gateway = λ gw s (g, n, a) named. (refl, (named, n, a));
  addon = λ s (g, n, a). (
    s.addon,
    rw ((eq_iff s.addon.namespace "prod").1 n) (rw ((eq_iff s.addon.name addon_name).1 a) refl),
  );
  update_addon = λ addon s (g, n, a) namespace name. (refl, (g, namespace, name));
}

answers : (s : Hub) → Good s → is_healthy (healthy_clients.probe "prod" s) ≡ true
unfolding is_healthy
answers s good = refl

rounds-Healthy_example :
    Healthy healthy_clients "prod" Good
      (laws _)
      responsive
      (rounds healthy_clients "prod" Good 2 hub)
    × (reconcile healthy_clients "prod" addon_name (rounds healthy_clients "prod" Good 2 hub)
        ≡ (ok done, rounds healthy_clients "prod" Good 2 hub))
rounds-Healthy_example =
    rounds-Healthy healthy_clients "prod" Good (laws _) responsive answers 1 hub (refl, refl, refl)

-- A hub of one secret and one addon, which serves the health of its gateway.
record SecretHub : Type 0 where
  secret : Secret
  addon : Addon

abbrev read_secret : Secret → String → Result Secret
read_secret secret name = if str_eq secret.name name then ok secret else err (not_found name)

abbrev control_of : Secret → SecretControl
control_of secret = record { get = read_secret secret; list = ok (secret ∷ []) }

abbrev hub_api : HubApi SecretHub
hub_api = record {
  singleton = λ h. record { secret_control = some (control_of h.secret); cluster_control = none };
  update_secret = λ secret h. (ok secret, record h { secret = secret });
  probe = λ cluster h. record { body = "ok"; error = none };
  get_addon = λ namespace name h. read_addon namespace name h.addon;
  update_addon_status = λ addon h. (ok tt, record h { addon = addon });
}

read_secret-eq :
    (secret found : Secret) (name : String)
    → read_secret secret name ≡ ok found
    → (secret ≡ found) × (found.name ≡ name)
read_secret-eq secret found name h = elim (Bool-cases (str_eq secret.name name)) [
  | inl hit ↦
      let same : secret ≡ found = ok-injective (rw hit at h) in
      (same, sym (ap Secret.name same) ∙ (eq_iff secret.name name).0 hit)
  | inr miss ↦ cc (rw miss at h)
]

-- What a control of the hub reads is its secret.
control_reads :
    (h : SecretHub) (control : SecretControl) (name : String) (found : Secret)
    → read sample_env false hub_api h ≡ some control
    → control.get name ≡ ok found
    → (h.secret ≡ found) × (found.name ≡ name)
control_reads h control name found given got =
    let same : control_of h.secret ≡ control = cc given in
    read_secret-eq h.secret found name (ap (λ c. c.get name) same ∙ got)

api_laws : ApiLaws sample_env false hub_api
api_laws = record {
  get-name = λ h control name secret given got. (control_reads h control name secret given got).1;
  get-update_secret = λ secret updated found h control kept given got.
      ap Secret.annotations
        (sym (control_reads (record h { secret = secret }) control secret.name found given got).0);
  get_addon-name = λ namespace name h addon e. read_addon-name namespace name h.addon addon e;
  get-update_addon_status =
      λ addon h e. rw (same_text addon.namespace) (rw (same_text addon.name) refl);
  singleton-update_addon_status = λ addon h. refl;
}

hub_clients-HubLaws_example : HubLaws (hub_clients sample_env false hub_api)
hub_clients-HubLaws_example = hub_clients-HubLaws sample_env false hub_api refl api_laws
