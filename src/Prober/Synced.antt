-- ===== src/Prober/Synced.antt =====
-- What a round of the prober leaves behind.
use mathlib.Core.Path.{subst}
use cluster_gateway.Base.{
  Ensures, Ensures-ok, String, ◌≡◌, refl, sym, inl, inr, Bool, true, false, if◌then◌else◌,
  Bool-cases, Result, ok, err, panic, ok-injective,
}
use cluster_gateway.Api.{ClusterGateway, addon_name}
use cluster_gateway.Prober.{
  Addon, is_available, Probe, is_healthy, next_gateway, next_addon, same, Clients, Requeue, done,
  again, sync_gateway, sync_addon, requeued, reconcile_addon, reconcile_rest, reconcile_gateway,
  reconcile,
}

same-eq : (a b : Bool) → same a b ≡ true → b ≡ a
unfolding same
same-eq true b h = h
same-eq false true h = cc h
same-eq false false h = refl

module _ {S : Type 0} (clients : Clients S) where
  -- What the prober relies on: objects have the names that they were asked for, a healthiness that
  -- is read after its update is the one that was sent, an addon is read back, and the status of an
  -- addon is not the healthiness of a gateway.
  pub record HubLaws : Type 0 where
    pub get_healthiness-name :
        (cluster : String) (s : S) (gw : ClusterGateway)
        → clients.get_healthiness cluster s ≡ ok gw
        → gw.name ≡ cluster
    pub get-update_healthiness :
        (gw found : ClusterGateway) (s : S)
        → (clients.update_healthiness gw s).0 ≡ ok tt
        → clients.get_healthiness gw.name (clients.update_healthiness gw s).1 ≡ ok found
        → found.status.healthy ≡ gw.status.healthy
    pub get_addon-name :
        (cluster name : String) (s : S) (addon : Addon)
        → clients.get_addon cluster name s ≡ ok addon
        → (addon.namespace ≡ cluster) × (addon.name ≡ name)
    pub get-update_addon_status :
        (addon : Addon) (s : S)
        → (clients.update_addon_status addon s).0 ≡ ok tt
        → clients.get_addon addon.namespace addon.name (clients.update_addon_status addon s).1
          ≡ ok addon
    pub update_addon_status-healthiness :
        (cluster : String) (addon : Addon) (s : S)
        → clients.get_healthiness cluster (clients.update_addon_status addon s).1
          ≡ clients.get_healthiness cluster s

  module _ (laws : HubLaws) (cluster : String) (probe : Probe) where
    abbrev pub HasHealth : ClusterGateway → Type 0
    HasHealth gw = gw.status.healthy ≡ is_healthy probe

    -- The gateway's status, if it can be read, is that of the probe, and so is the addon's.
    abbrev pub GatewaySynced : S → Type 0
    GatewaySynced s = Ensures HasHealth (clients.get_healthiness cluster s)

    abbrev pub AddonSynced : S → Type 0
    AddonSynced s =
        (a : Addon) × (clients.get_addon cluster addon_name s ≡ ok a)
        × (is_available a ≡ is_healthy probe)

    sync_gateway-GatewaySynced :
        (gw : ClusterGateway) (s : S)
        → clients.get_healthiness cluster s ≡ ok gw
        → (sync_gateway clients probe gw s).0 ≡ ok tt
        → GatewaySynced (sync_gateway clients probe gw s).1
    unfolding sync_gateway next_gateway
    sync_gateway-GatewaySynced gw s found h =
        elim (Bool-cases (same (is_healthy probe) gw.status.healthy)) [
          | inl equal ↦
              rw equal
                (rw found (Ensures-ok gw (same-eq (is_healthy probe) gw.status.healthy equal)))
          | inr differs ↦
              let stored = next_gateway probe gw in
              let named = laws.get_healthiness-name cluster s gw found in
              rw differs (record {
                at = λ g e. laws.get-update_healthiness stored g s (rw differs at h) (
                    subst
                      (λ n.
                        clients.get_healthiness n (clients.update_healthiness stored s).1 ≡ ok g)
                      (sym named) e);
              })
        ]

    next_namespace : (addon : Addon) → (next_addon probe addon).namespace ≡ addon.namespace
    unfolding next_addon
    next_namespace addon = refl

    next_name : (addon : Addon) → (next_addon probe addon).name ≡ addon.name
    unfolding next_addon
    next_name addon = refl

    available-next : (addon : Addon) → is_available (next_addon probe addon) ≡ is_healthy probe
    unfolding is_available next_addon
    available-next addon = elim (Bool-cases (is_healthy probe)) [
      | inl healthy ↦ rw healthy refl
      | inr unhealthy ↦ rw unhealthy refl
    ]

    update_addon_status-AddonSynced :
        (addon : Addon) (s : S)
        → clients.get_addon cluster addon_name s ≡ ok addon
        → (clients.update_addon_status (next_addon probe addon) s).0 ≡ ok tt
        → AddonSynced (clients.update_addon_status (next_addon probe addon) s).1
    update_addon_status-AddonSynced addon s found h =
        let (ns, nm) = laws.get_addon-name cluster addon_name s addon found in
        let stored = next_addon probe addon in
        let read = laws.get-update_addon_status stored s h in
        let here : clients.get_addon cluster addon_name (clients.update_addon_status stored s).1
            ≡ ok stored =
          simp (next_namespace addon, next_name addon, ns, nm) at read in
        (stored, here, available-next addon)

    sync_addon-Synced :
        (addon : Addon) (s : S)
        → clients.get_addon cluster addon_name s ≡ ok addon
        → GatewaySynced s
        → (sync_addon clients probe addon s).0 ≡ ok tt
        → GatewaySynced (sync_addon clients probe addon s).1
          × AddonSynced (sync_addon clients probe addon s).1
    unfolding sync_addon
    sync_addon-Synced addon s found gateway h =
        elim (Bool-cases (same (is_healthy probe) (is_available addon))) [
          | inl equal ↦
              rw equal
                (gateway, (addon, found, same-eq (is_healthy probe) (is_available addon) equal))
          | inr differs ↦ rw differs (
            subst (Ensures HasHealth)
                (sym (laws.update_addon_status-healthiness cluster (next_addon probe addon) s))
                gateway,
            update_addon_status-AddonSynced addon s found (rw differs at h),
          )
        ]

    abbrev pub Synced : Requeue → S → Type 0
    Synced r s = GatewaySynced s × AddonSynced s × (r ≡ (if is_healthy probe then done else again))

    requeued-ok :
        (r : Result (Unit {0})) (q : Requeue)
        → requeued clients probe r ≡ ok q
        → (r ≡ ok tt) × (q ≡ (if is_healthy probe then done else again))
    unfolding requeued
    requeued-ok (ok u) q h = (refl, sym (ok-injective h))
    requeued-ok (err e) q h = cc h
    requeued-ok panic q h = cc h

    reconcile_addon-Synced :
        (r : Result Addon) (s : S) (q : Requeue)
        → clients.get_addon cluster addon_name s ≡ r
        → GatewaySynced s
        → (reconcile_addon clients probe r s).0 ≡ ok q
        → Synced q (reconcile_addon clients probe r s).1
    unfolding reconcile_addon
    reconcile_addon-Synced (ok addon) s q found gateway h =
        let (stored, out) = requeued-ok (sync_addon clients probe addon s).0 q h in
        let (g, a) = sync_addon-Synced addon s found gateway stored in (g, a, out)
    reconcile_addon-Synced (err e) s q found gateway h = cc h
    reconcile_addon-Synced panic s q found gateway h = cc h

    reconcile_gateway-Synced :
        (r : Result ClusterGateway) (s : S) (q : Requeue)
        → clients.get_healthiness cluster s ≡ r
        → (reconcile_gateway clients probe cluster r s).0 ≡ ok q
        → Synced q (reconcile_gateway clients probe cluster r s).1
    unfolding reconcile_gateway reconcile_rest
    reconcile_gateway-Synced (ok gw) s q found h =
        go (sync_gateway clients probe gw s).0 (sync_gateway clients probe gw s).1 refl
          (λ stored. sync_gateway-GatewaySynced gw s found stored) h
      where
        go :
            (u : Result (Unit {0})) (s1 : S)
            → (sync_gateway clients probe gw s).0 ≡ u
            → ((sync_gateway clients probe gw s).0 ≡ ok tt → GatewaySynced s1)
            → (reconcile_rest clients probe cluster u s1).0 ≡ ok q
            → Synced q (reconcile_rest clients probe cluster u s1).1
        go (ok u) s1 e synced h =
            reconcile_addon-Synced (clients.get_addon cluster addon_name s1) s1 q refl (synced e) h
        go (err x) s1 e synced h = cc h
        go panic s1 e synced h = cc h
    reconcile_gateway-Synced (err e) s q found h = cc h
    reconcile_gateway-Synced panic s q found h = cc h

  pub round-Synced :
      (laws : HubLaws) (cluster : String) (s : S) (q : Requeue)
      → (reconcile clients cluster addon_name s).0 ≡ ok q
      → Synced laws cluster (clients.probe cluster s) q (reconcile clients cluster addon_name s).1
  unfolding reconcile
  round-Synced laws cluster s q h =
      reconcile_gateway-Synced laws cluster (clients.probe cluster s)
        (clients.get_healthiness cluster s) s q refl h

  -- After a round of the prober that reports success, a gateway that can be read has the healthiness
  -- that the probe found, and so has the addon's condition; the round asks to come again after five
  -- seconds just where the cluster is unhealthy. A healthiness that is read after its update is the
  -- one that was sent, which takes the feature gate HealthinessCheck.
  pub reconcile-Synced :
      (laws : HubLaws) (cluster : String) (s : S) (q : Requeue) (gw : ClusterGateway)
      → (reconcile clients cluster addon_name s).0 ≡ ok q
      → clients.get_healthiness cluster (reconcile clients cluster addon_name s).1 ≡ ok gw
      → (gw.status.healthy ≡ is_healthy (clients.probe cluster s))
        × AddonSynced laws cluster
            (clients.probe cluster s)
            (reconcile clients cluster addon_name s).1
        × (q ≡ (if is_healthy (clients.probe cluster s) then done else again))
  reconcile-Synced laws cluster s q gw h read =
      let (gateway, addon, asked) = round-Synced laws cluster s q h in
      (gateway.at gw read, addon, asked)
