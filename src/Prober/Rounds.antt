-- ===== src/Prober/Rounds.antt =====
-- Round after round of the prober, with clients that respond.
use cluster_gateway.Base.{
  ℕ, zero, suc, String, ◌≡◌, refl, sym, ◌∙◌, inl, inr, Bool, true, if◌then◌else◌, Bool-cases, ok,
}
use cluster_gateway.Api.{ClusterGateway, addon_name}
use cluster_gateway.Prober.{
  Addon, is_available, Probe, is_healthy, next_gateway, next_addon, same, Clients, Requeue, done,
  again, sync_gateway, sync_addon, requeued, reconcile_addon, reconcile_rest, reconcile_gateway,
  reconcile,
}
use cluster_gateway.Prober.Synced.{HubLaws, AddonSynced, round-Synced}

module _ {S : Type 0} (clients : Clients S) (cluster : String) (Good : S → Type 0) where
  -- In the states `Good`, which the updates of this cluster keep, the gateway and its addon are
  -- there, and no update of them fails.
  pub record Responsive : Type 0 where
    pub gateway :
        (s : S) → Good s → (gw : ClusterGateway) × (clients.get_healthiness cluster s ≡ ok gw)
    pub update_gateway :
        (gw : ClusterGateway) (s : S)
        → Good s
        → gw.name ≡ cluster
        → ((clients.update_healthiness gw s).0 ≡ ok tt) × Good (clients.update_healthiness gw s).1
    pub addon : (s : S) → Good s → (a : Addon) × (clients.get_addon cluster addon_name s ≡ ok a)
    pub update_addon :
        (a : Addon) (s : S)
        → Good s
        → a.namespace ≡ cluster
        → a.name ≡ addon_name
        → ((clients.update_addon_status a s).0 ≡ ok tt) × Good (clients.update_addon_status a s).1

  -- The state after a number of rounds.
  pub rounds : ℕ → S → S
  rounds zero s = s
  rounds (suc n) s = (reconcile clients cluster addon_name (rounds n s)).1

  module _ (laws : HubLaws clients) (responsive : Responsive) where
    sync_gateway-Good :
        (probe : Probe) (gw : ClusterGateway) (s : S)
        → Good s
        → clients.get_healthiness cluster s ≡ ok gw
        → ((sync_gateway clients probe gw s).0 ≡ ok tt) × Good (sync_gateway clients probe gw s).1
    unfolding sync_gateway next_gateway
    sync_gateway-Good probe gw s good found =
        elim (Bool-cases (same (is_healthy probe) gw.status.healthy)) [
          | inl equal ↦ rw equal (refl, good)
          | inr differs ↦ rw differs (
              responsive.update_gateway (next_gateway probe gw) s good
                (laws.get_healthiness-name cluster s gw found))
        ]

    sync_addon-Good :
        (probe : Probe) (a : Addon) (s : S)
        → Good s
        → clients.get_addon cluster addon_name s ≡ ok a
        → ((sync_addon clients probe a s).0 ≡ ok tt) × Good (sync_addon clients probe a s).1
    unfolding sync_addon next_addon
    sync_addon-Good probe a s good found =
        let (namespace, name) = laws.get_addon-name cluster addon_name s a found in
        elim (Bool-cases (same (is_healthy probe) (is_available a))) [
          | inl equal ↦ rw equal (refl, good)
          | inr differs ↦
              rw differs (responsive.update_addon (next_addon probe a) s good namespace name)
        ]

    -- A round reports success, and stays within the good states.
    reconcile-Good :
        (s : S)
        → Good s
        → (q : Requeue) × ((reconcile clients cluster addon_name s).0 ≡ ok q)
          × Good (reconcile clients cluster addon_name s).1
    unfolding reconcile reconcile_gateway reconcile_rest reconcile_addon requeued
    reconcile-Good s good =
        let (gw, there) = responsive.gateway s good in
        let probe = clients.probe cluster s in
        let (stored, good1) = sync_gateway-Good probe gw s good there in
        let s1 = (sync_gateway clients probe gw s).1 in
        let (a, here) = responsive.addon s1 good1 in
        let (reported, good2) = sync_addon-Good probe a s1 good1 here in
        (
          if is_healthy probe then done else again,
          rw (there, stored, here, reported) refl,
          rw (there, stored, here) good2,
        )

    rounds-Good : (n : ℕ) (s : S) → Good s → Good (rounds n s)
    unfolding rounds
    rounds-Good zero s good = good
    rounds-Good (suc n) s good = (reconcile-Good (rounds n s) (rounds-Good n s good)).2

    same_refl : (b : Bool) → same b b ≡ true
    unfolding same
    same_refl true = refl
    same_refl _ = refl

    reconcile-settled :
        (s : S)
        → is_healthy (clients.probe cluster s) ≡ true
        → ((gw : ClusterGateway) × (clients.get_healthiness cluster s ≡ ok gw)
            × (gw.status.healthy ≡ is_healthy (clients.probe cluster s)))
        → AddonSynced clients laws cluster (clients.probe cluster s) s
        → reconcile clients cluster addon_name s ≡ (ok done, s)
    unfolding reconcile reconcile_gateway reconcile_rest reconcile_addon requeued sync_gateway
        sync_addon
    reconcile-settled s alive (gw, there, healthy) (a, here, available) = rw there (
        rw healthy (
          rw (same_refl (is_healthy (clients.probe cluster s))) (
            rw here (
              rw available
                (rw (same_refl (is_healthy (clients.probe cluster s))) (rw alive refl))))))

    -- The hub says that the cluster is healthy.
    abbrev pub Healthy : S → Type 0
    Healthy s =
        ((gw : ClusterGateway) × (clients.get_healthiness cluster s ≡ ok gw)
          × (gw.status.healthy ≡ true))
        × ((a : Addon) × (clients.get_addon cluster addon_name s ≡ ok a) × (is_available a ≡ true))

    -- Where the clients respond, a healthiness is read as it was sent, and the cluster answers every
    -- probe, the hub says that the cluster is healthy after the first round and after every later
    -- one, and a further round changes nothing.
    pub rounds-Healthy :
        (alive : (s : S) → Good s → is_healthy (clients.probe cluster s) ≡ true) (n : ℕ) (s : S)
        → Good s
        → Healthy (rounds (suc n) s)
          × (reconcile clients cluster addon_name (rounds (suc n) s) ≡ (ok done, rounds (suc n) s))
    unfolding rounds
    rounds-Healthy alive n s good =
        let s1 = rounds n s in
        let good1 = rounds-Good n s good in
        let (q, reported, good2) = reconcile-Good s1 good1 in
        let (synced, (a, here, available), _) = round-Synced clients laws cluster s1 q reported in
        let live : is_healthy (clients.probe cluster s1) ≡ true = alive s1 good1 in
        let s2 = (reconcile clients cluster addon_name s1).1 in
        let (gw, there) = responsive.gateway s2 good2 in
        let healthy = synced.at gw there in
        let live2 : is_healthy (clients.probe cluster s2) ≡ true = alive s2 good2 in
        (
          ((gw, there, healthy ∙ live), (a, here, available ∙ live)),
          reconcile-settled s2 live2 (gw, there, healthy ∙ live ∙ sym live2)
              (a, here, available ∙ live ∙ sym live2),
        )
