-- ===== src/Prober.antt =====
-- The health prober of the addon manager: `ClusterGatewayHealthProber.Reconcile` of
-- pkg/addon/controllers/health.go.
pub mod Synced
pub mod Rounds
pub mod Hub
mod Tests
use cluster_gateway.Base.{
  ℕ, String, Bool, true, false, not, Option, none, some, List, ◌∷◌, str_eq, is_some, if◌then◌else◌,
  Error, Result, ok, err, panic,
}
use cluster_gateway.Base.Effects.{Action}
use cluster_gateway.Api.{ClusterGateway, ClusterGatewayStatus, is_blank, addon_name}

-- A status condition, as far as the prober reads and writes it.
pub record Condition : Type 0 where
  pub status : Bool
  pub reason : String
  pub message : String

-- `ManagedClusterAddOn`, with its condition Available
pub record Addon : Type 0 where
  pub namespace : String
  pub name : String
  pub available : Option Condition

-- `meta.IsStatusConditionTrue` of the condition Available
pub is_available : Addon → Bool
is_available addon = elim addon.available [ none ↦ false | some c ↦ c.status ]

-- The body of a probe, and its error if it failed.
pub record Probe : Type 0 where
  pub body : String
  pub error : Option String

pub is_healthy : Probe → Bool
is_healthy probe = if is_some probe.error then false else str_eq probe.body "ok"

next_reason : Probe → ClusterGatewayStatus → String
next_reason probe status =
    if is_healthy probe then "" else elim probe.error [ none ↦ status.healthy_reason | some e ↦ e ]

next_gateway : Probe → ClusterGateway → ClusterGateway
unfolding next_reason
next_gateway probe gw = record gw {
  status = record { healthy = is_healthy probe; healthy_reason = next_reason probe gw.status };
}

message : Probe → String
message probe = elim probe.error [
  | some e ↦ e
  | none ↦ if is_blank probe.body then "Unknown" else probe.body
]

next_addon : Probe → Addon → Addon
unfolding message
next_addon probe addon = record addon {
  available = some (
      if is_healthy probe
      then record { status = true; reason = "SuccessfullyProbedHealthz"; message = "Returned OK" }
      else record { status = false; reason = "FailedProbingHealthz"; message = message probe });
}

-- `==` on Booleans
same : Bool → Bool → Bool
same true b = b
same false b = not b

-- The prober's clients over the state of the hub: the healthiness of a gateway, the addons, and
-- the probe of a cluster through the gateway.
pub record Clients (S : Type 0) : Type 0 where
  pub get_healthiness : String → S → Result ClusterGateway
  pub update_healthiness : ClusterGateway → Action S (Unit {0})
  pub probe : String → S → Probe
  pub get_addon : String → String → S → Result Addon
  pub update_addon_status : Addon → Action S (Unit {0})

-- `reconcile.Result`: whether the request comes again, and after how many seconds
pub record Requeue : Type 0 where
  pub requeue : Bool
  pub requeue_after : ℕ

abbrev pub done : Requeue
done = record { requeue = false; requeue_after = 0 }

abbrev pub again : Requeue
again = record { requeue = true; requeue_after = 5 }

module _ {S : Type 0} (clients : Clients S) where
  sync_gateway : Probe → ClusterGateway → Action S (Unit {0})
  unfolding same next_gateway
  sync_gateway probe gw s =
      if same (is_healthy probe) gw.status.healthy
      then (ok tt, s)
      else clients.update_healthiness (next_gateway probe gw) s

  sync_addon : Probe → Addon → Action S (Unit {0})
  unfolding same next_addon
  sync_addon probe addon s =
      if same (is_healthy probe) (is_available addon)
      then (ok tt, s)
      else clients.update_addon_status (next_addon probe addon) s

  requeued : Probe → Result (Unit {0}) → Result Requeue
  requeued probe (ok u) = ok (if is_healthy probe then done else again)
  requeued probe (err e) = err e
  requeued probe panic = panic

  -- what follows the read of the addon
  reconcile_addon : Probe → Result Addon → Action S Requeue
  unfolding sync_addon requeued
  reconcile_addon probe (ok addon) s =
      let (r, s') = sync_addon probe addon s in (requeued probe r, s')
  reconcile_addon probe (err e) s = (err e, s)
  reconcile_addon probe panic s = (panic, s)

  -- what follows the update of the gateway
  reconcile_rest : Probe → String → Result (Unit {0}) → Action S Requeue
  unfolding reconcile_addon
  reconcile_rest probe cluster (ok u) s =
      reconcile_addon probe (clients.get_addon cluster addon_name s) s
  reconcile_rest probe cluster (err e) s = (err e, s)
  reconcile_rest probe cluster panic s = (panic, s)

  -- what follows the read of the gateway's healthiness
  reconcile_gateway : Probe → String → Result ClusterGateway → Action S Requeue
  unfolding sync_gateway reconcile_rest
  reconcile_gateway probe cluster (ok gw) s =
      let (r, s') = sync_gateway probe gw s in reconcile_rest probe cluster r s'
  reconcile_gateway probe cluster (err e) s = (err e, s)
  reconcile_gateway probe cluster panic s = (panic, s)

  -- `Reconcile` of the addon `name` in the namespace that is named as the cluster
  pub reconcile : String → String → Action S Requeue
  unfolding reconcile_gateway
  reconcile cluster name s =
      if not (str_eq name addon_name)
      then (ok done, s)
      else reconcile_gateway (clients.probe cluster s) cluster (clients.get_healthiness cluster s) s
