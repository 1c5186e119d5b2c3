-- ===== src/Events/Wakes.antt =====
-- Which requests the handlers add, and how often.
use cluster_gateway.Base.{
  ℕ, ◌+◌, String, ◌≡◌, refl, ap, ◌∙◌, inl, inr, Bool, ◌&&◌, List, [], ◌∷◌, ◌++◌, str_eq, eq_iff,
  if◌then◌else◌, Bool-cases, All, All-append, count, count-append, arith, Result, ok, Option, none,
  some,
}
use cluster_gateway.Api.{OwnerReference, Secret, addon_name}
use cluster_gateway.Configuration.{
  ClusterGatewayConfiguration, ManagementAddon, ClusterAddon, configuration_crd_name,
}
use cluster_gateway.Installer.Objects.{build_managed_service_account}
use cluster_gateway.Events.{
  Request, Event, object, configured_by, listed_addons, configuration_handler, owned_requests,
  secret_handler, generated, generate, addon_health_handler, send, tick, resync,
}

-- A request for an addon of the hub.
abbrev pub is_for : String → Request → Bool
is_for name r = str_eq r.name name

-- An addon of a name that a configuration of this name configures.
abbrev pub is_configured : ClusterGatewayConfiguration → String → ManagementAddon → Bool
is_configured config name a =
    str_eq a.crd_name configuration_crd_name && str_eq a.cr_name config.name && str_eq a.name name

configured_by-count :
    (config : ClusterGatewayConfiguration) (name : String) (addons : List ManagementAddon)
    → count (is_for name) (configured_by config addons) ≡ count (is_configured config name) addons
unfolding configured_by
configured_by-count config name [] = refl
configured_by-count config name (a ∷ addons) =
    let rest = configured_by-count config name addons in ground arith

-- An event of a configuration adds, for each addon, as many requests as the list has addons of its
-- name that have this configuration, where the list succeeds.
pub configuration_handler-count :
    (addons : List ManagementAddon) (event : Event ClusterGatewayConfiguration) (name : String)
    → count (is_for name) (configuration_handler (ok addons) event)
      ≡ count (is_configured (object event) name) addons
unfolding configuration_handler listed_addons
configuration_handler-count addons event name = configured_by-count (object event) name addons

-- A request for the addon of a cluster.
abbrev pub asks_for : String → Request → Bool
asks_for cluster r = str_eq r.namespace cluster

abbrev pub is_gateway_addon : String → ClusterAddon → Bool
is_gateway_addon cluster a = str_eq a.name addon_name && str_eq a.namespace cluster

-- How many addons of the gateway the lists have for a cluster.
abbrev pub listed : String → List (Option (List ClusterAddon)) → ℕ
listed cluster [] = 0
listed cluster (none ∷ ticks) = listed cluster ticks
listed cluster (some addons ∷ ticks) =
    count (is_gateway_addon cluster) addons + listed cluster ticks

-- Requests, all of them for addons of the gateway, and so many for each cluster.
record Requested (r : Result (List Request)) (n : String → ℕ) : Type 0 where
  requests : List Request
  returned : r ≡ ok requests
  named : All (λ q. q.name ≡ addon_name) requests
  counted : (cluster : String) → count (asks_for cluster) requests ≡ n cluster

send-Requested :
    (addons : List ClusterAddon)
    → Requested (send (generated addons)) (λ cluster. count (is_gateway_addon cluster) addons)
unfolding send generated addon_health_handler
send-Requested [] = record { requests = []; returned = refl; named = tt; counted = λ cluster. refl }
send-Requested (a ∷ addons) =
    let rest = send-Requested addons in
    elim (Bool-cases (str_eq a.name addon_name)) [
      | inl same ↦ record {
        requests = record { namespace = a.namespace; name = a.name } ∷ rest.requests;
        returned = rw (same, rest.returned) refl;
        named = ((eq_iff a.name addon_name).0 same, rest.named);
        counted = λ cluster.
            rw same
              (ap (λ m. (if str_eq a.namespace cluster then 1 else 0) + m) (rest.counted cluster));
      }
      | inr other ↦ record {
        requests = rest.requests;
        returned = rw other rest.returned;
        named = rest.named;
        counted = λ cluster. rw other (let e = rest.counted cluster in omega arith);
      }
    ]

tick-Requested :
    (found : Option (List ClusterAddon))
    → Requested (tick (generate found)) (λ c. listed c (found ∷ []))
unfolding tick generate
tick-Requested none = record {
  requests = [];
  returned = refl;
  named = tt;
  counted = λ cluster. refl;
}
tick-Requested (some addons) =
    let r = send-Requested addons in
    record {
      requests = r.requests;
      returned = r.returned;
      named = r.named;
      counted = λ cluster. let e = r.counted cluster in omega arith;
    }

listed-cons :
    (cluster : String) (found : Option (List ClusterAddon))
    (ticks : List (Option (List ClusterAddon)))
    → listed cluster (found ∷ ticks) ≡ listed cluster (found ∷ []) + listed cluster ticks
listed-cons cluster none ticks = omega arith
listed-cons cluster (some addons) ticks = omega arith

resync-Requested :
    (ticks : List (Option (List ClusterAddon))) → Requested (resync ticks) (λ c. listed c ticks)
unfolding resync
resync-Requested [] = record {
  requests = [];
  returned = refl;
  named = tt;
  counted = λ cluster. refl;
}
resync-Requested (found ∷ ticks) =
    let now = tick-Requested found in
    let later = resync-Requested ticks in
    record {
      requests = now.requests ++ later.requests;
      returned = rw (now.returned, later.returned) refl;
      named = All-append _ now.requests later.requests now.named later.named;
      counted = λ cluster.
          count-append (asks_for cluster) now.requests later.requests
          ∙ ground
              (arith, now.counted cluster, later.counted cluster, listed-cons cluster found ticks);
    }

-- The timer never reaches a handler that panics: it adds requests for addons of the gateway alone,
-- and for a cluster one for every time that a tick's list has the gateway's addon there.
pub resync-count :
    (ticks : List (Option (List ClusterAddon))) (cluster : String)
    → (requests : List Request) × (resync ticks ≡ ok requests)
      × All (λ q. q.name ≡ addon_name) requests
      × (count (asks_for cluster) requests ≡ listed cluster ticks)
resync-count ticks cluster =
    let r = resync-Requested ticks in (r.requests, r.returned, r.named, r.counted cluster)

-- A reference to the account that the installer builds for an addon.
abbrev pub owns : ClusterAddon → OwnerReference → Bool
owns addon ref =
    str_eq ref.kind "ManagedServiceAccount"
    && str_eq ref.name (build_managed_service_account addon).meta.name

owned_requests-count :
    (addon : ClusterAddon) (refs : List OwnerReference)
    → count (is_for addon_name) (owned_requests refs) ≡ count (owns addon) refs
unfolding owned_requests
owned_requests-count addon [] = refl
owned_requests-count addon (ref ∷ refs) =
    let rest = owned_requests-count addon refs in
    elim (Bool-cases (owns addon ref)) [
      | inl owner ↦ rw owner (ap (λ n. 1 + n) rest)
      | inr other ↦ rw other (omega arith)
    ]

-- An event of a secret wakes the installer once for each of its owners that is the account which
-- the installer builds for a cluster's addon.
pub secret_handler-count :
    (addon : ClusterAddon) (event : Event Secret)
    → count (is_for addon_name) (secret_handler event)
      ≡ count (owns addon) (object event).owner_references
unfolding secret_handler
secret_handler-count addon event = owned_requests-count addon (object event).owner_references
