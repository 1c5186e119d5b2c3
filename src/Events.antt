-- ===== src/Events.antt =====
-- The events that wake the addon manager: the handlers of pkg/event. The work queue is taken as the
-- list of the requests that a handler adds to it.
pub mod Wakes
pub mod Watches
mod Tests
use cluster_gateway.Base.{
  String, Option, none, some, List, [], ◌∷◌, ◌++◌, not, ◌&&◌, str_eq, if◌then◌else◌, Result, ok,
  err, panic, ◌>>=◌,
}
use cluster_gateway.Api.{OwnerReference, Secret, addon_name}
use cluster_gateway.Configuration.{
  ClusterGatewayConfiguration, ManagementAddon, ClusterAddon, configuration_crd_name,
}
use cluster_gateway.Installer.Objects.{ApiService}

-- `reconcile.Request`; an object of the whole cluster has no namespace
pub record Request : Type 0 where
  pub namespace : String
  pub name : String

-- An event of a watch, on an object or from the old to the new one
pub data Event (A : Type 0) : Type 0 where
  create_event delete_event generic_event : A → Event A
  update_event : A → A → Event A

-- The object that a handler processes.
abbrev pub object : {A : Type 0} → Event A → A
object (create_event a) = a
object (delete_event a) = a
object (generic_event a) = a
object (update_event old new) = new

abbrev pub addon_request : Request
addon_request = record { namespace = ""; name = addon_name }

-- `APIServiceHandler`, watching a name
pub api_service_handler : String → Event ApiService → List Request
api_service_handler watching event =
    if str_eq (object event).meta.name watching then addon_request ∷ [] else []

-- The loop of `ClusterGatewayConfigurationHandler.process` over the addons.
configured_by : ClusterGatewayConfiguration → List ManagementAddon → List Request
configured_by config [] = []
configured_by config (addon ∷ addons) =
    let rest = configured_by config addons in
    if not (str_eq addon.crd_name configuration_crd_name)
    then rest
    else if str_eq addon.cr_name config.name
    then record { namespace = ""; name = addon.name } ∷ rest
    else rest

-- Where the list of addons fails, the event is dropped.
listed_addons : ClusterGatewayConfiguration → Result (List ManagementAddon) → List Request
unfolding configured_by
listed_addons config (ok addons) = configured_by config addons
listed_addons config (err e) = []
listed_addons config panic = []

pub configuration_handler :
    Result (List ManagementAddon) → Event ClusterGatewayConfiguration → List Request
unfolding listed_addons
configuration_handler addons event = listed_addons (object event) addons

-- The loop of `SecretHandler.process` over the owners.
owned_requests : List OwnerReference → List Request
owned_requests [] = []
owned_requests (ref ∷ refs) =
    let rest = owned_requests refs in
    if str_eq ref.kind "ManagedServiceAccount" && str_eq ref.name addon_name
    then addon_request ∷ rest
    else rest

pub secret_handler : Event Secret → List Request
unfolding owned_requests
secret_handler event = owned_requests (object event).owner_references

-- The events that `AddOnHealthResyncHandler` generates from a list of addons.
generated : List ClusterAddon → List (Event ClusterAddon)
generated [] = []
generated (addon ∷ addons) =
    let rest = generated addons in
    if not (str_eq addon.name addon_name) then rest else generic_event addon ∷ rest

-- A list of addons, or none where it fails
generate : Option (List ClusterAddon) → Option (List (Event ClusterAddon))
unfolding generated
generate none = none
generate (some addons) = some (generated addons)

-- `AddonHealthHandler`, which is made for generic events alone
addon_health_handler : Event ClusterAddon → Result Request
addon_health_handler (generic_event addon) =
    ok (record { namespace = addon.namespace; name = addon.name })
addon_health_handler (create_event addon) = panic
addon_health_handler (delete_event addon) = panic
addon_health_handler (update_event old new) = panic

-- The events of one tick, sent to the handler one after the other.
send : List (Event ClusterAddon) → Result (List Request)
unfolding addon_health_handler
send [] = ok []
send (event ∷ events) = do
  request ← addon_health_handler event
  requests ← send events
  ok (request ∷ requests)

-- A tick at which the generator fails is skipped.
tick : Option (List (Event ClusterAddon)) → Result (List Request)
unfolding send
tick none = ok []
tick (some events) = send events

-- `StartBackgroundExternalTimerResync` over the lists that the ticks find
pub resync : List (Option (List ClusterAddon)) → Result (List Request)
unfolding generate tick
resync [] = ok []
resync (found ∷ ticks) = do now ← tick (generate found); later ← resync ticks; ok (now ++ later)
